-- ===== src/Protocol.antt =====
-- crates/bridge-core/src/protocol.rs: the messages between the bridge and its clients.
-- Times are u64 milliseconds.
use codex_app.Json.{Value}
use codex_app.Prelude.{ℕ, String, Bool, true, false, Option, List}

pub data SessionStatus : Type 0 where
  idle running waiting_for_input waiting_for_approval error : SessionStatus

-- The derived `==`.
abbrev pub same_status : SessionStatus → SessionStatus → Bool
same_status SessionStatus.idle SessionStatus.idle = true
same_status SessionStatus.running SessionStatus.running = true
same_status SessionStatus.waiting_for_input SessionStatus.waiting_for_input = true
same_status SessionStatus.waiting_for_approval SessionStatus.waiting_for_approval = true
same_status SessionStatus.error SessionStatus.error = true
same_status _ _ = false

-- The name of a status on the wire.
abbrev pub status_name : SessionStatus → String
status_name SessionStatus.idle = "idle"
status_name SessionStatus.running = "running"
status_name SessionStatus.waiting_for_input = "waiting_for_input"
status_name SessionStatus.waiting_for_approval = "waiting_for_approval"
status_name SessionStatus.error = "error"

pub record SessionSnapshot : Type 0 where
  pub thread_id : String
  pub title : String
  pub cwd : Option String
  pub model_provider : Option String
  pub preview : Option String
  pub updated_at : ℕ
  pub status : SessionStatus
  pub pending_approval_ids : List String

pub record WorkspaceOption : Type 0 where
  pub cwd : String

pub data SessionEventType : Type 0 where
  message message_delta reasoning_summary reasoning_summary_delta : SessionEventType
  plan plan_delta tool_call tool_result : SessionEventType
  approval_requested approval_resolved status_changed error : SessionEventType

pub record SessionEvent : Type 0 where
  pub id : String
  pub thread_id : String
  pub event_type : SessionEventType
  pub payload : Value
  pub created_at : ℕ

pub data AlertKind : Type 0 where
  completed approval_required input_required error : AlertKind

pub record AlertEvent : Type 0 where
  pub event_id : String
  pub kind : AlertKind
  pub thread_id : String
  pub thread_title : String
  pub occurred_at : ℕ

pub data ApprovalKind : Type 0 where
  command file_edit network mcp unknown : ApprovalKind

pub record ApprovalRequest : Type 0 where
  pub id : String
  pub thread_id : String
  pub kind : ApprovalKind
  pub title : String
  pub detail : String
  pub risk_hint : Option String
  pub raw : Option Value
  pub created_at : ℕ
  pub expires_at : Option ℕ

pub data DecisionKind : Type 0 where
  approve reject : DecisionKind

pub record ApprovalDecision : Type 0 where
  pub approval_id : String
  pub decision : DecisionKind
  pub comment : Option String
  pub device_id : String
  pub decided_at : ℕ

pub data ServerEnvelope : Type 0 where
  session_snapshot : SessionSnapshot → ServerEnvelope
  session_event : SessionEvent → ServerEnvelope
  alert_event : AlertEvent → ServerEnvelope
  approval_request : ApprovalRequest → ServerEnvelope
  approval_resolved : ApprovalDecision → ServerEnvelope
  error : String → ServerEnvelope
