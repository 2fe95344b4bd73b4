-- ===== src/Codex.antt =====
-- crates/bridge-core/src/codex_rpc.rs: what the Codex app server tells of threads, turns and events.
use codex_app.Json.{Value}
use codex_app.Prelude.{ℕ, String, Option}

pub record CodexThread : Type 0 where
  pub id : String
  pub title : Option String
  pub cwd : Option String
  pub model_provider : Option String
  pub preview : Option String
  pub created_at : Option ℕ
  pub updated_at : Option ℕ
  pub raw : Value

pub record CodexTurn : Type 0 where
  pub id : Option String
  pub thread_id : Option String
  pub created_at : Option ℕ
  pub updated_at : Option ℕ
  pub raw : Value

pub record CodexRawEvent : Type 0 where
  pub method : String
  pub params : Value

pub record CodexPendingApproval : Type 0 where
  pub thread_id : String
  pub request_id : String
  pub method : String
  pub params : Value
