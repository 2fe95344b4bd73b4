-- ===== src/Normalizer/Lifecycle.antt =====
-- The events of tools' items.
use mathlib.Core.Path.{subst}
use codex_app.Codex.{CodexTurn}
use codex_app.Protocol.{SessionEvent, SessionEventType}
use codex_app.Json.{Value, string, object, string_at, string_field, insert, from_pairs, and_then}
use codex_app.Normalizer.Attachments.{image_attachments_from_value}
use codex_app.Normalizer.Roles.{role_from_item, event_type_for_role}
use codex_app.Normalizer.Commands.{
  ToolActivity, ToolLifecycle, ToolStatus, tool_status_name, command_activity, activity_of_command,
  command_fallback_activity,
}
use codex_app.Normalizer.Activity.{
  activity_of_type, tool_activity_from_item, tool_status_from_item, subagent_activity,
}
use codex_app.Normalizer.Events.{
  event_from_item, event_with, activity_for, is_tool_type, type_of_tool, needs_text, with_detail,
  with_attachments,
}
use codex_app.Prelude.{
  to_ascii_lowercase, unwrap_or, ℕ, String, Bool, true, false, Option, none, some, List, [], ◌∷◌,
  ◌≡◌, ◌≢◌, refl, ap, ◌∙◌, arith, if◌then◌else◌,
}

-- The status of an activity is the one that it is told.
branch-status :
    (s : ToolStatus) (b : Bool) (x y : ToolActivity)
    → x.status ≡ s
    → y.status ≡ s
    → (if b then x else y).status ≡ s
branch-status s true x y hx hy = hx
branch-status s false x y hx hy = hy

activity_of_command-status :
    (lower : String) (s : ToolStatus) → (activity_of_command lower s).status ≡ s
unfolding activity_of_command
activity_of_command-status lower s = search branch-status depth 10

command_activity-status : (item : Value) (s : ToolStatus) → (command_activity item s).status ≡ s
unfolding command_activity command_fallback_activity
command_activity-status item s = search (branch-status, activity_of_command-status)

-- How a status of a tool is shown: by the type of the event and a text of its payload.
abbrev pub ShownAs : ToolStatus → SessionEventType → Option String → Type 0
ShownAs ToolStatus.running t text = (t ≡ SessionEventType.tool_call) × (text ≡ some "running")
ShownAs ToolStatus.completed t text = (t ≡ SessionEventType.tool_result) × (text ≡ some "completed")
ShownAs ToolStatus.failed t text = (t ≡ SessionEventType.tool_result) × (text ≡ some "failed")
ShownAs ToolStatus.declined t text = (t ≡ SessionEventType.tool_result) × (text ≡ some "declined")

shown_as :
    (s : ToolStatus) (text : Option String)
    → text ≡ some (tool_status_name s)
    → ShownAs s (type_of_tool s) text
shown_as ToolStatus.running text h = (refl, h)
shown_as ToolStatus.completed text h = (refl, h)
shown_as ToolStatus.failed text h = (refl, h)
shown_as ToolStatus.declined text h = (refl, h)

-- The statuses that the phase of an item allows: what has just started is not completed, and what is
-- completed does not run.
abbrev pub Allowed : Option ToolLifecycle → ToolStatus → Type 0
Allowed none s = Unit
Allowed (some ToolLifecycle.started) s = s ≢ ToolStatus.completed
Allowed (some ToolLifecycle.completed) s = s ≢ ToolStatus.running

branch-Allowed :
    (l : Option ToolLifecycle) (b : Bool) (s t : ToolStatus)
    → Allowed l s
    → Allowed l t
    → Allowed l (if b then s else t)
branch-Allowed l true s t hs ht = hs
branch-Allowed l false s t hs ht = ht

failed_apart : (ToolStatus.failed ≢ ToolStatus.completed) × (ToolStatus.failed ≢ ToolStatus.running)
failed_apart = (λ h. cc, λ h. cc)

declined_apart :
    (ToolStatus.declined ≢ ToolStatus.completed) × (ToolStatus.declined ≢ ToolStatus.running)
declined_apart = (λ h. cc, λ h. cc)

running_apart :
    (ToolStatus.running ≢ ToolStatus.completed) × (ToolStatus.completed ≢ ToolStatus.running)
running_apart = (λ h. cc, λ h. cc)

tool_status-Allowed :
    (item : Value) (turn : CodexTurn) (l : Option ToolLifecycle)
    → Allowed l (tool_status_from_item item turn l)
unfolding tool_status_from_item
tool_status-Allowed item turn none = tt
tool_status-Allowed item turn (some ToolLifecycle.started) =
    branch-Allowed (some ToolLifecycle.started) _ _ _ failed_apart.0
      (branch-Allowed (some ToolLifecycle.started) _ _ _ declined_apart.0 running_apart.0)
tool_status-Allowed item turn (some ToolLifecycle.completed) =
    branch-Allowed (some ToolLifecycle.completed) _ _ _ failed_apart.1
      (branch-Allowed (some ToolLifecycle.completed) _ _ _ declined_apart.1 running_apart.1)

module _ (one_decimal : ℕ → String) where
  activity_of_type-status :
      (item_type : String) (item : Value) (s : ToolStatus)
      → (activity_of_type one_decimal item_type item s).status ≡ s
  unfolding activity_of_type subagent_activity
  activity_of_type-status item_type item s =
      search (branch-status, command_activity-status) depth 18

  tool_activity-status :
      (item : Value) (turn : CodexTurn) (lifecycle : Option ToolLifecycle)
      → (tool_activity_from_item one_decimal item turn lifecycle).status
        ≡ tool_status_from_item item turn lifecycle
  unfolding tool_activity_from_item
  tool_activity-status item turn lifecycle =
      activity_of_type-status (item_type item) item (tool_status_from_item item turn lifecycle)
    where
      item_type : Value → String
      item_type v =
          to_ascii_lowercase
            (unwrap_or (string_field v ("type" ∷ "itemType" ∷ "item_type" ∷ [])) "")

  -- The event of a tool's item, whatever its activity.
  Shows : ToolStatus → Option SessionEvent → Type 0
  Shows s none = ⊥
  Shows s (some e) = ShownAs s e.event_type (string_at e.payload ("toolStatus" ∷ []))

  Shows-kept :
      (s : ToolStatus) (b : Bool) (e : SessionEvent)
      → b ≡ false
      → Shows s (some e)
      → Shows s (if b then none else some e)
  Shows-kept s b e h shown = rw h shown

  tool_needs_none : (s : ToolStatus) (role : String) → needs_text (type_of_tool s) role ≡ false
  tool_needs_none ToolStatus.running role = refl
  tool_needs_none ToolStatus.completed role = refl
  tool_needs_none ToolStatus.failed role = refl
  tool_needs_none ToolStatus.declined role = refl

  payload_status :
      (attachments : List Value) (detail : Option String) (kind status title role text : String)
      (turn_id item : Value)
      → string_at
          (object (
            with_attachments attachments (
              with_detail detail (
                insert "title" (string title) (
                  insert "toolStatus" (string status) (
                    insert "toolKind" (string kind) (
                      from_pairs (
                        ("role", string role)
                        ∷ ("text", string text)
                        ∷ ("turnId", turn_id)
                        ∷ ("raw", item)
                        ∷ []))))))))
          ("toolStatus" ∷ [])
        ≡ some status
  payload_status [] none kind status title role text turn_id item = refl
  payload_status [] (some d) kind status title role text turn_id item = refl
  payload_status (a ∷ attachments) none kind status title role text turn_id item = refl
  payload_status (a ∷ attachments) (some d) kind status title role text turn_id item = refl

  event_with-Shows :
      (thread_id : String) (turn_index item_index : ℕ) (item : Value) (turn : CodexTurn)
      (role : String) (t : SessionEventType) (activity : ToolActivity)
      → Shows activity.status
          (event_with thread_id turn_index item_index item turn role t (some activity))
  unfolding event_with Shows
  event_with-Shows thread_id turn_index item_index item turn role t activity =
      Shows-kept activity.status _ _ (ground (arith, tool_needs_none activity.status role)) (
        shown_as activity.status _ (
          payload_status (image_attachments_from_value item) activity.detail activity.kind _
            activity.title _ _ _ item))

  item_event :
      (thread_id : String) (turn_index item_index : ℕ) (item : Value) (turn : CodexTurn)
      (lifecycle : Option ToolLifecycle) (t : SessionEventType)
      → event_type_for_role (role_from_item item) ≡ some t
      → is_tool_type t ≡ true
      → event_from_item one_decimal thread_id turn_index item_index item turn lifecycle
        ≡ event_with thread_id turn_index item_index item turn
            (role_from_item item)
            t
            (some (tool_activity_from_item one_decimal item turn lifecycle))
  unfolding event_from_item activity_for
  item_event thread_id turn_index item_index item turn lifecycle t role is_tool =
      ap
        (λ o. and_then o (λ role_type.
          event_with thread_id turn_index item_index item turn (role_from_item item) role_type
            (activity_for one_decimal role_type item turn lifecycle)))
        role
      ∙ ap
          (λ b.
            event_with thread_id turn_index item_index item turn (role_from_item item) t
              (if b then some (tool_activity_from_item one_decimal item turn lifecycle) else none))
          is_tool

  shown :
      (s : ToolStatus) (o o' : Option SessionEvent)
      → o ≡ o'
      → Shows s o'
      → (e : SessionEvent) × (o ≡ some e)
        × ShownAs s e.event_type (string_at e.payload ("toolStatus" ∷ []))
  unfolding Shows
  shown s o none same shows = absurd shows
  shown s o (some e) same shows = (e, same, shows)

  -- The event of an item whose role is that of a tool call or a tool result is never dropped. It is a
  -- tool call while the tool's status is running and a tool result at each other status, whichever of
  -- the two the role was, and its payload names the status: running, completed, failed or declined.
  -- The status of an item that has just started is not completed, and that of one that is completed
  -- is not running.
  pub tool_event_shows_status :
      (thread_id : String) (turn_index item_index : ℕ) (item : Value) (turn : CodexTurn)
      (lifecycle : Option ToolLifecycle) (t : SessionEventType)
      → event_type_for_role (role_from_item item) ≡ some t
      → is_tool_type t ≡ true
      → (e : SessionEvent) × (event_from_item one_decimal thread_id turn_index item_index item turn
            lifecycle
          ≡ some e)
        × ShownAs
            (tool_status_from_item item turn lifecycle)
            e.event_type
            (string_at e.payload ("toolStatus" ∷ []))
        × Allowed lifecycle (tool_status_from_item item turn lifecycle)
  tool_event_shows_status thread_id turn_index item_index item turn lifecycle t role is_tool =
      let event =
        shown (tool_status_from_item item turn lifecycle) _ _
          (item_event thread_id turn_index item_index item turn lifecycle t role is_tool)
          (subst
            (λ s. Shows s (
              event_with thread_id turn_index item_index item turn (role_from_item item) t
                (some (tool_activity_from_item one_decimal item turn lifecycle))))
            (tool_activity-status item turn lifecycle)
            (event_with-Shows thread_id turn_index item_index item turn (role_from_item item) t
              (tool_activity_from_item one_decimal item turn lifecycle))) in
      (event.0, event.1, event.2, tool_status-Allowed item turn lifecycle)
