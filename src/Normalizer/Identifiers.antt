-- ===== src/Normalizer/Identifiers.antt =====
-- The identifiers of events.
use Prim.Native.String.{◌++◌}
use mathlib.Core.Bool.{true≢false}
use codex_app.Codex.{CodexTurn, CodexRawEvent}
use codex_app.Protocol.{SessionEvent, SessionEventType}
use codex_app.Json.{Value, string_field, and_then, or_else, string_at}
use codex_app.Normalizer.Fields.{item_event_id, turn_item_id, event_id}
use codex_app.Normalizer.Roles.{role_from_item, event_type_for_role}
use codex_app.Normalizer.Commands.{ToolActivity, ToolLifecycle}
use codex_app.Normalizer.Events.{event_from_item, id_of, event_with, activity_for, item_id}
use codex_app.Normalizer.Notifications.{
  Notified, notified, told_text, delta_event, event_of, event_from_raw_notification,
}
use codex_app.Normalizer.Text.{delta_text_from_value}
use codex_app.Prelude.{
  ℕ, String, Bool, true, false, Option, none, some, [], ◌∷◌, ◌≡◌, ◌==◌, refl, sym, ap, ◌∙◌,
  if◌then◌else◌, Bool-cases, inl, inr, is_blank, any_by, some_eq,
}

-- What an event that is there is identified by.
HasId : String → Option SessionEvent → Type 0
HasId id none = Unit
HasId id (some e) = e.id ≡ id

HasId-if :
    (id : String) (b : Bool) (e : SessionEvent) → e.id ≡ id → HasId id (if b then none else some e)
unfolding HasId
HasId-if id true e h = tt
HasId-if id false e h = h

told_text-HasId :
    (n : Notified) (id : String) (t : SessionEventType) (role text : String)
    → HasId id (told_text n id t role text)
unfolding told_text HasId
told_text-HasId n id t role text = elim (Bool-cases (is_blank text)) [
  | inl b ↦ rw b tt
  | inr b ↦ rw b refl
]

delta_event-HasId :
    (n : Notified) (t : SessionEventType) (role : String)
    → HasId (item_event_id n.thread_id n.params "delta") (delta_event n t role)
unfolding delta_event HasId
delta_event-HasId n t role = go (delta_text_from_value n.params)
  where
    go :
        (o : Option String)
        → HasId
            (item_event_id n.thread_id n.params "delta")
            (and_then o (told_text n (item_event_id n.thread_id n.params "delta") t role))
    go none = tt
    go (some text) = told_text-HasId n (item_event_id n.thread_id n.params "delta") t role text

item_event_id_told :
    (thread_id suffix : String) (params : Value) (turn_id id : String)
    → string_field params ("turnId" ∷ "turn_id" ∷ []) ≡ some turn_id
    → string_field params ("itemId" ∷ "item_id" ∷ []) ≡ some id
    → item_event_id thread_id params suffix ≡ turn_id ++ ":" ++ id
unfolding item_event_id
item_event_id_told thread_id suffix params turn_id id turn item =
    ap
      (λ o.
        turn_item_id (or_else o (string_at params ("turn" ∷ "id" ∷ [])))
          (or_else (string_field params ("itemId" ∷ "item_id" ∷ []))
            (string_at params ("item" ∷ "id" ∷ [])))
          (event_id thread_id params suffix))
      turn
    ∙ ap
        (λ o.
          turn_item_id (some turn_id) (or_else o (string_at params ("item" ∷ "id" ∷ [])))
            (event_id thread_id params suffix))
        item

item_id_told :
    (thread_id : String) (turn_index item_index : ℕ) (item : Value) (turn : CodexTurn)
    (turn_id id : String)
    → turn.id ≡ some turn_id
    → string_field item ("id" ∷ "itemId" ∷ "item_id" ∷ []) ≡ some id
    → item_id thread_id turn_index item_index item turn ≡ turn_id ++ ":" ++ id
unfolding item_id id_of
item_id_told thread_id turn_index item_index item turn turn_id id ht hi =
    ap (λ o. id_of thread_id turn_index item_index o turn.id) hi
    ∙ ap (λ o. id_of thread_id turn_index item_index (some id) o) ht

event_with-HasId :
    (thread_id : String) (turn_index item_index : ℕ) (item : Value) (turn : CodexTurn)
    (role : String) (t : SessionEventType) (activity : Option ToolActivity)
    → HasId
        (item_id thread_id turn_index item_index item turn)
        (event_with thread_id turn_index item_index item turn role t activity)
unfolding event_with HasId
event_with-HasId thread_id turn_index item_index item turn role t activity =
    HasId-if (item_id thread_id turn_index item_index item turn) _ _ refl

module _ (one_decimal : ℕ → String) where
  event_from_item-HasId :
      (thread_id : String) (turn_index item_index : ℕ) (item : Value) (turn : CodexTurn)
      (lifecycle : Option ToolLifecycle)
      → HasId
          (item_id thread_id turn_index item_index item turn)
          (event_from_item one_decimal thread_id turn_index item_index item turn lifecycle)
  unfolding event_from_item HasId
  event_from_item-HasId thread_id turn_index item_index item turn lifecycle =
      go (event_type_for_role (role_from_item item))
    where
      go :
          (o : Option SessionEventType)
          → HasId (item_id thread_id turn_index item_index item turn) (
              and_then o (λ role_type.
                event_with thread_id turn_index item_index item turn
                  (role_from_item item)
                  role_type
                  (activity_for one_decimal role_type item turn lifecycle)))
      go none = tt
      go (some t) =
          event_with-HasId thread_id turn_index item_index item turn (role_from_item item) t _

  methods :
      (method : String)
      → any_by
          (λ name. method == name)
          ("item/agentMessage/delta" ∷ "item/reasoning/summaryTextDelta" ∷ "item/plan/delta" ∷ [])
        ≡ true
      → (n : Notified)
      → HasId (item_event_id n.thread_id n.params "delta") (event_of one_decimal n method)
  unfolding event_of HasId
  methods method h n = elim (Bool-cases (method == "item/agentMessage/delta")) [
    | inl a ↦ rw a (delta_event-HasId n SessionEventType.message_delta "assistant")
    | inr a ↦ elim (Bool-cases (method == "item/reasoning/summaryTextDelta")) [
      | inl b ↦ rw (a, b) (delta_event-HasId n SessionEventType.reasoning_summary_delta "reasoning")
      | inr b ↦ elim (Bool-cases (method == "item/plan/delta")) [
        | inl c ↦ rw (a, b, c) (delta_event-HasId n SessionEventType.plan_delta "plan")
        | inr c ↦ absurd (true≢false (sym h ∙ rw (a, b, c) refl))
      ]
    ]
  ]

  same_id :
      (id : String) (o : Option SessionEvent) {e : SessionEvent}
      → HasId id o
      → o ≡ some e
      → e.id ≡ id
  unfolding HasId
  same_id id none h p = cc
  same_id id (some e') h p = sym (ap (λ x. x.id) (some_eq p)) ∙ h

  -- Where a notification of a part of a message, a reasoning summary or a plan tells its turn and its
  -- item, its event has the identifier of the event that the thread's history gives for that item of
  -- that turn, so a client sees one message grow. It is the turn's identifier, a colon and the item's.
  pub delta_id_is_item_id :
      (notification : CodexRawEvent) (turn_id id : String) (delta : SessionEvent)
      → any_by
          (λ name. notification.method == name)
          ("item/agentMessage/delta" ∷ "item/reasoning/summaryTextDelta" ∷ "item/plan/delta" ∷ [])
        ≡ true
      → string_field notification.params ("turnId" ∷ "turn_id" ∷ []) ≡ some turn_id
      → string_field notification.params ("itemId" ∷ "item_id" ∷ []) ≡ some id
      → event_from_raw_notification one_decimal notification ≡ some delta
      → (thread_id : String) (turn_index item_index : ℕ) (item : Value) (turn : CodexTurn)
        (lifecycle : Option ToolLifecycle) (event : SessionEvent)
      → turn.id ≡ some turn_id
      → string_field item ("id" ∷ "itemId" ∷ "item_id" ∷ []) ≡ some id
      → event_from_item one_decimal thread_id turn_index item_index item turn lifecycle ≡ some event
      → (delta.id ≡ event.id) × (event.id ≡ turn_id ++ ":" ++ id)
  unfolding event_from_raw_notification notified
  delta_id_is_item_id notification turn_id id delta method turn_told item_told told thread_id
        turn_index item_index item turn lifecycle event has_turn has_id from_item =
      let item_side : event.id ≡ turn_id ++ ":" ++ id =
        same_id _ _ (event_from_item-HasId thread_id turn_index item_index item turn lifecycle)
          from_item
        ∙ item_id_told thread_id turn_index item_index item turn turn_id id has_turn has_id in
      let delta_side : delta.id ≡ turn_id ++ ":" ++ id =
        same_id _ _ (methods notification.method method (notified notification)) told
        ∙ item_event_id_told (notified notification).thread_id "delta" notification.params turn_id
            id turn_told item_told in
      (delta_side ∙ sym item_side, item_side)
