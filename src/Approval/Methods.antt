-- ===== src/Approval/Methods.antt =====
-- The methods by which approvals are requested, for the requests and for the events of sessions.
use mathlib.Core.Path.{subst}
use mathlib.Core.Bool.{true≢false}
use codex_app.Codex.{CodexPendingApproval, CodexRawEvent}
use codex_app.Protocol.{ApprovalRequest, SessionEvent, SessionEventType, SessionStatus, status_name}
use codex_app.Json.{Value, string_at}
use codex_app.Normalizer.Fields.{one_of}
use codex_app.Normalizer.Notifications.{
  Notified, notified, approval_methods, event_of, event_from_raw_notification,
}
use codex_app.Approval.{pending_kind, request_of, detect_pending}
use codex_app.Prelude.{
  ℕ, String, ◌==◌, ◌≡◌, refl, sym, ap, ◌∙◌, true, Option, none, some, [], ◌∷◌, is_some, map_option,
  eq_iff, Bool-cases, inl, inr,
}

is_some-map_option :
    {A B : Type 0} (f : A → B) (o : Option A) → is_some (map_option f o) ≡ is_some o
is_some-map_option f none = refl
is_some-map_option f (some a) = refl

pending_kind-is_some :
    (method : String) (params : Value)
    → is_some (pending_kind method params) ≡ one_of approval_methods method
unfolding pending_kind
pending_kind-is_some method params =
    elim (Bool-cases (method == "item/commandExecution/requestApproval")) [
      | inl a ↦ rw a refl
      | inr a ↦ elim (Bool-cases (method == "item/fileChange/requestApproval")) [
        | inl b ↦ rw (a, b) refl
        | inr b ↦ elim (Bool-cases (method == "item/permissions/requestApproval")) [
          | inl c ↦ rw (a, b, c) refl
          | inr c ↦ elim (Bool-cases (method == "mcpServer/elicitation/request")) [
            | inl d ↦ rw (a, b, c, d) refl
            | inr d ↦ rw (a, b, c, d) refl
          ]
        ]
      ]
    ]

module _ (print : Value → String) where
  detect_pending-is_some :
      (pending : CodexPendingApproval) (at : ℕ)
      → is_some (detect_pending print pending at) ≡ one_of approval_methods pending.method
  unfolding detect_pending
  detect_pending-is_some pending at =
      is_some-map_option (request_of print pending at) (pending_kind pending.method pending.params)
      ∙ pending_kind-is_some pending.method pending.params

-- The notification that a request stands for.
abbrev pub notification_of : CodexPendingApproval → CodexRawEvent
notification_of pending = record { method = pending.method; params = pending.params }

-- What an event of a session that waits for an approval shows.
Waits : Option SessionEvent → Type 0
Waits none = ⊥
Waits (some e) =
    (e.event_type ≡ SessionEventType.status_changed)
    × (string_at e.payload ("status" ∷ []) ≡ some (status_name SessionStatus.waiting_for_approval))

module _ (one_decimal : ℕ → String) where
  Waits-at :
      (name : String) (method : String)
      → ((n : Notified) → Waits (event_of one_decimal n name))
      → (method == name) ≡ true
      → (n : Notified) → Waits (event_of one_decimal n method)
  Waits-at name method h e n =
      subst (λ s. Waits (event_of one_decimal n s)) (sym ((eq_iff method name).0 e)) (h n)

  method-Waits :
      (method : String)
      → one_of approval_methods method ≡ true
      → (n : Notified) → Waits (event_of one_decimal n method)
  unfolding Waits event_of
  method-Waits method h n = elim (Bool-cases (method == "item/commandExecution/requestApproval")) [
    | inl a ↦ Waits-at "item/commandExecution/requestApproval" method (λ m. (refl, refl)) a n
    | inr a ↦ elim (Bool-cases (method == "item/fileChange/requestApproval")) [
      | inl b ↦ Waits-at "item/fileChange/requestApproval" method (λ m. (refl, refl)) b n
      | inr b ↦ elim (Bool-cases (method == "item/permissions/requestApproval")) [
        | inl c ↦ Waits-at "item/permissions/requestApproval" method (λ m. (refl, refl)) c n
        | inr c ↦ elim (Bool-cases (method == "mcpServer/elicitation/request")) [
          | inl d ↦ Waits-at "mcpServer/elicitation/request" method (λ m. (refl, refl)) d n
          | inr d ↦ absurd (true≢false (sym h ∙ rw (a, b, c, d) refl))
        ]
      ]
    ]
  ]

  waiting :
      (o : Option SessionEvent)
      → Waits o
      → (e : SessionEvent) × (o ≡ some e)
        × (e.event_type ≡ SessionEventType.status_changed)
        × (string_at e.payload ("status" ∷ [])
            ≡ some (status_name SessionStatus.waiting_for_approval))
  unfolding Waits
  waiting none h = absurd h
  waiting (some e) h = (e, refl, h.0, h.1)

  -- Where a pending request of Codex becomes a request for approval, the notification of its method
  -- and parameters has an event, which shows its session as waiting for an approval.
  pub pending_shows_waiting :
      (print : Value → String) (pending : CodexPendingApproval) (at : ℕ) (request : ApprovalRequest)
      → detect_pending print pending at ≡ some request
      → (e : SessionEvent) × (event_from_raw_notification one_decimal (notification_of pending)
          ≡ some e)
        × (e.event_type ≡ SessionEventType.status_changed)
        × (string_at e.payload ("status" ∷ [])
            ≡ some (status_name SessionStatus.waiting_for_approval))
  unfolding event_from_raw_notification
  pending_shows_waiting print pending at request h =
      waiting (event_of one_decimal (notified (notification_of pending)) pending.method) (
        method-Waits pending.method (sym (detect_pending-is_some print pending at) ∙ ap is_some h)
          (notified (notification_of pending)))
