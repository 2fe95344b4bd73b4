-- ===== src/NotificationStore/Queue/Claim.antt =====
-- Claiming the next due delivery.
use codex_app.Prelude.{
  min, ◌+◌, ◌-◌, ◌^◌, ◌==◌, ◌&&◌, leb, ℕ, String, ◌≡◌, ◌≤◌, ◌∙◌, true, false, Option, none, some,
  List, arith, ok, map_option, inl, inr, Bool-cases, Option-cases, All, All-filter_by, first_by-All,
  first_by_least, first_by-eq_none, filter_by-eq_nil, find_by, update_where, filter_by,
  UniqueBy-find, find_by-update_where_self, find_by-update_where_other, any_by, some_eq, eq_iff,
  if◌then◌else◌,
}
use codex_app.Database.{Db}
use codex_app.Database.Schema.{Tables, NotificationDelivery, DeliveryStatus, as_str}
use codex_app.Database.Statuses.{pending_only}
use codex_app.NotificationStore.{
  keyed, claim_next_due_delivery, next_due, claimed, is_due, comes_first,
}
use codex_app.NotificationStore.Queue.Keys.{same_key, same_key_refl, same_key_sym, UniqueKeys}

-- The rows after a claim of `o`.
abbrev pub rows_after :
    ℕ → Option NotificationDelivery → List NotificationDelivery → List NotificationDelivery
rows_after now none rows = rows
rows_after now (some d) rows =
    update_where (same_key d)
      (λ row. record row {
        status = DeliveryStatus.sending;
        attempt_count = (claimed now d).attempt_count;
        updated_at = now;
      })
      rows

-- An accepted claim answers the next due row, marked, and rewrites that row.
pub claim_ok :
    (now : ℕ) (db : Db) (r : Option NotificationDelivery)
    → (claim_next_due_delivery now db).0 ≡ ok r
    → (r ≡ map_option (claimed now) (next_due now db.tables.notification_deliveries))
      × ((claim_next_due_delivery now db).1.tables.notification_deliveries
          ≡ rows_after now
              (next_due now db.tables.notification_deliveries)
              db.tables.notification_deliveries)
unfolding claim_next_due_delivery
claim_ok now db r h = ground arith

comes_first-le :
    (a b : NotificationDelivery) → comes_first a b ≡ true → a.next_attempt_at ≤ b.next_attempt_at
comes_first-le a b h = ground arith

comes_first-ge :
    (a b : NotificationDelivery) → comes_first a b ≡ false → b.next_attempt_at ≤ a.next_attempt_at
comes_first-ge a b h = ground arith

pub is_due_lem :
    (now : ℕ) (d : NotificationDelivery)
    → is_due now d ≡ true
    → (d.status ≡ DeliveryStatus.pending) × (d.next_attempt_at ≤ now)
is_due_lem now d h = (pending_only d.status (ground arith), ground arith)

-- What is known of the row that a claim picks.
pub record Picked (now : ℕ) (rows : List NotificationDelivery) (x : NotificationDelivery)
    : Type 0 where
  pub stored : find_by (same_key x) rows ≡ some x
  pub was_pending : x.status ≡ DeliveryStatus.pending
  pub was_due : x.next_attempt_at ≤ now
  pub earliest :
      All
        (λ y. x.next_attempt_at ≤ y.next_attempt_at)
        (filter_by (λ y. as_str y.status == "pending" && leb y.next_attempt_at now) rows)

pub next_due-Picked :
    (now : ℕ) (t : Tables) (x : NotificationDelivery)
    → UniqueKeys t
    → next_due now t.notification_deliveries ≡ some x
    → Picked now t.notification_deliveries x
next_due-Picked now t x u e = record {
  stored = picked.1;
  was_pending = (is_due_lem now x picked.0).0;
  was_due = (is_due_lem now x picked.0).1;
  earliest =
      first_by_least comes_first (λ d. d.next_attempt_at) comes_first-le comes_first-ge
        (filter_by (is_due now) rows) e;
}
  where
    rows : List NotificationDelivery
    rows = t.notification_deliveries

    picked : (is_due now x ≡ true) × (find_by (same_key x) rows ≡ some x)
    picked = first_by-All _ comes_first (filter_by (is_due now) rows) e (
        All-filter_by _ (is_due now) rows
          (UniqueBy-find same_key same_key_sym same_key_refl rows u))

keyed-same :
    (x y : NotificationDelivery) (event_id device_id : String)
    → same_key x y ≡ true
    → keyed event_id device_id y ≡ keyed event_id device_id x
keyed-same x y event_id device_id h =
    ground (arith, eq_iff y.event_id x.event_id, eq_iff y.device_id x.device_id)

pub keyed-eq :
    (x : NotificationDelivery) (event_id device_id : String)
    → keyed event_id device_id x ≡ true
    → (x.event_id ≡ event_id) × (x.device_id ≡ device_id)
keyed-eq x event_id device_id h =
    ground (arith, eq_iff x.event_id event_id, eq_iff x.device_id device_id)

module _ (now : ℕ) (rows : List NotificationDelivery) (x : NotificationDelivery) where
  rows_after_self :
      find_by (same_key x) rows ≡ some x
      → find_by (same_key x) (rows_after now (some x) rows) ≡ some (claimed now x)
  rows_after_self stored = find_by-update_where_self (same_key x) _ (λ y h. h) rows ∙ rw stored

  find_by-rows_after :
      (event_id device_id : String)
      → find_by (same_key x) rows ≡ some x
      → find_by (keyed event_id device_id) (rows_after now (some x) rows) ≡ (
          if keyed event_id device_id x
          then some (claimed now x)
          else find_by (keyed event_id device_id) rows)
  find_by-rows_after event_id device_id stored = elim (Bool-cases (keyed event_id device_id x)) [
    | inl e ↦
        let (event, device) = keyed-eq x event_id device_id e in
        rw (e, ← event, ← device) (rows_after_self stored)
    | inr e ↦ rw e (
        find_by-update_where_other (same_key x) _ (keyed event_id device_id)
          (λ y h. let same = keyed-same x y event_id device_id h ∙ e in (same, same)) rows)
  ]

-- Where the keys are distinct, an accepted claim that answers a delivery answers a stored row that
-- was pending and due, none of the pending rows that are due being due earlier, as `sending` with one
-- more attempt (at most u32::MAX), the time of the claim, and nothing else changed; a search for that
-- row's key now finds what was answered, and a search for any other key finds what it found before.
pub claim_takes_earliest :
    (now : ℕ) (db : Db) (d : NotificationDelivery) (event_id device_id : String)
    → UniqueKeys db.tables
    → (claim_next_due_delivery now db).0 ≡ ok (some d)
    → (x : NotificationDelivery) × Picked now db.tables.notification_deliveries x
      × (d ≡ record x {
        status = DeliveryStatus.sending;
        attempt_count = min (x.attempt_count + 1) (2 ^ 32 - 1);
        updated_at = now;
      })
      × (find_by
            (λ y. y.event_id == event_id && y.device_id == device_id)
            (claim_next_due_delivery now db).1.tables.notification_deliveries
          ≡ (if x.event_id == event_id && x.device_id == device_id
              then some d
              else find_by
                  (λ y. y.event_id == event_id && y.device_id == device_id)
                  db.tables.notification_deliveries))
claim_takes_earliest now db d event_id device_id u h = elim (Option-cases (next_due now rows)) [
  | inl e ↦ absurd (nothing (rw e at (claim_ok now db (some d) h).0))
  | inr (x, e) ↦ (
    x,
    next_due-Picked now db.tables x u e,
    answer x e,
    rw (changed x e, answer x e)
        (find_by-rows_after now rows x event_id device_id
          (next_due-Picked now db.tables x u e).stored),
  )
]
  where
    rows : List NotificationDelivery
    rows = db.tables.notification_deliveries

    nothing : some d ≡ none → ⊥
    nothing p = cc

    answer : (x : NotificationDelivery) → next_due now rows ≡ some x → d ≡ claimed now x
    answer x e = some_eq (rw e at (claim_ok now db (some d) h).0)

    changed :
        (x : NotificationDelivery)
        → next_due now rows ≡ some x
        → (claim_next_due_delivery now db).1.tables.notification_deliveries
          ≡ rows_after now (some x) rows
    changed x e = rw e at (claim_ok now db (some d) h).1

-- An accepted claim that answers nothing leaves the rows as they were, and no row is pending and due.
pub claim_none :
    (now : ℕ) (db : Db)
    → (claim_next_due_delivery now db).0 ≡ ok none
    → (any_by
          (λ y. as_str y.status == "pending" && leb y.next_attempt_at now)
          db.tables.notification_deliveries
        ≡ false)
      × ((claim_next_due_delivery now db).1.tables.notification_deliveries
          ≡ db.tables.notification_deliveries)
claim_none now db h = elim (Option-cases (next_due now rows)) [
  | inl e ↦ (
    filter_by-eq_nil (is_due now) rows (first_by-eq_none comes_first _ e),
    rw e at (claim_ok now db none h).1,
  )
  | inr (x, e) ↦ absurd (something x (rw e at (claim_ok now db none h).0))
]
  where
    rows : List NotificationDelivery
    rows = db.tables.notification_deliveries

    something : (x : NotificationDelivery) → none ≡ some (claimed now x) → ⊥
    something x p = cc
