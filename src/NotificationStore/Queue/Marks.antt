-- ===== src/NotificationStore/Queue/Marks.antt =====
-- Adding deliveries, recovering them after a restart, and closing them.
use codex_app.Prelude.{
  ℕ, String, ◌≡◌, ◌+◌, refl, sym, ap, ◌∙◌, Bool, true, false, Option, none, some, List, [], ◌∷◌,
  arith, ◌==◌, ok, not, map_option, inl, inr, Bool-cases, any_by, count_by, find_by, update_where,
  insert_or_ignore, find_by-update_where_self, if◌then◌else◌, is_some, ◌++◌,
}
use codex_app.Database.{Db}
use codex_app.Database.Schema.{NotificationDelivery, DeliveryStatus, as_str}
use codex_app.Database.Statuses.{sending_cases, open_cases}
use codex_app.NotificationStore.{
  mark_delivery_sent, sent_at, keyed, recover_sending, enqueue_delivery, is_open,
  fail_pending_deliveries, is_due, update_delivery_status, with_status,
}
use codex_app.NotificationStore.Queue.Keys.{same_key}
use codex_app.NotificationStore.Queue.Claim.{keyed-eq}

find_by-some :
    (p : NotificationDelivery → Bool) (xs : List NotificationDelivery)
    → any_by p xs ≡ is_some (find_by p xs)
find_by-some p [] = refl
find_by-some p (x ∷ xs) = ground (arith, find_by-some p xs)

find_by-append_one :
    (p : NotificationDelivery → Bool) (a : NotificationDelivery) (xs : List NotificationDelivery)
    → find_by p (xs ++ a ∷ [])
      ≡ (if is_some (find_by p xs) then find_by p xs else if p a then some a else none)
find_by-append_one p a [] = ground arith
find_by-append_one p a (x ∷ xs) = ground (arith, find_by-append_one p a xs)

-- Two searches for the same key.
keyed-any :
    (d : NotificationDelivery) (rows : List NotificationDelivery) (event_id device_id : String)
    → keyed event_id device_id d ≡ true
    → any_by (same_key d) rows ≡ is_some (find_by (keyed event_id device_id) rows)
keyed-any d rows event_id device_id e =
    let (event, device) = keyed-eq d event_id device_id e in
    rw (← event, ← device) (find_by-some (same_key d) rows)

pick_old :
    (o : Option NotificationDelivery) (hit : Bool) (d : NotificationDelivery)
    → (hit ≡ true → is_some o ≡ true)
    → o ≡ (if is_some o then o else if hit then some d else none)
pick_old o hit d h = ground arith

-- What a search finds after `INSERT OR IGNORE`: what it found before, or else the new row.
enqueue_rows :
    (d : NotificationDelivery) (rows : List NotificationDelivery) (event_id device_id : String)
    → find_by (keyed event_id device_id) (insert_or_ignore (same_key d) d rows) ≡ (
        if is_some (find_by (keyed event_id device_id) rows)
        then find_by (keyed event_id device_id) rows
        else if keyed event_id device_id d
        then some d
        else none)
enqueue_rows d rows event_id device_id = elim (Bool-cases (any_by (same_key d) rows)) [
  | inl e ↦ rw e (
      pick_old _ (keyed event_id device_id d) d
        (λ hit. sym (keyed-any d rows event_id device_id hit) ∙ e))
  | inr e ↦ rw e (find_by-append_one (keyed event_id device_id) d rows)
]

enqueue_ok :
    (d : NotificationDelivery) (db : Db) (added : Bool)
    → (enqueue_delivery d db).0 ≡ ok added
    → (added ≡ not (any_by (same_key d) db.tables.notification_deliveries))
      × ((enqueue_delivery d db).1.tables.notification_deliveries
          ≡ insert_or_ignore (same_key d) d db.tables.notification_deliveries)
unfolding enqueue_delivery
enqueue_ok d db added h = ground arith

-- An accepted enqueue says whether it added the delivery. It adds it exactly if no row had its event
-- and device; a search for any key finds what it found before, or else the delivery if it has the key.
pub enqueue_delivery_once :
    (d : NotificationDelivery) (db : Db) (added : Bool) (event_id device_id : String)
    → (enqueue_delivery d db).0 ≡ ok added
    → let before = db.tables.notification_deliveries in
      (added ≡ not (is_some (find_by (keyed d.event_id d.device_id) before)))
      × (find_by (keyed event_id device_id) (enqueue_delivery d db).1.tables.notification_deliveries
          ≡ (if is_some (find_by (keyed event_id device_id) before)
              then find_by (keyed event_id device_id) before
              else if keyed event_id device_id d
              then some d
              else none))
enqueue_delivery_once d db added event_id device_id h = (
  (enqueue_ok d db added h).0
      ∙ ap not (find_by-some (same_key d) db.tables.notification_deliveries),
  rw (enqueue_ok d db added h).1
      (enqueue_rows d db.tables.notification_deliveries event_id device_id),
)

recover_ok :
    (db : Db)
    → (recover_sending db).0 ≡ ok tt
    → (recover_sending db).1.tables.notification_deliveries
      ≡ update_where
          (λ d. as_str d.status == "sending")
          (λ d. record d { status = DeliveryStatus.pending })
          db.tables.notification_deliveries
unfolding recover_sending
recover_ok db h = ground arith

abbrev pub is_sending : NotificationDelivery → Bool
is_sending d = as_str d.status == "sending"

abbrev pub is_pending : NotificationDelivery → Bool
is_pending d = as_str d.status == "pending"

abbrev pub made_pending : NotificationDelivery → NotificationDelivery
made_pending d = record d { status = DeliveryStatus.pending }

recovered_rows :
    (rows : List NotificationDelivery)
    → (count_by is_sending (update_where is_sending made_pending rows) ≡ 0)
      × (count_by is_pending (update_where is_sending made_pending rows)
          ≡ count_by is_pending rows + count_by is_sending rows)
recovered_rows [] = omega arith
recovered_rows (d ∷ rows) = elim (sending_cases d.status) [
  | inl (e, f) ↦ rw (e, f) (omega (arith, recovered_rows rows))
  | inr e ↦ rw (e, e) (omega (arith, recovered_rows rows))
]

-- After an accepted recovery, as at each start, no delivery is being sent, and the pending ones are
-- those that were pending or were being sent.
pub recover_sending_pending :
    (db : Db)
    → (recover_sending db).0 ≡ ok tt
    → let before = db.tables.notification_deliveries in
      let rows = (recover_sending db).1.tables.notification_deliveries in
      (count_by is_sending rows ≡ 0)
      × (count_by is_pending rows ≡ count_by is_pending before + count_by is_sending before)
recover_sending_pending db h =
    rw (recover_ok db h) (recovered_rows db.tables.notification_deliveries)

abbrev pub closed : String → ℕ → NotificationDelivery → NotificationDelivery
closed category now d = record d {
  status = DeliveryStatus.failed;
  last_error_category = some category;
  updated_at = now;
}

closed_rows :
    (category : String) (now later : ℕ) (rows : List NotificationDelivery)
    → (any_by is_open (update_where is_open (closed category now) rows) ≡ false)
      × (any_by (is_due later) (update_where is_open (closed category now) rows) ≡ false)
closed_rows category now later [] = (refl, refl)
closed_rows category now later (d ∷ rows) = elim (open_cases d.status) [
  | inl e ↦ rw e (closed_rows category now later rows)
  | inr (p, s) ↦ rw (p, s, p, s) (closed_rows category now later rows)
]

fail_ok :
    (category : String) (now : ℕ) (db : Db) (n : ℕ)
    → (fail_pending_deliveries category now db).0 ≡ ok n
    → (n ≡ count_by is_open db.tables.notification_deliveries)
      × ((fail_pending_deliveries category now db).1.tables.notification_deliveries
          ≡ update_where is_open (closed category now) db.tables.notification_deliveries)
unfolding fail_pending_deliveries
fail_ok category now db n h = ground arith

-- An accepted call that fails the pending deliveries answers how many were pending or being sent;
-- none is left so, and whatever the time, none is due.
pub fail_pending_closes :
    (category : String) (now later : ℕ) (db : Db) (n : ℕ)
    → (fail_pending_deliveries category now db).0 ≡ ok n
    → let rows = (fail_pending_deliveries category now db).1.tables.notification_deliveries in
      (n ≡ count_by is_open db.tables.notification_deliveries)
      × (any_by is_open rows ≡ false)
      × (any_by (is_due later) rows ≡ false)
fail_pending_closes category now later db n h =
    let (answer, rows) = fail_ok category now db n h in
    let (none_open, none_due) = closed_rows category now later db.tables.notification_deliveries in
    (answer, rw rows none_open, rw rows none_due)

pub update_ok :
    (event_id device_id : String) (status : DeliveryStatus) (due : Option ℕ)
    (category : Option String) (now : ℕ) (db : Db)
    → (update_delivery_status event_id device_id status due category now db).0 ≡ ok tt
    → (update_delivery_status event_id device_id status due category now
        db).1.tables.notification_deliveries
      ≡ update_where
          (keyed event_id device_id)
          (with_status status due category now)
          db.tables.notification_deliveries
unfolding update_delivery_status
update_ok event_id device_id status due category now db h = ground arith

pub mark_sent_ok :
    (event_id device_id : String) (now : ℕ) (db : Db) (a : Unit {0})
    → (mark_delivery_sent event_id device_id now db).0 ≡ ok a
    → (mark_delivery_sent event_id device_id now db).1.tables.notification_deliveries
      ≡ update_where (keyed event_id device_id) (sent_at now) db.tables.notification_deliveries
unfolding mark_delivery_sent
mark_sent_ok event_id device_id now db a h = ground arith

-- An accepted status update rewrites the row that a search for the key finds, and keeps its attempts,
-- its payload, and its due time unless a new one is given.
pub update_delivery_status_found :
    (event_id device_id : String) (status : DeliveryStatus) (due : Option ℕ)
    (category : Option String) (now : ℕ) (db : Db)
    → (update_delivery_status event_id device_id status due category now db).0 ≡ ok tt
    → find_by
        (keyed event_id device_id)
        (update_delivery_status event_id device_id status due category now
          db).1.tables.notification_deliveries
      ≡ map_option
          (with_status status due category now)
          (find_by (keyed event_id device_id) db.tables.notification_deliveries)
update_delivery_status_found event_id device_id status due category now db h =
    rw (update_ok event_id device_id status due category now db h) (
      find_by-update_where_self (keyed event_id device_id) _ (λ x k. k)
        db.tables.notification_deliveries)
