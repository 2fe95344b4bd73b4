-- ===== src/NotificationStore/Queue/Keys.antt =====
-- The primary key of notification_deliveries: one row for an event and a device.
use text.Mathlib.TextPositions.{eq_refl}
use codex_app.Prelude.{
  ℕ, String, ◌≡◌, refl, Bool, true, Option, none, some, List, [], ◌∷◌, arith, eq_iff, UniqueBy,
  UniqueBy-update_where, UniqueBy-delete_where, UniqueBy-insert_or_ignore, update_where,
}
use codex_app.Database.{Db}
use codex_app.Database.Schema.{Tables, NotificationDelivery, DeliveryStatus}
use codex_app.Database.Invariants.{
  Keeps, Keeps-pure, Keeps-statement, Keeps-bind, Keeps-transaction,
}
use codex_app.NotificationStore.{
  keyed, recover_sending, enqueue_delivery, claim_next_due_delivery, mark_claimed,
  mark_delivery_sent, update_delivery_status, fail_pending_deliveries, delete_subscription,
  delete_device_notification_data,
}

abbrev pub same_key : NotificationDelivery → NotificationDelivery → Bool
same_key x = keyed x.event_id x.device_id

pub same_key_refl : (x : NotificationDelivery) → same_key x x ≡ true
same_key_refl x = ground (arith, eq_refl x.event_id, eq_refl x.device_id)

pub same_key_sym : (x y : NotificationDelivery) → same_key x y ≡ same_key y x
same_key_sym x y = ground (
  arith,
  eq_iff x.event_id y.event_id,
  eq_iff y.event_id x.event_id,
  eq_iff x.device_id y.device_id,
  eq_iff y.device_id x.device_id,
)

abbrev pub UniqueKeys : Tables → Type 0
UniqueKeys t = UniqueBy same_key t.notification_deliveries

-- The calls of the store that write to the queue.
pub data QueueCall : Type 0 where
  recover : QueueCall
  enqueue : NotificationDelivery → QueueCall
  claim : ℕ → QueueCall
  mark_sent : String → String → ℕ → QueueCall
  update_status : String → String → DeliveryStatus → Option ℕ → Option String → ℕ → QueueCall
  fail_pending : String → ℕ → QueueCall
  drop_subscription drop_device : String → QueueCall

-- A call, its answer dropped: the database that it leaves.
pub run_call : QueueCall → Db → Db
run_call recover db = (recover_sending db).1
run_call (enqueue delivery) db = (enqueue_delivery delivery db).1
run_call (claim now) db = (claim_next_due_delivery now db).1
run_call (mark_sent event_id device_id now) db = (mark_delivery_sent event_id device_id now db).1
run_call (update_status event_id device_id status due category now) db =
    (update_delivery_status event_id device_id status due category now db).1
run_call (fail_pending category now) db = (fail_pending_deliveries category now db).1
run_call (drop_subscription device_id) db = (delete_subscription device_id db).1
run_call (drop_device device_id) db = (delete_device_notification_data device_id db).1

pub run_calls : List QueueCall → Db → Db
run_calls [] db = db
run_calls (c ∷ cs) db = run_calls cs (run_call c db)

enqueue-Keeps : (d : NotificationDelivery) → Keeps UniqueKeys (enqueue_delivery d)
unfolding enqueue_delivery
enqueue-Keeps d =
    Keeps-statement _ _
      (λ t u. UniqueBy-insert_or_ignore same_key same_key_sym d t.notification_deliveries u)

-- A rewriting of rows that leaves their keys keeps the keys apart.
rewrite_rows :
    (p : NotificationDelivery → Bool) (f : NotificationDelivery → NotificationDelivery)
    → ((x : NotificationDelivery) → (f x).event_id ≡ x.event_id)
    → ((x : NotificationDelivery) → (f x).device_id ≡ x.device_id)
    → (xs : List NotificationDelivery) → UniqueBy same_key xs
    → UniqueBy same_key (update_where p f xs)
rewrite_rows p f event device =
    UniqueBy-update_where same_key p f (λ x y. cc (event y, device y)) (λ x. cc (event x, device x))

claim-Keeps : (now : ℕ) → Keeps UniqueKeys (claim_next_due_delivery now)
unfolding claim_next_due_delivery
claim-Keeps now = Keeps-transaction _ (Keeps-bind _ _ (Keeps-statement _ _ (λ t u. u)) found)
  where
    found : (o : Option NotificationDelivery) → Keeps UniqueKeys (mark_claimed now o)
    found none = Keeps-pure none
    found (some d) =
        Keeps-bind _ _
          (Keeps-statement _ _
            (λ t u. rewrite_rows _ _ (λ x. refl) (λ x. refl) t.notification_deliveries u))
          (λ _. Keeps-pure _)

mark_sent-Keeps :
    (event_id device_id : String) (now : ℕ)
    → Keeps UniqueKeys (mark_delivery_sent event_id device_id now)
unfolding mark_delivery_sent
mark_sent-Keeps event_id device_id now = Keeps-transaction _ (
    Keeps-bind _ _
      (Keeps-statement _ _
        (λ t u. rewrite_rows _ _ (λ x. refl) (λ x. refl) t.notification_deliveries u))
      (λ _. Keeps-statement _ _ (λ t u. u)))

update-Keeps :
    (event_id device_id : String) (status : DeliveryStatus) (due : Option ℕ)
    (category : Option String) (now : ℕ)
    → Keeps UniqueKeys (update_delivery_status event_id device_id status due category now)
unfolding update_delivery_status
update-Keeps event_id device_id status due category now =
    Keeps-statement _ _
      (λ t u. rewrite_rows _ _ (λ x. refl) (λ x. refl) t.notification_deliveries u)

drop_subscription-Keeps : (device_id : String) → Keeps UniqueKeys (delete_subscription device_id)
unfolding delete_subscription
drop_subscription-Keeps device_id = Keeps-transaction _ (
    Keeps-bind _ _ (Keeps-statement _ _ (λ t u. u)) (λ _.
      Keeps-statement _ _ (λ t u. UniqueBy-delete_where same_key _ t.notification_deliveries u)))

drop_device-Keeps :
    (device_id : String) → Keeps UniqueKeys (delete_device_notification_data device_id)
unfolding delete_device_notification_data
drop_device-Keeps device_id = Keeps-transaction _ (
    Keeps-bind _ _ (Keeps-statement _ _ (λ t u. u)) (λ _.
      Keeps-bind _ _ (Keeps-statement _ _ (λ t u. u)) (λ _.
        Keeps-statement _ _ (λ t u. UniqueBy-delete_where same_key _ t.notification_deliveries u))))

recover-Keeps : Keeps UniqueKeys recover_sending
unfolding recover_sending
recover-Keeps =
    Keeps-statement _ _
      (λ t u. rewrite_rows _ _ (λ x. refl) (λ x. refl) t.notification_deliveries u)

fail-Keeps : (category : String) (now : ℕ) → Keeps UniqueKeys (fail_pending_deliveries category now)
unfolding fail_pending_deliveries
fail-Keeps category now =
    Keeps-statement _ _
      (λ t u. rewrite_rows _ _ (λ x. refl) (λ x. refl) t.notification_deliveries u)

run_call-UniqueKeys :
    (c : QueueCall) (db : Db) → UniqueKeys db.tables → UniqueKeys (run_call c db).tables
unfolding run_call
run_call-UniqueKeys recover db u = recover-Keeps.at db u
run_call-UniqueKeys (enqueue d) db u = (enqueue-Keeps d).at db u
run_call-UniqueKeys (claim now) db u = (claim-Keeps now).at db u
run_call-UniqueKeys (mark_sent e d now) db u = (mark_sent-Keeps e d now).at db u
run_call-UniqueKeys (update_status e d s due c now) db u = (update-Keeps e d s due c now).at db u
run_call-UniqueKeys (fail_pending c now) db u = (fail-Keeps c now).at db u
run_call-UniqueKeys (drop_subscription d) db u = (drop_subscription-Keeps d).at db u
run_call-UniqueKeys (drop_device d) db u = (drop_device-Keeps d).at db u

-- Whatever sequence of calls writes to the queue, and whichever of their statements the database
-- refuses, no two rows come to have the same event and device.
pub run_calls-UniqueKeys :
    (cs : List QueueCall) (db : Db) → UniqueKeys db.tables → UniqueKeys (run_calls cs db).tables
unfolding run_calls
run_calls-UniqueKeys [] db u = u
run_calls-UniqueKeys (c ∷ cs) db u =
    run_calls-UniqueKeys cs (run_call c db) (run_call-UniqueKeys c db u)
