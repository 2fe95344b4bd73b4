-- ===== src/EventHub/Receiving.antt =====
-- What a subscriber of event_hub.rs receives.
use codex_app.Prelude.{
  ℕ, zero, suc, String, ◌≡◌, ◌<◌, ◌+◌, refl, ap, ◌∙◌, Bool, false, Option, none, some, List, [],
  ◌∷◌, ◌++◌, arith, ok, err, length, same_text_option, ◌==◌, if◌then◌else◌, inl, inr, Bool-cases,
}
use codex_app.Protocol.{ServerEnvelope}
use codex_app.EventHub.{PublishedEvent, Received, EventReceiveError, EventSubscriber, recv}

-- The envelopes that are received, and the error that ends them, if there is one.
abbrev pub Reception : Type 0
Reception = List ServerEnvelope × Option EventReceiveError

abbrev pub first_then : ServerEnvelope → Reception → Reception
first_then e (envelopes, ending) = (e ∷ envelopes, ending)

abbrev pub is_for : Option String → String → Bool
is_for none target = false
is_for (some device) target = device == target

-- What is meant for a device among what its receiver yields: what is for all and what is for it,
-- until it is disconnected, the receiver has lagged, or the channel is closed.
abbrev pub addressed : Option String → List Received → Reception
addressed device_id [] = ([], none)
addressed device_id (Received.value (PublishedEvent.envelope none e) ∷ incoming) =
    first_then e (addressed device_id incoming)
addressed device_id (Received.value (PublishedEvent.envelope (some target) e) ∷ incoming) =
    let rest = addressed device_id incoming in
    if is_for device_id target then first_then e rest else rest
addressed device_id (Received.value (PublishedEvent.disconnect_device target) ∷ incoming) =
    let rest = addressed device_id incoming in
    if is_for device_id target then ([], some EventReceiveError.device_disconnected) else rest
addressed device_id (Received.lagged count ∷ incoming) = ([], some (EventReceiveError.lagged count))
addressed device_id (Received.closed ∷ incoming) = ([], some EventReceiveError.closed)

-- The envelopes of calls of `recv`, until one fails or has to wait.
pub receive_all : ℕ → EventSubscriber → Reception
receive_all zero s = ([], none)
receive_all (suc fuel) s = elim (recv s) [
  | none ↦ ([], none)
  | some (ok e, s') ↦ first_then e (receive_all fuel s')
  | some (err x, s') ↦ ([], some x)
]

is_for_lem : (o : Option String) (t : String) → same_text_option o (some t) ≡ is_for o t
is_for_lem none t = refl
is_for_lem (some d) t = refl

module _ (device_id : Option String) where
  abbrev subscriber : List ServerEnvelope → List Received → EventSubscriber
  subscriber replay incoming = record {
    replay = replay;
    incoming = incoming;
    device_id = device_id;
  }

  receive_live :
      (fuel : ℕ) (incoming : List Received)
      → length incoming < fuel
      → receive_all fuel (subscriber [] incoming) ≡ addressed device_id incoming
  unfolding receive_all recv
  receive_live zero incoming h = elim h [ ]
  receive_live (suc f) [] h = refl
  receive_live (suc f) (Received.value (PublishedEvent.envelope none e) ∷ incoming) h =
      ap (first_then e) (receive_live f incoming (omega arith))
  receive_live (suc f) (Received.value (PublishedEvent.envelope (some target) e) ∷ incoming) h =
      elim (Bool-cases (is_for device_id target)) [
        | inl t ↦
            rw (is_for_lem device_id target ∙ t, t)
              (ap (first_then e) (receive_live f incoming (omega arith)))
        | inr t ↦
            rw (is_for_lem device_id target ∙ t, t) (receive_live (suc f) incoming (omega arith))
      ]
  receive_live (suc f) (Received.value (PublishedEvent.disconnect_device target) ∷ incoming) h =
      elim (Bool-cases (is_for device_id target)) [
        | inl t ↦ rw (is_for_lem device_id target ∙ t, t) refl
        | inr t ↦
            rw (is_for_lem device_id target ∙ t, t) (receive_live (suc f) incoming (omega arith))
      ]
  receive_live (suc f) (Received.lagged count ∷ incoming) h = refl
  receive_live (suc f) (Received.closed ∷ incoming) h = refl

  -- Repeated calls of `recv`, more of them than there are snapshots to replay and yields of the
  -- receiver, give the snapshots first and then, in order, what the receiver yields for all devices or
  -- for this one, up to the first disconnection of this device, lag of the receiver or end of the
  -- channel, whichever it is; the call that comes to it fails with it, and if there is none the last
  -- call waits.
  pub receive_all-addressed :
      (fuel : ℕ) (replay : List ServerEnvelope) (incoming : List Received)
      → length replay + length incoming < fuel
      → receive_all fuel (record { replay = replay; incoming = incoming; device_id = device_id })
        ≡ (replay ++ (addressed device_id incoming).0, (addressed device_id incoming).1)
  unfolding receive_all recv
  receive_all-addressed fuel [] incoming h = receive_live fuel incoming (omega arith)
  receive_all-addressed zero (e ∷ replay) incoming h = elim h [ ]
  receive_all-addressed (suc f) (e ∷ replay) incoming h =
      ap (first_then e) (receive_all-addressed f replay incoming (omega arith))
