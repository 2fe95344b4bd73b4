-- ===== src/Database/Statuses.antt =====
-- The delivery statuses of notification_store.rs and their texts in the database.
use mathlib.Core.Path.{subst}
use codex_app.Prelude.{
  String, ◌≡◌, refl, true, some, arith, ◌==◌, ◌||◌, eq_iff, ◌↔◌, ◌⊎◌, inl, inr, false,
}
use codex_app.Database.Schema.{DeliveryStatus, as_str, from_str}

pub pending_only :
    (s : DeliveryStatus) → (as_str s == "pending") ≡ true → s ≡ DeliveryStatus.pending
pending_only DeliveryStatus.pending h = refl
pending_only DeliveryStatus.sending h = cc
pending_only DeliveryStatus.sent h = cc
pending_only DeliveryStatus.invalid_subscription h = cc
pending_only DeliveryStatus.failed h = cc

-- A row is being sent, and so is not pending, or it is not being sent.
pub sending_cases :
    (s : DeliveryStatus)
    → (((as_str s == "sending") ≡ true) × ((as_str s == "pending") ≡ false))
      ⊎ ((as_str s == "sending") ≡ false)
sending_cases DeliveryStatus.pending = inr refl
sending_cases DeliveryStatus.sending = inl (refl, refl)
sending_cases DeliveryStatus.sent = inr refl
sending_cases DeliveryStatus.invalid_subscription = inr refl
sending_cases DeliveryStatus.failed = inr refl

-- A row is pending or being sent, or it is neither.
pub open_cases :
    (s : DeliveryStatus)
    → ((as_str s == "pending" || as_str s == "sending") ≡ true)
      ⊎ (((as_str s == "pending") ≡ false) × ((as_str s == "sending") ≡ false))
open_cases DeliveryStatus.pending = inl refl
open_cases DeliveryStatus.sending = inl refl
open_cases DeliveryStatus.sent = inr (refl, refl)
open_cases DeliveryStatus.invalid_subscription = inr (refl, refl)
open_cases DeliveryStatus.failed = inr (refl, refl)

from_str-as_str : (s : DeliveryStatus) → from_str (as_str s) ≡ some s
unfolding from_str
from_str-as_str DeliveryStatus.pending = refl
from_str-as_str DeliveryStatus.sending = refl
from_str-as_str DeliveryStatus.sent = refl
from_str-as_str DeliveryStatus.invalid_subscription = refl
from_str-as_str DeliveryStatus.failed = refl

as_str_of_from_str : (text : String) (s : DeliveryStatus) → from_str text ≡ some s → as_str s ≡ text
unfolding from_str
as_str_of_from_str text s h = ground (
  arith,
  eq_iff text "pending",
  eq_iff text "sending",
  eq_iff text "sent",
  eq_iff text "invalid_subscription",
  eq_iff text "failed",
)

-- A text of the database is read as a status exactly if it is the text that the status is written as.
pub status_round_trip :
    (s : DeliveryStatus) (text : String) → (from_str text ≡ some s) ↔ (as_str s ≡ text)
status_round_trip s text =
    (as_str_of_from_str text s, λ e. subst (λ t. from_str t ≡ some s) e (from_str-as_str s))
