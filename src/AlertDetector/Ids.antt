-- ===== src/AlertDetector/Ids.antt =====
-- The known approval ids of alert_detector.rs: what is remembered and how many.
use codex_app.Prelude.{
  String, ◌≡◌, ◌≤◌, ◌-◌, refl, true, List, [], ◌∷◌, ◌++◌, arith, length, length-drop, contains, All,
  inl, inr, Bool-cases, if◌then◌else◌,
}
use text.Mathlib.TextPositions.{eq_refl}
use codex_app.AlertDetector.{remember, keep_latest, max_known, unknown_ids}

pub keep_latest-length : (known : List String) → length (keep_latest known) ≤ max_known
keep_latest-length known = ground (arith, length-drop {0} (length known - max_known) known)

pub keep_latest_short : (known : List String) → length known ≤ max_known → keep_latest known ≡ known
keep_latest_short known h = ground arith

contains-append :
    (known : List String) (id x : String)
    → contains known x ≡ true
    → contains (known ++ id ∷ []) x ≡ true
contains-append [] id x h = cc
contains-append (k ∷ known) id x h = ground (arith, contains-append known id x)

contains-append_last : (known : List String) (id : String) → contains (known ++ id ∷ []) id ≡ true
contains-append_last [] id = ground (arith, eq_refl id)
contains-append_last (k ∷ known) id = ground (arith, contains-append_last known id)

abbrev push_new : List String → String → List String
push_new known id = if contains known id then known else known ++ id ∷ []

push_new-contains : (known : List String) (id : String) → contains (push_new known id) id ≡ true
push_new-contains known id = elim (Bool-cases (contains known id)) [
  | inl e ↦ rw e e
  | inr e ↦ rw e (contains-append_last known id)
]

push_new-keeps :
    (known : List String) (id x : String)
    → contains known x ≡ true
    → contains (push_new known id) x ≡ true
push_new-keeps known id x h = elim (Bool-cases (contains known id)) [
  | inl e ↦ rw e h
  | inr e ↦ rw e (contains-append known id x h)
]

pub remember-keeps :
    (known ids : List String) (x : String)
    → contains known x ≡ true
    → contains (remember known ids) x ≡ true
remember-keeps known [] x h = h
remember-keeps known (id ∷ ids) x h =
    remember-keeps (push_new known id) ids x (push_new-keeps known id x h)

-- Every id of a list is remembered.
pub remember-all : (known ids : List String) → All (λ x. contains (remember known ids) x ≡ true) ids
remember-all known [] = tt
remember-all known (id ∷ ids) = (
  remember-keeps (push_new known id) ids id (push_new-contains known id),
  remember-all (push_new known id) ids,
)

-- Ids that are all known add nothing, and none of them is new.
pub remember_known :
    (known ids : List String) → All (λ x. contains known x ≡ true) ids → remember known ids ≡ known
remember_known known [] h = refl
remember_known known (id ∷ ids) h = rw h.0 (remember_known known ids h.1)

pub unknown_ids_known :
    (known ids : List String) → All (λ x. contains known x ≡ true) ids → unknown_ids known ids ≡ []
unknown_ids_known known [] h = refl
unknown_ids_known known (id ∷ ids) h = rw h.0 (unknown_ids_known known ids h.1)
