-- ===== src/LocalAssets/Eviction.antt =====
-- The eviction of entries beyond the capacity.
use mathlib.Core.Path.{subst}
use mathlib.Core.Bool.{true≢false}
use codex_app.Prelude.{
  ℕ, zero, suc, String, ◌+◌, ◌≤◌, ◌<◌, ◌≡◌, refl, sym, ap, ◌∙◌, Bool, true, false, ◌||◌, Option,
  none, some, List, [], ◌∷◌, length, arith, find_by, any_by, ltb, leb, Bool-cases, Option-cases,
  inl, inr, some_eq, length-delete_where_le, length-delete_where_lt, any_by-find_by, is_some,
}
use text.Mathlib.TextPositions.{eq_refl}
use codex_app.LocalAssets.{
  LocalAssetEntry, LocalAssetRegistry, has_token, entry_for, remove_entry, remove_token, is_expired,
  touch_entry, touch_existing, less_recent, least_recent, enforce_loop, enforce_capacity,
}

enforce_loop_within :
    (fuel : ℕ) (r : LocalAssetRegistry)
    → ltb r.config.max_entries (length r.by_token) ≡ false
    → enforce_loop fuel r ≡ r
unfolding enforce_loop
enforce_loop_within zero r h = refl
enforce_loop_within (suc fuel) r h = rw (h, enforce_loop) refl

enforce_loop_empty :
    (fuel : ℕ) (r : LocalAssetRegistry) → least_recent r.by_token ≡ none → enforce_loop fuel r ≡ r
unfolding enforce_loop
enforce_loop_empty zero r h = refl
enforce_loop_empty (suc fuel) r h =
    elim (Bool-cases (ltb r.config.max_entries (length r.by_token))) [
      | inl over ↦ rw (over, h, enforce_loop) refl
      | inr within ↦ rw (within, enforce_loop) refl
    ]

enforce_loop_over :
    (fuel : ℕ) (r : LocalAssetRegistry) (e : LocalAssetEntry)
    → ltb r.config.max_entries (length r.by_token) ≡ true
    → least_recent r.by_token ≡ some e
    → enforce_loop (suc fuel) r ≡ enforce_loop fuel (remove_token e.token r)
unfolding enforce_loop
enforce_loop_over fuel r e over m = rw (over, m, enforce_loop) refl

-- What each removal keeps, the eviction keeps.
pub enforce_loop-keeps {ℓ} :
    (P : LocalAssetRegistry → Type ℓ)
    → ((token : String) (r : LocalAssetRegistry) → P r → P (remove_token token r))
    → (fuel : ℕ) (r : LocalAssetRegistry) → P r
    → P (enforce_loop fuel r)
unfolding enforce_loop
enforce_loop-keeps P keep zero r p = p
enforce_loop-keeps P keep (suc fuel) r p =
    elim (Bool-cases (ltb r.config.max_entries (length r.by_token))) [
      | inr within ↦ subst P (sym (enforce_loop_within (suc fuel) r within)) (p)
      | inl over ↦ elim (Option-cases (least_recent r.by_token)) [
        | inl m ↦ subst P (sym (enforce_loop_empty (suc fuel) r m)) (p)
        | inr (e, m) ↦
            subst P (sym (enforce_loop_over fuel r e over m))
              (enforce_loop-keeps P keep fuel (remove_token e.token r) (keep e.token r p))
      ]
    ]

touch_entry-false :
    (o : Option LocalAssetEntry) (at : ℕ) (r : LocalAssetRegistry)
    → (touch_entry o at r).0 ≡ false
    → (touch_entry o at r).1 ≡ r
touch_entry-false none at r h = refl
touch_entry-false (some e) at r h = elim (Bool-cases (is_expired r at e)) [
  | inl m ↦ rw m refl
  | inr m ↦ absurd (true≢false (rw m at h))
]

pub touch_existing-false :
    (token : String) (at : ℕ) (r : LocalAssetRegistry)
    → (touch_existing token at r).0 ≡ false
    → (touch_existing token at r).1 ≡ r
unfolding touch_existing
touch_existing-false token at r = touch_entry-false (entry_for token r) at r

find_by_any :
    (p q : LocalAssetEntry → Bool) (xs : List LocalAssetEntry) {e : LocalAssetEntry}
    → find_by p xs ≡ some e
    → q e ≡ true
    → any_by q xs ≡ true
find_by_any p q [] h qe = cc
find_by_any p q (x ∷ xs) {e} h qe = elim (Bool-cases (p x)) [
  | inl m ↦
      subst (λ (b : Bool). (b || any_by q xs) ≡ true) (sym (ap q (some_eq (rw m at h)) ∙ qe)) (refl)
  | inr m ↦ let rest = find_by_any p q xs (rw m at h) qe in ground (arith, rest)
]

token_any :
    (e x : LocalAssetEntry) (xs : List LocalAssetEntry)
    → x ≡ e
    → any_by (has_token e.token) (x ∷ xs) ≡ true
token_any e x xs h =
    subst (λ y. any_by (has_token y.token) (x ∷ xs) ≡ true) h (rw (eq_refl x.token) refl)

less_recent_any :
    (o : Option LocalAssetEntry) (x e : LocalAssetEntry) (xs : List LocalAssetEntry)
    → ((f : LocalAssetEntry) → o ≡ some f → any_by (has_token f.token) xs ≡ true)
    → less_recent x o ≡ some e
    → any_by (has_token e.token) (x ∷ xs) ≡ true
less_recent_any none x e xs ih h = token_any e x xs (some_eq h)
less_recent_any (some f) x e xs ih h =
    elim (Bool-cases (leb x.last_access_sequence f.last_access_sequence)) [
      | inl m ↦ token_any e x xs (some_eq (rw m at h))
      | inr m ↦ let later = ih e (rw m at h) in ground (arith, later)
    ]

least_recent_any :
    (xs : List LocalAssetEntry) (e : LocalAssetEntry)
    → least_recent xs ≡ some e
    → any_by (has_token e.token) xs ≡ true
least_recent_any [] e h = cc
least_recent_any (x ∷ xs) e h = less_recent_any (least_recent xs) x e xs (least_recent_any xs) h

-- A removal only drops entries, and its token's entry.
remove_entry-length :
    (o : Option LocalAssetEntry) (r : LocalAssetRegistry)
    → length (remove_entry o r).by_token ≤ length r.by_token
remove_entry-length none r = omega arith
remove_entry-length (some e) r = length-delete_where_le (has_token e.token) r.by_token

remove_token-lt :
    (token : String) (r : LocalAssetRegistry)
    → any_by (has_token token) r.by_token ≡ true
    → length (remove_token token r).by_token < length r.by_token
unfolding remove_token
remove_token-lt token r h = elim (Option-cases (entry_for token r)) [
  | inl m ↦ absurd (true≢false (sym h ∙ any_by-find_by (has_token token) r.by_token ∙ ap is_some m))
  | inr (e, m) ↦ rw m (
      length-delete_where_lt (has_token e.token) r.by_token
        (find_by_any (has_token token) (has_token e.token) r.by_token m (eq_refl e.token)))
]

remove_entry-config :
    (o : Option LocalAssetEntry) (r : LocalAssetRegistry) → (remove_entry o r).config ≡ r.config
remove_entry-config none r = refl
remove_entry-config (some e) r = refl

least_recent_some : (xs : List LocalAssetEntry) → least_recent xs ≡ none → length xs ≡ 0
least_recent_some [] h = refl
least_recent_some (x ∷ xs) h = not_none (least_recent xs) h
  where
    not_none : (o : Option LocalAssetEntry) → less_recent x o ≡ none → length (x ∷ xs) ≡ 0
    not_none none e = cc
    not_none (some f) e = ground arith

remove_token-config :
    (token : String) (r : LocalAssetRegistry) → (remove_token token r).config ≡ r.config
unfolding remove_token
remove_token-config token r = remove_entry-config (entry_for token r) r

-- The entries fit the capacity.
abbrev pub Bounded : LocalAssetRegistry → Type 0
Bounded r = length r.by_token ≤ r.config.max_entries

pub remove_token-Bounded :
    (token : String) (r : LocalAssetRegistry) → Bounded r → Bounded (remove_token token r)
unfolding remove_token
remove_token-Bounded token r h =
    rw (remove_entry-config (entry_for token r) r)
      (omega (arith, remove_entry-length (entry_for token r) r))

enforce_loop-Bounded :
    (fuel : ℕ) (r : LocalAssetRegistry)
    → length r.by_token ≤ fuel + r.config.max_entries
    → Bounded (enforce_loop fuel r)
unfolding enforce_loop
enforce_loop-Bounded zero r h = omega arith
enforce_loop-Bounded (suc fuel) r h =
    elim (Bool-cases (ltb r.config.max_entries (length r.by_token))) [
      | inr within ↦ subst Bounded (sym (enforce_loop_within (suc fuel) r within)) (ground arith)
      | inl over ↦ elim (Option-cases (least_recent r.by_token)) [
        | inl m ↦
            subst Bounded (sym (enforce_loop_empty (suc fuel) r m))
              (omega (arith, least_recent_some r.by_token m))
        | inr (e, m) ↦
            subst Bounded (sym (enforce_loop_over fuel r e over m))
              (enforce_loop-Bounded fuel (remove_token e.token r) (shrunk e m))
      ]
    ]
  where
    shrunk :
        (e : LocalAssetEntry)
        → least_recent r.by_token ≡ some e
        → length (remove_token e.token r).by_token
          ≤ fuel + (remove_token e.token r).config.max_entries
    shrunk e m =
        rw (remove_token-config e.token r)
          (omega (arith, remove_token-lt e.token r (least_recent_any r.by_token e m)))

-- Whatever the registry holds, the eviction leaves at most its capacity.
pub enforce_capacity-Bounded : (r : LocalAssetRegistry) → Bounded (enforce_capacity r)
unfolding enforce_capacity
enforce_capacity-Bounded r = enforce_loop-Bounded (length r.by_token) r (omega arith)
