-- ===== src/Normalizer/Details.antt =====
-- The bound of a detail's length.
use Prim.Native.String.{count}
use mathlib.Core.Path.{subst}
use text.Mathlib.TextLemmas.{length-append}
use codex_app.Normalizer.Labels.{
  squeeze, bounded_plain_text, bounded_safe_detail, contains_absolute_path,
}
use codex_app.Prelude.{
  ℕ, ◌+◌, ◌≤◌, String, none, some, ◌≡◌, arith, Bool-cases, inl, inr, ltb, some_eq, take_chars,
  count-take_chars, is_empty_text, ◌||◌,
}

pub bounded_plain_text-count :
    (value : String) (max_chars : ℕ) → count (bounded_plain_text value max_chars) ≤ max_chars + 1
unfolding bounded_plain_text
bounded_plain_text-count value max_chars =
    elim (Bool-cases (ltb max_chars (count (squeeze value)))) [
      | inl over ↦ rw over (
          omega (
            arith,
            length-append (take_chars max_chars (squeeze value)) "…",
            count-take_chars max_chars (squeeze value),
          ))
      | inr within ↦ rw within (omega (arith, count-take_chars max_chars (squeeze value)))
    ]

-- A detail is at most one character longer than the bound it was made for, the ellipsis, whatever
-- text the server sent.
pub detail_bounded :
    (value : String) (max_chars : ℕ) {detail : String}
    → bounded_safe_detail value max_chars ≡ some detail
    → count detail ≤ max_chars + 1
unfolding bounded_safe_detail
detail_bounded value max_chars {detail} h =
    elim (Bool-cases (is_empty_text (squeeze value) || contains_absolute_path (squeeze value))) [
      | inl refused ↦ let refused_h : none ≡ some detail = rw refused at h in cc
      | inr kept ↦
          subst (λ t. count t ≤ max_chars + 1) (some_eq (rw kept at h))
            (bounded_plain_text-count (squeeze value) max_chars)
    ]
