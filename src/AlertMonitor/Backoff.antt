-- ===== src/AlertMonitor/Backoff.antt =====
-- How long the monitor sleeps when cycles fail.
use codex_app.AlertMonitor.{AlertMonitorConfig, after_cycle}
use codex_app.Prelude.{
  ℕ, zero, suc, ◌+◌, ◌-◌, ◌*◌, ◌^◌, ◌≤◌, ◌<◌, ◌≡◌, min, Result, ok, err, List, [], ◌∷◌, arith,
  length, ap, ◌∙◌, saturating_add, saturating_mul, u64_max,
}

-- The failures that `run` counts after some outcomes of cycles.
abbrev pub failures_after : {E : Type 0} → AlertMonitorConfig → List (Result E ℕ) → ℕ → ℕ
unfolding after_cycle
failures_after config [] failures = failures
failures_after config (r ∷ outcomes) failures =
    failures_after config outcomes ((after_cycle config r failures).0)

abbrev pub all_failed : {E : Type 0} → List E → List (Result E ℕ)
all_failed [] = []
all_failed (e ∷ errors) = err e ∷ all_failed errors

count_failures :
    {E : Type 0} (config : AlertMonitorConfig) (errors : List E) (failures : ℕ)
    → failures + length errors < 2 ^ 32
    → failures_after config (all_failed errors) failures ≡ failures + length errors
unfolding after_cycle failures_after
count_failures config [] failures h = omega arith
count_failures config (e ∷ errors) failures h =
    let one : min (failures + 1) 4294967295 ≡ failures + 1 = omega arith in
    ap (failures_after config (all_failed errors)) one
    ∙ count_failures config errors (failures + 1) (omega arith)
    ∙ omega arith

step_at : (n : ℕ) → 2 ^ min n 3 ≤ 8
step_at zero = omega arith
step_at (suc zero) = omega arith
step_at (suc (suc zero)) = omega arith
step_at (suc (suc (suc n))) =
    let top : min (suc (suc (suc n))) 3 ≡ 3 = omega arith in rw top (omega arith)

zero_add : (n : ℕ) → 0 + n ≡ n
zero_add n = omega arith

delay_at :
    (n : ℕ)
    → n + 1 < 2 ^ 32
    → saturating_mul u64_max 5 (2 ^ min (saturating_add (2 ^ 32 - 1) n 1 - 1) 3) * 1_000
      ≡ 5_000 * 2 ^ min n 3
delay_at n h =
    let counted : min (n + 1) 4294967295 - 1 ≡ n = omega arith in
    rw counted (omega (arith, step_at n))

-- After a cycle that succeeded, the sleep after the n-th further cycle that fails in a row is
-- 5 seconds doubled n - 1 times, thrice at most, and never longer than the configured bound.
pub nth_failure_delay :
    {E : Type 0} (config : AlertMonitorConfig) (delay failures : ℕ) (errors : List E) (e : E)
    → length errors + 1 < 2 ^ 32
    → (after_cycle config (err e) (failures_after config (ok delay ∷ all_failed errors) failures)).1
      ≡ min (5_000 * 2 ^ min (length errors) 3) config.max_error_backoff
unfolding after_cycle failures_after
nth_failure_delay config delay failures errors e h =
    rw (count_failures config errors 0 (omega arith), zero_add (length errors))
      (ap (λ d. min d config.max_error_backoff) (delay_at (length errors) h))
