-- ===== src/Tests/Assets.antt =====
-- The local assets after concrete calls.
use Prim.Native.String.{count, char_at}
use text.Mathlib.TextLemmas.{length-cons}
use codex_app.Prelude.{
  ℕ, zero, suc, String, ◌*◌, ◌≡◌, refl, sym, ap, ◌∙◌, some, List, [], ◌∷◌, arith,
}
use codex_app.LocalAssets.{
  default_config, with_config, path_for, register_image, entry_for, is_expired, now,
}
use codex_app.LocalAssets.Consistency.{Consistent}
use codex_app.LocalAssets.Eviction.{Bounded}
use codex_app.LocalAssets.Lookup.{live_path}
use codex_app.LocalAssets.Calls.{
  AssetCall, register, fetch, run_calls, run_calls-Bounded, run_calls-Consistent, path_for_reached,
}

-- The generator's n-th token: n letters.
letters : ℕ → String
letters zero = ""
letters (suc n) = String.◌∷◌ (char_at "x" 0) (letters n)

count-letters : (n : ℕ) → count (letters n) ≡ n
unfolding letters
count-letters zero = refl
count-letters (suc n) = omega (arith, length-cons (char_at "x" 0) (letters n), count-letters n)

letters_injective : (i j : ℕ) → letters i ≡ letters j → i ≡ j
letters_injective i j h = sym (count-letters i) ∙ ap count h ∙ count-letters j

-- A clock that shows a minute more at each call.
abbrev minutes : ℕ → ℕ
minutes n = n * 60_000

abbrev asset_calls : List AssetCall
asset_calls = register "/tmp/a.png" ∷ register "/tmp/b.png" ∷ register "/tmp/a.png" ∷ fetch "x" ∷ []

run_calls-Bounded_example :
    Bounded (run_calls minutes letters asset_calls (with_config default_config))
run_calls-Bounded_example = run_calls-Bounded minutes letters default_config asset_calls

run_calls-Consistent_example :
    Consistent letters (run_calls minutes letters asset_calls (with_config default_config))
run_calls-Consistent_example =
    run_calls-Consistent minutes letters letters_injective default_config asset_calls

path_for_reached_example :
    let r = run_calls minutes letters asset_calls (with_config default_config) in
    (path_for minutes letters "x" r).0
    ≡ live_path (is_expired r (now minutes letters r)) (entry_for "x" r)
path_for_reached_example =
    path_for_reached minutes letters letters_injective default_config asset_calls "x"

fetched :
    (path_for minutes letters "x"
      (run_calls minutes letters asset_calls (with_config default_config))).0
    ≡ some "/tmp/b.png"
unfolding path_for register_image letters
fetched = refl
