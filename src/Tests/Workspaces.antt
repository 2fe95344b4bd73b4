-- ===== src/Tests/Workspaces.antt =====
-- Workspaces of concrete threads.
use mathlib.Core.Path.{subst}
use codex_app.Codex.{CodexThread}
use codex_app.Protocol.{WorkspaceOption}
use codex_app.Json.{null}
use codex_app.Workspace.{workspace_options, validate_workspace, is_root}
use codex_app.Workspace.Offers.{offers}
use codex_app.Workspace.Allowed.{accepted_is_offered, offered_is_accepted}
use codex_app.Prelude.{
  String, ◌==◌, ◌≡◌, refl, Bool, true, false, Option, none, some, List, [], ◌∷◌, ok, is_absolute,
  Bool-cases, inl, inr, if◌then◌else◌, some_eq,
}

-- Two paths lead to one directory.
abbrev resolved : String → Option String
resolved path =
    if path == "/link" then some "/work" else if path == "/work" then some "/work" else none

abbrev directory : String → Bool
directory path = path == "/work"

abbrev lossy : String → String
lossy path = path

abbrev thread_in : String → CodexThread
thread_in cwd = record {
  id = "th";
  title = none;
  cwd = some cwd;
  model_provider = none;
  preview = none;
  created_at = none;
  updated_at = none;
  raw = null;
}

abbrev threads : List CodexThread
threads = thread_in "/gone" ∷ thread_in "/link" ∷ []

abbrev work : WorkspaceOption
work = record { cwd = "/work" }

accepted_is_offered_example :
    (cwd : String) × (canonical : String) × (some "/work" ≡ some cwd)
    × (resolved cwd ≡ some canonical)
    × (work.cwd ≡ lossy canonical)
    × (offers work.cwd (workspace_options resolved directory lossy threads) ≡ true)
    × (is_root canonical ≡ false)
    × (directory canonical ≡ true)
unfolding validate_workspace
accepted_is_offered_example =
    accepted_is_offered resolved directory lossy threads (some "/work") refl

settled :
    (p c : String)
    → resolved p ≡ some c
    → (resolved c ≡ some c) × (is_absolute c ≡ true) × (lossy c ≡ c)
settled p c h = elim (Bool-cases (p == "/link")) [
  | inl link ↦ at_work (rw link at h)
  | inr other ↦ elim (Bool-cases (p == "/work")) [
    | inl same ↦ at_work (rw (other, same) at h)
    | inr gone ↦ absurd (none_is_some (rw (other, gone) at h))
  ]
]
  where
    at_work :
        ◌≡◌ {A = Option String} (some "/work") (some c)
        → (resolved c ≡ some c) × (is_absolute c ≡ true) × (lossy c ≡ c)
    at_work k =
        subst (λ x. (resolved x ≡ some x) × (is_absolute x ≡ true) × (lossy x ≡ x)) (some_eq k)
          (refl, refl, refl)

    none_is_some : ◌≡◌ {A = Option String} none (some c) → ⊥
    none_is_some k = cc

offered_is_accepted_example :
    validate_workspace resolved directory lossy threads (some "/work") ≡ ok work
unfolding workspace_options
offered_is_accepted_example =
    offered_is_accepted resolved directory lossy settled threads "/work" refl
