-- ===== src/Workspace/Allowed.antt =====
-- The accepted workspaces are those that are offered.
use mathlib.Core.Path.{subst}
use codex_app.Codex.{CodexThread}
use codex_app.Protocol.{WorkspaceOption}
use codex_app.Json.{filter_map, filter_option}
use codex_app.Workspace.{
  WorkspaceValidationError, cwds, sorted_set, canonical_workspace, workspace_options,
  validate_workspace, check_shape, check_canonical, is_root, is_allowed_path_shape,
}
use codex_app.Prelude.{
  is_absolute, String, Bool, true, false, not, ◌&&◌, ◌||◌, Option, none, some, List, ◌==◌, ◌≡◌,
  refl, sym, ap, ◌∙◌, map, any_by, Result, ok, err, Bool-cases, some_eq, inl, inr, if◌then◌else◌,
}
use codex_app.Workspace.Offers.{
  offers, has, has-sorted_set, offers-has, filter_map-has, has-map, filter_map-fixed,
}

none≢some : (w : String) → ¬ (none ≡ some w)
none≢some w h = cc

refused :
    (e : WorkspaceValidationError) (o : WorkspaceOption)
    → ¬ (◌≡◌ {A = Result WorkspaceValidationError WorkspaceOption} (err e) (ok o))
refused e o h = cc

cwd_of : String → Result WorkspaceValidationError WorkspaceOption → String
cwd_of w (ok o) = o.cwd
cwd_of w (err e) = w

module _ (canonicalize : String → Option String) (is_existing_directory : String → Bool)
    (to_string_lossy : String → String) where
  -- The canonical paths that `workspace_options` shows and `validate_workspace` compares with.
  abbrev canonicals : List CodexThread → List String
  unfolding canonical_workspace
  canonicals threads =
      filter_map (canonical_workspace canonicalize is_existing_directory to_string_lossy)
        (cwds threads)

  offers-workspace_options :
      (w : String) (threads : List CodexThread)
      → offers w (workspace_options canonicalize is_existing_directory to_string_lossy threads)
        ≡ has w (map to_string_lossy (canonicals threads))
  unfolding workspace_options canonicals
  offers-workspace_options w threads =
      offers-has w (sorted_set (map to_string_lossy (canonicals threads)))
      ∙ has-sorted_set w (map to_string_lossy (canonicals threads))

  check_canonical_ok :
      (threads : List CodexThread) (w : String) (o : WorkspaceOption)
      → check_canonical canonicalize is_existing_directory to_string_lossy threads w ≡ ok o
      → (o.cwd ≡ to_string_lossy w)
        × (offers
              (to_string_lossy w)
              (workspace_options canonicalize is_existing_directory to_string_lossy threads)
            ≡ true)
        × (is_root w ≡ false)
        × (is_existing_directory w ≡ true)
  unfolding check_canonical cwd_of
  check_canonical_ok threads w o h = elim (Bool-cases (is_root w)) [
    | inl root ↦ absurd (refused _ o (rw root at h))
    | inr not_root ↦ elim (Bool-cases (is_existing_directory w)) [
      | inr gone ↦ absurd (refused _ o (rw (not_root, gone) at h))
      | inl dir ↦
          elim (Bool-cases (
            has w (
              filter_map (canonical_workspace canonicalize is_existing_directory to_string_lossy)
                (cwds threads)))) [
                  | inr missing ↦ absurd (refused _ o (rw (not_root, dir, missing) at h))
                  | inl there ↦ (
                    sym (ap (cwd_of (to_string_lossy w)) (rw (not_root, dir, there) at h)),
                    offers-workspace_options (to_string_lossy w) threads
                        ∙ has-map to_string_lossy w _ there,
                    not_root,
                    dir,
                  )
                ]
    ]
  ]

  canonical_workspace-some :
      (cwd w : String)
      → canonical_workspace canonicalize is_existing_directory to_string_lossy cwd ≡ some w
      → (canonicalize cwd ≡ some w) × (is_root w ≡ false) × (is_existing_directory w ≡ true)
  unfolding canonical_workspace
  canonical_workspace-some cwd w h = elim (Bool-cases (is_allowed_path_shape cwd)) [
    | inr shape ↦ absurd (none≢some w (rw shape at h))
    | inl shape ↦ go (canonicalize cwd) refl (rw shape at h)
  ]
    where
      go :
          (o : Option String)
          → canonicalize cwd ≡ o
          → filter_option (λ c. not (is_root c || not (is_existing_directory c))) o ≡ some w
          → (canonicalize cwd ≡ some w) × (is_root w ≡ false) × (is_existing_directory w ≡ true)
      go none e k = absurd (none≢some w k)
      go (some c) e k = elim (Bool-cases (is_root c)) [
        | inl root ↦ absurd (none≢some w (rw root at k))
        | inr not_root ↦ elim (Bool-cases (is_existing_directory c)) [
          | inr gone ↦ absurd (none≢some w (rw (not_root, gone) at k))
          | inl dir ↦
              subst
                (λ z.
                  (canonicalize cwd ≡ some z)
                  × (is_root z ≡ false)
                  × (is_existing_directory z ≡ true))
                (some_eq (rw (not_root, dir) at k)) (e, not_root, dir)
        ]
      ]

  -- A workspace that is accepted is one of those that are offered, and is the text that
  -- `to_string_lossy` makes of the canonical path of what was requested, which is not the root and is
  -- a directory.
  pub accepted_is_offered :
      (threads : List CodexThread) (requested : Option String) {o : WorkspaceOption}
      → validate_workspace canonicalize is_existing_directory to_string_lossy threads requested
        ≡ ok o
      → (cwd : String) × (canonical : String) × (requested ≡ some cwd)
        × (canonicalize cwd ≡ some canonical)
        × (o.cwd ≡ to_string_lossy canonical)
        × (offers o.cwd
              (workspace_options canonicalize is_existing_directory to_string_lossy threads)
            ≡ true)
        × (is_root canonical ≡ false)
        × (is_existing_directory canonical ≡ true)
  unfolding validate_workspace check_shape
  accepted_is_offered threads none {o} h = absurd (refused _ o h)
  accepted_is_offered threads (some cwd) {o} h = elim (Bool-cases (is_allowed_path_shape cwd)) [
    | inr shape ↦ absurd (refused _ o (rw shape at h))
    | inl shape ↦ go (canonicalize cwd) refl (rw shape at h)
  ]
    where
      unknown : Bool → Result WorkspaceValidationError WorkspaceOption
      unknown b =
          if b
          then err WorkspaceValidationError.unavailable
          else err WorkspaceValidationError.not_allowed

      unknown_refused : (b : Bool) → unknown b ≡ ok o → ⊥
      unknown_refused true k = refused _ o k
      unknown_refused false k = refused _ o k

      go :
          (c : Option String)
          → canonicalize cwd ≡ c
          → elim c [
            | some canonical ↦
                check_canonical canonicalize is_existing_directory to_string_lossy threads canonical
            | none ↦ unknown (any_by (λ known. known == cwd) (cwds threads))
          ]
            ≡ ok o
          → (x : String) × (canonical : String) × (some cwd ≡ some x)
            × (canonicalize x ≡ some canonical)
            × (o.cwd ≡ to_string_lossy canonical)
            × (offers o.cwd
                  (workspace_options canonicalize is_existing_directory to_string_lossy threads)
                ≡ true)
            × (is_root canonical ≡ false)
            × (is_existing_directory canonical ≡ true)
      go none e k = absurd (unknown_refused _ k)
      go (some c) e k =
          let (same, offered, not_root, dir) = check_canonical_ok threads c o k in
          (cwd, c, refl, e, same, rw same offered, not_root, dir)

  shape_allowed :
      (w : String) → is_absolute w ≡ true → is_root w ≡ false → is_allowed_path_shape w ≡ true
  unfolding is_allowed_path_shape
  shape_allowed w absolute not_root = ap (λ b. b && not (is_root w)) absolute ∙ ap not not_root

  check_canonical_passes :
      (threads : List CodexThread) (w : String)
      → is_root w ≡ false
      → is_existing_directory w ≡ true
      → has w (
          filter_map
            (canonical_workspace canonicalize is_existing_directory to_string_lossy)
            (cwds threads))
        ≡ true
      → check_canonical canonicalize is_existing_directory to_string_lossy threads w
        ≡ ok record { cwd = to_string_lossy w }
  unfolding check_canonical
  check_canonical_passes threads w not_root dir listed = rw (not_root, dir, listed) refl

  -- Where a canonical path is absolute, its own canonical path, and UTF-8, so that `to_string_lossy`
  -- leaves it as it is: a workspace that is offered is accepted when it is requested by the text that
  -- is offered.
  pub offered_is_accepted :
      ((p c : String)
        → canonicalize p ≡ some c
        → (canonicalize c ≡ some c) × (is_absolute c ≡ true) × (to_string_lossy c ≡ c))
      → (threads : List CodexThread) (w : String)
      → offers w (workspace_options canonicalize is_existing_directory to_string_lossy threads)
        ≡ true
      → validate_workspace canonicalize is_existing_directory to_string_lossy threads (some w)
        ≡ ok record { cwd = w }
  unfolding validate_workspace check_shape canonicals
  offered_is_accepted canonical threads w h =
      let same =
        filter_map-fixed (canonical_workspace canonicalize is_existing_directory to_string_lossy)
          to_string_lossy (λ p c e. (canonical p c (canonical_workspace-some p c e).0).2)
          (cwds threads) in
      let listed = ap (has w) (sym same) ∙ sym (offers-workspace_options w threads) ∙ h in
      let (cwd, found) =
        filter_map-has (canonical_workspace canonicalize is_existing_directory to_string_lossy) w
          (cwds threads) listed in
      let (resolved, not_root, dir) = canonical_workspace-some cwd w found in
      let (fixed, absolute, text) = canonical cwd w resolved in
      rw (shape_allowed w absolute not_root, fixed)
        (check_canonical_passes threads w not_root dir listed
          ∙ ap (λ (x : String). ok record { cwd = x }) text)
