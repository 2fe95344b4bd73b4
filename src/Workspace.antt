-- ===== src/Workspace.antt =====
-- crates/bridge-core/src/workspace.rs: the directories in which a session may be started. The file
-- system's answers are parameters. A path is carried as a text in which paths that compare equal are
-- equal; as a path need not be UTF-8, `to_string_lossy` is a parameter as well.
pub mod Offers
pub mod Allowed
use Prim.Native.String.{compare as compare_text}
use Prim.Native.Nat.{Ordering}
use Prim.Native.Char.{code}
use codex_app.Codex.{CodexThread}
use codex_app.Protocol.{WorkspaceOption}
use codex_app.Json.{and_then, filter_option, filter_map}
use codex_app.Prelude.{
  String, Bool, true, false, not, ◌&&◌, ◌||◌, Option, none, some, List, [], ◌∷◌, ◌==◌, map, any_by,
  nat_eq, is_some, is_absolute, components, split_by, Result, ok, err, if◌then◌else◌,
}

pub data WorkspaceValidationError : Type 0 where
  required not_allowed unavailable : WorkspaceValidationError

abbrev no_components : List String → Bool
no_components [] = true
no_components (part ∷ parts) = false

-- The path is the root, however it is written.
unfoldable pub is_root : String → Bool
unfolding split_by
is_root path =
    is_absolute path && no_components (components (split_by (λ c. nat_eq (code c) b'/') path))

unfoldable pub is_allowed_path_shape : String → Bool
unfolding is_root
is_allowed_path_shape cwd = is_absolute cwd && not (is_root cwd)

abbrev pub cwds : List CodexThread → List String
cwds threads = filter_map (λ thread. thread.cwd) threads

abbrev pub by_order : Ordering → List String → List String → List String → List String
by_order Ordering.lt before same after = before
by_order Ordering.eq before same after = same
by_order Ordering.gt before same after = after

-- `insert` into a sorted set.
abbrev pub insert_text : String → List String → List String
insert_text x [] = x ∷ []
insert_text x (y ∷ ys) =
    let rest = insert_text x ys in by_order (compare_text x y) (x ∷ y ∷ ys) (y ∷ ys) (y ∷ rest)

abbrev pub sorted_set : List String → List String
sorted_set [] = []
sorted_set (x ∷ xs) = insert_text x (sorted_set xs)

-- `canonicalize` and whether a path is that of a directory, as the file system answers.
module _ (canonicalize : String → Option String) (is_existing_directory : String → Bool)
    (to_string_lossy : String → String) where
  unfoldable pub canonical_workspace : String → Option String
  unfolding is_allowed_path_shape is_root
  canonical_workspace cwd =
      if is_allowed_path_shape cwd
      then filter_option
          (λ canonical. not (is_root canonical || not (is_existing_directory canonical)))
          (canonicalize cwd)
      else none

  unfoldable pub workspace_options : List CodexThread → List WorkspaceOption
  unfolding canonical_workspace
  workspace_options threads =
      map (λ cwd. record { cwd = cwd })
        (sorted_set (map to_string_lossy (filter_map canonical_workspace (cwds threads))))

  unfoldable pub check_canonical :
      List CodexThread → String → Result WorkspaceValidationError WorkspaceOption
  unfolding canonical_workspace is_root
  check_canonical threads canonical =
      if is_root canonical
      then err WorkspaceValidationError.not_allowed
      else if not (is_existing_directory canonical)
      then err WorkspaceValidationError.unavailable
      else if not
          (any_by (λ allowed. allowed == canonical) (filter_map canonical_workspace (cwds threads)))
      then err WorkspaceValidationError.not_allowed
      else ok record { cwd = to_string_lossy canonical }

  unfoldable pub check_shape :
      List CodexThread → String → Result WorkspaceValidationError WorkspaceOption
  unfolding check_canonical is_allowed_path_shape
  check_shape threads cwd =
      if not (is_allowed_path_shape cwd)
      then err WorkspaceValidationError.not_allowed
      else elim (canonicalize cwd) [
        | some canonical ↦ check_canonical threads canonical
        | none ↦
            if any_by (λ known. known == cwd) (cwds threads)
            then err WorkspaceValidationError.unavailable
            else err WorkspaceValidationError.not_allowed
      ]

  unfoldable pub validate_workspace :
      List CodexThread → Option String → Result WorkspaceValidationError WorkspaceOption
  unfolding check_shape
  validate_workspace threads none = err WorkspaceValidationError.required
  validate_workspace threads (some cwd) = check_shape threads cwd
