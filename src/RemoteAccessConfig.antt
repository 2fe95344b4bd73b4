-- ===== src/RemoteAccessConfig.antt =====
-- crates/desktop-core/src/remote_access_config.rs: the file that keeps the profile of the named
-- tunnel. A disk gives the contents of each file; what the operating system answers to each call,
-- the parsing of URLs and the JSON form of the preferences are parameters. Paths are texts without
-- "." components.
pub mod Saving
pub mod Profiles
pub mod Reading
use Prim.Native.String.{◌++◌}
use Prim.Native.Char.{code}
use codex_app.Prelude.{
  String, ℕ, Bool, false, not, ◌&&◌, ◌||◌, Option, none, some, List, [], ◌∷◌, ◌++◌ as append, ◌==◌,
  nat_eq, is_some, is_absolute, components, split_by, file_name, join, includes, trim_by,
  is_whitespace, to_ascii_lowercase, Result, ok, err, Exec, ◌>>◌, if◌then◌else◌,
}

pub data IoErrorKind : Type 0 where
  not_found already_exists invalid_input other : IoErrorKind

pub data RemoteAccessConfigError (JsonError : Type 0) : Type 0 where
  invalid_port invalid_hostname : RemoteAccessConfigError JsonError
  io : IoErrorKind → RemoteAccessConfigError JsonError
  json : JsonError → RemoteAccessConfigError JsonError

pub record NamedTunnelProfile : Type 0 where
  pub hostname : String
  pub local_port : ℕ

pub record RemoteAccessPreferences : Type 0 where
  pub named_tunnel : Option NamedTunnelProfile

-- What the code asks of a parsed URL.
pub record HostAndPort : Type 0 where
  pub host_str : Option String
  pub port : Option ℕ

-- How the operating system answers each call: with a failure, or not. `written` is what a failed
-- write has left in the file.
pub record Answers : Type 0 where
  pub read : Option IoErrorKind
  pub create : Option IoErrorKind
  pub write : Option IoErrorKind
  pub flush : Option IoErrorKind
  pub sync : Option IoErrorKind
  pub rename : Option IoErrorKind
  pub remove : Option IoErrorKind
  pub written : String

abbrev pub Disk : Type 0
Disk = String → Option String

abbrev pub put : String → Option String → Disk → Disk
put path contents disk file = if file == path then contents else disk file

-- A call that fails as answered, and changes the disk otherwise.
abbrev pub call : Option IoErrorKind → (Disk → Disk) → Exec IoErrorKind Disk Unit
call none change disk = (ok tt, change disk)
call (some e) change disk = (err e, disk)

-- A failing write leaves what it has written.
abbrev pub write_all : Option IoErrorKind → String → String → String → Exec IoErrorKind Disk Unit
write_all none written path contents disk = (ok tt, put path (some contents) disk)
write_all (some e) written path contents disk = (err e, put path (some written) disk)

-- `create_new`
abbrev pub create_new : Answers → String → Exec IoErrorKind Disk Unit
create_new answers path disk =
    if is_some (disk path)
    then (err IoErrorKind.already_exists, disk)
    else call answers.create (put path (some "")) disk

abbrev pub remove_answer : Answers → String → Disk → Option IoErrorKind
remove_answer answers path disk =
    if is_some (disk path) then answers.remove else some IoErrorKind.not_found

abbrev pub remove_file : Answers → String → Exec IoErrorKind Disk Unit
remove_file answers path disk = call (remove_answer answers path disk) (put path none) disk

-- `let _ = fs::remove_file(path); return Err(error)`
abbrev pub or_remove :
    Answers → String → Result IoErrorKind Unit × Disk → Result IoErrorKind Unit × Disk
or_remove answers path (ok u, disk) = (ok u, disk)
or_remove answers path (err e, disk) = (err e, (remove_file answers path disk).1)

unfoldable pub write_temp_file : Answers → String → String → Exec IoErrorKind Disk Unit
write_temp_file answers path contents = create_new answers path >> λ disk. or_remove answers path (
    (write_all answers.write answers.written path contents
        >> call answers.flush (λ d. d)
        >> call answers.sync (λ d. d))
      disk)

-- The file to be renamed is there: it has just been written.
abbrev pub rename_file : Answers → String → String → Exec IoErrorKind Disk Unit
rename_file answers from to disk = call answers.rename (λ d. put from none (put to (d from) d)) disk

abbrev pub all_but_last : List String → List String
all_but_last [] = []
all_but_last (part ∷ []) = []
all_but_last (part ∷ part' ∷ parts) = part ∷ all_but_last (part' ∷ parts)

-- `.{file name}.tmp-{uuid}` beside the file
unfoldable pub temp_path : (String → String) → String → String → String → String
unfolding join split_by
temp_path to_string_lossy path name uuid =
    (if is_absolute path then "/" else "")
    ++ join "/" (
        append (all_but_last (components (split_by (λ c. nat_eq (code c) b'/') path)))
          (("." ++ to_string_lossy name ++ ".tmp-" ++ uuid) ∷ []))

-- The file is replaced by a temporary one that has been written whole.
unfoldable pub replace_file : Answers → String → String → String → Exec IoErrorKind Disk Unit
unfolding write_temp_file
replace_file answers path temp contents = write_temp_file answers temp contents >> λ disk.
    or_remove answers temp (rename_file answers temp path disk)

-- A file that was not there is deleted.
abbrev pub allow_missing : Result IoErrorKind Unit → Result IoErrorKind Unit
allow_missing (ok u) = ok u
allow_missing (err IoErrorKind.not_found) = ok tt
allow_missing (err e) = err e

unfoldable pub delete : Answers → String → Exec IoErrorKind Disk Unit
delete answers path disk =
    let (r, disk') = remove_file answers path disk in (allow_missing r, disk')

-- A URL has the text as its host, and no port.
abbrev pub is_only_host : String → Option String → Option ℕ → Bool
is_only_host trimmed none port = false
is_only_host trimmed (some host) port = host == trimmed && not (is_some port)

-- The parser of the `url` crate, the two directions of `serde_json`, and `to_string_lossy`.
module _ {JsonError : Type 0} (parse_url : String → Option HostAndPort)
    (to_text : RemoteAccessPreferences → Result JsonError String)
    (from_text : String → Result JsonError RemoteAccessPreferences)
    (to_string_lossy : String → String) where
  abbrev Error : Type 0
  Error = RemoteAccessConfigError JsonError

  abbrev pub check_parsed : String → ℕ → Option HostAndPort → Result Error NamedTunnelProfile
  check_parsed trimmed local_port none = err RemoteAccessConfigError.invalid_hostname
  check_parsed trimmed local_port (some parsed) =
      if is_only_host trimmed parsed.host_str parsed.port
      then ok record { hostname = trimmed; local_port = local_port }
      else err RemoteAccessConfigError.invalid_hostname

  abbrev pub check_hostname : String → ℕ → Result Error NamedTunnelProfile
  check_hostname trimmed local_port =
      if includes trimmed "://" || includes trimmed "/"
      then err RemoteAccessConfigError.invalid_hostname
      else check_parsed trimmed local_port (parse_url ("https://" ++ trimmed))

  unfoldable pub new_profile : String → ℕ → Result Error NamedTunnelProfile
  unfolding to_ascii_lowercase trim_by
  new_profile hostname local_port =
      if nat_eq local_port 0
      then err RemoteAccessConfigError.invalid_port
      else check_hostname (to_ascii_lowercase (trim_by is_whitespace hostname)) local_port

  -- The profile read is checked as a new one is.
  unfoldable pub check_preferences : RemoteAccessPreferences → Result Error RemoteAccessPreferences
  unfolding new_profile
  check_preferences preferences = elim preferences.named_tunnel [
    | none ↦ ok record { named_tunnel = none }
    | some profile ↦ elim (new_profile profile.hostname profile.local_port) [
      | ok checked ↦ ok record { named_tunnel = some checked }
      | err e ↦ err e
    ]
  ]

  abbrev pub load_text : String → Result Error RemoteAccessPreferences
  load_text contents = elim (from_text contents) [
    | err e ↦ err (RemoteAccessConfigError.json e)
    | ok preferences ↦ check_preferences preferences
  ]

  abbrev pub read_failed : IoErrorKind → Result Error RemoteAccessPreferences
  read_failed IoErrorKind.not_found = ok record { named_tunnel = none }
  read_failed e = err (RemoteAccessConfigError.io e)

  unfoldable pub load : Answers → String → Disk → Result Error RemoteAccessPreferences
  unfolding check_preferences
  load answers path disk = elim (disk path) [
    | none ↦ read_failed IoErrorKind.not_found
    | some contents ↦ elim answers.read [ none ↦ load_text contents | some e ↦ read_failed e ]
  ]

  -- The failure of a call is passed on with `into()`.
  abbrev pub passed_on : Result IoErrorKind Unit × Disk → Result Error Unit × Disk
  passed_on (ok u, disk) = (ok u, disk)
  passed_on (err e, disk) = (err (RemoteAccessConfigError.io e), disk)

  unfoldable pub save_text : Answers → String → String → String → Disk → Result Error Unit × Disk
  unfolding replace_file temp_path
  save_text answers path uuid contents disk = elim (file_name path) [
    | none ↦ (err (RemoteAccessConfigError.io IoErrorKind.invalid_input), disk)
    | some name ↦
        passed_on
          (replace_file answers path (temp_path to_string_lossy path name uuid) contents disk)
  ]

  unfoldable pub save :
      Answers → String → String → RemoteAccessPreferences → Disk → Result Error Unit × Disk
  unfolding save_text
  save answers path uuid preferences disk = elim (to_text preferences) [
    | err e ↦ (err (RemoteAccessConfigError.json e), disk)
    | ok contents ↦ save_text answers path uuid contents disk
  ]
