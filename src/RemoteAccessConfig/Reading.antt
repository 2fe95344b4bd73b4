-- ===== src/RemoteAccessConfig/Reading.antt =====
-- What a load makes of what a save has written.
use Prim.Native.String.{◌++◌}
use codex_app.RemoteAccessConfig.{
  NamedTunnelProfile, RemoteAccessPreferences, RemoteAccessConfigError, HostAndPort, Answers, Disk,
  check_preferences, load, load_text, save, save_text, replace_file, write_temp_file, temp_path,
}
use codex_app.RemoteAccessConfig.Profiles.{is_plain, IsChecked, new_profile_again}
use codex_app.RemoteAccessConfig.Saving.{ReplacedOrKept, save_replaces_or_keeps}
use codex_app.Prelude.{
  file_name, String, true, false, Option, none, some, ◌==◌, ◌≡◌, refl, sym, ◌∙◌, inl, inr, Result,
  ok, err,
}

-- No call fails.
abbrev pub untroubled : Answers
untroubled = record {
  read = none;
  create = none;
  write = none;
  flush = none;
  sync = none;
  rename = none;
  remove = none;
  written = "";
}

-- The parser of the `url` crate, the two directions of `serde_json`, and `to_string_lossy`.
module _ {JsonError : Type 0} (parse_url : String → Option HostAndPort)
    (to_text : RemoteAccessPreferences → Result JsonError String)
    (from_text : String → Result JsonError RemoteAccessPreferences)
    (to_string_lossy : String → String) where
  err≢done :
      (e : RemoteAccessConfigError JsonError)
      → ¬ (◌≡◌ {A = Result (RemoteAccessConfigError JsonError) Unit} (err e) (ok tt))
  err≢done e h = cc

  module _
      (hosts_plain : (text : String) (parsed : HostAndPort) (host : String)
        → parse_url ("https://" ++ text) ≡ some parsed
        → parsed.host_str ≡ some host
        → is_plain host ≡ true) where
    -- The profile, if there is one, is one that `new` has made.
    abbrev pub AreChecked : Option NamedTunnelProfile → Type 0
    AreChecked none = Unit
    AreChecked (some profile) =
        IsChecked {JsonError = JsonError} parse_url to_text from_text to_string_lossy profile

    check_preferences_again :
        (o : Option NamedTunnelProfile)
        → AreChecked o
        → check_preferences {JsonError = JsonError} parse_url to_text from_text to_string_lossy
            record { named_tunnel = o }
          ≡ ok record { named_tunnel = o }
    unfolding check_preferences
    check_preferences_again none h = refl
    check_preferences_again (some profile) h =
        rw
          (
            check_preferences,
            new_profile_again parse_url to_text from_text to_string_lossy hosts_plain profile h,
          )
          refl

    load_text_again :
        (o : Option NamedTunnelProfile) (contents : String)
        → AreChecked o
        → from_text contents ≡ ok record { named_tunnel = o }
        → load_text {JsonError = JsonError} parse_url to_text from_text to_string_lossy contents
          ≡ ok record { named_tunnel = o }
    load_text_again o contents h e = rw (load_text, e) (check_preferences_again o h)

    loaded :
        (path contents : String) (disk : Disk) (p : RemoteAccessPreferences)
        → AreChecked p.named_tunnel
        → from_text contents ≡ ok p
        → disk path ≡ some contents
        → load {JsonError = JsonError} parse_url to_text from_text to_string_lossy untroubled path
            disk
          ≡ ok p
    unfolding load
    loaded path contents disk p h e k = rw (load, k) (load_text_again p.named_tunnel contents h e)

    -- Nothing fails where the file has a name and no temporary file is in the way.
    untroubled-save :
        (path name uuid contents : String) (p : RemoteAccessPreferences) (disk : Disk)
        → file_name path ≡ some name
        → disk (temp_path to_string_lossy path name uuid) ≡ none
        → to_text p ≡ ok contents
        → (save parse_url to_text from_text to_string_lossy untroubled path uuid p disk).0 ≡ ok tt
    unfolding save save_text replace_file write_temp_file
    untroubled-save path name uuid contents p disk e f k =
        rw (save, k, save_text, e, replace_file, write_temp_file, f) refl

    read_back :
        (path contents : String) (p : RemoteAccessPreferences) (before : Disk)
        (out : Result (RemoteAccessConfigError JsonError) Unit × Disk)
        → AreChecked p.named_tunnel
        → from_text contents ≡ ok p
        → out.0 ≡ ok tt
        → ReplacedOrKept path contents before out
        → load {JsonError = JsonError} parse_url to_text from_text to_string_lossy untroubled path
            out.1
          ≡ ok p
    read_back path contents p before (r, after) h e k (inl (x, y)) =
        loaded path contents after p h e y
    read_back path contents p before (r, after) h e k (inr (x, y, z)) =
        absurd (err≢done x (sym y ∙ k))

    -- Where what `serde_json` prints is read as what was printed, and the host of a parsed https URL has
    -- no white space and no capital letter of ASCII: preferences whose profile `new` has made are saved
    -- and then loaded as they were, if no call of the operating system fails, the file has a name,
    -- the temporary file has another name and does not exist.
    pub saved_is_loaded :
        (path name uuid contents : String) (p : RemoteAccessPreferences) (disk : Disk)
        → ((other : String)
            → file_name path ≡ some other
            → (path == temp_path to_string_lossy path other uuid) ≡ false)
        → file_name path ≡ some name
        → disk (temp_path to_string_lossy path name uuid) ≡ none
        → AreChecked p.named_tunnel
        → to_text p ≡ ok contents
        → from_text contents ≡ ok p
        → let out = save parse_url to_text from_text to_string_lossy untroubled path uuid p disk in
          (out.0 ≡ ok tt)
          × (load parse_url to_text from_text to_string_lossy untroubled path out.1 ≡ ok p)
    saved_is_loaded path name uuid contents p disk apart e f h k l =
        let done = untroubled-save path name uuid contents p disk e f k in
        (
          done,
          read_back path contents p disk
              (save parse_url to_text from_text to_string_lossy untroubled path uuid p disk) h l
              done
              (save_replaces_or_keeps parse_url to_text from_text to_string_lossy untroubled path
                uuid p contents disk apart k),
        )
