-- ===== src/Tests/Configs.antt =====
-- The remote access configuration on a concrete disk.
use Prim.Native.String.{◌++◌}
use mathlib.Core.Path.{subst}
use codex_app.RemoteAccessConfig.{
  NamedTunnelProfile, RemoteAccessPreferences, HostAndPort, Answers, Disk, IoErrorKind, save, load,
  temp_path, new_profile,
}
use codex_app.RemoteAccessConfig.Saving.{ReplacedOrKept, save_replaces_or_keeps}
use codex_app.RemoteAccessConfig.Profiles.{is_plain}
use codex_app.RemoteAccessConfig.Reading.{untroubled, saved_is_loaded}
use codex_app.Prelude.{
  String, ◌==◌, ◌≡◌, refl, sym, ◌∙◌, Bool, true, false, Option, none, some, Result, ok, err,
  file_name, some_eq, if◌then◌else◌, join, split_by, to_ascii_lowercase, trim_by,
}

abbrev profile : NamedTunnelProfile
profile = record { hostname = "codex.example.com"; local_port = 57324 }

abbrev preferences : RemoteAccessPreferences
preferences = record { named_tunnel = some profile }

abbrev parsed_if : Bool → Option HostAndPort
parsed_if true = some record { host_str = some "codex.example.com"; port = none }
parsed_if false = none

none≢parsed : (p : HostAndPort) → ¬ (none ≡ some p)
none≢parsed p h = cc

abbrev parse_one : String → Option HostAndPort
parse_one text = parsed_if (text == "https://codex.example.com")

abbrev print : RemoteAccessPreferences → Result Unit String
print p = ok "saved"

abbrev read : String → Result Unit RemoteAccessPreferences
read text = if text == "saved" then ok preferences else err tt

abbrev lossy : String → String
lossy text = text

abbrev old : Disk
old file = if file == "/a" then some "old" else none

abbrev refusing : Answers
refusing = record {
  read = none;
  create = none;
  write = none;
  flush = none;
  sync = none;
  rename = some IoErrorKind.other;
  remove = none;
  written = "";
}

apart_named : ("/a" == temp_path lossy "/a" "a" "u") ≡ false
unfolding temp_path join split_by
apart_named = refl

name_of : file_name "/a" ≡ some "a"
unfolding file_name
name_of = refl

apart :
    (name : String) → file_name "/a" ≡ some name → ("/a" == temp_path lossy "/a" name "u") ≡ false
apart name h =
    subst (λ n. ("/a" == temp_path lossy "/a" n "u") ≡ false) (some_eq (sym name_of ∙ h))
      apart_named

save_replaces_or_keeps_example :
    ReplacedOrKept "/a" "saved" old
      (save parse_one print read lossy refusing "/a" "u" preferences old)
save_replaces_or_keeps_example =
    save_replaces_or_keeps parse_one print read lossy refusing "/a" "u" preferences "saved" old
      apart refl

plain_host :
    (b : Bool) (parsed : HostAndPort) (host : String)
    → parsed_if b ≡ some parsed
    → parsed.host_str ≡ some host
    → is_plain host ≡ true
plain_host true parsed host h k =
    let same : some "codex.example.com" ≡ some host =
      subst (λ (q : HostAndPort). q.host_str ≡ some host) (sym (some_eq h)) k in
    subst (λ x. is_plain x ≡ true) (some_eq same) refl
plain_host false parsed host h k = absurd (none≢parsed parsed h)

hosts_plain :
    (text : String) (parsed : HostAndPort) (host : String)
    → parse_one ("https://" ++ text) ≡ some parsed
    → parsed.host_str ≡ some host
    → is_plain host ≡ true
hosts_plain text = plain_host (("https://" ++ text) == "https://codex.example.com")

free : old (temp_path lossy "/a" "a" "u") ≡ none
unfolding temp_path join split_by
free = refl

new_is_checked : new_profile parse_one print read lossy " Codex.Example.COM " 57324 ≡ ok profile
unfolding new_profile to_ascii_lowercase trim_by
new_is_checked = refl

saved_is_loaded_example :
    let out = save parse_one print read lossy untroubled "/a" "u" preferences old in
    (out.0 ≡ ok tt) × (load parse_one print read lossy untroubled "/a" out.1 ≡ ok preferences)
saved_is_loaded_example =
    saved_is_loaded parse_one print read lossy hosts_plain "/a" "a" "u" "saved" preferences old
      apart name_of free (" Codex.Example.COM ", 57324, new_is_checked) refl refl
