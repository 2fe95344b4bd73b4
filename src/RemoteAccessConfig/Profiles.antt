-- ===== src/RemoteAccessConfig/Profiles.antt =====
-- The check of a profile accepts what it has accepted before, unchanged.
use Prim.Native.String.{◌++◌}
use Prim.Native.Char.{Char, code}
use mathlib.Core.Path.{subst}
use codex_app.RemoteAccessConfig.{
  NamedTunnelProfile, RemoteAccessPreferences, RemoteAccessConfigError, HostAndPort, new_profile,
  check_hostname, check_parsed, is_only_host,
}
use codex_app.Prelude.{
  String, ℕ, Bool, true, false, not, ◌||◌, Option, none, some, ◌==◌, ◌≡◌, refl, sym, ap, ◌∙◌, inl,
  inr, Result, ok, err, eq_iff, if◌then◌else◌, Bool-cases, is_empty_text, trim_by, trim_end_by,
  trim_start_by, is_whitespace, to_ascii_lowercase, includes, nat_eq, between, ◌&&◌,
}

-- No capital letter of ASCII and no white space.
abbrev pub is_plain : String → Bool
is_plain String.[] = true
is_plain (String.◌∷◌ c s) =
    not (is_whitespace c) && (not (between b'A' b'Z' (code c)) && is_plain s)

true≢false : ¬ (true ≡ false)
true≢false h = cc

not_first : (a b : Bool) → (not a && b) ≡ true → (a ≡ false) × (b ≡ true)
not_first true b h = absurd (true≢false (sym h))
not_first false b h = (refl, h)

plain_parts :
    (c : Char) (s : String)
    → is_plain (String.◌∷◌ c s) ≡ true
    → (is_whitespace c ≡ false) × (between b'A' b'Z' (code c) ≡ false) × (is_plain s ≡ true)
plain_parts c s h =
    let first = not_first (is_whitespace c) (not (between b'A' b'Z' (code c)) && is_plain s) h in
    let rest = not_first (between b'A' b'Z' (code c)) (is_plain s) first.1 in
    (first.0, rest.0, rest.1)

no_trim :
    (b : Bool) (c : Char) (s : String)
    → (if b && false then "" else String.◌∷◌ c s) ≡ String.◌∷◌ c s
no_trim true c s = refl
no_trim false c s = refl

lower_plain : (s : String) → is_plain s ≡ true → to_ascii_lowercase s ≡ s
unfolding to_ascii_lowercase
lower_plain String.[] h = refl
lower_plain (String.◌∷◌ c s) h =
    let parts = plain_parts c s h in rw (parts.1, lower_plain s parts.2) refl

trim_end_plain : (s : String) → is_plain s ≡ true → trim_end_by is_whitespace s ≡ s
unfolding trim_end_by
trim_end_plain String.[] h = refl
trim_end_plain (String.◌∷◌ c s) h =
    let parts = plain_parts c s h in
    rw (trim_end_plain s parts.2, parts.0) (no_trim (is_empty_text s) c s)

trim_plain : (s : String) → is_plain s ≡ true → trim_by is_whitespace s ≡ s
unfolding trim_by trim_start_by
trim_plain String.[] h = refl
trim_plain (String.◌∷◌ c s) h = rw ((plain_parts c s h).0) (trim_end_plain (String.◌∷◌ c s) h)

-- The parser of the `url` crate, the two directions of `serde_json`, and `to_string_lossy`.
module _ {JsonError : Type 0} (parse_url : String → Option HostAndPort)
    (to_text : RemoteAccessPreferences → Result JsonError String)
    (from_text : String → Result JsonError RemoteAccessPreferences)
    (to_string_lossy : String → String) where
  -- A profile as a call of `new` makes it.
  abbrev pub IsChecked : NamedTunnelProfile → Type 0
  IsChecked profile =
      (hostname : String) × (port : ℕ) × (new_profile {JsonError = JsonError} parse_url to_text
          from_text to_string_lossy hostname port
        ≡ ok profile)

  err≢ok :
      (e : RemoteAccessConfigError JsonError) (p : NamedTunnelProfile)
      → ¬ (◌≡◌ {A = Result (RemoteAccessConfigError JsonError) NamedTunnelProfile} (err e) (ok p))
  err≢ok e p h = cc

  ok_eq :
      (p p' : NamedTunnelProfile)
      → ◌≡◌ {A = Result (RemoteAccessConfigError JsonError) NamedTunnelProfile} (ok p) (ok p')
      → p ≡ p'
  ok_eq p p' h = cc

  host_of :
      (t : String) (host : Option String) (port : Option ℕ)
      → is_only_host t host port ≡ true
      → host ≡ some t
  host_of t none port h = absurd (true≢false (sym h))
  host_of t (some host) port h = elim (Bool-cases (host == t)) [
    | inl e ↦ ap (λ x. some x) ((eq_iff host t).0 e)
    | inr e ↦ absurd (true≢false (sym h ∙ rw e refl))
  ]

  module _
      (hosts_plain : (text : String) (parsed : HostAndPort) (host : String)
        → parse_url ("https://" ++ text) ≡ some parsed
        → parsed.host_str ≡ some host
        → is_plain host ≡ true) where
    -- What an accepted host name is.
    Accepted : String → ℕ → NamedTunnelProfile → Type 0
    Accepted t port p = (record { hostname = t; local_port = port } ≡ p) × (is_plain t ≡ true)

    checked_host_lem :
        (t : String) (port : ℕ) (p : NamedTunnelProfile) (o : Option HostAndPort)
        → parse_url ("https://" ++ t) ≡ o
        → check_parsed {JsonError = JsonError} parse_url to_text from_text to_string_lossy t port o
          ≡ ok p
        → Accepted t port p
    unfolding Accepted
    checked_host_lem t port p none e h =
        absurd (err≢ok RemoteAccessConfigError.invalid_hostname p h)
    checked_host_lem t port p (some parsed) e h =
        elim (Bool-cases (is_only_host t parsed.host_str parsed.port)) [
          | inl k ↦ (
            ok_eq record { hostname = t; local_port = port } p (sym (rw k refl) ∙ h),
            hosts_plain t parsed t e (host_of t parsed.host_str parsed.port k),
          )
          | inr k ↦ absurd (err≢ok RemoteAccessConfigError.invalid_hostname p (sym (rw k refl) ∙ h))
        ]

    accepted :
        (t : String) (port : ℕ) (p : NamedTunnelProfile)
        → check_hostname {JsonError = JsonError} parse_url to_text from_text to_string_lossy t port
          ≡ ok p
        → Accepted t port p
    accepted t port p h = elim (Bool-cases (includes t "://" || includes t "/")) [
      | inl k ↦ absurd (err≢ok RemoteAccessConfigError.invalid_hostname p (sym (rw k refl) ∙ h))
      | inr k ↦ checked_host_lem t port p (parse_url ("https://" ++ t)) refl (sym (rw k refl) ∙ h)
    ]

    settled :
        (t : String) (port : ℕ) (p : NamedTunnelProfile)
        → nat_eq port 0 ≡ false
        → check_hostname {JsonError = JsonError} parse_url to_text from_text to_string_lossy t port
          ≡ ok p
        → new_profile {JsonError = JsonError} parse_url to_text from_text to_string_lossy p.hostname
            p.local_port
          ≡ ok p
    unfolding new_profile Accepted
    settled t port p k h =
        let acc = accepted t port p h in
        subst
          (λ q.
            new_profile {JsonError = JsonError} parse_url to_text from_text to_string_lossy
              q.hostname q.local_port
            ≡ ok p)
          acc.0 (rw (k, trim_plain t acc.1, lower_plain t acc.1) h)

    -- A profile that `new` has made is accepted again, unchanged.
    pub new_profile_again :
        (p : NamedTunnelProfile)
        → IsChecked p
        → new_profile {JsonError = JsonError} parse_url to_text from_text to_string_lossy p.hostname
            p.local_port
          ≡ ok p
    unfolding new_profile
    new_profile_again p (hostname, port, h) = elim (Bool-cases (nat_eq port 0)) [
      | inl k ↦ absurd (err≢ok RemoteAccessConfigError.invalid_port p (sym (rw k refl) ∙ h))
      | inr k ↦
          settled (to_ascii_lowercase (trim_by is_whitespace hostname)) port p k
            (sym (rw k refl) ∙ h)
    ]
