-- ===== src/PublicAccess/Origins.antt =====
-- Which origins public_access.rs accepts and keeps.
use Prim.Native.String.{len, ◌++◌ as append_text}
use codex_app.Prelude.{
  ends_with, String, ◌≡◌, ◌+◌, ◌-◌, refl, Bool, true, false, not, ◌&&◌, Option, none, some, List,
  [], ◌∷◌, Result, ok, err, arith, eq_iff, if◌then◌else◌,
}
use text.Mathlib.TextPositions.{slice-append_right, len-append, eq_refl}
use codex_app.PublicAccess.{
  PublicAccessMode, PublicAccessContext, Url, AccessError, validate_context, check_public, update,
  is_quick_host, is_https_origin, is_quick, default_context,
}

if_not_err :
    (https not_quick : Bool)
    → (if not https
        then err AccessError.not_https_origin
        else if not_quick
        then err AccessError.not_quick_host
        else ok tt)
      ≡ ok tt
    → (https ≡ true) × (not_quick ≡ false)
if_not_err https not_quick h = ground arith

module _ (parse : String → Option Url) where
  -- An accepted context: local, or with an HTTPS origin, for a quick tunnel at its host.
  abbrev pub HasHttpsOrigin : PublicAccessMode → Option String → Type 0
  HasHttpsOrigin mode none = ⊥
  HasHttpsOrigin mode (some origin) =
      (parsed : Url) × (parse origin ≡ some parsed)
      × (parsed.scheme ≡ "https")
      × (parsed.origin ≡ origin)
      × (parsed.path ≡ "/")
      × (parsed.query ≡ none)
      × (parsed.fragment ≡ none)
      × ((is_quick mode && not (is_quick_host parsed)) ≡ false)

  abbrev pub IsAcceptable : PublicAccessContext → Type 0
  IsAcceptable context = elim context.mode as (λ _. Type 0) [
    | PublicAccessMode.local ↦ Unit {0}
    | PublicAccessMode.quick ↦ HasHttpsOrigin PublicAccessMode.quick context.public_origin
    | PublicAccessMode.named ↦ HasHttpsOrigin PublicAccessMode.named context.public_origin
  ]

  https_parts :
      (mode : PublicAccessMode) (origin : String) (parsed : Url)
      → parse origin ≡ some parsed
      → is_https_origin parsed origin ≡ true
      → (is_quick mode && not (is_quick_host parsed)) ≡ false
      → HasHttpsOrigin mode (some origin)
  https_parts mode origin parsed e h q = (
    parsed,
    e,
    (eq_iff parsed.scheme "https").0 (ground arith),
    (eq_iff parsed.origin origin).0 (ground arith),
    (eq_iff parsed.path "/").0 (ground arith),
    ground arith,
    ground arith,
    q,
  )

  check_public_ok :
      (mode : PublicAccessMode) (o : Option String)
      → check_public parse mode o ≡ ok tt
      → HasHttpsOrigin mode o
  check_public_ok mode none h = cc
  check_public_ok mode (some origin) h = go (parse origin) refl h
    where
      go :
          (p : Option Url)
          → parse origin ≡ p
          → (elim p [
            | none ↦ err AccessError.invalid_url
            | some parsed ↦
                if not (is_https_origin parsed origin)
                then err AccessError.not_https_origin
                else if is_quick mode && not (is_quick_host parsed)
                then err AccessError.not_quick_host
                else ok tt
          ])
            ≡ ok tt
          → HasHttpsOrigin mode (some origin)
      go none e h' = cc
      go (some parsed) e h' =
          https_parts mode origin parsed e
            (if_not_err (is_https_origin parsed origin)
              (is_quick mode && not (is_quick_host parsed)) h').0
            (if_not_err (is_https_origin parsed origin)
              (is_quick mode && not (is_quick_host parsed)) h').1

  accepted_mode :
      (mode : PublicAccessMode) (o : Option String)
      → validate_context parse (record { mode = mode; public_origin = o }) ≡ ok tt
      → IsAcceptable (record { mode = mode; public_origin = o })
  unfolding validate_context
  accepted_mode PublicAccessMode.local o h = tt
  accepted_mode PublicAccessMode.quick o h = check_public_ok PublicAccessMode.quick o h
  accepted_mode PublicAccessMode.named o h = check_public_ok PublicAccessMode.named o h

  update-IsAcceptable :
      (context state : PublicAccessContext)
      → IsAcceptable state
      → IsAcceptable (update parse context state).1
  unfolding update
  update-IsAcceptable context state h = go (validate_context parse context) refl
    where
      go :
          (r : Result AccessError (Unit {0}))
          → validate_context parse context ≡ r
          → IsAcceptable
              (let r' : Result AccessError (Unit {0}) × PublicAccessContext = elim r [
                | ok _ ↦ (ok tt, context)
                | err e ↦ (err e, state)
              ] in
                r').1
      go (ok tt) e = accepted_mode context.mode context.public_origin e
      go (err x) e = h

  -- The contexts after some updates, accepted or not.
  pub run_updates : List PublicAccessContext → PublicAccessContext → PublicAccessContext
  run_updates [] state = state
  run_updates (c ∷ cs) state = run_updates cs (update parse c state).1

  run_updates_keep :
      (cs : List PublicAccessContext) (state : PublicAccessContext)
      → IsAcceptable state
      → IsAcceptable (run_updates cs state)
  unfolding run_updates
  run_updates_keep [] state h = h
  run_updates_keep (c ∷ cs) state h =
      run_updates_keep cs (update parse c state).1 (update-IsAcceptable c state h)

  -- After any updates from the default, accepted or refused, the context is local, or its origin is a
  -- text that parses as an HTTPS URL with that text as its origin, the path "/", no query and no
  -- fragment, and for a quick tunnel a host that passes the test for one.
  pub run_updates-IsAcceptable :
      (cs : List PublicAccessContext) → IsAcceptable (run_updates cs default_context)
  run_updates-IsAcceptable cs = run_updates_keep cs default_context tt

ends_with-append : (s t : String) → ends_with (append_text s t) t ≡ true
ends_with-append s t =
    rw (len-append s t, shorter, slice-append_right s t, eq_refl t) (ground arith)
  where
    shorter : len s + len t - len t ≡ len s
    shorter = omega arith

-- The test for the host of a quick tunnel asks only how it ends: an HTTPS origin is accepted whatever
-- stands before "trycloudflare.com" in its host, with no dot needed in between.
pub quick_host_any_prefix :
    (parse : String → Option Url) (prefix origin : String) (parsed : Url)
    → parse origin ≡ some parsed
    → is_https_origin parsed origin ≡ true
    → parsed.host_str ≡ some (append_text prefix "trycloudflare.com")
    → validate_context parse (record { mode = PublicAccessMode.quick; public_origin = some origin })
      ≡ ok tt
unfolding validate_context
quick_host_any_prefix parse prefix origin parsed e h host = accepted (parse origin) e
  where
    quick_host : is_quick_host parsed ≡ true
    quick_host = rw host (ends_with-append prefix "trycloudflare.com")

    accepted :
        (p : Option Url)
        → p ≡ some parsed
        → (elim p [
          | none ↦ err AccessError.invalid_url
          | some u ↦
              if not (is_https_origin u origin)
              then err AccessError.not_https_origin
              else if is_quick PublicAccessMode.quick && not (is_quick_host u)
              then err AccessError.not_quick_host
              else ok tt
        ])
          ≡ ok tt
    accepted p q = rw (q, h, quick_host) refl
