-- ===== src/PublicAccess.antt =====
-- crates/bridge-core/src/public_access.rs: how the bridge is reached from outside.
-- The parser of the `url` crate is a parameter.
pub mod Origins
use codex_app.Prelude.{
  ℕ, String, Bool, true, false, not, ◌&&◌, ◌||◌, Option, none, some, Result, ok, err, Exec, is_some,
  unwrap_or, ends_with, ◌==◌, ◌>>=◌, if◌then◌else◌,
}
use text.Mathlib.Text.{starts_with}

pub data PublicAccessMode : Type 0 where
  local quick named : PublicAccessMode

abbrev pub is_named : PublicAccessMode → Bool
is_named PublicAccessMode.named = true
is_named _ = false

abbrev pub is_quick : PublicAccessMode → Bool
is_quick PublicAccessMode.quick = true
is_quick _ = false

pub record PublicAccessContext : Type 0 where
  pub mode : PublicAccessMode
  pub public_origin : Option String

abbrev pub default_context : PublicAccessContext
default_context = record { mode = PublicAccessMode.local; public_origin = none }

pub data DeliveryMode : Type 0 where
  foreground_only web_push : DeliveryMode

pub record NotificationCapabilities : Type 0 where
  pub delivery_mode : DeliveryMode
  pub fixed_https : Bool
  pub system_notifications : Bool
  pub foreground_sound : Bool
  pub foreground_vibration : Bool
  pub vibration_controlled_by_system : Bool

-- What the program asks of a parsed URL; `origin` is its ASCII serialization.
pub record Url : Type 0 where
  pub scheme : String
  pub origin : String
  pub path : String
  pub query : Option String
  pub fragment : Option String
  pub host_str : Option String

pub data AccessError : Type 0 where
  origin_required invalid_url not_https_origin not_quick_host : AccessError

abbrev pub is_https_origin : Url → String → Bool
is_https_origin parsed origin =
    parsed.scheme == "https"
    && parsed.origin == origin
    && parsed.path == "/"
    && not (is_some parsed.query)
    && not (is_some parsed.fragment)

abbrev pub is_quick_host : Url → Bool
is_quick_host parsed = ends_with (unwrap_or parsed.host_str "") "trycloudflare.com"

module _ (parse : String → Option Url) where
  abbrev pub check_origin : PublicAccessMode → String → Result AccessError (Unit {0})
  check_origin mode origin = elim (parse origin) [
    | none ↦ err invalid_url
    | some parsed ↦
        if not (is_https_origin parsed origin)
        then err not_https_origin
        else if is_quick mode && not (is_quick_host parsed)
        then err not_quick_host
        else ok tt
  ]

  abbrev pub check_public : PublicAccessMode → Option String → Result AccessError (Unit {0})
  check_public mode none = err origin_required
  check_public mode (some origin) = check_origin mode origin

  unfoldable pub validate_context : PublicAccessContext → Result AccessError (Unit {0})
  validate_context context = elim context.mode [
    | PublicAccessMode.local ↦ ok tt
    | PublicAccessMode.quick ↦ check_public PublicAccessMode.quick context.public_origin
    | PublicAccessMode.named ↦ check_public PublicAccessMode.named context.public_origin
  ]

  unfoldable pub update : PublicAccessContext → Exec AccessError PublicAccessContext (Unit {0})
  unfolding validate_context
  update context state = elim (validate_context context) [
    | ok _ ↦ (ok tt, context)
    | err e ↦ (err e, state)
  ]

unfoldable pub notification_capabilities : PublicAccessContext → NotificationCapabilities
notification_capabilities context = record {
  delivery_mode = DeliveryMode.foreground_only;
  fixed_https =
      is_named context.mode
      && elim context.public_origin [ none ↦ false | some origin ↦ starts_with origin "https://" ];
  system_notifications = false;
  foreground_sound = true;
  foreground_vibration = true;
  vibration_controlled_by_system = false;
}
