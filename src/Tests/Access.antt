-- ===== src/Tests/Access.antt =====
-- Public access at concrete origins.
use codex_app.Prelude.{String, ◌≡◌, refl, Option, none, some, [], ◌∷◌, ok}
use Prim.Native.String.{◌++◌ as append_text}
use codex_app.PublicAccess.{
  PublicAccessMode, PublicAccessContext, Url, validate_context, default_context,
}
use codex_app.PublicAccess.Origins.{
  IsAcceptable, run_updates, run_updates-IsAcceptable, quick_host_any_prefix,
}

abbrev url : Url
url = record {
  scheme = "https";
  origin = "https://eviltrycloudflare.com";
  path = "/";
  query = none;
  fragment = none;
  host_str = some (append_text "evil" "trycloudflare.com");
}

abbrev parse : String → Option Url
parse text = some url

abbrev quick : PublicAccessContext
quick = record {
  mode = PublicAccessMode.quick;
  public_origin = some "https://eviltrycloudflare.com";
}

run_updates-IsAcceptable_example :
    IsAcceptable parse (run_updates parse (quick ∷ default_context ∷ quick ∷ []) default_context)
run_updates-IsAcceptable_example =
    run_updates-IsAcceptable parse (quick ∷ default_context ∷ quick ∷ [])

quick_host_any_prefix_example : validate_context parse quick ≡ ok tt
quick_host_any_prefix_example =
    quick_host_any_prefix parse "evil" "https://eviltrycloudflare.com" url refl refl refl
