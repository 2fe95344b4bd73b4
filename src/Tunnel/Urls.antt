-- ===== src/Tunnel/Urls.antt =====
-- The public URL in a line of a quick tunnel's output.
use text.Mathlib.Text.{starts_with}
use codex_app.Prelude.{
  is_one_of, String, Bool, Option, ◌&&◌, ◌||◌, map, find_by, is_whitespace, split_by, trim_by,
  ends_with, includes,
}

abbrev pub is_quick_tunnel_url : String → Bool
is_quick_tunnel_url candidate =
    starts_with candidate "https://"
    && (ends_with candidate ".trycloudflare.com" || includes candidate ".trycloudflare.com/")

unfoldable pub parse_quick_tunnel_url : String → Option String
unfolding split_by trim_by
parse_quick_tunnel_url text = find_by is_quick_tunnel_url (
    map (trim_by (is_one_of ",.;:!?"))
      (split_by (λ c. is_whitespace c || is_one_of "\"'<>()[]{}" c) text))
