-- ===== src/Auth/Tests.antt =====
-- Runs of the login-wall detection of crates/core/src/auth.rs on small pages.
use stapler_mcp.Common.{
  ◌+◌, ◌≡◌, ◌⊎◌, ◌↔◌, refl, false, none, some, ◌∷◌, ◌++◌, arith, Text, text, to_ascii_lowercase,
  starts_with, contains, from_first, before_first, slice_to, byte_len, text_eq, strip_prefix, ℕ,
  zero, suc,
}
use stapler_mcp.Ports.{AuthRequiredInfo}
use stapler_mcp.Samples.{sample_lib}
use stapler_mcp.Auth.{
  visible_text_len, has_password_field, title_slice, title_says_login, login_marker, host_of,
  host_changed, info, detect_auth_wall,
}
use stapler_mcp.Auth.Visible.{ink_len, IsScriptOrStyle, visible_text_len_tag}
use stapler_mcp.Auth.Markers.{IsWall}
use stapler_mcp.Auth.Walls.{SplitsCharacter, detect_auth_wall_decides, detect_auth_wall_panics_iff}

abbrev login_page : Text
login_page = text "<title>Sign in</title><form>"

abbrev asked : Text
asked = text "https://a.test/"

abbrev served : Text
served = text "https://sso.b.test/"

abbrev wall : AuthRequiredInfo
wall = record {
  requested_url = asked;
  final_url = served;
  auth_host = text "sso.b.test";
  hint = none;
}

flagged : detect_auth_wall sample_lib asked served login_page ≡ some (some wall)
unfolding detect_auth_wall login_marker has_password_field contains title_says_login from_first
    title_slice before_first host_changed host_of strip_prefix text_eq info
flagged = refl

detect_auth_wall_decides_example :
    ((some wall ≡ none) × ¬ IsWall sample_lib asked served login_page)
    ⊎ ((i : AuthRequiredInfo) × ((some wall ≡ some i)
          × IsWall sample_lib asked served login_page
          × (i.requested_url ≡ asked)
          × (i.final_url ≡ served)))
detect_auth_wall_decides_example =
    detect_auth_wall_decides sample_lib asked served login_page (some wall) flagged

detect_auth_wall_panics_iff_example :
    (detect_auth_wall sample_lib asked served login_page ≡ none) ↔ (
      (has_password_field (to_ascii_lowercase login_page) ≡ false)
      × SplitsCharacter (to_ascii_lowercase login_page))
detect_auth_wall_panics_iff_example = detect_auth_wall_panics_iff sample_lib asked served login_page

-- A page whose title has no end and whose byte 300, from `<title` on, lies inside a character.
abbrev letters : ℕ → Text
letters zero = text "éé"
letters (suc n) = b'a' ∷ letters n

panics_test : detect_auth_wall sample_lib asked asked (text "<title>" ++ letters 292) ≡ none
unfolding detect_auth_wall login_marker has_password_field contains title_says_login from_first
    title_slice before_first byte_len slice_to strip_prefix
panics_test = refl

not_script : ¬ IsScriptOrStyle (to_ascii_lowercase (text "<b>c"))
unfolding starts_with
not_script h = ground arith

counted_tag :
    visible_text_len (text "a é" ++ (b'<' ∷ (text "b" ++ b'>' ∷ text "c")))
    ≡ ink_len (text "a é") + visible_text_len (text "c")
counted_tag =
    visible_text_len_tag (text "a é") (text "b") (text "c") (ground arith) (ground arith) not_script
