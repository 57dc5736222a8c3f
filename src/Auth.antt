-- ===== src/Auth.antt =====
-- crates/core/src/auth.rs: login and SSO walls detected from URLs and HTML.
pub mod Visible
pub mod Markers
pub mod Walls
mod Tests
use stapler_mcp.Common.{
  ℕ, zero, suc, ◌+◌, ◌-◌, min, Bool, true, false, not, ◌&&◌, ◌||◌, Option, none, some, List, [],
  ◌∷◌, if◌then◌else◌, ltb, ◌==◌, Text, text, text_eq, to_ascii_lowercase, starts_with, contains,
  from_first, before_first, find_end, is_ascii_whitespace, utf8_len, byte_len, slice_to, any,
  length,
}
use stapler_mcp.Ports.{AuthRequiredInfo}
use stapler_mcp.Web.{WebLib}

abbrev pub thin_page_chars : ℕ
thin_page_chars = 500

abbrev pub sso_host_markers : List Text
sso_host_markers =
    text "login."
    ∷ text "sso."
    ∷ text "auth."
    ∷ text "accounts."
    ∷ text "signin."
    ∷ text "okta."
    ∷ text "onelogin."
    ∷ text "auth0."
    ∷ text "microsoftonline.com"
    ∷ []

abbrev pub title_markers : List Text
title_markers =
    text "sign in" ∷ text "log in" ∷ text "login" ∷ text "single sign-on" ∷ text "authenticate" ∷ []

abbrev end_or : Option ℕ → ℕ → ℕ
end_or none n = n
end_or (some m) n = m

-- How far the scan of `visible_text_len` moves at a `<`, given the rest of the page in lower case:
-- past a script or style body, past the tag, or not at all (`none`: the scan stops). It is a number
-- of characters, always positive.
unfoldable pub skip_markup : Text → Option ℕ
skip_markup rest =
    if starts_with (text "<script") rest
    then some (end_or (find_end (text "</script>") rest) (length rest))
    else if starts_with (text "<style") rest
    then some (end_or (find_end (text "</style>") rest) (length rest))
    else find_end (text ">") rest

-- The bytes that one character adds to the count.
abbrev pub ink : ℕ → ℕ
ink c = if is_ascii_whitespace c then 0 else utf8_len c

-- The loop of `visible_text_len` over the characters left. The first argument counts those that the
-- last move of the index still has to pass.
unfoldable pub scan : ℕ → Text → ℕ → ℕ
scan k [] out = out
scan (suc k) (c ∷ s) out = scan k s out
scan zero (c ∷ s) out = elim (c == b'<') [
  | true ↦ elim (skip_markup (to_ascii_lowercase (c ∷ s))) [
    | none ↦ out
    | some n ↦ scan (n - 1) s out
  ]
  | false ↦ scan zero s (out + ink c)
]

unfoldable pub visible_text_len : Text → ℕ
visible_text_len html = scan zero html 0

unfoldable pub has_password_field : Text → Bool
has_password_field lower_html =
    contains (text "type=\"password\"") lower_html
    || contains (text "type='password'") lower_html
    || contains (text "type=password") lower_html

-- `&rest[..end]` for the title; `none` where `end` is no char boundary and the slice panics.
unfoldable pub title_slice : Text → Option Text
title_slice rest = elim (before_first (text "</title>") rest) [
  | none ↦ slice_to rest (min (byte_len rest) 300)
  | some title ↦ some title
]

-- `none` is a panic.
unfoldable pub title_says_login : Text → Option Bool
title_says_login lower_html = elim (from_first (text "<title") lower_html) [
  | none ↦ some false
  | some rest ↦ elim (title_slice rest) [
    | none ↦ none
    | some title ↦ some (any (λ m. contains m title) title_markers)
  ]
]

unfoldable pub sso_like_host : Text → Bool
sso_like_host host = any (λ m. starts_with m host || contains m host) sso_host_markers

-- The login marker: a password field, or else a login-ish title that comes with a form.
unfoldable pub login_marker : Text → Option Bool
login_marker lower = if has_password_field lower then some true else elim (title_says_login lower) [
  | none ↦ none
  | some says ↦ some (says && contains (text "<form") lower)
]

abbrev is_unauthorized : ℕ → Bool
is_unauthorized status = status == 401 || status == 403

abbrev or_else : Option Text → Text → Text
or_else none d = d
or_else (some s) d = s

module _ (L : WebLib) where
  unfoldable pub host_of : Text → Option Text
  host_of url = elim (L.parse url) [
    | none ↦ none
    | some u ↦ elim (L.host_str u) [ none ↦ none | some h ↦ some (to_ascii_lowercase h) ]
  ]

  unfoldable pub host_changed : Text → Text → Bool
  host_changed requested final_url = elim (host_of requested) [
    | none ↦ false
    | some a ↦ elim (host_of final_url) [ none ↦ false | some b ↦ not (text_eq a b) ]
  ]

  unfoldable pub info : Text → Text → AuthRequiredInfo
  info requested final_url = record {
    requested_url = requested;
    final_url = final_url;
    auth_host = or_else (host_of final_url) (or_else (host_of requested) []);
    hint = none;
  }

  unfoldable pub from_status : Text → ℕ → Text → Option AuthRequiredInfo
  from_status requested status final_url =
      if is_unauthorized status then some (info requested final_url) else none

  -- `changed && host_of(final_url).is_some_and(sso_like_host)`.
  unfoldable pub is_sso_redirect : Text → Text → Bool
  is_sso_redirect requested final_url =
      host_changed requested final_url
      && elim (host_of final_url) [ none ↦ false | some h ↦ sso_like_host h ]

  -- The outer `none` is a panic, in the slice of the title.
  unfoldable pub detect_auth_wall : Text → Text → Text → Option (Option AuthRequiredInfo)
  detect_auth_wall requested final_url html =
      let changed = host_changed requested final_url in
      let thin = ltb (visible_text_len html) thin_page_chars in
      elim (login_marker (to_ascii_lowercase html)) [
        | none ↦ none
        | some marker ↦ some (
            if (marker && (changed || thin)) || is_sso_redirect requested final_url
            then some (info requested final_url)
            else none)
      ]
