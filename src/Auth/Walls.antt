-- ===== src/Auth/Walls.antt =====
-- When `detect_auth_wall` of crates/core/src/auth.rs flags a page, and when it panics.
use stapler_mcp.Common.{
  ℕ, zero, suc, ◌-◌, min, ◌<◌, ◌≡◌, refl, ap, ◌↔◌, ◌⊎◌, inl, inr, false, ltb, Option, none, some,
  [], ◌∷◌, arith, leb, leb→le, Bool-cases, Option-cases, Text, text, to_ascii_lowercase, from_first,
  before_first, slice_to, byte_len, utf8_len, utf8_len_pos,
}
use stapler_mcp.Ports.{AuthRequiredInfo}
use stapler_mcp.Web.{WebLib}
use stapler_mcp.Auth.{
  thin_page_chars, visible_text_len, has_password_field, title_slice, title_says_login,
  host_changed, info, is_sso_redirect, login_marker, detect_auth_wall,
}
use stapler_mcp.Auth.Markers.{IsWall, login_marker_decides, host_changed_iff, is_sso_redirect_iff}

slice_to_at : (s : Text) (n : ℕ) → n ≡ byte_len s → slice_to s n ≡ some s
unfolding slice_to byte_len
slice_to_at [] zero e = refl
slice_to_at [] (suc n) e = absurd (omega arith)
slice_to_at (c ∷ s) zero e = absurd (omega (arith, utf8_len_pos c))
slice_to_at (c ∷ s) (suc n) e = ground (arith, slice_to_at s (suc n - utf8_len c) (omega arith))

-- Why the title of a page in lower case cannot be sliced: it has no end tag, more than 300 bytes
-- follow its start, and byte 300 lies inside a character.
abbrev pub SplitsCharacter : Text → Type 0
SplitsCharacter lower =
    (rest : Text) × (from_first (text "<title") lower ≡ some rest)
    × (before_first (text "</title>") rest ≡ none)
    × (300 < byte_len rest)
    × (slice_to rest 300 ≡ none)

title_slice_iff :
    (rest : Text)
    → (title_slice rest ≡ none) ↔ (
        (before_first (text "</title>") rest ≡ none)
        × (300 < byte_len rest)
        × (slice_to rest 300 ≡ none))
unfolding title_slice
title_slice_iff rest = elim (Bool-cases (leb (byte_len rest) 300)) [
  | inl short ↦
      let whole = slice_to_at rest (min (byte_len rest) 300) (omega (arith, leb→le _ _ short)) in
      ground (arith, whole, short)
  | inr long ↦
      let cut : min (byte_len rest) 300 ≡ 300 = ground (arith, long) in
      ground (arith, ap (slice_to rest) cut, long)
]

module _ (L : WebLib) where
  -- A check that does not panic flags a page exactly if it is a login wall: it has a password field,
  -- or a login title with a form, and was served by another host than the one asked for or has fewer
  -- than 500 visible bytes; or it was served by another host whose name is like that of a sign-on
  -- service. The flag has the URL that was asked for and the one that was served.
  pub detect_auth_wall_decides :
      (requested final_url html : Text) (flag : Option AuthRequiredInfo)
      → detect_auth_wall L requested final_url html ≡ some flag
      → ((flag ≡ none) × ¬ IsWall L requested final_url html)
        ⊎ ((i : AuthRequiredInfo) × ((flag ≡ some i)
              × IsWall L requested final_url html
              × (i.requested_url ≡ requested)
              × (i.final_url ≡ final_url)))
  unfolding detect_auth_wall info
  detect_auth_wall_decides requested final_url html flag h =
      elim (Option-cases (login_marker (to_ascii_lowercase html))) [
        | inl panic ↦ absurd (cc (rw (panic, detect_auth_wall) at h))
        | inr (marker, read) ↦
            let marked = login_marker_decides (to_ascii_lowercase html) marker read in
            let moved = host_changed_iff L requested final_url in
            let sso = is_sso_redirect_iff L requested final_url in
            let made = rw (read, detect_auth_wall) at h in
            elim (Bool-cases (is_sso_redirect L requested final_url)) [
              | inl s ↦
                  inr (
                    info L requested final_url,
                    (ground (arith, s, made), inr (sso.0 s), refl, refl),
                  )
              | inr s ↦ elim (Bool-cases marker) [
                | inr m ↦ inl (
                  ground (arith, s, made, m),
                  λ why. elim why [
                    | inl (mark, rest) ↦ absurd (cc (marked.1 mark))
                    | inr on ↦ absurd (cc (sso.1 on))
                  ],
                )
                | inl m ↦ elim (Bool-cases (host_changed L requested final_url)) [
                  | inl c ↦ inr (
                    info L requested final_url,
                    (ground (arith, s, made, m, c), inl (marked.0 m, inl (moved.0 c)), refl, refl),
                  )
                  | inr c ↦ elim (Bool-cases (ltb (visible_text_len html) thin_page_chars)) [
                    | inl thin ↦ inr (
                      info L requested final_url,
                      (
                        ground (arith, s, made, m, c, thin),
                        inl (marked.0 m, inr (ground arith)),
                        refl,
                        refl,
                      ),
                    )
                    | inr thick ↦ inl (
                      ground (arith, s, made, m, c, thick),
                      λ why. elim why [
                        | inl (mark, inl away) ↦ absurd (cc (moved.1 away))
                        | inl (mark, inr small) ↦ absurd (ground arith)
                        | inr on ↦ absurd (cc (sso.1 on))
                      ],
                    )
                  ]
                ]
              ]
            ]
      ]

-- Checking a page panics exactly when it has no password field and its title cannot be sliced.
pub detect_auth_wall_panics_iff :
    (L : WebLib) (requested final_url html : Text)
    → (detect_auth_wall L requested final_url html ≡ none) ↔ (
        (has_password_field (to_ascii_lowercase html) ≡ false)
        × SplitsCharacter (to_ascii_lowercase html))
unfolding detect_auth_wall login_marker title_says_login
detect_auth_wall_panics_iff L requested final_url html =
    elim (Option-cases (from_first (text "<title") (to_ascii_lowercase html))) [
      | inl missing ↦ ground (arith, missing)
      | inr (rest, found) ↦ ground (arith, found, title_slice_iff rest)
    ]
