-- ===== src/Auth/Markers.antt =====
-- The tests of `detect_auth_wall` of crates/core/src/auth.rs, each decided by a property of the page or of
-- its URLs.
use stapler_mcp.Common.{
  ◌<◌, ◌≡◌, refl, ap, sym, ◌∙◌, ◌↔◌, ◌⊎◌, inl, inr, Bool, true, ◌&&◌, some, List, [], ◌∷◌, any,
  contains, starts_with, text_eq_iff, arith, Bool-cases, Option-cases, Text, text,
  to_ascii_lowercase, from_first,
}
use stapler_mcp.Web.{WebLib}
use stapler_mcp.Auth.{
  visible_text_len, has_password_field, title_slice, title_says_login, title_markers,
  sso_host_markers, sso_like_host, host_of, host_changed, is_sso_redirect, login_marker,
}

-- One of the elements has the property.
abbrev pub AnyOf {ℓ} : {A : Type ℓ} → (A → Type 0) → List A → Type 0
AnyOf P [] = ⊥
AnyOf P (x ∷ xs) = P x ⊎ AnyOf P xs

any_iff {ℓ} :
    {A : Type ℓ} (p : A → Bool) (xs : List A) → (any p xs ≡ true) ↔ AnyOf (λ x. p x ≡ true) xs
any_iff p [] = (λ h. absurd cc, λ h. absurd h)
any_iff p (x ∷ xs) = elim (Bool-cases (p x)) [
  | inl e ↦ (λ h. inl e, λ h. rw e refl)
  | inr e ↦ (
    λ h. inr ((any_iff p xs).0 (rw e at h)),
    λ h. elim h [ inl f ↦ absurd (cc) | inr k ↦ rw e ((any_iff p xs).1 k) ],
  )
]

-- The page has a password field, in one of three spellings.
abbrev pub HasPasswordField : Text → Type 0
HasPasswordField lower =
    AnyOf (λ m. contains m lower ≡ true)
      (text "type=\"password\"" ∷ text "type='password'" ∷ text "type=password" ∷ [])

-- The title of the page has one of the words of a login page.
abbrev pub HasLoginTitle : Text → Type 0
HasLoginTitle lower =
    (rest : Text) × ((title : Text) × ((from_first (text "<title") lower ≡ some rest)
        × (title_slice rest ≡ some title)
        × AnyOf (λ m. contains m title ≡ true) title_markers))

-- What marks a login page: a password field, or a login title that comes with a form.
abbrev pub HasMarker : Text → Type 0
HasMarker lower =
    HasPasswordField lower ⊎ (HasLoginTitle lower × (contains (text "<form") lower ≡ true))

has_password_field_iff : (lower : Text) → (has_password_field lower ≡ true) ↔ HasPasswordField lower
unfolding has_password_field
has_password_field_iff lower = ground arith

title_says_login_decides :
    (lower : Text) (b : Bool) → title_says_login lower ≡ some b → (b ≡ true) ↔ HasLoginTitle lower
unfolding title_says_login
title_says_login_decides lower b h = elim (Option-cases (from_first (text "<title") lower)) [
  | inl missing ↦ (
    λ e. absurd (cc (rw (missing, title_says_login) at h)),
    λ (rest, (title, (found, cut, says))). absurd (cc),
  )
  | inr (rest, found) ↦ elim (Option-cases (title_slice rest)) [
    | inl panic ↦ absurd (cc (rw (found, panic, title_says_login) at h))
    | inr (title, cut) ↦
        let same : some (any (λ m. contains m title) title_markers) ≡ some b =
          rw (found, cut, title_says_login) at h in
        let is_b : any (λ m. contains m title) title_markers ≡ b = ground arith in
        (
          λ e. (
            rest,
            (title, (found, cut, (any_iff (λ m. contains m title) title_markers).0 (is_b ∙ e))),
          ),
          λ (rest', (title', (found', cut', says))).
              sym is_b
              ∙ ap (λ t. any (λ m. contains m t) title_markers) (cc)
              ∙ (any_iff (λ m. contains m title') title_markers).1 says,
        )
  ]
]

pub login_marker_decides :
    (lower : Text) (b : Bool) → login_marker lower ≡ some b → (b ≡ true) ↔ HasMarker lower
unfolding login_marker
login_marker_decides lower b h = elim (Bool-cases (has_password_field lower)) [
  | inl field ↦
      let is_b : true ≡ b = ground (arith, field) in
      (λ e. inl ((has_password_field_iff lower).0 field), λ m. sym is_b)
  | inr none_of_them ↦ elim (Option-cases (title_says_login lower)) [
    | inl panic ↦ absurd (cc (rw (none_of_them, panic, login_marker) at h))
    | inr (says, read) ↦
        let both : some (says && contains (text "<form") lower) ≡ some b =
          rw (none_of_them, read, login_marker) at h in
        let title = title_says_login_decides lower says read in
        (
          λ e. inr (title.0 (ground arith), ground arith),
          λ m. elim m [
            | inl field ↦ absurd (cc ((has_password_field_iff lower).1 field))
            | inr (says_it, form) ↦ ground (arith, title.1 says_it)
          ],
        )
  ]
]

module _ (L : WebLib) where
  -- The host of a URL, in lower case.
  abbrev pub IsHost : Text → Text → Type 0
  IsHost url host =
      (u : L.Url) × ((h : Text) × ((L.parse url ≡ some u)
          × (L.host_str u ≡ some h)
          × (to_ascii_lowercase h ≡ host)))

  -- Both URLs have a host, and the page was served by another than the one asked for.
  abbrev pub HasMoved : Text → Text → Type 0
  HasMoved requested final_url =
      (a : Text) × ((b : Text) × (IsHost requested a × IsHost final_url b × ¬ (a ≡ b)))

  -- The page was served by another host, whose name is like that of a sign-on service.
  abbrev pub IsOnSso : Text → Text → Type 0
  IsOnSso requested final_url =
      HasMoved requested final_url
      × ((b : Text) × (IsHost final_url b
            × AnyOf (λ m. (starts_with m b ≡ true) ⊎ (contains m b ≡ true)) sso_host_markers))

  host_of_iff : (url host : Text) → (host_of L url ≡ some host) ↔ IsHost url host
  unfolding host_of
  host_of_iff url host = elim (Option-cases (L.parse url)) [
    | inl bad ↦ (λ h. absurd (cc (rw (bad, host_of) at h)), λ (u, (h, (e, _, _))). absurd (cc))
    | inr (u, good) ↦ elim (Option-cases (L.host_str u)) [
      | inl no_host ↦
          (λ h. absurd (cc (rw (good, no_host, host_of) at h)), λ (v, (h, (e, f, _))). absurd (cc))
      | inr (h, named) ↦ (
        λ e. (u, (h, (good, named, ground (arith, good, named)))),
        λ (v, (k, (e, f, g))). rw (e, f, host_of) (ap some g),
      )
    ]
  ]

  pub host_changed_iff :
      (requested final_url : Text)
      → (host_changed L requested final_url ≡ true) ↔ HasMoved requested final_url
  unfolding host_changed
  host_changed_iff requested final_url = elim (Option-cases (host_of L requested)) [
    | inl e ↦ (
      λ h. absurd (cc (rw (e, host_changed) at h)),
      λ (a, (b, (p, q, n))). absurd (cc ((host_of_iff requested a).1 p)),
    )
    | inr (a, e) ↦ elim (Option-cases (host_of L final_url)) [
      | inl f ↦ (
        λ h. absurd (cc (rw (e, f, host_changed) at h)),
        λ (c, (b, (p, q, n))). absurd (cc ((host_of_iff final_url b).1 q)),
      )
      | inr (b, f) ↦ (
        λ h. (
          a,
          (
            b,
            (
              (host_of_iff requested a).0 e,
              (host_of_iff final_url b).0 f,
              λ same. absurd (ground (arith, rw (e, f, host_changed) at h, text_eq_iff a b, same)),
            ),
          ),
        ),
        λ (c, (d, (p, q, n))).
            rw ((host_of_iff requested c).1 p, (host_of_iff final_url d).1 q, host_changed)
              (ground (arith, text_eq_iff c d, n)),
      )
    ]
  ]

  sso_like_host_iff :
      (host : Text)
      → (sso_like_host host ≡ true)
        ↔ AnyOf (λ m. (starts_with m host ≡ true) ⊎ (contains m host ≡ true)) sso_host_markers
  unfolding sso_like_host
  sso_like_host_iff host = ground arith

  pub is_sso_redirect_iff :
      (requested final_url : Text)
      → (is_sso_redirect L requested final_url ≡ true) ↔ IsOnSso requested final_url
  unfolding is_sso_redirect
  is_sso_redirect_iff requested final_url = elim (Option-cases (host_of L final_url)) [
    | inl f ↦ (
      λ h. absurd (ground (arith, f)),
      λ (moved, (b, (q, like))). absurd (cc ((host_of_iff final_url b).1 q)),
    )
    | inr (b, f) ↦ (
      λ h. (
        (host_changed_iff requested final_url).0 (ground (arith, f)),
        (b, ((host_of_iff final_url b).0 f, (sso_like_host_iff b).0 (ground (arith, f)))),
      ),
      λ (moved, (c, (q, like))).
          rw
            (
              (host_changed_iff requested final_url).1 moved,
              (host_of_iff final_url c).1 q,
              is_sso_redirect,
            )
            ((sso_like_host_iff c).1 like),
    )
  ]

  -- Why a page is a login wall: it has a login marker, and comes from another host or is thin; or it
  -- comes from another host that is like one of a sign-on service.
  abbrev pub IsWall : Text → Text → Text → Type 0
  IsWall requested final_url html =
      (HasMarker (to_ascii_lowercase html)
        × (HasMoved requested final_url ⊎ (visible_text_len html < 500)))
      ⊎ IsOnSso requested final_url
