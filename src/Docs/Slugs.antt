-- ===== src/Docs/Slugs.antt =====
-- What `slugify` of crates/core/src/tools/docs.rs makes of a name.
use stapler_mcp.Common.{
  ℕ, ◌≡◌, ◌≢◌, ◌⊎◌, refl, inl, inr, Bool, true, false, [], ◌∷◌, ◌++◌, arith, ◌==◌, Bool-cases, Text,
  text, text_eq, text_eq_iff, All, All-append, All-map_of,
}
use stapler_mcp.Web.{WebLib}
use stapler_mcp.Docs.{TextLib, slug_chars, pop_dash, slugify}

-- A character that a path component can have anywhere.
abbrev pub IsPathSafe : ℕ → Type 0
IsPathSafe c = (c ≢ b'/') × (c ≢ b'.')

-- No dash follows a dash, nor stands first where the flag is set.
abbrev pub IsSpaced : Bool → Text → Type 0
IsSpaced last_was_dash [] = Unit
IsSpaced last_was_dash (c ∷ s) = ((c ≢ b'-') ⊎ (last_was_dash ≡ false)) × IsSpaced (c == b'-') s

-- The last character is no dash.
abbrev pub EndsPlain : Text → Type 0
EndsPlain [] = Unit
EndsPlain (c ∷ []) = c ≢ b'-'
EndsPlain (c ∷ d ∷ s) = EndsPlain (d ∷ s)

abbrev IsWord : Text → Type 0
IsWord l = All (λ d. (d ≢ b'-') × IsPathSafe d) l

word-IsSpaced :
    (d : ℕ) (l : Text) (b : Bool) (r : Text)
    → IsWord (d ∷ l)
    → IsSpaced false r
    → IsSpaced b ((d ∷ l) ++ r)
word-IsSpaced d [] b r ((p, q), h) k = (inl p, plain (Bool-cases (d == b'-')))
  where
    plain : ((d == b'-') ≡ true) ⊎ ((d == b'-') ≡ false) → IsSpaced (d == b'-') r
    plain (inl dash) = absurd (p (ground arith))
    plain (inr e) = rw e k
word-IsSpaced d (e ∷ l) b r ((p, q), h) k = (inl p, word-IsSpaced e l (d == b'-') r h k)

pop_dash-IsSpaced : (s : Text) (b : Bool) → IsSpaced b s → IsSpaced b (pop_dash s)
pop_dash-IsSpaced [] b h = tt
pop_dash-IsSpaced (c ∷ []) b h = elim (Bool-cases (text_eq (c ∷ []) (text "-"))) [
  | inl dash ↦ rw dash tt
  | inr other ↦ rw other h
]
pop_dash-IsSpaced (c ∷ d ∷ s) b (p, h) = (p, pop_dash-IsSpaced (d ∷ s) (c == b'-') h)

pop_dash_safe : (s : Text) → All IsPathSafe s → All IsPathSafe (pop_dash s)
pop_dash_safe [] h = tt
pop_dash_safe (c ∷ []) h = elim (Bool-cases (text_eq (c ∷ []) (text "-"))) [
  | inl dash ↦ rw dash tt
  | inr other ↦ rw other h
]
pop_dash_safe (c ∷ d ∷ s) (p, h) = (p, pop_dash_safe (d ∷ s) h)

pop_dash-EndsPlain : (s : Text) (b : Bool) → IsSpaced b s → EndsPlain (pop_dash s)
pop_dash-EndsPlain [] b h = tt
pop_dash-EndsPlain (c ∷ []) b h = elim (Bool-cases (text_eq (c ∷ []) (text "-"))) [
  | inl dash ↦ rw dash tt
  | inr other ↦ rw other (ground (arith, other, text_eq_iff (c ∷ []) (text "-")))
]
pop_dash-EndsPlain (c ∷ d ∷ []) b (p, (q, h)) = elim (Bool-cases (text_eq (d ∷ []) (text "-"))) [
  | inl dash ↦ rw dash (ground (arith, dash, q, text_eq_iff (d ∷ []) (text "-")))
  | inr other ↦ rw other (ground (arith, other, text_eq_iff (d ∷ []) (text "-")))
]
pop_dash-EndsPlain (c ∷ d ∷ e ∷ s) b (p, h) = pop_dash-EndsPlain (d ∷ e ∷ s) (c == b'-') h

module _ {L : WebLib} (T : TextLib L)
    (lower_case : (c : ℕ)
      → T.is_alphanumeric c ≡ true
      → (T.to_lowercase c ≢ [])
        × All (λ d. (d ≢ b'-') × ((d ≢ b'/') × (d ≢ b'.'))) (T.to_lowercase c)) where
  lower_case-IsSpaced :
      (l : Text) (b : Bool) (r : Text)
      → (l ≢ []) × IsWord l
      → IsSpaced false r
      → IsSpaced b (l ++ r)
  lower_case-IsSpaced [] b r (full, h) k = absurd (full refl)
  lower_case-IsSpaced (d ∷ l) b r (full, h) k = word-IsSpaced d l b r h k

  slug_chars-IsSpaced : (s : Text) (b : Bool) → IsSpaced b (slug_chars T b s)
  unfolding slug_chars
  slug_chars-IsSpaced [] b = tt
  slug_chars-IsSpaced (c ∷ s) b = elim (Bool-cases (T.is_alphanumeric c)) [
    | inl kept ↦ rw kept (
        lower_case-IsSpaced (T.to_lowercase c) b (slug_chars T false s) (lower_case c kept)
          (slug_chars-IsSpaced s false))
    | inr broken ↦ elim (Bool-cases b) [
      | inl again ↦ rw (broken, again) (slug_chars-IsSpaced s true)
      | inr first ↦ rw (broken, first) (inr refl, slug_chars-IsSpaced s true)
    ]
  ]

  slug_chars_safe : (s : Text) (b : Bool) → All IsPathSafe (slug_chars T b s)
  unfolding slug_chars
  slug_chars_safe [] b = tt
  slug_chars_safe (c ∷ s) b = elim (Bool-cases (T.is_alphanumeric c)) [
    | inl kept ↦ rw kept (
        All-append IsPathSafe (T.to_lowercase c) (slug_chars T false s)
          (All-map_of (λ d. (d ≢ b'-') × IsPathSafe d) (λ d h. h.1) (T.to_lowercase c)
            (lower_case c kept).1)
          (slug_chars_safe s false))
    | inr broken ↦ elim (Bool-cases b) [
      | inl again ↦ rw (broken, again) (slug_chars_safe s true)
      | inr first ↦ rw (broken, first) ((omega arith, omega arith), slug_chars_safe s true)
    ]
  ]

  -- Where the lower case of a letter or digit is one or more characters other than the dash, the slash
  -- and the dot, an id has no slash and no dot, so that it names a directory in that of the index, and
  -- a dash in it stands between two other characters.
  pub slugify_sound :
      (s : Text)
      → All (λ d. (d ≢ b'/') × (d ≢ b'.')) (slugify T s)
        × IsSpaced true (slugify T s)
        × EndsPlain (slugify T s)
  unfolding slugify
  slugify_sound s =
      let spaced = slug_chars-IsSpaced s true in
      (
        pop_dash_safe (slug_chars T true s) (slug_chars_safe s true),
        pop_dash-IsSpaced (slug_chars T true s) true spaced,
        pop_dash-EndsPlain (slug_chars T true s) true spaced,
      )
