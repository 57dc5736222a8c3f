-- ===== src/Locations/Profile.antt =====
-- Which values of the environment give a browser profile directory in crates/core/src/paths.rs.
use stapler_mcp.Common.{
  ◌≡◌, ◌⊎◌, refl, inl, inr, true, false, Option, none, some, [], ◌∷◌, ◌++◌, arith, Bool-cases,
  Option-cases, Text, text, text_eq, text_eq_iff, is_empty, starts_with, ap, subst,
}
use stapler_mcp.Locations.{
  EnvPort, env_browser_profile_dir, given, tail_of, expand_home, browser_profile_dir,
}

-- An absolute path that the variable names: as it stands, or with `~` for the home directory.
abbrev pub IsNamedBy : EnvPort → Text → Text → Type 0
IsNamedBy env v p =
    (p ≡ v)
    ⊎ ((home : Text) × (env.home_dir ≡ some home)
        × (((v ≡ text "~") × (p ≡ home))
            ⊎ ((rest : Text) × (v ≡ text "~/" ++ rest) × (p ≡ home ++ (text "/" ++ rest)))))

given_sound : (o : Option Text) (v : Text) → given o ≡ some v → (o ≡ some v) × (is_empty v ≡ false)
given_sound none v e = absurd cc
given_sound (some []) v e = absurd cc
given_sound (some (c ∷ s)) v e = (e, subst (λ t. is_empty (from t) ≡ false) e refl)
  where
    from : Option Text → Text
    from none = c ∷ s
    from (some t) = t

starts_with_home :
    (v : Text)
    → starts_with (text "~/") v ≡ true
    → (rest : Text) × (v ≡ text "~/" ++ rest) × (tail_of v ≡ text "/" ++ rest)
unfolding starts_with
starts_with_home [] e = absurd cc
starts_with_home (c ∷ []) e = absurd (ground arith)
starts_with_home (c ∷ (d ∷ rest)) e =
    let tilde : c ≡ b'~' = ground arith in
    let slash : d ≡ b'/' = ground arith in (rest, cc (tilde, slash), cc slash)

expand_home_cases : (env : EnvPort) (v : Text) → IsNamedBy env v (expand_home env.home_dir v)
unfolding expand_home
expand_home_cases env v = named env.home_dir refl
  where
    named : (h : Option Text) → env.home_dir ≡ h → IsNamedBy env v (expand_home h v)
    named none e = inl refl
    named (some home) e = elim (Bool-cases (text_eq v (text "~"))) [
      | inl bare ↦ rw bare (inr (home, e, inl ((text_eq_iff v (text "~")).0 bare, refl)))
      | inr longer ↦ elim (Bool-cases (starts_with (text "~/") v)) [
        | inl below ↦
            let (rest, whole, tail) = starts_with_home v below in
            rw longer (rw below (inr (home, e, inr (rest, whole, ap (◌++◌ home) tail))))
        | inr plain ↦ rw longer (rw plain (inl refl))
      ]
    ]

-- A profile directory is an absolute path that the variable names, and the variable is not empty.
pub browser_profile_dir_sound :
    (env : EnvPort) (p : Text)
    → browser_profile_dir env ≡ some p
    → (starts_with (text "/") p ≡ true)
      × ((v : Text) × (env.var env_browser_profile_dir ≡ some v)
          × (is_empty v ≡ false)
          × IsNamedBy env v p)
unfolding browser_profile_dir
browser_profile_dir_sound env p e = elim (Option-cases (given (env.var env_browser_profile_dir))) [
  | inl unset ↦ absurd (cc (rw (unset, browser_profile_dir) at e))
  | inr (v, set_to) ↦
      let (value, full) = given_sound (env.var env_browser_profile_dir) v set_to in
      elim (Bool-cases (starts_with (text "/") (expand_home env.home_dir v))) [
        | inr relative ↦ absurd (ground (arith, set_to, relative))
        | inl absolute ↦
            let same : expand_home env.home_dir v ≡ p = ground (arith, set_to, absolute) in
            (
              subst (λ q. starts_with (text "/") q ≡ true) same absolute,
              (v, value, full, subst (IsNamedBy env v) same (expand_home_cases env v)),
            )
      ]
]
