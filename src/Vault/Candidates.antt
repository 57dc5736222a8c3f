-- ===== src/Vault/Candidates.antt =====
-- Which items of the vault `parse_matching_items` and `item_matches_domain` of
-- crates/native/src/vault.rs take for a domain, by the members of the items' JSON.
use stapler_mcp.Common.{
  ◌≡◌, refl, ap, ◌∙◌, sym, inl, inr, Bool, true, some, List, [], ◌∷◌, ◌++◌, Bool-cases,
  Option-cases, Text, text, text_eq_iff, any,
}
use stapler_mcp.Web.{WebLib}
use stapler_mcp.Crawler.{get_or, same_host}
use stapler_mcp.Vault.{ValueLib, href_matches, item_matches_domain, item_ids, string_at}

-- Some element has the property.
abbrev pub Some {ℓ κ} : {A : Type ℓ} → (A → Type κ) → List A → Type (ℓ ⊔ κ)
Some {A} P xs =
    (before : List A) × ((x : A) × ((after : List A) × (xs ≡ before ++ (x ∷ after)) × P x))

any-Some {ℓ κ} :
    {A : Type ℓ} {P : A → Type κ} (p : A → Bool)
    → ((x : A) → p x ≡ true → P x)
    → (xs : List A) → any p xs ≡ true
    → Some P xs
any-Some p f [] h = absurd cc
any-Some p f (x ∷ xs) h = elim (Bool-cases (p x)) [
  | inl e ↦ ([], (x, (xs, refl, f x e)))
  | inr e ↦
      let (before, (y, (after, split, at_y))) = any-Some p f xs (rw e at h) in
      (x ∷ before, (y, (after, ap (λ l. x ∷ l) split, at_y)))
]

any-at {ℓ} :
    {A : Type ℓ} (p : A → Bool) (before : List A) (x : A) (after : List A)
    → p x ≡ true
    → any p (before ++ (x ∷ after)) ≡ true
any-at p [] x after h = rw h refl
any-at p (y ∷ before) x after h = elim (Bool-cases (p y)) [
  | inl e ↦ rw e refl
  | inr e ↦ rw e (any-at p before x after h)
]

module _ (L : WebLib) (J : ValueLib) where
  -- The `href` of the JSON object is a URL on the target's host.
  abbrev pub IsOnHost : L.Url → J.Value → Type 0
  IsOnHost target u =
      (value : J.Value) × ((href : Text) × ((url : L.Url) × ((host : Text) × (J.get (text "href") u
              ≡ some value)
            × (J.as_str value ≡ some href)
            × (L.parse href ≡ some url)
            × (L.host_str url ≡ some host)
            × (L.host_str target ≡ some host))))

  -- The `urls` of the item are an array with a URL on the target's host.
  abbrev pub HasUrl : L.Url → J.Value → Type 0
  HasUrl target item =
      (urls : J.Value) × ((us : List J.Value) × (J.get (text "urls") item ≡ some urls)
        × (J.as_array urls ≡ some us)
        × Some (IsOnHost target) us)

  same_host_sound :
      (url target : L.Url)
      → same_host L url target ≡ true
      → (host : Text) × ((L.host_str url ≡ some host) × (L.host_str target ≡ some host))
  unfolding same_host
  same_host_sound url target h = elim (Option-cases (L.host_str url)) [
    | inl e ↦ absurd (cc (rw (e, same_host) at h))
    | inr (a, e) ↦ elim (Option-cases (L.host_str target)) [
      | inl f ↦ absurd (cc (rw (e, f, same_host) at h))
      | inr (b, f) ↦ (a, (e, f ∙ ap some (sym ((text_eq_iff a b).0 (rw (e, f, same_host) at h)))))
    ]
  ]

  href_matches_sound :
      (target : L.Url) (u : J.Value) → href_matches L J target u ≡ true → IsOnHost target u
  href_matches_sound target u h = elim (Option-cases (J.get (text "href") u)) [
    | inl e ↦ absurd (cc (rw (e, href_matches) at h))
    | inr (value, e) ↦ elim (Option-cases (J.as_str value)) [
      | inl f ↦ absurd (cc (rw (e, f, href_matches) at h))
      | inr (href, f) ↦ elim (Option-cases (L.parse href)) [
        | inl g ↦ absurd (cc (rw (e, f, g, href_matches) at h))
        | inr (url, g) ↦
            let (host, (a, b)) = same_host_sound url target (rw (e, f, g, href_matches) at h) in
            (value, (href, (url, (host, e, f, g, a, b))))
      ]
    ]
  ]

  href_matches_complete :
      (target : L.Url) (u : J.Value) → IsOnHost target u → href_matches L J target u ≡ true
  unfolding same_host
  href_matches_complete target u (value, (href, (url, (host, e, f, g, a, b)))) =
      rw (e, f, g, a, b, href_matches, same_host) ((text_eq_iff host host).1 refl)

  pub item_matches_domain_sound :
      (item : J.Value) (target : L.Url)
      → item_matches_domain L J item target ≡ true
      → HasUrl target item
  unfolding item_matches_domain
  item_matches_domain_sound item target h = elim (Option-cases (J.get (text "urls") item)) [
    | inl e ↦ absurd (cc (rw (e, item_matches_domain) at h))
    | inr (urls, e) ↦ elim (Option-cases (J.as_array urls)) [
      | inl f ↦ absurd (cc (rw (e, f, item_matches_domain) at h))
      | inr (us, f) ↦ (
        urls,
        (
          us,
          e,
          f,
          any-Some (href_matches L J target) (href_matches_sound target) us
              (rw (e, f, item_matches_domain) at h),
        ),
      )
    ]
  ]

  pub item_matches_domain_complete :
      (item : J.Value) (target : L.Url)
      → HasUrl target item
      → item_matches_domain L J item target ≡ true
  unfolding item_matches_domain
  item_matches_domain_complete item target (urls, (us, e, f, (before, (u, (after, split, here))))) =
      rw (e, f, split, item_matches_domain)
        (any-at (href_matches L J target) before u after (href_matches_complete target u here))

module _ (J : ValueLib) where
  -- The item and its `vault` have these strings as their `id`.
  abbrev pub HasIds : J.Value → Text × Text → Type 0
  HasIds item ids =
      (vault : J.Value) × ((vault_id : J.Value) × ((item_id : J.Value) × (J.get (text "vault") item
            ≡ some vault)
          × (J.get (text "id") vault ≡ some vault_id)
          × (J.as_str vault_id ≡ some ids.0)
          × (J.get (text "id") item ≡ some item_id)
          × (J.as_str item_id ≡ some ids.1)))

  string_at_sound :
      (key : Text) (v : J.Value) (s : Text)
      → string_at J key v ≡ some s
      → (x : J.Value) × ((J.get key v ≡ some x) × (J.as_str x ≡ some s))
  string_at_sound key v s h = elim (Option-cases (J.get key v)) [
    | inl e ↦ absurd (cc (rw (e, string_at) at h))
    | inr (x, e) ↦ (x, (e, rw (e, string_at) at h))
  ]

  pub item_ids_sound :
      (item : J.Value) (ids : Text × Text) (title : Text)
      → item_ids J item ≡ some (ids.0, ids.1, title)
      → HasIds item ids
  unfolding item_ids
  item_ids_sound item ids title h = elim (Option-cases (J.get (text "vault") item)) [
    | inl e ↦ absurd (cc (rw (e, item_ids) at h))
    | inr (vault, e) ↦ elim (Option-cases (string_at J (text "id") vault)) [
      | inl f ↦ absurd (cc (rw (e, f, item_ids) at h))
      | inr (v, f) ↦ elim (Option-cases (string_at J (text "id") item)) [
        | inl g ↦ absurd (cc (rw (e, f, g, item_ids) at h))
        | inr (i, g) ↦
            let made = rw (e, f, g, item_ids) at h in
            let (vault_id, (f1, f2)) = string_at_sound (text "id") vault v f in
            let (item_id, (g1, g2)) = string_at_sound (text "id") item i g in
            (vault, (vault_id, (item_id, e, f1, f2 ∙ cc, g1, g2 ∙ cc)))
      ]
    ]
  ]

  pub item_ids_complete :
      (item : J.Value) (ids : Text × Text)
      → HasIds item ids
      → (title : Text) × (item_ids J item ≡ some (ids.0, ids.1, title))
  unfolding item_ids
  item_ids_complete item ids (vault, (vault_id, (item_id, e, f, g, h, k))) = (
    get_or (string_at J (text "title") item) (text "<untitled>"),
    rw (e, f, g, h, k, string_at, item_ids) refl,
  )
