-- ===== src/Vault/Lookup.antt =====
-- Which item `lookup_domain` of crates/native/src/vault.rs picks.
use stapler_mcp.Common.{
  ℕ, ◌≡◌, ◌↔◌, refl, ap, ◌∙◌, sym, inl, inr, Option, none, some, List, [], ◌∷◌, ◌++◌, arith,
  if◌then◌else◌, ◌==◌, Bool-cases, Option-cases, Text, text, select, All, All-map_of, ok,
  Result-cases,
}
use mathlib.Core.List.{filter_map, filter_map-cons-none, filter_map-cons-some, filter_map-append}
use stapler_mcp.Ports.{ProcessOutput}
use stapler_mcp.Web.{WebLib}
use stapler_mcp.Vault.{
  ValueLib, SpawnAndCapture, item_matches_domain, item_ids, parse_matching_items, pick_unique_match,
  list_argv, choose_item, lookup_domain,
}
use stapler_mcp.Vault.Candidates.{
  HasUrl, HasIds, item_matches_domain_sound, item_matches_domain_complete, item_ids_sound,
  item_ids_complete,
}

-- The list with exactly one element that `f` takes, and that it takes to `b`.
abbrev IsOnly {ℓ κ} : {A : Type ℓ} {B : Type κ} → (A → Option B) → List A → B → Type (ℓ ⊔ κ)
IsOnly {A} f xs b =
    (before : List A) × ((x : A) × ((after : List A) × (xs ≡ before ++ (x ∷ after))
        × (f x ≡ some b)
        × All (λ y. f y ≡ none) before
        × All (λ y. f y ≡ none) after))

-- The list with one element that has `b` by the relation, where no other has anything by it.
abbrev pub HasOnly {ℓ κ μ} :
    {A : Type ℓ} {B : Type κ} → (A → B → Type μ) → List A → B → Type (ℓ ⊔ κ ⊔ μ)
HasOnly {A} {B} R xs b =
    (before : List A) × ((x : A) × ((after : List A) × (xs ≡ before ++ (x ∷ after))
        × R x b
        × All (λ y. (c : B) → ¬ R y c) before
        × All (λ y. (c : B) → ¬ R y c) after))

filter_map-none {ℓ κ} :
    {A : Type ℓ} {B : Type κ} (f : A → Option B) (xs : List A)
    → filter_map f xs ≡ []
    → All (λ y. f y ≡ none) xs
filter_map-none f [] h = tt
filter_map-none f (x ∷ xs) h = elim (Option-cases (f x)) [
  | inl e ↦ (e, filter_map-none f xs (rw (filter_map-cons-none f x xs e) at h))
  | inr (b, e) ↦ absurd (cc (rw (filter_map-cons-some f x xs e) at h))
]

filter_map-IsOnly {ℓ κ} :
    {A : Type ℓ} {B : Type κ} (f : A → Option B) (xs : List A) (b : B)
    → filter_map f xs ≡ b ∷ []
    → IsOnly f xs b
unfolding filter_map
filter_map-IsOnly f [] b h = absurd cc
filter_map-IsOnly f (x ∷ xs) b h = elim (Option-cases (f x)) [
  | inl e ↦
      let (before, (y, (after, split, at_y, none_before, none_after))) =
        filter_map-IsOnly f xs b (rw (filter_map-cons-none f x xs e) at h) in
      (x ∷ before, (y, (after, ap (λ l. x ∷ l) split, at_y, (e, none_before), none_after)))
  | inr (c, e) ↦
      let both : c ∷ filter_map f xs ≡ b ∷ [] = rw (filter_map-cons-some f x xs e) at h in
      ([], (x, (xs, refl, e ∙ cc, tt, filter_map-none f xs (cc))))
]

filter_map-none_of_all {ℓ κ} :
    {A : Type ℓ} {B : Type κ} (f : A → Option B) (xs : List A)
    → All (λ y. f y ≡ none) xs
    → filter_map f xs ≡ []
unfolding filter_map
filter_map-none_of_all f [] h = refl
filter_map-none_of_all f (x ∷ xs) (e, h) =
    filter_map-cons-none f x xs e ∙ filter_map-none_of_all f xs h

IsOnly-filter_map {ℓ κ} :
    {A : Type ℓ} {B : Type κ} (f : A → Option B) (xs : List A) (b : B)
    → IsOnly f xs b
    → filter_map f xs ≡ b ∷ []
IsOnly-filter_map f xs b (before, (x, (after, split, e, l, r))) =
    ap (filter_map f) split
    ∙ filter_map-append f before (x ∷ after)
    ∙ ap (λ l. l ++ filter_map f (x ∷ after)) (filter_map-none_of_all f before l)
    ∙ filter_map-cons-some f x after e
    ∙ ap (λ l. b ∷ l) (filter_map-none_of_all f after r)

module _ (L : WebLib) (J : ValueLib) where
  -- An item of the vault that has a URL on the host of the target and these ids.
  abbrev pub Offers : L.Url → J.Value → Text × Text → Type 0
  Offers target item ids = HasUrl L J target item × HasIds J item ids

  -- What the code keeps of an item.
  abbrev candidate : L.Url → J.Value → Option (Text × Text × Text)
  candidate target item = if item_matches_domain L J item target then item_ids J item else none

  filter_map-select :
      (target : L.Url) (items : List J.Value)
      → filter_map (item_ids J) (select (λ item. item_matches_domain L J item target) items)
        ≡ filter_map (candidate target) items
  unfolding filter_map
  filter_map-select target [] = refl
  filter_map-select target (item ∷ items) =
      elim (Bool-cases (item_matches_domain L J item target)) [
        | inl m ↦ rw m (rw (filter_map-select target items))
        | inr m ↦ rw m (filter_map-select target items)
      ]

  candidate_sound :
      (target : L.Url) (item : J.Value) (ids : Text × Text) (title : Text)
      → candidate target item ≡ some (ids.0, ids.1, title)
      → Offers target item ids
  candidate_sound target item ids title h =
      elim (Bool-cases (item_matches_domain L J item target)) [
        | inr m ↦ absurd (cc (rw m at h))
        | inl m ↦ (
          item_matches_domain_sound L J item target m,
          item_ids_sound J item ids title (rw m at h),
        )
      ]

  candidate_complete :
      (target : L.Url) (item : J.Value) (ids : Text × Text)
      → Offers target item ids
      → (title : Text) × (candidate target item ≡ some (ids.0, ids.1, title))
  candidate_complete target item ids (url, named) =
      let (title, e) = item_ids_complete J item ids named in
      (title, rw (item_matches_domain_complete L J item target url) e)

  candidate-none :
      (target : L.Url) (item : J.Value)
      → ((ids : Text × Text) → ¬ Offers target item ids)
      → candidate target item ≡ none
  candidate-none target item refused = elim (Option-cases (candidate target item)) [
    | inl e ↦ e
    | inr ((v, i, title), e) ↦ absurd (refused (v, i) (candidate_sound target item (v, i) title e))
  ]

  IsOnly-HasOnly :
      (target : L.Url) (items : List J.Value) (ids : Text × Text) (title : Text)
      → IsOnly (candidate target) items (ids.0, ids.1, title)
      → HasOnly (Offers target) items ids
  IsOnly-HasOnly target items ids title (before, (x, (after, split, e, l, r))) = (
    before,
    (
      x,
      (
        after,
        split,
        candidate_sound target x ids title e,
        All-map_of _ refuses before l,
        All-map_of _ refuses after r,
      ),
    ),
  )
    where
      refuses : (y : J.Value) → candidate target y ≡ none → (c : Text × Text) → ¬ Offers target y c
      refuses y none_at c o = absurd (cc (sym none_at ∙ (candidate_complete target y c o).1))

  HasOnly-IsOnly :
      (target : L.Url) (items : List J.Value) (ids : Text × Text)
      → HasOnly (Offers target) items ids
      → (title : Text) × IsOnly (candidate target) items (ids.0, ids.1, title)
  HasOnly-IsOnly target items ids (before, (x, (after, split, o, l, r))) =
      let (title, e) = candidate_complete target x ids o in
      (
        title,
        (
          before,
          (
            x,
            (
              after,
              split,
              e,
              All-map_of _ (candidate-none target) before l,
              All-map_of _ (candidate-none target) after r,
            ),
          ),
        ),
      )

  -- The answer of `op item list` names exactly one item for the domain.
  abbrev pub NamesOnly : List ℕ → Text → Text × Text → Type 0
  NamesOnly stdout domain ids =
      (target : L.Url) × ((items : List J.Value) × (L.parse (text "https://" ++ domain)
          ≡ some target)
        × (J.parse_items stdout ≡ some items)
        × HasOnly (Offers target) items ids)

  pick_unique_match_iff :
      (domain : Text) (matches : List (Text × Text × Text)) (ids : Text × Text)
      → pick_unique_match domain matches ≡ ok ids
      → (title : Text) × (matches ≡ (ids.0, ids.1, title) ∷ [])
  unfolding pick_unique_match
  pick_unique_match_iff domain [] ids h = absurd cc
  pick_unique_match_iff domain ((v, i, title) ∷ []) ids h = (title, ground arith)
  pick_unique_match_iff domain (m ∷ n ∷ ms) ids h = absurd cc

  choose_item_sound :
      (domain : Text) (stdout : List ℕ) (ids : Text × Text)
      → choose_item L J domain stdout ≡ ok ids
      → NamesOnly stdout domain ids
  unfolding choose_item parse_matching_items
  choose_item_sound domain stdout ids h =
      elim (Option-cases (L.parse (text "https://" ++ domain))) [
        | inl e ↦ absurd (cc (rw (e, choose_item) at h))
        | inr (target, e) ↦ elim (Option-cases (J.parse_items stdout)) [
          | inl f ↦ absurd (cc (rw (e, f, choose_item, parse_matching_items) at h))
          | inr (items, f) ↦
              let (title, only) =
                pick_unique_match_iff domain _ ids
                  (rw (e, f, choose_item, parse_matching_items) at h) in
              (
                target,
                (
                  items,
                  e,
                  f,
                  IsOnly-HasOnly target items ids title (
                      filter_map-IsOnly (candidate target) items _
                        (sym (filter_map-select target items) ∙ only)),
                ),
              )
        ]
      ]

  choose_item_complete :
      (domain : Text) (stdout : List ℕ) (ids : Text × Text)
      → NamesOnly stdout domain ids
      → choose_item L J domain stdout ≡ ok ids
  unfolding choose_item parse_matching_items pick_unique_match
  choose_item_complete domain stdout ids (target, (items, e, f, only)) =
      let (title, one) = HasOnly-IsOnly target items ids only in
      rw
        (
          e,
          f,
          filter_map-select target items,
          IsOnly-filter_map (candidate target) items _ one,
          choose_item,
          parse_matching_items,
        )
        refl

module _ (L : WebLib) (J : ValueLib) {W : Type 0} (spawn : SpawnAndCapture W) where
  -- The lookup gives a vault and an item exactly when `op item list` succeeds with a list in which
  -- one item alone has a URL on the host of the domain and its ids, and they are that item's.
  pub lookup_domain_iff :
      (w : W) (domain : Text) (ids : Text × Text)
      → ((lookup_domain L J spawn w domain).0 ≡ ok ids) ↔ (
          (output : ProcessOutput) × (((spawn w list_argv).0 ≡ ok output)
            × (output.exit_code ≡ 0)
            × NamesOnly L J output.stdout domain ids))
  unfolding lookup_domain
  lookup_domain_iff w domain ids = (forward, backward)
    where
      forward :
          (lookup_domain L J spawn w domain).0 ≡ ok ids
          → (output : ProcessOutput) × (((spawn w list_argv).0 ≡ ok output)
              × (output.exit_code ≡ 0)
              × NamesOnly L J output.stdout domain ids)
      forward h = elim (Result-cases (spawn w list_argv).0) [
        | inr (e, f) ↦ absurd (cc (rw (f, lookup_domain) at h))
        | inl (output, f) ↦ elim (Bool-cases (output.exit_code == 0)) [
          | inr failed ↦ absurd (cc (rw (f, failed, lookup_domain) at h))
          | inl done ↦ (
            output,
            (
              f,
              ground arith,
              choose_item_sound L J domain output.stdout ids (rw (f, done, lookup_domain) at h),
            ),
          )
        ]
      ]

      backward :
          (output : ProcessOutput) × (((spawn w list_argv).0 ≡ ok output)
              × (output.exit_code ≡ 0)
              × NamesOnly L J output.stdout domain ids)
          → (lookup_domain L J spawn w domain).0 ≡ ok ids
      backward (output, (f, done, only)) =
          rw (f, done, lookup_domain) (choose_item_complete L J domain output.stdout ids only)
