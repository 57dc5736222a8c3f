-- ===== src/Docs/Entries.antt =====
-- The manifest of crates/core/src/tools/docs.rs as a map from sources to their entries, and the
-- difference of its path from the others.
use stapler_mcp.Common.{
  ℕ, ◌≡◌, ◌≢◌, refl, ap, sym, ◌∙◌, inl, inr, false, Option, none, some, List, [], ◌∷◌, ◌++◌, arith,
  if◌then◌else◌, Bool-cases, Text, text_eq, text_eq_iff, get_elem?, reverse,
}
use mathlib.Core.List.{reverse-append}
use stapler_mcp.Docs.{SourceSummary}
use stapler_mcp.Docs.Index.{without_source}

-- The entry of a source, where there is one.
unfoldable pub find_source : Text → List SourceSummary → Option SourceSummary
find_source id [] = none
find_source id (s ∷ manifest) = if text_eq s.source_id id then some s else find_source id manifest

pub find_source-without_source :
    (id j : Text) (manifest : List SourceSummary)
    → find_source j (without_source id manifest)
      ≡ (if text_eq id j then none else find_source j manifest)
unfolding find_source without_source
find_source-without_source id j [] = ground arith
find_source-without_source id j (s ∷ manifest) = ground (
  arith,
  text_eq_iff s.source_id id,
  text_eq_iff s.source_id j,
  text_eq_iff id j,
  find_source-without_source id j manifest,
)

pub find_source-snoc :
    (j : Text) (manifest : List SourceSummary) (s : SourceSummary)
    → find_source j (manifest ++ s ∷ []) ≡ elim (find_source j manifest) [
      | some t ↦ some t
      | none ↦ if text_eq s.source_id j then some s else none
    ]
unfolding find_source
find_source-snoc j [] s = refl
find_source-snoc j (t ∷ manifest) s = ground (arith, find_source-snoc j manifest s)

pub find_source-update :
    (j : Text) (manifest : List SourceSummary) (s : SourceSummary)
    → find_source j (without_source s.source_id manifest ++ s ∷ [])
      ≡ (if text_eq s.source_id j then some s else find_source j manifest)
find_source-update j manifest s = ground (
  arith,
  find_source-snoc j (without_source s.source_id manifest) s,
  find_source-without_source s.source_id j manifest,
)

-- Texts that differ in one place, counted from the end.
pub ends_apart :
    (s t a b : Text) (k x y : ℕ)
    → ((p : Text) → get_elem? (reverse a ++ p) k ≡ some x)
    → ((q : Text) → get_elem? (reverse b ++ q) k ≡ some y)
    → x ≢ y
    → text_eq (s ++ a) (t ++ b) ≡ false
ends_apart s t a b k x y at_a at_b differ = elim (Bool-cases (text_eq (s ++ a) (t ++ b))) [
  | inr apart ↦ apart
  | inl same ↦
      let ends : reverse a ++ reverse s ≡ reverse b ++ reverse t =
        sym (reverse-append s a)
        ∙ ap reverse ((text_eq_iff (s ++ a) (t ++ b)).0 same)
        ∙ reverse-append t b in
      let both : some x ≡ some y =
        sym (at_a (reverse s)) ∙ (ap (λ (l : Text). get_elem? l k) ends ∙ at_b (reverse t)) in
      absurd (differ (cc))
]
