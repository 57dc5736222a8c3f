-- ===== src/SavedPage/Blocks.antt =====
-- The blocks of `grep_with_context` in crates/core/src/tools/webcrawl.rs: which lines they cover, and
-- that no slice by them panics.
use stapler_mcp.Common.{
  ℕ, ◌+◌, ◌-◌, ◌≤◌, ◌<◌, ◌≡◌, ◌↔◌, ◌⊎◌, refl, true, some, List, [], ◌∷◌, arith, reverse, inl, inr,
  leb, leb→le, Bool-cases, Text, text, contains, length, take, drop, All, All-reverse,
}
use stapler_mcp.SavedPage.{
  slice_lines, add_match, match_blocks, render_blocks, grep_with_context, numbered_lines, join_with,
}

abbrev pub Covers : ℕ → List (ℕ × ℕ) → Type 0
Covers j [] = ⊥
Covers j ((start, end) ∷ blocks) = ((start ≤ j) × (j ≤ end)) ⊎ Covers j blocks

-- The lines that one match shows.
abbrev pub InWindow : ℕ → ℕ → ℕ → ℕ → Type 0
InWindow context total i j = (i - context ≤ j) × (j ≤ i + context) × (j < total)

-- The last block, which stands first, began at or before the window of line `i`, and ended at or
-- before its end.
abbrev Behind : ℕ → ℕ → List (ℕ × ℕ) → Type 0
Behind context i [] = Unit
Behind context i ((start, end) ∷ blocks) = (start ≤ i - context) × (end ≤ i + context)

-- The gap between a block and the one before it.
abbrev pub IsAfter : ℕ → List (ℕ × ℕ) → Type 0
IsAfter start [] = Unit
IsAfter start ((s, end) ∷ blocks) = end + 1 < start

-- Blocks inside the file, from the last to the first, with at least one line between any two.
abbrev pub IsBlocks : ℕ → List (ℕ × ℕ) → Type 0
IsBlocks total [] = Unit
IsBlocks total ((start, end) ∷ blocks) =
    (start ≤ end) × (end < total) × IsAfter start blocks × IsBlocks total blocks

add_match-IsBlocks :
    (context total i : ℕ) (blocks : List (ℕ × ℕ))
    → i < total
    → IsBlocks total blocks
    → Behind context i blocks
    → IsBlocks total (add_match context total i blocks)
      × Behind context (i + 1) (add_match context total i blocks)
unfolding add_match
add_match-IsBlocks context total i [] h b r =
    ((omega arith, omega arith, tt, tt), (omega arith, omega arith))
add_match-IsBlocks context total i ((start, end) ∷ blocks) h b r =
    elim (Bool-cases (leb (i - context) (end + 1))) [
      | inl joined ↦ rw joined ((omega arith, omega arith, b.2, b.3), (omega arith, omega arith))
      | inr apart ↦
          rw apart
            ((omega arith, omega arith, ground (arith, apart), b), (omega arith, omega arith))
    ]

-- A match adds its window to the covered lines, and nothing else.
add_match-Covers :
    (context total i j : ℕ) (blocks : List (ℕ × ℕ))
    → i < total
    → IsBlocks total blocks
    → Behind context i blocks
    → Covers j (add_match context total i blocks) ↔ (InWindow context total i j ⊎ Covers j blocks)
unfolding add_match
add_match-Covers context total i j [] h b r = ground arith
add_match-Covers context total i j ((start, end) ∷ blocks) h b r =
    elim (Bool-cases (leb (i - context) (end + 1))) [
      | inl joined ↦ rw joined (ground (arith, leb→le _ _ joined))
      | inr apart ↦ rw apart (ground arith)
    ]

module _ (to_lowercase : Text → Text) (query : Text) (context total : ℕ) where
  -- Line `j` lies in the window of a matching line, among the lines from line `i` on.
  abbrev pub IsNearMatch : ℕ → ℕ → List Text → Type 0
  IsNearMatch j i [] = ⊥
  IsNearMatch j i (line ∷ lines) =
      ((contains query (to_lowercase line) ≡ true) × InWindow context total i j)
      ⊎ IsNearMatch j (i + 1) lines

  match_blocks_lem :
      (j i : ℕ) (lines : List Text) (blocks : List (ℕ × ℕ))
      → i + length lines ≤ total
      → IsBlocks total blocks
      → Behind context i blocks
      → IsBlocks total (match_blocks to_lowercase query context total i lines blocks)
        × (Covers j (match_blocks to_lowercase query context total i lines blocks)
            ↔ (IsNearMatch j i lines ⊎ Covers j blocks))
  unfolding match_blocks
  match_blocks_lem j i [] blocks h b r = (b, ground arith)
  match_blocks_lem j i (line ∷ lines) blocks h b r =
      elim (Bool-cases (contains query (to_lowercase line))) [
        | inl hit ↦
            let (b', r') = add_match-IsBlocks context total i blocks (omega arith) b r in
            let (final, same) =
              match_blocks_lem j (i + 1) lines (add_match context total i blocks) (omega arith) b'
                r' in
            rw hit (
              final,
              ground (arith, same, add_match-Covers context total i j blocks (omega arith) b r),
            )
        | inr miss ↦
            let (final, same) =
              match_blocks_lem j (i + 1) lines blocks (omega arith) b (later blocks r) in
            rw miss (final, ground (arith, same))
      ]
    where
      later : (blocks : List (ℕ × ℕ)) → Behind context i blocks → Behind context (i + 1) blocks
      later [] r = tt
      later ((start, end) ∷ bs) r = omega arith

  -- The blocks that the search renders are inside the file and at least one line apart, and the lines
  -- that they cover are exactly those within `context` lines of a line that contains the query.
  pub match_blocks-Covers :
      (j : ℕ) (lines : List Text)
      → length lines ≡ total
      → IsBlocks total (match_blocks to_lowercase query context total 0 lines [])
        × (Covers j (match_blocks to_lowercase query context total 0 lines [])
            ↔ IsNearMatch j 0 lines)
  match_blocks-Covers j lines whole =
      let (final, same) = match_blocks_lem j 0 lines [] (omega arith) tt tt in
      (final, ground (arith, same))

abbrev IsInside : ℕ → ℕ × ℕ → Type 0
IsInside total (start, end) = (start ≤ end) × (end < total)

IsBlocks-IsInside :
    (total : ℕ) (blocks : List (ℕ × ℕ)) → IsBlocks total blocks → All (IsInside total) blocks
IsBlocks-IsInside total [] h = tt
IsBlocks-IsInside total ((start, end) ∷ blocks) (p, q, _, h) =
    ((p, q), IsBlocks-IsInside total blocks h)

render_blocks_total :
    (lines : List Text) (blocks : List (ℕ × ℕ))
    → All (IsInside (length lines)) blocks
    → (pages : List Text) × (render_blocks lines blocks ≡ some pages)
unfolding render_blocks slice_lines
render_blocks_total lines [] h = ([], refl)
render_blocks_total lines ((start, end) ∷ blocks) ((p, q), h) =
    let (pages, e) = render_blocks_total lines blocks h in
    (numbered_lines (take (end + 1 - start) (drop start lines)) start ∷ pages, ground (arith, e))

-- The search returns a text for every file, query and context: none of its slices panics.
pub grep_with_context_total :
    (to_lowercase : Text → Text) (lines : List Text) (query : Text) (context : ℕ)
    → (out : Text) × (grep_with_context to_lowercase lines query context ≡ some out)
unfolding grep_with_context
grep_with_context_total to_lowercase lines query context =
    let (inside, _) = match_blocks-Covers to_lowercase query context (length lines) 0 lines refl in
    let (pages, e) =
      render_blocks_total lines
        (reverse (match_blocks to_lowercase query context (length lines) 0 lines []))
        (All-reverse (IsInside (length lines)) _ (IsBlocks-IsInside (length lines) _ inside)) in
    (join_with (text "\n--\n") pages, rw (e, grep_with_context))
