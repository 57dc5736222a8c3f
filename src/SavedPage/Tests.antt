-- ===== src/SavedPage/Tests.antt =====
-- Runs of `read_saved_page` of crates/core/src/tools/webcrawl.rs on small inputs.
use stapler_mcp.Common.{
  ◌+◌, ◌-◌, ◌≤◌, ◌<◌, ◌≡◌, ◌↔◌, refl, none, some, List, [], ◌∷◌, arith, Text, text, length,
  to_ascii_lowercase, contains, show_nat,
}
use stapler_mcp.SavedPage.{
  numbered_lines, number_from, join_with, lines_of, lines_from, page_offset, page_limit, usize_mod,
  paginate_saved_page, slice_lines, match_blocks, add_match, render_blocks, grep_with_context,
}
use stapler_mcp.SavedPage.Paging.{paginate_saved_page_panics_iff}
use stapler_mcp.SavedPage.Blocks.{
  Covers, IsBlocks, IsNearMatch, match_blocks-Covers, grep_with_context_total,
}

abbrev page : List Text
page = text "one" ∷ text "Two" ∷ text "three" ∷ text "four" ∷ []

lines_tests :
    (lines_of (text "a\r\nb\n\nc") ≡ text "a" ∷ text "b" ∷ [] ∷ text "c" ∷ [])
    × (numbered_lines (text "x" ∷ text "y" ∷ []) 8 ≡ text "9: x\n10: y")
unfolding lines_of lines_from numbered_lines number_from join_with show_nat
lines_tests = (refl, refl)

grep_with_context_tests :
    (grep_with_context to_ascii_lowercase page (text "two") 0 ≡ some (text "2: Two"))
    × (grep_with_context to_ascii_lowercase page (text "o") 0
        ≡ some (text "1: one\n2: Two\n--\n4: four"))
unfolding grep_with_context match_blocks add_match render_blocks slice_lines numbered_lines
    number_from join_with contains show_nat
grep_with_context_tests = (refl, refl)

-- The largest offset, which a client can send, with the default limit.
paginate_saved_page_panics_iff_example :
    (paginate_saved_page page (some 18446744073709551615) (some 2) ≡ none) ↔ (
      (usize_mod ≤ page_offset (some 18446744073709551615) + page_limit (some 2))
      × (page_offset (some 18446744073709551615) + page_limit (some 2) - usize_mod < length page))
paginate_saved_page_panics_iff_example =
    paginate_saved_page_panics_iff page (some 18446744073709551615) (some 2) (omega arith)
      (omega arith)

match_blocks-Covers_example :
    IsBlocks 4 (match_blocks to_ascii_lowercase (text "two") 1 4 0 page [])
    × (Covers 2 (match_blocks to_ascii_lowercase (text "two") 1 4 0 page [])
        ↔ IsNearMatch to_ascii_lowercase (text "two") 1 4 2 0 page)
match_blocks-Covers_example = match_blocks-Covers to_ascii_lowercase (text "two") 1 4 2 page refl

grep_with_context_total_example :
    (out : Text) × (grep_with_context to_ascii_lowercase page (text "two") 1 ≡ some out)
grep_with_context_total_example = grep_with_context_total to_ascii_lowercase page (text "two") 1
