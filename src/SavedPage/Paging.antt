-- ===== src/SavedPage/Paging.antt =====
-- `paginate_saved_page` of crates/core/src/tools/webcrawl.rs: the page that it shows, and the offsets
-- at which its slice panics.
use stapler_mcp.Common.{
  ℕ, ◌+◌, ◌-◌, ◌%◌, ◌^◌, min, ◌≤◌, ◌<◌, ◌≡◌, ◌↔◌, Option, none, List, arith, Text, length, take,
  drop,
}
use stapler_mcp.SavedPage.{
  usize_mod, slice_lines, view_slice, page_offset, page_limit, paginate_saved_page,
}

-- The lines from a 0-based offset on, at most `limit` of them.
abbrev pub window : List Text → ℕ → ℕ → List Text
window lines offset limit = take limit (drop offset lines)

view_slice_iff :
    (lines : List Text) (start end : ℕ)
    → end ≤ length lines
    → (view_slice lines start end ≡ none) ↔ (end < start)
unfolding view_slice slice_lines
view_slice_iff lines start end h = ground arith

wrapped_iff :
    (o l total : ℕ)
    → total ≤ 2 ^ 63
    → o < usize_mod
    → l ≤ 2000
    → (min ((o + l) % usize_mod) total < min o total)
      ↔ ((usize_mod ≤ o + l) × (o + l - usize_mod < total))
wrapped_iff o l total few word cap = (λ h. (omega arith, omega arith), λ h. omega arith)

-- For a file of at most 2 ^ 63 lines and an offset below 2 ^ 64, the view panics exactly when the
-- end of the page overflows and, wrapped, falls before the end of the file.
pub paginate_saved_page_panics_iff :
    (lines : List Text) (offset limit : Option ℕ)
    → length lines ≤ 2 ^ 63
    → page_offset offset < usize_mod
    → (paginate_saved_page lines offset limit ≡ none) ↔ (
        (usize_mod ≤ page_offset offset + page_limit limit)
        × (page_offset offset + page_limit limit - usize_mod < length lines))
unfolding paginate_saved_page
paginate_saved_page_panics_iff lines offset limit few word =
    let (to, from) =
      view_slice_iff lines (min (page_offset offset) (length lines))
        (min ((page_offset offset + page_limit limit) % usize_mod) (length lines)) (omega arith) in
    let (wrap, unwrap) =
      wrapped_iff (page_offset offset) (page_limit limit) (length lines) few word (omega arith) in
    (λ e. wrap (to e), λ h. from (unwrap h))
