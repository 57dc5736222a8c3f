-- ===== src/SavedPage.antt =====
-- `read_saved_page` of crates/core/src/tools/webcrawl.rs: the check of the path, the two views of a
-- saved page, and the lines and blocks behind them. `usize` arithmetic wraps at 2 ^ 64, as in a
-- release build, and `none` is a panic of a slice. Unicode lower case is a parameter.
pub mod Paging
pub mod Blocks
mod Tests
use stapler_mcp.Common.{
  ℕ, zero, suc, ◌+◌, ◌-◌, ◌%◌, ◌^◌, min, max, Bool, true, false, ◌&&◌, ◌||◌, Option, none, some,
  List, [], ◌∷◌, ◌++◌, map, reverse, if◌then◌else◌, leb, ltb, ◌==◌, Text, text, is_empty,
  strip_prefix, contains, byte_len, as_bytes, show_nat, all, length, take, drop, Result, ok, err,
}
use stapler_mcp.Ports.{PortError, display}
use stapler_mcp.Crawler.{get_or}
use stapler_mcp.ReadWebsite.{saved_prefix, WebPorts}

abbrev pub default_saved_page_lines : ℕ
default_saved_page_lines = 500

abbrev pub max_saved_page_lines : ℕ
max_saved_page_lines = 2000

abbrev pub default_saved_page_context_lines : ℕ
default_saved_page_context_lines = 3

abbrev pub max_saved_page_context_lines : ℕ
max_saved_page_context_lines = 50

pub record ReadSavedPageInput : Type 0 where
  pub saved_path : Text
  pub offset : Option ℕ
  pub limit : Option ℕ
  pub query : Option Text
  pub context_lines : Option ℕ

pub record ReadSavedPageOutput : Type 0 where
  pub content : Text
  pub total_lines : ℕ
  pub truncated : Bool

-- `str::strip_suffix`.
unfoldable pub strip_suffix : Text → Text → Option Text
strip_suffix p s = elim (strip_prefix (reverse p) (reverse s)) [
  | none ↦ none
  | some r ↦ some (reverse r)
]

abbrev pub is_hex_byte : ℕ → Bool
is_hex_byte b = (leb b'0' b && leb b b'9') || (leb b'a' b && leb b b'f')

unfoldable pub is_valid_saved_page_path : Text → Text → Bool
is_valid_saved_page_path cache_dir path = elim (strip_prefix (saved_prefix cache_dir) path) [
  | none ↦ false
  | some rest ↦ elim (strip_suffix (text ".md") rest) [
    | none ↦ false
    | some digits ↦ byte_len digits == 64 && all is_hex_byte (as_bytes digits)
  ]
]

-- A line without the carriage return at its end, given backwards.
abbrev pub without_return : Text → Text
without_return [] = []
without_return (c ∷ s) = if c == 13 then reverse s else reverse (c ∷ s)

-- `str::lines`, with the current line backwards.
unfoldable pub lines_from : Text → Text → List Text
lines_from [] [] = []
lines_from (d ∷ cur) [] = reverse (d ∷ cur) ∷ []
lines_from cur (c ∷ s) =
    let ended = lines_from [] s in
    let longer = lines_from (c ∷ cur) s in if c == 10 then without_return cur ∷ ended else longer

unfoldable pub lines_of : Text → List Text
lines_of s = lines_from [] s

-- `join` with a separator.
unfoldable pub join_with : Text → List Text → Text
join_with sep [] = []
join_with sep (p ∷ []) = p
join_with sep (p ∷ (q ∷ ps)) = p ++ (sep ++ join_with sep (q ∷ ps))

number_from : ℕ → List Text → List Text
number_from n [] = []
number_from n (line ∷ lines) = (show_nat (n + 1) ++ (text ": " ++ line)) ∷ number_from (n + 1) lines

unfoldable pub numbered_lines : List Text → ℕ → Text
unfolding number_from
numbered_lines lines first_line_index = join_with (text "\n") (number_from first_line_index lines)

abbrev pub usize_mod : ℕ
usize_mod = 2 ^ 64

-- `&lines[start..end]`.
unfoldable pub slice_lines : List Text → ℕ → ℕ → Option (List Text)
slice_lines lines start end =
    if leb start end && leb end (length lines)
    then some (take (end - start) (drop start lines))
    else none

-- The 0-based offset and the clamped limit of a request.
abbrev pub page_offset : Option ℕ → ℕ
page_offset offset = max (get_or offset 1) 1 - 1

abbrev pub page_limit : Option ℕ → ℕ
page_limit limit = min (get_or limit default_saved_page_lines) max_saved_page_lines

-- The page of the lines from `start` up to `end`; `none` if the slice panics.
unfoldable pub view_slice : List Text → ℕ → ℕ → Option ReadSavedPageOutput
view_slice lines start end = elim (slice_lines lines start end) [
  | none ↦ none
  | some page ↦ some (record {
    content = numbered_lines page start;
    total_lines = length lines;
    truncated = ltb end (length lines);
  })
]

unfoldable pub paginate_saved_page : List Text → Option ℕ → Option ℕ → Option ReadSavedPageOutput
paginate_saved_page lines offset limit =
    view_slice lines (min (page_offset offset) (length lines))
      (min ((page_offset offset + page_limit limit) % usize_mod) (length lines))

-- One match at line `i`: the last block grows, or a new block begins. The last block stands first.
unfoldable pub add_match : ℕ → ℕ → ℕ → List (ℕ × ℕ) → List (ℕ × ℕ)
add_match context total i [] = (i - context, min (i + context) (total - 1)) ∷ []
add_match context total i ((start, last_end) ∷ blocks) =
    if leb (i - context) (last_end + 1)
    then (start, min (i + context) (total - 1)) ∷ blocks
    else (i - context, min (i + context) (total - 1)) ∷ ((start, last_end) ∷ blocks)

-- The loop of `grep_with_context` over the lines from line `i` on.
unfoldable pub match_blocks :
    (Text → Text) → Text → ℕ → ℕ → ℕ → List Text → List (ℕ × ℕ) → List (ℕ × ℕ)
match_blocks to_lowercase query context total i [] blocks = blocks
match_blocks to_lowercase query context total i (line ∷ lines) blocks =
    match_blocks to_lowercase query context total (i + 1) lines
      (if contains query (to_lowercase line) then add_match context total i blocks else blocks)

-- `&lines[start..=end]`, numbered, for each block; `none` if a slice panics.
unfoldable pub render_blocks : List Text → List (ℕ × ℕ) → Option (List Text)
render_blocks lines [] = some []
render_blocks lines ((start, end) ∷ blocks) =
    let rest = render_blocks lines blocks in
    elim (slice_lines lines start (end + 1)) [
      | none ↦ none
      | some page ↦ elim rest [
        | none ↦ none
        | some pages ↦ some (numbered_lines page start ∷ pages)
      ]
    ]

module _ (to_lowercase : Text → Text) where
  unfoldable pub grep_with_context : List Text → Text → ℕ → Option Text
  grep_with_context lines query_lower context =
      elim (render_blocks lines
        (reverse (match_blocks to_lowercase query_lower context (length lines) 0 lines []))) [
          | none ↦ none
          | some pages ↦ some (join_with (text "\n--\n") pages)
        ]

  unfoldable pub search_saved_page : List Text → Text → Option ℕ → Option ReadSavedPageOutput
  search_saved_page lines query context_lines =
      let context =
        min (get_or context_lines default_saved_page_context_lines) max_saved_page_context_lines in
      elim (grep_with_context lines (to_lowercase query) context) [
        | none ↦ none
        | some content ↦
            some (record { content = content; total_lines = length lines; truncated = false })
      ]

  -- The view that the input asks for: a search where there is a query that is not empty.
  unfoldable pub view_lines : List Text → ReadSavedPageInput → Option ReadSavedPageOutput
  view_lines lines input = elim input.query [
    | none ↦ paginate_saved_page lines input.offset input.limit
    | some query ↦
        if is_empty query
        then paginate_saved_page lines input.offset input.limit
        else search_saved_page lines query input.context_lines
  ]

  module _ {W : Type 0} (ports : WebPorts W) (from_utf8_lossy : List ℕ → Text)
      (cache_dir : Text) where
    -- The outer `none` is a panic.
    unfoldable pub read_saved_page :
        W → ReadSavedPageInput → Option (Result Text ReadSavedPageOutput) × W
    read_saved_page w input =
        let (stored, w') = ports.read_file w input.saved_path in
        if is_valid_saved_page_path cache_dir input.saved_path
        then (
          elim stored [
            | err e ↦ some (err (display e))
            | ok none ↦ some (err (input.saved_path ++ text ": not found"))
            | ok (some bytes) ↦ elim (view_lines (lines_of (from_utf8_lossy bytes)) input) [
              | none ↦ none
              | some out ↦ some (ok out)
            ]
          ],
          w',
        )
        else (
          some (
              err (
                text
                  "savedPath must be a path previously returned by read_website's savedPath field")),
          w,
        )
