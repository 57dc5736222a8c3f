-- ===== src/Docs/Chunks.antt =====
-- The chunks of a page, of crates/core/src/tools/docs.rs: `heading_marks`, `chunk_markdown`,
-- `append_chunks_with_cap` and `embedding_input_for`. Offsets are in bytes; a byte slice that panics
-- is none.
use stapler_mcp.Common.{
  ℕ, zero, suc, ◌+◌, ◌-◌, ◌%◌, Bool, true, false, not, ◌&&◌, ◌||◌, Option, none, some, List, [],
  ◌∷◌, ◌++◌, if◌then◌else◌, ltb, leb, ◌==◌, Text, text, is_empty, starts_with, trim, reverse,
  length, drop, byte_len, utf8_len, slice_to,
}
use stapler_mcp.Web.{WebLib}
use stapler_mcp.Crawler.{get_or}
use stapler_mcp.Docs.{TextLib}

pub record Chunk : Type 0 where
  pub chunk : Text
  pub heading : Option Text
  pub chunk_index : ℕ

-- `str::split_inclusive('\n')`: the lines with their ends.
inclusive_from : Text → Text → List Text
inclusive_from [] [] = []
inclusive_from (d ∷ cur) [] = reverse (d ∷ cur) ∷ []
inclusive_from cur (c ∷ s) =
    let closed = inclusive_from [] s in
    let longer = inclusive_from (c ∷ cur) s in
    if c == 10 then reverse (c ∷ cur) ∷ closed else longer

unfoldable pub split_inclusive : Text → List Text
unfolding inclusive_from
split_inclusive s = inclusive_from [] s

-- `trim_end_matches(['\n', '\r'])`, on the reversed line.
trim_ends : Text → Text
trim_ends [] = []
trim_ends (c ∷ s) = let rest = trim_ends s in if c == 10 || c == 13 then rest else c ∷ s

unfoldable pub trim_line : Text → Text
unfolding trim_ends
trim_line line = reverse (trim_ends (reverse line))

unfoldable pub hash_count : Text → ℕ
hash_count [] = 0
hash_count (c ∷ s) = let rest = hash_count s in if c == b'#' then suc rest else 0

-- The text of a heading of level 1 to 3, if the line is one and the text is not empty.
unfoldable pub heading_text : Text → Option Text
heading_text line =
    let trimmed = trim_line line in
    let hashes = hash_count trimmed in
    let rest = drop hashes trimmed in
    if leb 1 hashes && leb hashes 3 && (is_empty rest || starts_with (text " ") rest)
    then (if is_empty (trim rest) then none else some (trim rest))
    else none

unfoldable pub marks_from : ℕ → List Text → List (ℕ × Text)
marks_from offset [] = []
marks_from offset (line ∷ lines) =
    let later = marks_from (offset + byte_len line) lines in
    elim (heading_text line) [ none ↦ later | some heading ↦ (offset, heading) ∷ later ]

unfoldable pub heading_marks : Text → List (ℕ × Text)
unfolding marks_from
heading_marks markdown = marks_from 0 (split_inclusive markdown)

-- `text.matches("```").count()`; `run` counts the backticks before.
fences_from : ℕ → Text → ℕ
fences_from run [] = 0
fences_from run (c ∷ s) =
    let full = fences_from 0 s in
    let more = fences_from (suc run) s in
    if c == b'`' then (if run == 2 then suc full else more) else full

unfoldable pub count_fences : Text → ℕ
unfolding fences_from
count_fences s = fences_from 0 s

unfoldable pub slice_from : Text → ℕ → Option Text
slice_from s zero = some s
slice_from [] (suc n) = none
slice_from (c ∷ s) (suc n) =
    let rest = slice_from s (suc n - utf8_len c) in if leb (utf8_len c) (suc n) then rest else none

-- `&markdown[start..end]`.
unfoldable pub slice : Text → ℕ → ℕ → Option Text
slice markdown start end = elim (slice_to markdown end) [
  | none ↦ none
  | some s ↦ slice_from s start
]

-- The variables of the loop of `chunk_markdown`; `marks` are those from `mark_idx` on.
pub record Chunking : Type 0 where
  pub marks : List (ℕ × Text)
  pub current_heading : Option Text
  pub chunks : List Chunk
  pub chunk_index : ℕ
  pub pending_start : Option ℕ
  pub pending_end : ℕ
  pub fence_open : Bool

-- The marks before an offset are passed; the last of them is the heading.
unfoldable pub pass_marks : ℕ → List (ℕ × Text) → Option Text → List (ℕ × Text) × Option Text
pass_marks end [] heading = ([], heading)
pass_marks end ((at, mark) ∷ marks) heading =
    let passed = pass_marks end marks (some mark) in
    if ltb at end then passed else ((at, mark) ∷ marks, heading)

-- Pushes the text from `start` to the pending end.
unfoldable pub push_chunk : Text → Text → ℕ → Chunking → Option Chunking
push_chunk markdown page_title start st =
    let (marks, heading) = pass_marks st.pending_end st.marks st.current_heading in
    elim (slice markdown start st.pending_end) [
      | none ↦ none
      | some chunk_text ↦ some (record st {
        marks = marks;
        current_heading = heading;
        chunks =
            st.chunks
            ++ record {
              chunk = chunk_text;
              heading = some (get_or heading page_title);
              chunk_index = st.chunk_index;
            }
              ∷ [];
        chunk_index = suc st.chunk_index;
        pending_start = none;
      })
    ]

-- One piece of the splitter: it is pushed unless a code fence is open behind it.
unfoldable pub take_piece : Text → Text → ℕ × Text → Chunking → Option Chunking
take_piece markdown page_title (start, piece) st =
    let first = get_or st.pending_start start in
    let turned = count_fences piece % 2 == 1 in
    let open_now = if turned then not st.fence_open else st.fence_open in
    let st' : Chunking = record st {
      pending_start = some first;
      pending_end = start + byte_len piece;
      fence_open = open_now;
    } in
    if open_now then some st' else push_chunk markdown page_title first st'

unfoldable pub take_pieces : Text → Text → List (ℕ × Text) → Chunking → Option Chunking
take_pieces markdown page_title [] st = some st
take_pieces markdown page_title (piece ∷ pieces) st =
    elim (take_piece markdown page_title piece st) [
      | none ↦ none
      | some st' ↦ take_pieces markdown page_title pieces st'
    ]

-- What is pending at the end of the page is pushed too.
unfoldable pub flush : Text → Text → Chunking → Option (List Chunk)
flush markdown page_title st = elim st.pending_start [
  | none ↦ some st.chunks
  | some start ↦ elim (push_chunk markdown page_title start st) [
    | none ↦ none
    | some st' ↦ some st'.chunks
  ]
]

module _ {L : WebLib} (T : TextLib L) where
  unfoldable pub chunk_markdown : Text → Text → Option (List Chunk)
  chunk_markdown markdown page_title =
      if is_empty markdown
      then some []
      else elim (take_pieces markdown page_title (T.chunk_indices markdown) (record {
        marks = heading_marks markdown;
        current_heading = none;
        chunks = [];
        chunk_index = 0;
        pending_start = none;
        pending_end = 0;
        fence_open = false;
      })) [ none ↦ none | some st ↦ flush markdown page_title st ]

abbrev pub max_chunks_per_source : ℕ
max_chunks_per_source = 780

-- A chunk with the URL, the content hash and the title of its page.
abbrev pub Entry : Type 0
Entry = Chunk × Text × Text × Text

-- The entries, and whether the cap was reached.
unfoldable pub append_chunks_with_cap :
    List Entry → List Chunk → Text → Text → Text → List Entry × Bool
append_chunks_with_cap entries [] final_url content_hash page_title =
    (entries, leb max_chunks_per_source (length entries))
append_chunks_with_cap entries (c ∷ cs) final_url content_hash page_title =
    let more =
      append_chunks_with_cap (entries ++ (c, final_url, content_hash, page_title) ∷ []) cs final_url
        content_hash page_title in
    if leb max_chunks_per_source (length entries) then (entries, true) else more

unfoldable pub embedding_input_for : Text → Chunk → Text
embedding_input_for page_title c =
    page_title ++ (text " — " ++ (get_or c.heading page_title ++ (text "\n\n" ++ c.chunk)))
