-- ===== src/Docs.antt =====
-- The documentation index of crates/core/src/tools/docs.rs: slugs, records, paths and locks; the
-- children model the chunks, `index_source`, the search and the removal. Floats, the Unicode tables of
-- `char`, the Markdown splitter, serde_json and the embedding model are parameters.
pub mod Actions
pub mod Chunks
pub mod Index
pub mod Crawl
pub mod Query
pub mod Entries
pub mod Manifest
pub mod Slugs
mod Tests
use stapler_mcp.Common.{
  ℕ, Bool, true, false, not, Option, none, some, List, [], ◌∷◌, ◌++◌, map, if◌then◌else◌, Text,
  text, text_eq, is_empty, ends_with, split_on, select, member, reverse, Result,
}
use stapler_mcp.Ports.{PortError}
use stapler_mcp.Web.{WebLib}
use stapler_mcp.Crawler.{HttpGet, get_or}
use stapler_mcp.SavedPage.{join_with}

pub record ChunkRecord (F : Type 0) : Type 0 where
  pub chunk_text : Text
  pub embedding : List F
  pub source_url : Text
  pub chunk_index : ℕ
  pub content_hash : Text
  pub heading : Option Text
  pub page_title : Text

pub record SourceMeta : Type 0 where
  pub source_id : Text
  pub source_name : Text
  pub seed_url : Text
  pub page_urls : List Text
  pub indexed_at_millis : ℕ
  pub page_count : ℕ
  pub chunk_count : ℕ
  pub embedding_model : Text

pub record SourceSummary : Type 0 where
  pub source_id : Text
  pub source_name : Text
  pub seed_url : Text
  pub indexed_at_millis : ℕ
  pub page_count : ℕ
  pub chunk_count : ℕ
  pub embedding_model : Text

-- `char::is_alphanumeric` and `char::to_lowercase`, `Url::path_segments`, and the byte offsets and
-- texts of `MarkdownSplitter::new(200..800).chunk_indices`.
pub record TextLib (L : WebLib) : Type 0 where
  pub is_alphanumeric : ℕ → Bool
  pub to_lowercase : ℕ → Text
  pub path_segments : L.Url → Option (List Text)
  pub chunk_indices : Text → List (ℕ × Text)

-- `f32`: `x > y` is false where either is no number.
pub record FloatLib : Type 1 where
  pub F : Type 0
  pub zero_float : F
  pub add : F → F → F
  pub mul : F → F → F
  pub div : F → F → F
  pub sqrt : F → F
  pub is_zero : F → Bool
  pub gt : F → F → Bool

-- serde_json for the three records; an error is its text.
pub record SerdeLib (F : Type 0) : Type 0 where
  pub encode_record : ChunkRecord F → Result Text Text
  pub decode_record : Text → Option (ChunkRecord F)
  pub encode_meta : SourceMeta → Result Text (List ℕ)
  pub decode_meta : List ℕ → Result Text SourceMeta
  pub encode_manifest : List SourceSummary → Result Text (List ℕ)
  pub decode_manifest : List ℕ → Result Text (List SourceSummary)

pub record DocsPorts (F W : Type 0) : Type 0 where
  pub get : HttpGet W
  pub read_file : W → Text → Result PortError (Option (List ℕ)) × W
  pub write_file : W → Text → List ℕ → Result PortError (Unit {0}) × W
  pub delete_file : W → Text → Result PortError (Unit {0}) × W
  pub embed : W → List Text → Result PortError (List (List F)) × W
  pub now_millis : W → ℕ × W

abbrev pub embedding_model_id : Text
embedding_model_id = text "all-MiniLM-L6-v2"

-- `result.pop()` after a dash at the end.
abbrev pub pop_dash : Text → Text
pop_dash [] = []
pop_dash (c ∷ []) = if text_eq (c ∷ []) (text "-") then [] else c ∷ []
pop_dash (c ∷ d ∷ s) = c ∷ pop_dash (d ∷ s)

abbrev pub first_label : Text → Text
first_label host = elim (split_on b'.' host) [ [] ↦ host | l ∷ ls ↦ l ]

module _ {L : WebLib} (T : TextLib L) where
  -- The loop over the characters; the flag is `last_was_dash`.
  unfoldable pub slug_chars : Bool → Text → Text
  slug_chars last_was_dash [] = []
  slug_chars last_was_dash (c ∷ s) =
      let kept = T.to_lowercase c ++ slug_chars false s in
      let broken = slug_chars true s in
      if T.is_alphanumeric c then kept else if last_was_dash then broken else b'-' ∷ broken

  unfoldable pub slugify : Text → Text
  unfolding slug_chars
  slugify s = pop_dash (slug_chars true s)

  -- The host, or its first label where the first segment repeats that.
  unfoldable pub slug_parts : Text → List Text → List Text
  slug_parts host [] = host ∷ []
  slug_parts host (first ∷ rest) =
      if text_eq (slugify first) (slugify (first_label host))
      then first_label host ∷ rest
      else host ∷ first ∷ rest

  unfoldable pub slugify_from_url : L.Url → Text
  slugify_from_url url = slugify (
      join_with (text "-") (
        slug_parts (get_or (L.host_str url) (text "source"))
          (select (λ seg. not (is_empty seg)) (get_or (T.path_segments url) []))))

abbrev pub source_dir : Text → Text → Text
source_dir docs_index_dir id = docs_index_dir ++ (text "/" ++ id)

abbrev pub chunks_path : Text → Text → Text
chunks_path docs_index_dir id = source_dir docs_index_dir id ++ text "/chunks.jsonl"

abbrev pub meta_path : Text → Text → Text
meta_path docs_index_dir id = source_dir docs_index_dir id ++ text "/meta.json"

abbrev pub sources_manifest_path : Text → Text
sources_manifest_path docs_index_dir = docs_index_dir ++ text "/sources.json"

-- `SourceLocks`: the ids whose guard is alive.
abbrev pub SourceLocks : Type 0
SourceLocks = List Text

unfoldable pub try_acquire : Text → SourceLocks → Option SourceLocks
try_acquire id active = if member id active then none else some (id ∷ active)

-- `Drop for SourceLockGuard`.
unfoldable pub release : Text → SourceLocks → SourceLocks
release id active = select (λ a. not (text_eq a id)) active
