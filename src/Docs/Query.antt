-- ===== src/Docs/Query.antt =====
-- `search_docs`, `list_indexed_sources` and `remove_indexed_source` of crates/core/src/tools/docs.rs,
-- with `cosine_similarity`. Lines of the index that do not parse are skipped; what is printed about
-- them is left out.
use stapler_mcp.Common.{
  ℕ, ◌+◌, Bool, true, ◌||◌, Option, none, some, List, [], ◌∷◌, ◌++◌, map, if◌then◌else◌, Text, text,
  text_eq, is_empty, trim, length, take, Result, ok, err,
}
use stapler_mcp.Ports.{PortError}
use stapler_mcp.Web.{WebLib}
use stapler_mcp.Crawler.{get_or}
use stapler_mcp.SavedPage.{join_with, lines_of}
use stapler_mcp.Docs.{
  ChunkRecord, SourceMeta, SourceSummary, TextLib, FloatLib, SerdeLib, DocsPorts,
  embedding_model_id, slugify, chunks_path, meta_path, sources_manifest_path, SourceLocks,
  try_acquire,
}
use stapler_mcp.Docs.Actions.{Action, succeed, fail, ◌>>=◌, port, from_result}
use stapler_mcp.Docs.Index.{stored_manifest, without_source}
use stapler_mcp.Docs.Crawl.{no_name_error, busy_error}

pub record SearchDocsInput : Type 0 where
  pub source : Text
  pub query : Text
  pub limit : Option ℕ

pub record DocsSearchResult (F : Type 0) : Type 0 where
  pub found : Text
  pub score : F
  pub source_url : Text
  pub heading : Option Text
  pub source_title : Text

pub record IndexedSourceSummary : Type 0 where
  pub source_name : Text
  pub source_id : Text
  pub seed_url : Text
  pub page_count : ℕ
  pub chunk_count : ℕ
  pub indexed_at_millis : ℕ
  pub embedding_model : Text
  pub bytes_on_disk : ℕ

pub record RemoveIndexedSourceOutput : Type 0 where
  pub removed : Bool
  pub source_name : Text

module _ (N : FloatLib) where
  abbrev dot_onto : N.F → List N.F → List N.F → N.F
  dot_onto acc [] ys = acc
  dot_onto acc (x ∷ xs) [] = acc
  dot_onto acc (x ∷ xs) (y ∷ ys) = dot_onto (N.add acc (N.mul x y)) xs ys

  abbrev norm : List N.F → N.F
  norm xs = N.sqrt (dot_onto N.zero_float xs xs)

  unfoldable pub cosine_similarity : List N.F → List N.F → N.F
  cosine_similarity a b =
      if N.is_zero (norm a) || N.is_zero (norm b)
      then N.zero_float
      else N.div (dot_onto N.zero_float a b) (N.mul (norm a) (norm b))

  abbrev pub Scored : Type 0
  Scored = ChunkRecord N.F × N.F

  -- `sort_by` with the larger scores first: it is stable, and records that do not compare keep their
  -- order.
  unfoldable pub insert_scored : Scored → List Scored → List Scored
  insert_scored x [] = x ∷ []
  insert_scored x (y ∷ ys) =
      let later = insert_scored x ys in if N.gt x.1 y.1 then x ∷ y ∷ ys else y ∷ later

  unfoldable pub sort_onto : List Scored → List Scored → List Scored
  sort_onto sorted [] = sorted
  sort_onto sorted (x ∷ xs) = sort_onto (insert_scored x sorted) xs

  abbrev pub search_result : Scored → DocsSearchResult N.F
  search_result (r, score) = record {
    found = r.chunk_text;
    score = score;
    source_url = r.source_url;
    heading = r.heading;
    source_title = r.page_title;
  }

  -- The scores, the sort and the cut.
  unfoldable pub rank : List N.F → List (ChunkRecord N.F) → Option ℕ → List (DocsSearchResult N.F)
  rank query_vec records limit = map search_result (
      take (get_or limit 5) (
        sort_onto []
          (map (λ (r : ChunkRecord N.F). (r, cosine_similarity query_vec r.embedding)) records)))

-- The records of the lines that are not blank and parse.
unfoldable pub parse_records : {F : Type 0} → SerdeLib F → List Text → List (ChunkRecord F)
parse_records serde [] = []
parse_records serde (line ∷ lines) =
    let rest = parse_records serde lines in
    if is_empty (trim line)
    then rest
    else elim (serde.decode_record line) [ none ↦ rest | some r ↦ r ∷ rest ]

module _ (L : WebLib) (T : TextLib L) {F W : Type 0} (serde : SerdeLib F) (ports : DocsPorts F W)
    (docs_index_dir : Text) where
  abbrev readable_manifest : Result PortError (Option (List ℕ)) → List SourceSummary
  readable_manifest (err e) = []
  readable_manifest (ok stored) = stored_manifest serde stored

  unfoldable pub unknown_source_error : W → Text → Text × W
  unknown_source_error w requested =
      let (stored, w') = ports.read_file w (sources_manifest_path docs_index_dir) in
      (
        text "no indexed source named '"
            ++ (requested
                ++ (text "'; currently indexed: "
                    ++ (join_with (text ", ")
                          (map (λ (s : SourceSummary). s.source_name) (readable_manifest stored))
                        ++ text
                            ". Call list_indexed_sources for details, or index_docs to add a new source."))),
        w',
      )

  abbrev pub reject_unknown : {A : Type 0} → Text → Action W A
  reject_unknown requested w = let (e, w') = unknown_source_error w requested in fail e w'

  unfoldable pub file_size : Text → Action W ℕ
  file_size path = do
    stored ← port (λ w. ports.read_file w path)
    succeed (elim stored [ none ↦ 0 | some bytes ↦ length bytes ])

  unfoldable pub list_sources : List SourceSummary → Action W (List IndexedSourceSummary)
  list_sources [] = succeed []
  list_sources (s ∷ manifest) = do
    of_chunks ← file_size (chunks_path docs_index_dir s.source_id)
    of_meta ← file_size (meta_path docs_index_dir s.source_id)
    sources ← list_sources manifest
    succeed (
        record {
          source_name = s.source_name;
          source_id = s.source_id;
          seed_url = s.seed_url;
          page_count = s.page_count;
          chunk_count = s.chunk_count;
          indexed_at_millis = s.indexed_at_millis;
          embedding_model = s.embedding_model;
          bytes_on_disk = of_chunks + of_meta;
        }
        ∷ sources)

  unfoldable pub list_indexed_sources : Action W (List IndexedSourceSummary)
  list_indexed_sources = do
    stored ← port (λ w. ports.read_file w (sources_manifest_path docs_index_dir))
    elim stored [
      | none ↦ succeed []
      | some bytes ↦ do manifest ← from_result (serde.decode_manifest bytes); list_sources manifest
    ]

  -- The files of the source go, and its entry in the manifest.
  unfoldable pub remove_found : Text → Text → Action W RemoveIndexedSourceOutput
  remove_found source id = do
    _ ← port (λ w. ports.delete_file w (chunks_path docs_index_dir id))
    _ ← port (λ w. ports.delete_file w (meta_path docs_index_dir id))
    stored ← port (λ w. ports.read_file w (sources_manifest_path docs_index_dir))
    out ← from_result (serde.encode_manifest (without_source id (stored_manifest serde stored)))
    _ ← port (λ w. ports.write_file w (sources_manifest_path docs_index_dir) out)
    succeed (record { removed = true; source_name = source })

  -- From the lock on.
  unfoldable pub remove_locked : Text → Text → Action W RemoveIndexedSourceOutput
  remove_locked source id = do
    meta ← port (λ w. ports.read_file w (meta_path docs_index_dir id))
    elim meta [ none ↦ reject_unknown source | some bytes ↦ remove_found source id ]

  unfoldable pub remove_indexed_source : SourceLocks → Text → Action W RemoveIndexedSourceOutput
  remove_indexed_source locks source =
      let id = slugify T source in
      if is_empty id then fail (no_name_error source) else elim (try_acquire id locks) [
        | none ↦ fail (busy_error source)
        | some held ↦ remove_locked source id
      ]

module _ (L : WebLib) (T : TextLib L) (N : FloatLib) {W : Type 0} (serde : SerdeLib N.F)
    (ports : DocsPorts N.F W) (docs_index_dir : Text) where
  abbrev stale_error : Text → Text → Text
  stale_error source model =
      source
      ++ (text " was indexed with embedding model '"
          ++ (model
              ++ (text "', but this daemon now uses '"
                  ++ (embedding_model_id
                      ++ text
                          "'. Re-run index_docs to rebuild the index with the current model."))))

  abbrev first_vector : List (List N.F) → Result Text (List N.F)
  first_vector [] = err (text "embedder returned no vector for the query")
  first_vector (v ∷ vs) = ok v

  -- From the metadata on.
  unfoldable pub search_indexed :
      SearchDocsInput → Text → SourceMeta → Action W (List (DocsSearchResult N.F))
  search_indexed input id meta = do
    stored ← port (λ w. ports.read_file w (chunks_path docs_index_dir id))
    let records = parse_records serde (lines_of (L.from_utf8_lossy (get_or stored [])))
    vectors ← port (λ w. ports.embed w (input.query ∷ []))
    query_vec ← from_result (first_vector vectors)
    succeed (rank N query_vec records input.limit)

  unfoldable pub search_docs : SearchDocsInput → Action W (List (DocsSearchResult N.F))
  search_docs input = do
    let id = slugify T input.source
    stored ← port (λ w. ports.read_file w (meta_path docs_index_dir id))
    elim stored [
      | none ↦ reject_unknown L T serde ports docs_index_dir input.source
      | some bytes ↦ do
        meta ← from_result (serde.decode_meta bytes)
        (if text_eq meta.embedding_model embedding_model_id
            then search_indexed input id meta
            else fail (stale_error input.source meta.embedding_model))
    ]
