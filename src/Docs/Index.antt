-- ===== src/Docs/Index.antt =====
-- `index_source` of crates/core/src/tools/docs.rs. The crawl loop takes fuel. The times that are
-- printed are left out.
use stapler_mcp.Common.{
  ℕ, zero, suc, Bool, not, Option, none, some, List, [], ◌∷◌, ◌++◌, map, if◌then◌else◌, ◌==◌, Text,
  text, text_eq, as_bytes, show_nat, member, select, length, take, drop, Result, ok, err,
}
use stapler_mcp.ReadWebsite.{returned}
use stapler_mcp.SavedPage.{join_with}
use stapler_mcp.Docs.{
  ChunkRecord, SourceMeta, SourceSummary, SerdeLib, DocsPorts, embedding_model_id, chunks_path,
  meta_path, sources_manifest_path,
}
use stapler_mcp.Docs.Actions.{Action, succeed, ◌>>=◌, port, from_result}
use stapler_mcp.Docs.Chunks.{Entry, embedding_input_for}

pub record IndexDocsInput : Type 0 where
  pub url : Text
  pub source : Option Text
  pub max_depth : Option ℕ
  pub max_pages : Option ℕ

pub record IndexDocsOutput : Type 0 where
  pub source_name : Text
  pub source_id : Text
  pub pages_indexed : ℕ
  pub pages_removed : List Text
  pub chunks_indexed : ℕ
  pub embedding_model : Text
  pub truncated : Bool

pub record FetchedPage : Type 0 where
  pub final_url : Text
  pub html : Text
  pub content_hash : Text

abbrev pub sub_batch_size : ℕ
sub_batch_size = 100

-- The statuses that have a reason of their own; any other is an error.
abbrev status_reasons : List (ℕ × Text)
status_reasons =
    (400, text "Bad Request")
    ∷ (401, text "Unauthorized")
    ∷ (403, text "Forbidden")
    ∷ (404, text "Not Found")
    ∷ (408, text "Request Timeout")
    ∷ (410, text "Gone")
    ∷ (429, text "Too Many Requests")
    ∷ (500, text "Internal Server Error")
    ∷ (502, text "Bad Gateway")
    ∷ (503, text "Service Unavailable")
    ∷ (504, text "Gateway Timeout")
    ∷ []

abbrev reason_in : List (ℕ × Text) → ℕ → Text
reason_in [] status = text "Error"
reason_in ((code, reason) ∷ reasons) status =
    let later = reason_in reasons status in if code == status then reason else later

unfoldable pub http_status_reason : ℕ → Text
http_status_reason status = reason_in status_reasons status

unfoldable pub seed_fetch_error : Text → Option ℕ → Text
seed_fetch_error url (some code) =
    text "failed to index "
    ++ (url
        ++ (text ": "
            ++ (show_nat code
                ++ (text " "
                    ++ (http_status_reason code ++ text ". Check the URL is still correct.")))))
seed_fetch_error url none =
    text "failed to index " ++ (url ++ text ": request failed. Check the URL is still correct.")

-- `inputs.chunks(SUB_BATCH_SIZE)`, on fuel for the number of inputs.
abbrev batches_of : ℕ → List Text → List (List Text)
batches_of fuel [] = []
batches_of zero (x ∷ xs) = []
batches_of (suc fuel) (x ∷ xs) =
    take sub_batch_size (x ∷ xs) ∷ batches_of fuel (drop sub_batch_size (x ∷ xs))

abbrev pub batches : List Text → List (List Text)
batches inputs = batches_of (length inputs) inputs

module _ {F W : Type 0} (ports : DocsPorts F W) where
  unfoldable pub embed_batches : List (List Text) → Action W (List (List F))
  embed_batches [] = succeed []
  embed_batches (batch ∷ rest) = do
    batch_embeddings ← port (λ w. ports.embed w batch)
    embeddings ← embed_batches rest
    succeed (batch_embeddings ++ embeddings)

  unfoldable pub embed_in_sub_batches : List Text → Action W (List (List F))
  embed_in_sub_batches inputs = embed_batches (batches inputs)

abbrev pub zip_with : {A B C : Type 0} → (A → B → C) → List A → List B → List C
zip_with f [] bs = []
zip_with f (a ∷ as') [] = []
zip_with f (a ∷ as') (b ∷ bs) = f a b ∷ zip_with f as' bs

abbrev pub chunk_record : {F : Type 0} → Entry → List F → ChunkRecord F
chunk_record (c, url, content_hash, page_title) embedding = record {
  chunk_text = c.chunk;
  embedding = embedding;
  source_url = url;
  chunk_index = c.chunk_index;
  content_hash = content_hash;
  heading = c.heading;
  page_title = page_title;
}

-- The lines of `chunks.jsonl`.
abbrev pub encode_records :
    {F : Type 0} → SerdeLib F → List (ChunkRecord F) → Result Text (List Text)
encode_records serde [] = ok []
encode_records serde (r ∷ rs) = elim (serde.encode_record r) [
  | err e ↦ err e
  | ok line ↦ elim (encode_records serde rs) [ err e ↦ err e | ok lines ↦ ok (line ∷ lines) ]
]

abbrev or_empty : {A : Type 0} → Result Text (List A) → List A
or_empty (err e) = []
or_empty (ok l) = l

-- `.and_then(|bytes| from_slice(&bytes).ok()).unwrap_or_default()`.
abbrev pub stored_manifest : {F : Type 0} → SerdeLib F → Option (List ℕ) → List SourceSummary
stored_manifest serde none = []
stored_manifest serde (some bytes) = or_empty (serde.decode_manifest bytes)

abbrev pub stored_urls : {F : Type 0} → SerdeLib F → Option (List ℕ) → List Text
stored_urls serde none = []
stored_urls serde (some bytes) = elim (serde.decode_meta bytes) [ err e ↦ [] | ok m ↦ m.page_urls ]

-- `manifest.retain(|s| s.source_id != id)`.
unfoldable pub without_source : Text → List SourceSummary → List SourceSummary
without_source id manifest = select (λ s. not (text_eq s.source_id id)) manifest

abbrev pub summary_of : SourceMeta → SourceSummary
summary_of m = record {
  source_id = m.source_id;
  source_name = m.source_name;
  seed_url = m.seed_url;
  indexed_at_millis = m.indexed_at_millis;
  page_count = m.page_count;
  chunk_count = m.chunk_count;
  embedding_model = m.embedding_model;
}

-- What the crawl and the chunking hand over to the store.
pub record Gathered : Type 0 where
  pub source_id : Text
  pub source_name : Text
  pub seed_url : Text
  pub pages_indexed : ℕ
  pub page_urls : List Text
  pub entries : List Entry
  pub truncated : Bool

abbrev pub embed_inputs : Gathered → List Text
embed_inputs g = map (λ (e : Entry). embedding_input_for e.3 e.0) g.entries

abbrev pub meta_of : Gathered → ℕ → ℕ → SourceMeta
meta_of g indexed_at chunk_count = record {
  source_id = g.source_id;
  source_name = g.source_name;
  seed_url = g.seed_url;
  page_urls = g.page_urls;
  indexed_at_millis = indexed_at;
  page_count = g.pages_indexed;
  chunk_count = chunk_count;
  embedding_model = embedding_model_id;
}

abbrev pub output_of : Gathered → List Text → ℕ → IndexDocsOutput
output_of g old_urls chunk_count = record {
  source_name = g.source_name;
  source_id = g.source_id;
  pages_indexed = g.pages_indexed;
  pages_removed = select (λ u. not (member u g.page_urls)) old_urls;
  chunks_indexed = chunk_count;
  embedding_model = embedding_model_id;
  truncated = g.truncated;
}

module _ {F W : Type 0} (serde : SerdeLib F) (ports : DocsPorts F W) (docs_index_dir : Text) where
  -- The manifest is read, and written with the entry of the source in the last place.
  unfoldable pub update_manifest : SourceMeta → Action W (Unit {0})
  update_manifest meta = do
    stored ← port (λ w. ports.read_file w (sources_manifest_path docs_index_dir))
    bytes ← from_result (
        serde.encode_manifest
          (without_source meta.source_id (stored_manifest serde stored) ++ summary_of meta ∷ []))
    port (λ w. ports.write_file w (sources_manifest_path docs_index_dir) bytes)

  -- `index_source` from the embedding on.
  unfoldable pub store_index : Gathered → Action W IndexDocsOutput
  store_index g = do
    embeddings ← embed_in_sub_batches ports (embed_inputs g)
    let records = zip_with chunk_record g.entries embeddings
    old ← port (λ w. ports.read_file w (meta_path docs_index_dir g.source_id))
    lines ← from_result (encode_records serde records)
    _ ← port (λ w.
        ports.write_file w (chunks_path docs_index_dir g.source_id)
          (as_bytes (join_with (text "\n") lines)))
    indexed_at ← λ w. (let (t, w') = ports.now_millis w in returned (ok t, w'))
    let meta = meta_of g indexed_at (length records)
    meta_bytes ← from_result (serde.encode_meta meta)
    _ ← port (λ w. ports.write_file w (meta_path docs_index_dir g.source_id) meta_bytes)
    _ ← update_manifest meta
    succeed (output_of g (stored_urls serde old) (length records))
