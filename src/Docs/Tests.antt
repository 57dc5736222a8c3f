-- ===== src/Docs/Tests.antt =====
-- An index with one source, for crates/core/src/tools/docs.rs: files in memory, and an encoding of
-- manifests with one entry. Embeddings are lists of numbers.
use stapler_mcp.Common.{
  ℕ, ◌≡◌, ◌≢◌, refl, ap, sym, ◌∙◌, inl, inr, Bool, true, false, ◌&&◌, none, some, List, [], ◌∷◌,
  map, arith, if◌then◌else◌, leb, ◌==◌, Bool-cases, Text, text, text_eq, text_eq_iff, byte_len,
  as_bytes, All, Assoc, lookup, insert, remove, lookup-insert, lookup-remove, Result, ok, err,
}
use stapler_mcp.Ports.{other}
use stapler_mcp.Samples.{sample_lib}
use stapler_mcp.ReadWebsite.{returned}
use stapler_mcp.SavedPage.{join_with}
use stapler_mcp.Docs.{
  SourceSummary, TextLib, SerdeLib, DocsPorts, embedding_model_id, slugify, slug_chars,
}
use stapler_mcp.Docs.Actions.{and_then, from_port, from_result}
use stapler_mcp.Docs.Chunks.{embedding_input_for}
use stapler_mcp.Docs.Index.{
  Gathered, IndexDocsOutput, store_index, update_manifest, embed_in_sub_batches, embed_batches,
  without_source, stored_manifest,
}
use stapler_mcp.Docs.Query.{remove_locked, remove_found, RemoveIndexedSourceOutput}
use stapler_mcp.Docs.Entries.{find_source}
use stapler_mcp.Docs.Manifest.{FileLaws, ReadsBack, store_index_refines, remove_locked_refines}
use stapler_mcp.Docs.Slugs.{IsSpaced, EndsPlain, slugify_sound}

abbrev is_letter : ℕ → Bool
is_letter c = leb b'a' c && leb c b'z'

-- The splitter gives the page as one piece.
abbrev latin : TextLib sample_lib
latin = record {
  is_alphanumeric = is_letter;
  to_lowercase = λ c. c ∷ [];
  path_segments = λ u. none;
  chunk_indices = λ s. (0, s) ∷ [];
}

latin-lower_case :
    (c : ℕ)
    → is_letter c ≡ true
    → ((c ∷ []) ≢ []) × All (λ d. (d ≢ b'-') × ((d ≢ b'/') × (d ≢ b'.'))) (c ∷ [])
latin-lower_case c h = (cc, ((ground arith, (ground arith, ground arith)), tt))

slug : slugify latin (text "../my  docs!") ≡ text "my-docs"
unfolding slugify slug_chars text_eq
slug = refl

slugify_sound_example :
    All (λ d. (d ≢ b'/') × (d ≢ b'.')) (slugify latin (text "../my  docs!"))
    × IsSpaced true (slugify latin (text "../my  docs!"))
    × EndsPlain (slugify latin (text "../my  docs!"))
slugify_sound_example = slugify_sound latin latin-lower_case (text "../my  docs!")

abbrev summary : Text → SourceSummary
summary id = record {
  source_id = id;
  source_name = text "Docs";
  seed_url = text "https://a.test/";
  indexed_at_millis = 7;
  page_count = 1;
  chunk_count = 1;
  embedding_model = embedding_model_id;
}

abbrev is_summary : SourceSummary → Bool
is_summary s =
    text_eq s.source_name (text "Docs")
    && text_eq s.seed_url (text "https://a.test/")
    && s.indexed_at_millis == 7
    && s.page_count == 1
    && s.chunk_count == 1
    && text_eq s.embedding_model embedding_model_id

abbrev encode : List SourceSummary → Result Text (List ℕ)
encode [] = ok []
encode (s ∷ []) = if is_summary s then ok (1 ∷ s.source_id) else err (text "unsupported")
encode (s ∷ t ∷ rest) = err (text "unsupported")

abbrev decode : List ℕ → Result Text (List SourceSummary)
decode [] = ok []
decode (tag ∷ id) = ok (summary id ∷ [])

abbrev serde : SerdeLib ℕ
serde = record {
  encode_record = λ r. ok r.chunk_text;
  decode_record = λ s. none;
  encode_meta = λ m. ok m.source_id;
  decode_meta = λ bytes. err (text "unsupported");
  encode_manifest = encode;
  decode_manifest = decode;
}

is_summary-eq : (s : SourceSummary) → is_summary s ≡ true → summary s.source_id ≡ s
is_summary-eq s h = ground (
  arith,
  h,
  text_eq_iff s.source_name (text "Docs"),
  text_eq_iff s.seed_url (text "https://a.test/"),
  text_eq_iff s.embedding_model embedding_model_id,
)

serde-ReadsBack : ReadsBack serde
serde-ReadsBack [] bytes e = ground arith
serde-ReadsBack (s ∷ []) bytes e = elim (Bool-cases (is_summary s)) [
  | inr foreign ↦ absurd (cc (rw foreign at e))
  | inl fits_ ↦
      let given_bytes : Result Text (List ℕ) = ok (1 ∷ s.source_id) in
      let coded : given_bytes ≡ ok bytes = rw fits_ at e in
      let bytes_eq : 1 ∷ s.source_id ≡ bytes = cc in
      ap decode (sym bytes_eq) ∙ ap (λ (t : SourceSummary). ok (t ∷ [])) (is_summary-eq s fits_)
]
serde-ReadsBack (s ∷ t ∷ rest) bytes e = absurd cc

abbrev in_memory : DocsPorts ℕ (Assoc (List ℕ))
in_memory = record {
  get = λ w url headers. (err (other (text "offline")), w);
  read_file = λ w p. (ok (lookup p w), w);
  write_file = λ w p bytes. (ok tt, insert p bytes w);
  delete_file = λ w p. (ok tt, remove p w);
  embed = λ w inputs. (ok (map (λ (t : Text). byte_len t ∷ []) inputs), w);
  now_millis = λ w. (7, w);
}

in_memory_laws : FileLaws in_memory
in_memory_laws = record {
  files = λ w p. lookup p w;
  reads = λ w p {b} {w'} e. (ground arith, λ q. ground arith);
  writes = λ w p bytes {w'} e q.
      let at : insert p bytes w ≡ w' = ground arith in
      ap (lookup q) (sym at) ∙ lookup-insert p q bytes w;
  deletes = λ w p {w'} e q.
      let at : remove p w ≡ w' = ground arith in ap (lookup q) (sym at) ∙ lookup-remove p q w;
  embeds = λ w inputs q. refl;
  clocks = λ w q. refl;
}

abbrev gathered : Gathered
gathered = record {
  source_id = text "docs";
  source_name = text "Docs";
  seed_url = text "https://a.test/";
  pages_indexed = 1;
  page_urls = text "https://a.test/" ∷ [];
  entries =
      (
        record { chunk = text "hi"; heading = none; chunk_index = 0 },
        text "https://a.test/",
        text "hash",
        text "Title",
      )
      ∷ [];
  truncated = false;
}

abbrev output : IndexDocsOutput
output = record {
  source_name = text "Docs";
  source_id = text "docs";
  pages_indexed = 1;
  pages_removed = [];
  chunks_indexed = 1;
  embedding_model = embedding_model_id;
  truncated = false;
}

abbrev indexed : Assoc (List ℕ)
indexed =
    (text "/i/docs/chunks.jsonl", text "hi")
    ∷ (text "/i/docs/meta.json", text "docs")
    ∷ (text "/i/sources.json", 1 ∷ text "docs")
    ∷ []

stored : store_index serde in_memory (text "/i") gathered [] ≡ returned (ok output, indexed)
unfolding store_index update_manifest embed_in_sub_batches embed_batches and_then from_port
    from_result without_source embedding_input_for lookup insert text_eq as_bytes join_with
stored = refl

abbrev manifest_in : Assoc (List ℕ) → List SourceSummary
manifest_in w = stored_manifest serde (lookup (text "/i/sources.json") w)

store_index_refines_example :
    (s : SourceSummary) × ((s.source_id ≡ text "docs")
      × (s.chunk_count ≡ 1)
      × (s.page_count ≡ 1)
      × ((j : Text)
          → find_source j (manifest_in indexed)
            ≡ (if text_eq (text "docs") j then some s else find_source j (manifest_in []))))
unfolding lookup in_memory_laws
store_index_refines_example =
    store_index_refines serde in_memory (text "/i") in_memory_laws serde-ReadsBack gathered []
      stored

abbrev removed_output : RemoveIndexedSourceOutput
removed_output = record { removed = true; source_name = text "Docs" }

abbrev emptied : Assoc (List ℕ)
emptied = (text "/i/sources.json", []) ∷ []

removed :
    remove_locked sample_lib latin serde in_memory (text "/i") (text "Docs") (text "docs") indexed
    ≡ returned (ok removed_output, emptied)
unfolding remove_locked remove_found and_then from_port from_result without_source lookup insert
    remove text_eq
removed = refl

remove_locked_refines_example :
    ((j : Text)
      → find_source j (manifest_in emptied)
        ≡ (if text_eq (text "docs") j then none else find_source j (manifest_in indexed)))
    × (lookup (text "/i/docs/meta.json") emptied ≡ none)
    × (lookup (text "/i/docs/chunks.jsonl") emptied ≡ none)
unfolding lookup in_memory_laws
remove_locked_refines_example =
    remove_locked_refines serde in_memory (text "/i") in_memory_laws serde-ReadsBack sample_lib
      latin (text "Docs") (text "docs") indexed removed
