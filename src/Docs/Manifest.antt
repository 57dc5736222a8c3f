-- ===== src/Docs/Manifest.antt =====
-- What `index_source` and `remove_indexed_source` of crates/core/src/tools/docs.rs do to the manifest
-- `sources.json`, over a file system with the usual laws.
use stapler_mcp.Common.{
  ℕ, ◌≡◌, refl, ap, sym, ◌∙◌, inl, inr, false, Option, none, some, List, [], ◌∷◌, ◌++◌, arith,
  if◌then◌else◌, Option-cases, Text, text, text_eq, text_eq_refl, length, Result, ok,
}
use stapler_mcp.Ports.{PortError}
use stapler_mcp.Web.{WebLib}
use stapler_mcp.ReadWebsite.{returned}
use stapler_mcp.Docs.{
  SourceMeta, SourceSummary, SerdeLib, TextLib, DocsPorts, source_dir, chunks_path, meta_path,
  sources_manifest_path,
}
use stapler_mcp.Docs.Entries.{
  find_source, find_source-without_source, find_source-update, ends_apart,
}
use stapler_mcp.Docs.Query.{remove_found, remove_locked, RemoveIndexedSourceOutput}
use stapler_mcp.Docs.Actions.{and_then-ok, from_port-ok, from_result-ok}
use stapler_mcp.Docs.Index.{
  stored_manifest, without_source, summary_of, meta_of, Gathered, IndexDocsOutput, update_manifest,
  store_index, embed_in_sub_batches, embed_batches, batches, embed_inputs, zip_with, chunk_record,
  output_of, stored_urls,
}

module _ {F W : Type 0} (ports : DocsPorts F W) where
  -- What the state of the world says of the files, and how the calls change it: reads, embeddings and
  -- the clock not at all, writes and deletions at their path.
  pub record FileLaws : Type 0 where
    pub files : W → Text → Option (List ℕ)
    pub reads :
        (w : W) (p : Text) {b : Option (List ℕ)} {w' : W}
        → ports.read_file w p ≡ (ok b, w')
        → (b ≡ files w p) × ((q : Text) → files w' q ≡ files w q)
    pub writes :
        (w : W) (p : Text) (bytes : List ℕ) {w' : W}
        → ports.write_file w p bytes ≡ (ok tt, w')
        → (q : Text) → files w' q ≡ (if text_eq p q then some bytes else files w q)
    pub deletes :
        (w : W) (p : Text) {w' : W}
        → ports.delete_file w p ≡ (ok tt, w')
        → (q : Text) → files w' q ≡ (if text_eq p q then none else files w q)
    pub embeds :
        (w : W) (inputs : List Text) (q : Text) → files (ports.embed w inputs).1 q ≡ files w q
    pub clocks : (w : W) (q : Text) → files (ports.now_millis w).1 q ≡ files w q

-- serde_json reads back what it wrote.
abbrev pub ReadsBack : {F : Type 0} → SerdeLib F → Type 0
ReadsBack serde =
    (manifest : List SourceSummary) (bytes : List ℕ)
    → serde.encode_manifest manifest ≡ ok bytes
    → serde.decode_manifest bytes ≡ ok manifest

module _ {F W : Type 0} (serde : SerdeLib F) (ports : DocsPorts F W) (docs_index_dir : Text)
    (laws : FileLaws ports) (reads_back : ReadsBack serde) where
  abbrev manifest_at : W → List SourceSummary
  manifest_at w = stored_manifest serde (laws.files w (sources_manifest_path docs_index_dir))

  update_manifest_lem :
      (meta : SourceMeta) (w : W) {w' : W}
      → update_manifest serde ports docs_index_dir meta w ≡ returned (ok tt, w')
      → manifest_at w' ≡ without_source meta.source_id (manifest_at w) ++ summary_of meta ∷ []
  unfolding update_manifest
  update_manifest_lem meta w {w'} e =
      let (stored, (w₁, (e₁, f₁))) = and_then-ok _ _ e in
      let (bytes, (w₂, (e₂, f₂))) = and_then-ok _ _ f₁ in
      let (at_w, same) = laws.reads w _ (from_port-ok _ e₁) in
      let (encoded, w₁_w₂) = from_result-ok _ w₁ e₂ in
      let written =
        laws.writes w₂ _ bytes (from_port-ok _ f₂) (sources_manifest_path docs_index_dir) in
      let now : laws.files w' (sources_manifest_path docs_index_dir) ≡ some bytes =
        written ∙ (rw (text_eq_refl (sources_manifest_path docs_index_dir)) refl) in
      let decoded = reads_back _ bytes encoded in rw (now, decoded) (rw at_w refl)

  embed_batches-files :
      (bs : List (List Text)) (w : W) {es : List (List F)} {w' : W}
      → embed_batches ports bs w ≡ returned (ok es, w')
      → (q : Text) → laws.files w' q ≡ laws.files w q
  unfolding embed_batches
  embed_batches-files [] w {es} {w'} e q =
      let same : w ≡ w' = ground arith in ap (λ (x : W). laws.files x q) (sym same)
  embed_batches-files (b ∷ bs) w {es} {w'} e q =
      let (es₁, (w₁, (e₁, f₁))) = and_then-ok _ _ e in
      let (es₂, (w₂, (e₂, f₂))) = and_then-ok _ _ f₁ in
      let here = from_port-ok _ e₁ in
      let same : w₂ ≡ w' = ground arith in
      let there = embed_batches-files bs w₁ e₂ q in
      let embedded : laws.files w₁ q ≡ laws.files w q =
        ap (λ (x : Result PortError (List (List F)) × W). laws.files x.1 q) (sym here)
        ∙ laws.embeds w b q in
      ap (λ (x : W). laws.files x q) (sym same) ∙ (there ∙ embedded)

  -- Neither file of a source is the manifest.
  chunks-ne-manifest :
      (id : Text)
      → text_eq (chunks_path docs_index_dir id) (sources_manifest_path docs_index_dir) ≡ false
  chunks-ne-manifest id =
      ends_apart (source_dir docs_index_dir id) docs_index_dir (text "/chunks.jsonl")
        (text "/sources.json") 0 b'l' b'n' (λ p. refl) (λ q. refl) (omega arith)

  meta-ne-manifest :
      (id : Text)
      → text_eq (meta_path docs_index_dir id) (sources_manifest_path docs_index_dir) ≡ false
  meta-ne-manifest id =
      ends_apart (source_dir docs_index_dir id) docs_index_dir (text "/meta.json")
        (text "/sources.json") 5 b'a' b's' (λ p. refl) (λ q. refl) (omega arith)

  -- In the map from sources to their entries that the manifest is, a call that stored an index has set
  -- the entry of its source, and no other.
  pub store_index_refines :
      (g : Gathered) (w : W) {out : IndexDocsOutput} {w' : W}
      → store_index serde ports docs_index_dir g w ≡ returned (ok out, w')
      → (s : SourceSummary) × ((s.source_id ≡ g.source_id)
          × (s.chunk_count ≡ out.chunks_indexed)
          × (s.page_count ≡ out.pages_indexed)
          × ((j : Text)
              → find_source j (manifest_at w')
                ≡ (if text_eq g.source_id j then some s else find_source j (manifest_at w))))
  unfolding store_index embed_in_sub_batches
  store_index_refines g w {out} {w'} e =
      let (es, (w₁, (e₁, f₁))) = and_then-ok _ _ e in
      let (old, (w₂, (e₂, f₂))) = and_then-ok _ _ f₁ in
      let (lines, (w₃, (e₃, f₃))) = and_then-ok _ _ f₂ in
      let (done, (w₄, (e₄, f₄))) = and_then-ok _ _ f₃ in
      let (at, (w₅, (e₅, f₅))) = and_then-ok _ _ f₄ in
      let (bytes, (w₆, (e₆, f₆))) = and_then-ok _ _ f₅ in
      let (done', (w₇, (e₇, f₇))) = and_then-ok _ _ f₆ in
      let (done'', (w₈, (e₈, f₈))) = and_then-ok _ _ f₇ in
      let m = sources_manifest_path docs_index_dir in
      let read = (laws.reads w₁ _ (from_port-ok _ e₂)).1 m in
      let (encoded, w₂_w₃) = from_result-ok _ w₂ e₃ in
      let chunks = laws.writes w₃ _ _ (from_port-ok _ e₄) m in
      let (encoded', w₅_w₆) = from_result-ok _ w₅ e₆ in
      let metas = laws.writes w₆ _ bytes (from_port-ok _ e₇) m in
      let kept₃ : laws.files w₃ m ≡ laws.files w m =
        ap (λ (x : W). laws.files x m) (sym w₂_w₃)
        ∙ (read ∙ embed_batches-files (batches (embed_inputs g)) w e₁ m) in
      let kept₄ : laws.files w₄ m ≡ laws.files w m =
        chunks ∙ (rw (chunks-ne-manifest g.source_id) kept₃) in
      let now_w₅ : (ports.now_millis w₄).1 ≡ w₅ = ground arith in
      let kept₅ : laws.files w₅ m ≡ laws.files w m =
        ap (λ (x : W). laws.files x m) (sym now_w₅) ∙ (laws.clocks w₄ m ∙ kept₄) in
      let kept₆ : laws.files w₆ m ≡ laws.files w m =
        ap (λ (x : W). laws.files x m) (sym w₅_w₆) ∙ kept₅ in
      let kept₇ : laws.files w₇ m ≡ laws.files w m =
        metas ∙ (rw (meta-ne-manifest g.source_id) kept₆) in
      let records = zip_with (chunk_record {F = F}) g.entries es in
      let meta = meta_of g at (length records) in
      let updated = update_manifest_lem meta w₇ e₈ in
      let w₈_w' : w₈ ≡ w' = ground arith in
      let out_eq : output_of g (stored_urls serde old) (length records) ≡ out = ground arith in
      (
        summary_of meta,
        (
          refl,
          ap (λ (o : IndexDocsOutput). o.chunks_indexed) out_eq,
          ap (λ (o : IndexDocsOutput). o.pages_indexed) out_eq,
          λ j.
              ap (λ (x : W). find_source j (manifest_at x)) (sym w₈_w')
              ∙ ap (find_source j) updated
              ∙ find_source-update j (manifest_at w₇) (summary_of meta)
              ∙ (rw (ap (stored_manifest serde) kept₇) refl),
        ),
      )

  -- No entry of the source, the others as they were, and no file of the source.
  abbrev IsRemoved : Text → W → W → Type 0
  IsRemoved id w w' =
      ((j : Text)
        → find_source j (manifest_at w')
          ≡ (if text_eq id j then none else find_source j (manifest_at w)))
      × (laws.files w' (meta_path docs_index_dir id) ≡ none)
      × (laws.files w' (chunks_path docs_index_dir id) ≡ none)

  manifest-ne-meta :
      (id : Text)
      → text_eq (sources_manifest_path docs_index_dir) (meta_path docs_index_dir id) ≡ false
  manifest-ne-meta id =
      ends_apart docs_index_dir (source_dir docs_index_dir id) (text "/sources.json")
        (text "/meta.json") 5 b's' b'a' (λ p. refl) (λ q. refl) (omega arith)

  manifest-ne-chunks :
      (id : Text)
      → text_eq (sources_manifest_path docs_index_dir) (chunks_path docs_index_dir id) ≡ false
  manifest-ne-chunks id =
      ends_apart docs_index_dir (source_dir docs_index_dir id) (text "/sources.json")
        (text "/chunks.jsonl") 0 b'n' b'l' (λ p. refl) (λ q. refl) (omega arith)

  meta-ne-chunks :
      (id : Text) → text_eq (meta_path docs_index_dir id) (chunks_path docs_index_dir id) ≡ false
  meta-ne-chunks id =
      ends_apart (source_dir docs_index_dir id) (source_dir docs_index_dir id) (text "/meta.json")
        (text "/chunks.jsonl") 0 b'n' b'l' (λ p. refl) (λ q. refl) (omega arith)

  module _ (L : WebLib) (T : TextLib L) (source id : Text) where
    remove_found-IsRemoved :
        (w : W) {out : RemoveIndexedSourceOutput} {w' : W}
        → remove_found L T serde ports docs_index_dir source id w ≡ returned (ok out, w')
        → IsRemoved id w w'
    unfolding remove_found
    remove_found-IsRemoved w {out} {w'} e =
        let (done, (w₁, (e₁, f₁))) = and_then-ok _ _ e in
        let (done', (w₂, (e₂, f₂))) = and_then-ok _ _ f₁ in
        let (stored, (w₃, (e₃, f₃))) = and_then-ok _ _ f₂ in
        let (bytes, (w₄, (e₄, f₄))) = and_then-ok _ _ f₃ in
        let (done'', (w₅, (e₅, f₅))) = and_then-ok _ _ f₄ in
        let m = sources_manifest_path docs_index_dir in
        let deleted₁ = laws.deletes w _ (from_port-ok _ e₁) in
        let deleted₂ = laws.deletes w₁ _ (from_port-ok _ e₂) in
        let (read, kept₃) = laws.reads w₂ _ (from_port-ok _ e₃) in
        let (encoded, w₃_w₄) = from_result-ok _ w₃ e₄ in
        let written = laws.writes w₄ _ bytes (from_port-ok _ e₅) in
        let w₅_w' : w₅ ≡ w' = ground arith in
        let kept₄ : (q : Text) → laws.files w₄ q ≡ laws.files w₂ q =
          λ q. ap (λ (x : W). laws.files x q) (sym w₃_w₄) ∙ kept₃ q in
        let manifest₂ : laws.files w₂ m ≡ laws.files w m =
          deleted₂ m
          ∙ (rw (meta-ne-manifest id) (deleted₁ m ∙ (rw (chunks-ne-manifest id) refl))) in
        let now : laws.files w' m ≡ some bytes =
          ap (λ (x : W). laws.files x m) (sym w₅_w') ∙ (written m ∙ (rw (text_eq_refl m) refl)) in
        let decoded = reads_back _ bytes encoded in
        let meta_gone : laws.files w₂ (meta_path docs_index_dir id) ≡ none =
          deleted₂ (meta_path docs_index_dir id)
          ∙ (rw (text_eq_refl (meta_path docs_index_dir id)) refl) in
        let chunks_gone : laws.files w₂ (chunks_path docs_index_dir id) ≡ none =
          deleted₂ (chunks_path docs_index_dir id)
          ∙ (rw (meta-ne-chunks id) (
              deleted₁ (chunks_path docs_index_dir id)
              ∙ (rw (text_eq_refl (chunks_path docs_index_dir id)) refl))) in
        (
          λ j.
              (rw (now, decoded) (rw (read ∙ manifest₂) refl))
              ∙ find_source-without_source id j (manifest_at w),
          ap (λ (x : W). laws.files x (meta_path docs_index_dir id)) (sym w₅_w')
              ∙ (written (meta_path docs_index_dir id)
                  ∙ (rw (manifest-ne-meta id) (kept₄ (meta_path docs_index_dir id) ∙ meta_gone))),
          ap (λ (x : W). laws.files x (chunks_path docs_index_dir id)) (sym w₅_w')
              ∙ (written (chunks_path docs_index_dir id)
                  ∙ (rw (manifest-ne-chunks id)
                      (kept₄ (chunks_path docs_index_dir id) ∙ chunks_gone))),
        )

    -- A call that removed a source has removed its entry from the manifest and no other, and its files
    -- are gone.
    pub remove_locked_refines :
        (w : W) {out : RemoveIndexedSourceOutput} {w' : W}
        → remove_locked L T serde ports docs_index_dir source id w ≡ returned (ok out, w')
        → ((j : Text)
            → find_source j (manifest_at w')
              ≡ (if text_eq id j then none else find_source j (manifest_at w)))
          × (laws.files w' (meta_path docs_index_dir id) ≡ none)
          × (laws.files w' (chunks_path docs_index_dir id) ≡ none)
    unfolding remove_locked
    remove_locked_refines w {out} {w'} e =
        let (meta, (w₁, (e₁, f₁))) = and_then-ok _ _ e in
        let kept = (laws.reads w _ (from_port-ok _ e₁)).1 in
        elim (Option-cases meta) [
          | inl missing ↦ absurd (cc (rw missing at f₁))
          | inr (bytes, there) ↦
              let (entries, meta_gone, chunks_gone) = remove_found-IsRemoved w₁ (rw there at f₁) in
              (
                λ j. entries j ∙ (rw (kept (sources_manifest_path docs_index_dir)) refl),
                meta_gone,
                chunks_gone,
              )
        ]
