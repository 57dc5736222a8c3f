-- ===== src/Docs/Crawl.antt =====
-- `index_source` of crates/core/src/tools/docs.rs up to the embedding, and the whole call: the guards,
-- the lock, the crawl, and the chunks of the pages. The crawl loop takes fuel.
use stapler_mcp.Common.{
  ℕ, zero, suc, Bool, false, Option, none, some, List, [], ◌∷◌, ◌++◌, if◌then◌else◌, Text, text,
  is_empty, trim, as_bytes, member, length, ok, err,
}
use stapler_mcp.Web.{WebLib}
use stapler_mcp.Policy.{NetworkPolicy}
use stapler_mcp.Crawler.{Crawler, get_or, resolve_limits, new_crawler, next_url, fetch_and_expand}
use stapler_mcp.ReadWebsite.{
  returned, crashed, out_of_fuel, PageLib, hex, extract_title_and_markdown,
}
use stapler_mcp.Docs.{
  TextLib, SerdeLib, DocsPorts, slugify, slugify_from_url, SourceLocks, try_acquire,
}
use stapler_mcp.Docs.Actions.{Action, succeed, fail, ◌>>=◌}
use stapler_mcp.Docs.Chunks.{chunk_markdown, append_chunks_with_cap}
use stapler_mcp.Docs.Index.{
  IndexDocsInput, IndexDocsOutput, FetchedPage, seed_fetch_error, Gathered, store_index,
}

-- The variables of the crawl loop.
pub record Crawling (L : WebLib) : Type 0 where
  pub crawler : Crawler L
  pub seen_hashes : List Text
  pub pages : List FetchedPage
  pub fetched_count : ℕ

module _ (L : WebLib) (P : PageLib) where
  abbrev pub sha256_hex : Text → Text
  sha256_hex content = hex (P.sha256 (as_bytes content))

  -- A page whose content was seen before counts as fetched only.
  unfoldable pub keep_page : Crawling L → Text → Text → Crawling L
  keep_page st html final_url =
      let hash = sha256_hex html in
      let counted : Crawling L = record st { fetched_count = suc st.fetched_count } in
      if member hash st.seen_hashes then counted else record counted {
        seen_hashes = hash ∷ st.seen_hashes;
        pages = st.pages ++ record { final_url = final_url; html = html; content_hash = hash } ∷ [];
      }

  module _ {F W : Type 0} (ports : DocsPorts F W) where
    -- A round of the loop, from the URL on; none is a panic.
    unfoldable pub crawl_page : Crawling L → L.Url → ℕ → W → Option (Crawling L × W)
    crawl_page st url depth w =
        let (fetched, w') = fetch_and_expand L ports.get w st.crawler url depth in
        elim fetched [
          | none ↦ none
          | some (err e, c) ↦ some (record st { crawler = c }, w')
          | some (ok (html, final_url), c) ↦
              some (keep_page (record st { crawler = c }) html final_url, w')
        ]

    unfoldable pub crawl_pages : ℕ → Crawling L → Action W (List FetchedPage)
    crawl_pages zero st w = out_of_fuel
    crawl_pages (suc fuel) st w =
        let (found, c) = next_url L st.crawler st.fetched_count in
        elim found [
          | none ↦ returned (ok st.pages, w)
          | some (url, depth) ↦ elim (crawl_page (record st { crawler = c }) url depth w) [
            | none ↦ crashed
            | some (st', w') ↦ crawl_pages fuel st' w'
          ]
        ]

    -- The seed is fetched first, and its failure ends the call.
    unfoldable pub crawl_seed : ℕ → Text → Crawler L → Action W (List FetchedPage)
    crawl_seed fuel url c w =
        let (found, c₁) = next_url L c 0 in
        elim found [
          | none ↦
              fail
                (text "failed to index "
                  ++ (url ++ text ": seed URL is not fetchable (blocked by robots.txt)."))
                w
          | some (seed_url, seed_depth) ↦
              let (fetched, w') = fetch_and_expand L ports.get w c₁ seed_url seed_depth in
              elim fetched [
                | none ↦ crashed
                | some (err status, c₂) ↦ fail (seed_fetch_error url status) w'
                | some (ok (html, final_url), c₂) ↦
                    crawl_pages fuel
                      (keep_page
                        (record { crawler = c₂; seen_hashes = []; pages = []; fetched_count = 0 })
                        html final_url)
                      w'
              ]
        ]

  module _ (T : TextLib L) {W : Type 0} where
    -- The chunks of one page; the flag says that the cap was reached.
    unfoldable pub gather_page : FetchedPage → Gathered → Action W (Gathered × Bool)
    gather_page page g w = elim (extract_title_and_markdown P page.html page.final_url) [
      | err e ↦
          fail (text "failed to extract content from " ++ (page.final_url ++ (text ": " ++ e))) w
      | ok (title, markdown) ↦ elim (chunk_markdown T markdown title) [
        | none ↦ crashed
        | some page_chunks ↦
            let (entries, hit_cap) =
              append_chunks_with_cap g.entries page_chunks page.final_url page.content_hash title in
            succeed
              (
                record g {
                  page_urls = g.page_urls ++ page.final_url ∷ [];
                  entries = entries;
                  truncated = hit_cap;
                },
                hit_cap,
              )
              w
      ]
    ]

    -- The loop over the pages, which stops at the cap.
    unfoldable pub gather_pages : List FetchedPage → Gathered → Action W Gathered
    gather_pages [] g = succeed g
    gather_pages (page ∷ pages) g = gather_page page g >>= λ (r : Gathered × Bool).
        (let more = gather_pages pages r.0 in if r.1 then succeed r.0 else more)

abbrev pub no_name_error : Text → Text
no_name_error source_name =
    text "source name '"
    ++ (source_name
        ++ text
            "' has no alphanumeric characters and cannot be used to derive a storage location; pass a source name with at least one letter or digit")

abbrev pub busy_error : Text → Text
busy_error source_name =
    text "source '"
    ++ (source_name ++ text "' is already being indexed or removed; try again shortly")

module _ (L : WebLib) (P : PageLib) (T : TextLib L) {F W : Type 0} (serde : SerdeLib F)
    (ports : DocsPorts F W) (docs_index_dir : Text) where
  -- From the lock on.
  unfoldable pub index_locked :
      ℕ → IndexDocsInput → NetworkPolicy → L.Url → Text → Text → Action W IndexDocsOutput
  index_locked fuel input policy seed source_name id = do
    let limits = resolve_limits input.max_depth input.max_pages
    c ← λ w.
        (let (made, w') = new_crawler L ports.get w seed limits.0 limits.1 policy in
          returned (made, w'))
    pages ← crawl_seed L P ports fuel input.url c
    g ← gather_pages L P T pages (record {
      source_id = id;
      source_name = source_name;
      seed_url = input.url;
      pages_indexed = length pages;
      page_urls = [];
      entries = [];
      truncated = false;
    })
    store_index serde ports docs_index_dir g

  -- Names the source and takes its lock, which is dropped when the call ends: the set of locks is
  -- afterwards as it was before.
  unfoldable pub index_named :
      ℕ → IndexDocsInput → NetworkPolicy → SourceLocks → L.Url → Action W IndexDocsOutput
  index_named fuel input policy locks seed =
      let source_name = get_or input.source (slugify_from_url T seed) in
      let id = slugify T source_name in
      if is_empty id then fail (no_name_error source_name) else elim (try_acquire id locks) [
        | none ↦ fail (busy_error source_name)
        | some held ↦ index_locked fuel input policy seed source_name id
      ]

  unfoldable pub index_source :
      ℕ → IndexDocsInput → NetworkPolicy → SourceLocks → Action W IndexDocsOutput
  index_source fuel input policy locks =
      if is_empty (trim input.url)
      then fail (text "url must not be empty")
      else elim (L.parse input.url) [
        | none ↦ fail (text "invalid url: " ++ L.parse_error input.url)
        | some seed ↦ index_named fuel input policy locks seed
      ]
