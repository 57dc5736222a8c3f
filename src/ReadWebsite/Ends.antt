-- ===== src/ReadWebsite/Ends.antt =====
-- That `read_website` of crates/core/src/tools/webcrawl.rs ends, and how many pages it returns.
use stapler_mcp.Common.{
  ℕ, suc, ◌+◌, ◌-◌, ◌≤◌, ◌≡◌, refl, Bool, true, false, Option, none, some, ◌⊎◌, inl, inr, List, [],
  ◌∷◌, arith, Bool-cases, Option-cases, Text, member, length, length-append, Result, ok, err,
  Result-cases,
}
use stapler_mcp.Ports.{AuthRequiredInfo, PortError, auth_required, PageExtract}
use stapler_mcp.Web.{WebLib}
use stapler_mcp.Crawler.{Crawler, take_auth_hit}
use stapler_mcp.Crawler.Work.{weight, weight_pos, load, Costs, HasFewLinks, fetch_and_expand-Costs}
use stapler_mcp.ReadWebsite.{
  PageLib, WebPorts, Reading, ReadWebsitePage, Turn, next, failed, panicked, push_page,
  extract_title_and_markdown, take_page, after_browser, fall_back, after_fetch, cached_page,
  read_page, host_key_of, cache_path_for,
}

module _ (L : WebLib) (P : PageLib) {W : Type 0} (ports : WebPorts W) (cache_dir : Text) where
  -- A round that goes on has this crawler, and at most one page more.
  abbrev Goes : Crawler L → List ReadWebsitePage → Turn (Reading L W) → Type 0
  Goes c pages (next st) = (st.crawler ≡ c) × (length st.pages ≤ suc (length pages))
  Goes c pages (failed e) = Unit
  Goes c pages panicked = Unit

  push_page-Goes :
      (st : Reading L W) (url : L.Url) (title markdown : Text)
      → Goes st.crawler st.pages (next (push_page L P ports cache_dir st url title markdown))
  unfolding push_page
  push_page-Goes st url title markdown = (refl, omega (arith, length-append st.pages (_ ∷ [])))

  take_page-Goes :
      (st : Reading L W) (url : L.Url) (html : Text) (cacheable : Bool)
      → Goes st.crawler st.pages (take_page L P ports cache_dir st url html cacheable)
  unfolding take_page
  take_page-Goes st url html cacheable =
      elim (Result-cases (extract_title_and_markdown P html (L.as_str url))) [
        | inl ((title, markdown), e) ↦
            rw (e, take_page) (push_page-Goes (record st { world = _ }) url title markdown)
        | inr (m, e) ↦ rw (e, take_page) tt
      ]

  after_browser-Goes :
      (st : Reading L W) (url : L.Url) (info : AuthRequiredInfo) (r : Result PortError PageExtract)
      → Goes st.crawler st.pages (after_browser L P ports cache_dir st url info r)
  unfolding after_browser
  after_browser-Goes st url info (ok extract) = take_page-Goes st url extract.html false
  after_browser-Goes st url info (err (auth_required i)) = (refl, omega arith)
  after_browser-Goes st url info (err _) = (refl, omega arith)

  fall_back-Goes :
      (st : Reading L W) (url : L.Url) (info : AuthRequiredInfo)
      → Goes st.crawler st.pages (fall_back L P ports cache_dir st url info)
  unfolding fall_back
  fall_back-Goes st url info =
      elim (Bool-cases (member (host_key_of L P ports cache_dir url) st.fallback_failed_hosts)) [
        | inl seen ↦ rw seen (refl, omega arith)
        | inr new ↦ rw new (after_browser-Goes (record st { world = _ }) url info _)
      ]

  -- A round that goes on lowers the weight of the queue below `bound`, keeps the two limits, and adds
  -- at most one page.
  abbrev pub Lowers : ℕ → ℕ → Crawler L → List ReadWebsitePage → Turn (Reading L W) → Type 0
  Lowers links bound c pages (next st) =
      (suc (load L links c.max_depth st.crawler.queue) ≤ bound)
      × (st.crawler.max_depth ≡ c.max_depth)
      × (st.crawler.max_pages ≡ c.max_pages)
      × (length st.pages ≤ suc (length pages))
  Lowers links bound c pages (failed e) = Unit
  Lowers links bound c pages panicked = Unit

  Goes-Lowers :
      (links bound : ℕ) (c d : Crawler L) (pages : List ReadWebsitePage) (t : Turn (Reading L W))
      → suc (load L links c.max_depth d.queue) ≤ bound
      → d.max_depth ≡ c.max_depth
      → d.max_pages ≡ c.max_pages
      → Goes d pages t
      → Lowers links bound c pages t
  Goes-Lowers links bound c d pages (next st) h e e' (same, more) =
      (rw same h, rw same e, rw same e', more)
  Goes-Lowers links bound c d pages (failed m) h e e' _ = tt
  Goes-Lowers links bound c d pages panicked h e e' _ = tt

  after_fetch-Lowers :
      (links depth : ℕ) (st : Reading L W) (url : L.Url)
      (o : Option (Result (Option ℕ) (Text × Text) × Crawler L))
      → Costs L links st.crawler depth o
      → Lowers links
          (load L links st.crawler.max_depth st.crawler.queue
            + weight links (st.crawler.max_depth - depth))
          st.crawler
          st.pages
          (after_fetch L P ports cache_dir st url o)
  unfolding after_fetch take_auth_hit
  after_fetch-Lowers links depth st url none _ = tt
  after_fetch-Lowers links depth st url (some (ok (html, final_url), c)) (h, e, e') =
      Goes-Lowers links _ st.crawler c st.pages _ h e e'
        (take_page-Goes (record st { crawler = c }) url html true)
  after_fetch-Lowers links depth st url (some (err m, c)) (h, e, e') = hit c.auth_hit
    where
      st' : Reading L W
      st' = record st { crawler = record c { auth_hit = none } }

      hit :
          (o : Option AuthRequiredInfo)
          → Lowers links
              (load L links st.crawler.max_depth st.crawler.queue
                + weight links (st.crawler.max_depth - depth))
              st.crawler
              st.pages
              (elim o [ none ↦ next st' | some info ↦ fall_back L P ports cache_dir st' url info ])
      hit none = (h, e, e', omega arith)
      hit (some info) =
          Goes-Lowers links _ st.crawler (record c { auth_hit = none }) st.pages _ h e e'
            (fall_back-Goes st' url info)

  pub read_page-Lowers :
      (links : ℕ) (st : Reading L W) (url : L.Url) (depth : ℕ)
      → HasFewLinks L links ports.get
      → Lowers links
          (load L links st.crawler.max_depth st.crawler.queue
            + weight links (st.crawler.max_depth - depth))
          st.crawler
          st.pages
          (read_page L P ports cache_dir st url depth)
  unfolding read_page
  read_page-Lowers links st url depth few =
      elim (Option-cases (
        cached_page L P ports cache_dir
          (ports.read_file st.world (cache_path_for L P ports cache_dir url)).0)) [
            | inl missing ↦
                rw (missing, read_page)
                  (after_fetch-Lowers links depth (record st { world = _ }) url _
                    (fetch_and_expand-Costs L links ports.get _ st.crawler url depth few))
            | inr (page, stored) ↦
                rw (stored, read_page)
                  (Goes-Lowers links _ st.crawler st.crawler st.pages
                    (next (
                      push_page L P ports cache_dir (record st { world = _ }) url page.title
                        page.markdown))
                    (omega (arith, weight_pos links (st.crawler.max_depth - depth))) refl refl
                    (push_page-Goes (record st { world = _ }) url page.title page.markdown))
          ]

pub Turn-cases :
    {A : Type 0} (t : Turn A)
    → ((a : A) × (t ≡ next a)) ⊎ ((e : Text) × (t ≡ failed e)) ⊎ (t ≡ panicked)
Turn-cases (next a) = inl (a, refl)
Turn-cases (failed e) = inr (inl (e, refl))
Turn-cases panicked = inr (inr refl)
