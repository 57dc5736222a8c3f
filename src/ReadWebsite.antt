-- ===== src/ReadWebsite.antt =====
-- `read_website` of crates/core/src/tools/webcrawl.rs with its helpers: the inline budget, the cache
-- key, the extraction of Markdown and the diversion of large pages to files. The ports are functions
-- on the state of the world; Readability, the Markdown converter, SHA-256 and serde_json are
-- parameters. The crawl loop takes fuel.
pub mod Ends
pub mod Bound
pub mod Paths
mod Tests
use stapler_mcp.Common.{
  ℕ, zero, suc, ◌+◌, ◌-◌, ◌/◌, ◌%◌, min, Bool, true, false, Option, none, some, List, [], ◌∷◌, ◌++◌,
  if◌then◌else◌, leb, ltb, Text, text, is_empty, to_ascii_lowercase, byte_len, as_bytes, show_nat,
  member, length, take, Result, ok, err,
}
use stapler_mcp.Ports.{AuthRequiredInfo, PortError, auth_required, PageExtract}
use stapler_mcp.Web.{WebLib}
use stapler_mcp.Policy.{NetworkPolicy}
use stapler_mcp.Crawler.{
  HttpGet, get_or, resolve_limits, Crawler, next_url, take_auth_hit, new_crawler, fetch_and_expand,
}

abbrev pub max_inline_chars_ceiling : ℕ
max_inline_chars_ceiling = 200000

abbrev pub inline_markdown_budget : ℕ
inline_markdown_budget = 60000

abbrev pub diverted_page_preview_len : ℕ
diverted_page_preview_len = 300

abbrev pub auth_fallback_timeout_ms : ℕ
auth_fallback_timeout_ms = 30000

unfoldable pub resolve_inline_budget : Option ℕ → Option Bool → ℕ
resolve_inline_budget max_inline_chars always_save_to_file =
    if get_or always_save_to_file false
    then 0
    else min (get_or max_inline_chars inline_markdown_budget) max_inline_chars_ceiling

pub record CachedPage : Type 0 where
  pub title : Text
  pub markdown : Text

pub record ReadWebsitePage : Type 0 where
  pub url : Text
  pub title : Text
  pub markdown : Text
  pub saved_path : Option Text

pub record ReadWebsiteInput : Type 0 where
  pub url : Text
  pub max_depth : Option ℕ
  pub max_pages : Option ℕ
  pub max_inline_chars : Option ℕ
  pub always_save_to_file : Option Bool

pub record ReadWebsiteOutput : Type 0 where
  pub pages : List ReadWebsitePage
  pub auth_required_urls : List AuthRequiredInfo

pub record WebPorts (W : Type 0) : Type 0 where
  pub get : HttpGet W
  pub read_file : W → Text → Result PortError (Option (List ℕ)) × W
  pub write_file : W → Text → List ℕ → Result PortError (Unit {0}) × W
  pub navigate_and_extract : W → Text → ℕ → Result PortError PageExtract × W

pub record PageLib : Type 1 where
  -- `Readability::new(html, Some(url), None)`, `parse` (title and content), `htmd::convert`; their
  -- errors as texts.
  pub Readability : Type 0
  pub new_readability : Text → Text → Result Text Readability
  pub parse_article : Readability → Result Text (Text × Text)
  pub html_to_markdown : Text → Result Text Text
  -- The digest of the `sha2` crate, as bytes.
  pub sha256 : List ℕ → List ℕ
  -- `serde_json::to_vec` and `from_slice` for `CachedPage`.
  pub encode_page : CachedPage → Option (List ℕ)
  pub decode_page : List ℕ → Option CachedPage

-- `{b:02x}`: a lower-case hexadecimal digit, and the two of a byte.
abbrev pub hex_digit : ℕ → ℕ
hex_digit n = if ltb n 10 then b'0' + n else b'a' + (n - 10)

unfoldable pub hex : List ℕ → Text
hex [] = []
hex (b ∷ bs) = hex_digit (b / 16) ∷ hex_digit (b % 16) ∷ hex bs

-- `char_indices().nth(300)` cuts after 300 characters, or not at all.
unfoldable pub build_preview : Text → Text → Text
build_preview markdown saved_path =
    let preview = take diverted_page_preview_len markdown in
    let remaining_chars = byte_len markdown - byte_len preview in
    preview
    ++ (text "\n\n... ["
        ++ (show_nat remaining_chars
            ++ (text " more characters truncated — full page saved to "
                ++ (saved_path ++ text "]"))))

abbrev pub saved_prefix : Text → Text
saved_prefix cache_dir = cache_dir ++ text "/read-website/output/"

module _ (P : PageLib) where
  unfoldable pub cache_key_for : Text → Text
  cache_key_for url = hex (P.sha256 (as_bytes url))

  abbrev pub saved_path_for : Text → Text → Text
  saved_path_for cache_dir url = saved_prefix cache_dir ++ (cache_key_for url ++ text ".md")

  unfoldable pub extract_title_and_markdown : Text → Text → Result Text (Text × Text)
  extract_title_and_markdown html url = elim (P.new_readability html url) [
    | err e ↦ err (text "readability: " ++ e)
    | ok r ↦ elim (P.parse_article r) [
      | err e ↦ err (text "readability: " ++ e)
      | ok (title, content) ↦ elim (P.html_to_markdown content) [
        | err e ↦ err (text "html-to-markdown: " ++ e)
        | ok markdown ↦ ok (title, markdown)
      ]
    ]
  ]

  module _ {W : Type 0} (ports : WebPorts W) (cache_dir : Text) where
    -- The Markdown to return, the path of the saved file, the budget left, and the world.
    unfoldable pub divert_large_markdown : W → Text → Text → ℕ → Text × Option Text × ℕ × W
    divert_large_markdown w url markdown budget =
        let saved_path = saved_path_for cache_dir url in
        let (written, w') = ports.write_file w saved_path (as_bytes markdown) in
        if leb (byte_len markdown) budget
        then (markdown, none, budget - byte_len markdown, w)
        else elim written [
          | err e ↦ (markdown, none, budget, w')
          | ok done ↦ (build_preview markdown saved_path, some saved_path, budget, w')
        ]

-- The variables of the loop of `read_website`.
pub record Reading (L : WebLib) (W : Type 0) : Type 0 where
  pub crawler : Crawler L
  pub pages : List ReadWebsitePage
  pub auth_required_urls : List AuthRequiredInfo
  pub fallback_failed_hosts : List Text
  pub remaining_budget : ℕ
  pub world : W

-- How a round of the loop ends.
pub data Turn (A : Type 0) : Type 0 where
  next : A → Turn A
  failed : Text → Turn A
  panicked : Turn A

-- How the whole call ends.
pub data Outcome (A : Type 0) : Type 0 where
  returned : A → Outcome A
  crashed : Outcome A
  out_of_fuel : Outcome A

module _ (L : WebLib) (P : PageLib) {W : Type 0} (ports : WebPorts W) (cache_dir : Text) where
  -- Diverts the Markdown if it is large, and pushes the page.
  unfoldable pub push_page : Reading L W → L.Url → Text → Text → Reading L W
  push_page st url title markdown =
      let (kept, saved_path, budget, w) =
        divert_large_markdown P ports cache_dir st.world (L.as_str url) markdown
          st.remaining_budget in
      record st {
        pages =
            st.pages
            ++ record {
              url = L.as_str url;
              title = title;
              markdown = kept;
              saved_path = saved_path;
            }
              ∷ [];
        remaining_budget = budget;
        world = w;
      }

  abbrev pub cache_path_for : L.Url → Text
  cache_path_for url =
      cache_dir ++ (text "/read-website/" ++ (cache_key_for P (L.as_str url) ++ text ".json"))

  abbrev pub cached_page : Result PortError (Option (List ℕ)) → Option CachedPage
  cached_page (ok (some bytes)) = P.decode_page bytes
  cached_page (ok none) = none
  cached_page (err e) = none

  -- A page whose HTML is at hand: extracted, written to the cache if it may be, and pushed.
  unfoldable pub take_page : Reading L W → L.Url → Text → Bool → Turn (Reading L W)
  take_page st url html cacheable = elim (extract_title_and_markdown P html (L.as_str url)) [
    | err e ↦ failed e
    | ok (title, markdown) ↦ next (
        push_page
          (record st {
            world =
                if cacheable
                then elim (P.encode_page (record { title = title; markdown = markdown })) [
                  | none ↦ st.world
                  | some bytes ↦ (ports.write_file st.world (cache_path_for url) bytes).1
                ]
                else st.world;
          })
          url title markdown)
  ]

  abbrev pub host_key_of : L.Url → Text
  host_key_of url = to_ascii_lowercase (get_or (L.host_str url) [])

  -- What the loop does with the browser's answer for a page behind a login wall.
  unfoldable pub after_browser :
      Reading L W → L.Url → AuthRequiredInfo → Result PortError PageExtract → Turn (Reading L W)
  after_browser st url http_info (ok extract) = take_page st url extract.html false
  after_browser st url http_info (err (auth_required info)) = next (record st {
    fallback_failed_hosts = host_key_of url ∷ st.fallback_failed_hosts;
    auth_required_urls = st.auth_required_urls ++ info ∷ [];
  })
  after_browser st url http_info (err _) = next (record st {
    fallback_failed_hosts = host_key_of url ∷ st.fallback_failed_hosts;
    auth_required_urls = st.auth_required_urls ++ http_info ∷ [];
  })

  -- The browser fallback for a page behind a login wall.
  unfoldable pub fall_back : Reading L W → L.Url → AuthRequiredInfo → Turn (Reading L W)
  fall_back st url http_info =
      let (extract, w) =
        ports.navigate_and_extract st.world (L.as_str url) auth_fallback_timeout_ms in
      if member (host_key_of url) st.fallback_failed_hosts
      then next (record st { auth_required_urls = st.auth_required_urls ++ http_info ∷ [] })
      else after_browser (record st { world = w }) url http_info extract

  -- The round after a fetch.
  unfoldable pub after_fetch :
      Reading L W
      → L.Url
      → Option (Result (Option ℕ) (Text × Text) × Crawler L)
      → Turn (Reading L W)
  after_fetch st url none = panicked
  after_fetch st url (some (ok (html, final_url), c)) =
      take_page (record st { crawler = c }) url html true
  after_fetch st url (some (err e, c)) =
      let (hit, c') = take_auth_hit L c in
      let st' : Reading L W = record st { crawler = c' } in
      elim hit [ none ↦ next st' | some http_info ↦ fall_back st' url http_info ]

  -- One round of the loop: the cached page, or a fetch.
  unfoldable pub read_page : Reading L W → L.Url → ℕ → Turn (Reading L W)
  read_page st url depth =
      let (stored, w) = ports.read_file st.world (cache_path_for url) in
      let (fetched, w') = fetch_and_expand L ports.get w st.crawler url depth in
      elim (cached_page stored) [
        | some page ↦ next (push_page (record st { world = w }) url page.title page.markdown)
        | none ↦ after_fetch (record st { world = w' }) url fetched
      ]

  unfoldable pub read_loop : ℕ → Reading L W → Outcome (Result Text ReadWebsiteOutput)
  read_loop zero st = out_of_fuel
  read_loop (suc fuel) st =
      let (found, c) = next_url L st.crawler (length st.pages) in
      elim found [
        | none ↦
            returned (ok (record { pages = st.pages; auth_required_urls = st.auth_required_urls }))
        | some (url, depth) ↦ elim (read_page (record st { crawler = c }) url depth) [
          | next st' ↦ read_loop fuel st'
          | failed e ↦ returned (err e)
          | panicked ↦ crashed
        ]
      ]

  -- The state before the first round, or the error that ends the call early.
  unfoldable pub start_reading : W → ReadWebsiteInput → NetworkPolicy → Result Text (Reading L W)
  start_reading w input policy =
      if is_empty input.url then err (text "url must not be empty") else elim (L.parse input.url) [
        | none ↦ err (text "invalid url: " ++ L.parse_error input.url)
        | some seed ↦
            let (max_depth, max_pages) = resolve_limits input.max_depth input.max_pages in
            let (made, w') = new_crawler L ports.get w seed max_depth max_pages policy in
            elim made [
              | err e ↦ err e
              | ok c ↦ ok (record {
                crawler = c;
                pages = [];
                auth_required_urls = [];
                fallback_failed_hosts = [];
                remaining_budget =
                    resolve_inline_budget input.max_inline_chars input.always_save_to_file;
                world = w';
              })
            ]
      ]

  unfoldable pub read_website :
      ℕ → W → ReadWebsiteInput → NetworkPolicy → Outcome (Result Text ReadWebsiteOutput)
  read_website fuel w input policy = elim (start_reading w input policy) [
    | err e ↦ returned (err e)
    | ok st ↦ read_loop fuel st
  ]
