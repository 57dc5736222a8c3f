-- ===== src/Search.antt =====
-- The two search tools of crates/core/src/tools/search.rs: `brave_web_search` over HTTP, and
-- `browser_web_search` in a browser session of its own. The URL encoding of the `url` crate and
-- serde_json are parameters, the HTTP client and the browser functions on the state of the world. The
-- line about a session that does not close is left out.
pub mod Sessions
mod Tests
use stapler_mcp.Common.{
  ℕ, Bool, true, false, Option, none, some, List, [], ◌∷◌, ◌++◌, map, if◌then◌else◌, ltb, ◌==◌,
  Text, text, is_empty, show_nat, take, Result, ok, err,
}
use stapler_mcp.Ports.{PortError, display, not_found, session_crashed, HttpResponse}
use stapler_mcp.Web.{WebLib}
use stapler_mcp.Crawler.{HttpGet, get_or}

pub record BraveSearchInput : Type 0 where
  pub query : Text
  pub count : Option ℕ

pub record BraveSearchResult : Type 0 where
  pub title : Text
  pub url : Text
  pub description : Text

-- `ApiResult` and `RawBrowserResult`: a description that is missing is empty.
pub record RawResult : Type 0 where
  pub title : Text
  pub url : Text
  pub description : Text

-- `encode_pair k v` is a pair as `form_urlencoded` writes it; a response is the results of its `web`
-- field, where it has one; a value is what `evaluate` returns.
pub record SearchLib : Type 1 where
  pub Value : Type 0
  pub encode_pair : Text → Text → Text
  pub decode_response : List ℕ → Result Text (Option (List RawResult))
  pub decode_results : Value → Result Text (List RawResult)

abbrev pub default_base_url : Text
default_base_url = text "https://api.search.brave.com/res/v1/web/search"

unfoldable pub clamp_search_count : Option ℕ → ℕ
clamp_search_count none = 10
clamp_search_count (some c) = if c == 0 then 10 else if ltb 20 c then 20 else c

abbrev pub to_brave_result : RawResult → BraveSearchResult
to_brave_result r = record { title = r.title; url = r.url; description = r.description }

-- `map_error` of crates/core/src/tools/browser.rs.
unfoldable pub map_error : Text → Text → PortError → Text
map_error verb id (not_found msg) = msg
map_error verb id (session_crashed msg) = msg
map_error verb id e = verb ++ (text " " ++ (id ++ (text ": " ++ display e)))

module _ (S : SearchLib) where
  unfoldable pub build_search_url : Text → Text → ℕ → Text
  build_search_url base_url query count =
      base_url
      ++ (text "?"
          ++ (S.encode_pair (text "q") query
              ++ (text "&" ++ S.encode_pair (text "count") (show_nat count))))

  unfoldable pub build_bing_search_url : Text → Text
  build_bing_search_url query =
      text "https://www.bing.com/search" ++ (text "?" ++ S.encode_pair (text "q") query)

  -- The answer of the API.
  unfoldable pub read_answer : WebLib → HttpResponse → Result Text (List BraveSearchResult)
  read_answer L resp =
      if resp.status == 200
      then elim (S.decode_response resp.body) [
        | err e ↦ err e
        | ok results ↦ ok (map to_brave_result (get_or results []))
      ]
      else err (
          text "brave search: HTTP "
          ++ (show_nat resp.status ++ (text ": " ++ L.from_utf8_lossy resp.body)))

  unfoldable pub brave_web_search :
      {W : Type 0}
      → WebLib
      → HttpGet W
      → W
      → Text
      → Text
      → BraveSearchInput
      → Result Text (List BraveSearchResult) × W
  brave_web_search L get w api_key base_url input =
      let (resp, w') =
        get w (build_search_url base_url input.query (clamp_search_count input.count)) (
          (text "Accept", text "application/json") ∷ (text "X-Subscription-Token", api_key) ∷ []) in
      if is_empty api_key
      then (err (text "BRAVE_API_KEY is not set"), w)
      else if is_empty input.query
      then (err (text "query must not be empty"), w)
      else elim resp [ err e ↦ (err (display e), w') | ok r ↦ (read_answer L r, w') ]

-- The calls of `BrowserDriver` that a search makes. `navigate` gives the id of the session.
pub record SessionPorts (V W : Type 0) : Type 0 where
  pub navigate : W → Text → Option Text → ℕ → Result PortError Text × W
  pub evaluate : W → Text → Text → Option Text → ℕ → Result PortError V × W
  pub close_session : W → Text → Result PortError (Unit {0}) × W

abbrev pub browser_search_timeout_ms : ℕ
browser_search_timeout_ms = 30000

module _ (S : SearchLib) {W : Type 0} (ports : SessionPorts S.Value W)
    (extract_bing_results_js : Text) where
  abbrev close_search_session : W → Text → W
  close_search_session w session_id = (ports.close_session w session_id).1

  abbrev named : {A : Type 0} → Text → Result PortError A → Result Text A
  named id (ok a) = ok a
  named id (err e) = err (map_error (text "browser web search") id e)

  -- The session that was opened is closed whatever the evaluation gave.
  unfoldable pub run_search_session : W → Text → Result Text S.Value × W
  run_search_session w query =
      let url = build_bing_search_url S query in
      let (nav, w₁) = ports.navigate w url none browser_search_timeout_ms in
      elim nav [
        | err e ↦ (err (map_error (text "browser web search") url e), w₁)
        | ok session_id ↦
            let (eval_result, w₂) =
              ports.evaluate w₁ session_id extract_bing_results_js none browser_search_timeout_ms in
            (named session_id eval_result, close_search_session w₂ session_id)
      ]

  -- The results that are kept of a value.
  unfoldable pub read_results : Option ℕ → S.Value → Result Text (List BraveSearchResult)
  read_results count value = elim (S.decode_results value) [
    | err e ↦ err (text "browser web search: unexpected result shape: " ++ e)
    | ok raw ↦ ok (map to_brave_result (take (clamp_search_count count) raw))
  ]

  unfoldable pub browser_web_search :
      W → BraveSearchInput → Result Text (List BraveSearchResult) × W
  browser_web_search w input =
      let (value, w') = run_search_session w input.query in
      if is_empty input.query
      then (err (text "query must not be empty"), w)
      else elim value [ err e ↦ (err e, w') | ok v ↦ (read_results input.count v, w') ]
