-- ===== src/Crawler.antt =====
-- The crawl frontier of crates/core/src/tools/webcrawl.rs: `resolve_limits`, `same_host`, the
-- fetches, and `Crawler` with its methods. The HTTP client is a function on the state of the world;
-- `&mut self` methods return the new crawler.
pub mod Hops
pub mod Frontier
pub mod Runs
pub mod Work
mod Tests
use stapler_mcp.Common.{
  ℕ, zero, suc, ◌+◌, min, max, Bool, true, false, not, ◌&&◌, ◌||◌, Option, none, some, List, [],
  ◌∷◌, ◌++◌, if◌then◌else◌, ltb, leb, ◌==◌, Text, text, text_eq, member, select, Result, ok, err,
}
use stapler_mcp.Ports.{AuthRequiredInfo, PortError, HttpResponse}
use stapler_mcp.Web.{WebLib}
use stapler_mcp.Policy.{NetworkPolicy, blocked_host_reason}
use stapler_mcp.Auth.{from_status, detect_auth_wall}

abbrev pub default_max_depth : ℕ
default_max_depth = 1

abbrev pub default_max_pages : ℕ
default_max_pages = 10

abbrev pub max_pages_ceiling : ℕ
max_pages_ceiling = 50

abbrev pub max_depth_ceiling : ℕ
max_depth_ceiling = 5

abbrev pub get_or {ℓ} : {A : Type ℓ} → Option A → A → A
get_or none d = d
get_or (some a) d = a

unfoldable pub resolve_limits : Option ℕ → Option ℕ → ℕ × ℕ
resolve_limits max_depth max_pages = (
  min (get_or max_depth default_max_depth) max_depth_ceiling,
  min (max (get_or max_pages default_max_pages) 1) max_pages_ceiling,
)

abbrev pub user_agent : Text
user_agent = text "stapler-mcp/0.1 (+https://github.com/tstapler/stapler-mcp)"

-- The type of `HttpClient::get`.
abbrev pub HttpGet : Type 0 → Type 0
HttpGet W = W → Text → List (Text × Text) → Result PortError HttpResponse × W

module _ (L : WebLib) where
  unfoldable pub same_host : L.Url → L.Url → Bool
  same_host a b = elim (L.host_str a) [
    | none ↦ false
    | some h ↦ elim (L.host_str b) [ none ↦ false | some k ↦ text_eq h k ]
  ]

  -- `base.join(href)` for each link, without those that do not parse.
  unfoldable pub join_all : L.Url → List Text → List L.Url
  join_all base [] = []
  join_all base (h ∷ hs) =
      let rest = join_all base hs in elim (L.join base h) [ none ↦ rest | some u ↦ u ∷ rest ]

  abbrev pub is_web : L.Url → Bool
  is_web u = text_eq (L.scheme u) (text "http") || text_eq (L.scheme u) (text "https")

  unfoldable pub extract_links : Text → L.Url → List L.Url
  extract_links html base = select is_web (join_all base (L.hrefs html))

  pub record Crawler : Type 0 where
    pub robot : Option L.Robot
    pub seed : L.Url
    pub max_depth : ℕ
    pub max_pages : ℕ
    pub policy : NetworkPolicy
    pub visited : List Text
    pub queue : List (L.Url × ℕ)
    pub auth_hit : Option AuthRequiredInfo

module _ (L : WebLib) where
  abbrev pub robot_allows : Option L.Robot → L.Url → Bool
  robot_allows none url = true
  robot_allows (some robot) url = L.robot_allowed robot (L.as_str url)

  -- The `while` loop of `next_url`: what it returns, and the queue that it leaves.
  unfoldable pub pop_allowed :
      Option L.Robot → List (L.Url × ℕ) → Option (L.Url × ℕ) × List (L.Url × ℕ)
  pop_allowed robot [] = (none, [])
  pop_allowed robot ((url, depth) ∷ queue) =
      let later = pop_allowed robot queue in
      if robot_allows robot url then (some (url, depth), queue) else later

  unfoldable pub next_url : Crawler L → ℕ → Option (L.Url × ℕ) × Crawler L
  next_url c fetched =
      let (found, rest) = pop_allowed c.robot c.queue in
      if leb c.max_pages fetched then (none, c) else (found, record c { queue = rest })

  unfoldable pub take_auth_hit : Crawler L → Option AuthRequiredInfo × Crawler L
  take_auth_hit c = (c.auth_hit, record c { auth_hit = none })

  abbrev pub is_none {ℓ} : {A : Type ℓ} → Option A → Bool
  is_none none = true
  is_none (some a) = false

  -- The test that lets a link into the frontier.
  abbrev pub admits : Crawler L → L.Url → Bool
  admits c link =
      same_host L link c.seed
      && not (member (L.as_str link) c.visited)
      && is_none (blocked_host_reason L link c.policy)

  -- One round of the loop over the links of a page.
  unfoldable pub enqueue : Crawler L → ℕ → L.Url → Crawler L
  enqueue c depth link =
      if admits c link
      then record c {
        visited = L.as_str link ∷ c.visited;
        queue = c.queue ++ (link, depth + 1) ∷ [];
      }
      else c

  unfoldable pub expand : Crawler L → ℕ → List L.Url → Crawler L
  expand c depth [] = c
  expand c depth (link ∷ links) = expand (enqueue c depth link) depth links

  -- What `fetch_and_expand` does with a page that was served with status 200. `none` is a panic
  -- of the check for a login wall.
  unfoldable pub accept_page :
      Crawler L → L.Url → ℕ → HttpResponse → Option (Result (Option ℕ) (Text × Text) × Crawler L)
  accept_page c url depth resp =
      let html = L.from_utf8_lossy resp.body in
      elim (detect_auth_wall L (L.as_str url) resp.final_url html) [
        | none ↦ none
        | some (some hit) ↦ some (err (some 401), record c { auth_hit = some hit })
        | some none ↦ some (
          ok (html, resp.final_url),
          if ltb depth c.max_depth then expand c depth (extract_links L html url) else c,
        )
      ]

  -- What `fetch_and_expand` makes of the outcome of `fetch_ok`.
  unfoldable pub answer :
      Crawler L
      → L.Url
      → ℕ
      → Result (Option ℕ) HttpResponse
      → Option (Result (Option ℕ) (Text × Text) × Crawler L)
  answer c url depth (err none) = some (err none, c)
  answer c url depth (err (some status)) = some (
    err (some status),
    record c { auth_hit = from_status L (L.as_str url) status (L.as_str url) },
  )
  answer c url depth (ok r) = accept_page c url depth r

  module _ {W : Type 0} (get : HttpGet W) where
    unfoldable pub fetch_robots : W → L.Url → Option L.Robot × W
    fetch_robots w seed = elim (L.get_robots_url (L.as_str seed)) [
      | none ↦ (none, w)
      | some robots_url ↦
          let (resp, w') = get w robots_url [] in
          (
            elim resp [
              | err e ↦ none
              | ok r ↦ if r.status == 200 then L.new_robot user_agent r.body else none
            ],
            w',
          )
    ]

    -- `err none`: no response; `err (some status)`: a status other than 200.
    unfoldable pub fetch_ok : W → Text → Result (Option ℕ) HttpResponse × W
    fetch_ok w url =
        let (resp, w') = get w url ((text "User-Agent", user_agent) ∷ []) in
        (
          elim resp [
            | err e ↦ err none
            | ok r ↦ if r.status == 200 then ok r else err (some r.status)
          ],
          w',
        )

    unfoldable pub new_crawler : W → L.Url → ℕ → ℕ → NetworkPolicy → Result Text (Crawler L) × W
    new_crawler w seed max_depth max_pages policy = elim (blocked_host_reason L seed policy) [
      | some reason ↦
          (err (text "refusing to crawl " ++ (L.as_str seed ++ (text ": " ++ reason))), w)
      | none ↦
          let (robot, w') = fetch_robots w seed in
          (
            ok (record {
              robot = robot;
              seed = seed;
              max_depth = max_depth;
              max_pages = max_pages;
              policy = policy;
              visited = L.as_str seed ∷ [];
              queue = (seed, 0) ∷ [];
              auth_hit = none;
            }),
            w',
          )
    ]

    unfoldable pub fetch_and_expand :
        W → Crawler L → L.Url → ℕ → Option (Result (Option ℕ) (Text × Text) × Crawler L) × W
    fetch_and_expand w c url depth =
        let (resp, w') = fetch_ok w (L.as_str url) in
        (answer (record c { auth_hit = none }) url depth resp, w')
