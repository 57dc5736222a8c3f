-- ===== src/Crawler/Tests.antt =====
-- Runs of the crawler of crates/core/src/tools/webcrawl.rs against one small server.
use stapler_mcp.Common.{
  inl, ℕ, ◌≡◌, refl, true, Option, none, some, List, [], ◌∷◌, Text, text, text_eq, All, subst,
  contains, from_first, strip_prefix, split_on, member, Result, ok,
}
use stapler_mcp.Policy.{enforce, blocked_host_reason, checked_reason, host_reason}
use stapler_mcp.Auth.{
  detect_auth_wall, login_marker, has_password_field, title_says_login, is_sso_redirect,
  host_changed, host_of,
}
use stapler_mcp.Web.{domain}
use stapler_mcp.Samples.{Address, sample_lib, sample_get, sample_seed}
use stapler_mcp.Crawler.{
  Crawler, robot_allows, resolve_limits, next_url, new_crawler, fetch_and_expand, fetch_robots,
  pop_allowed, answer, fetch_ok, accept_page, expand, extract_links, join_all, enqueue, same_host,
}
use stapler_mcp.Crawler.Frontier.{Distinct, keys, IsInScope, log_after}
use stapler_mcp.Crawler.Runs.{Crawl, start, next, fetch, IsServed, Crawl-sound}

abbrev robots : Text
robots = text "secret"

abbrev begun : Crawler sample_lib
begun = record {
  robot = some robots;
  seed = sample_seed;
  max_depth = 1;
  max_pages = 10;
  policy = enforce;
  visited = text "https://a.test/" ∷ [];
  queue = (sample_seed, 0) ∷ [];
  auth_hit = none;
}

abbrev x_url : Address
x_url = (some (domain (text "a.test")), text "https://a.test/x")

-- After the first page, whose second link the robots file forbids.
abbrev grown : Crawler sample_lib
grown = record begun {
  visited = text "https://a.test/secret" ∷ text "https://a.test/x" ∷ text "https://a.test/" ∷ [];
  queue = (x_url, 1) ∷ ((some (domain (text "a.test")), text "https://a.test/secret"), 1) ∷ [];
}

abbrev first_page : Result (Option ℕ) (Text × Text)
first_page = ok (text "https://a.test/x https://a.test/secret", text "https://a.test/")

begun_made : (new_crawler sample_lib sample_get 0 sample_seed 1 10 enforce).0 ≡ ok begun
unfolding new_crawler blocked_host_reason checked_reason host_reason fetch_robots contains
begun_made = refl

first_popped : next_url sample_lib begun 0 ≡ (some (sample_seed, 0), record begun { queue = [] })
unfolding next_url pop_allowed contains
first_popped = refl

first_fetched :
    (fetch_and_expand sample_lib sample_get 1 (record begun { queue = [] }) sample_seed 0).0
    ≡ some (first_page, grown)
unfolding fetch_and_expand answer fetch_ok accept_page detect_auth_wall login_marker
    has_password_field contains title_says_login from_first is_sso_redirect host_changed host_of
    strip_prefix text_eq expand extract_links join_all enqueue same_host member blocked_host_reason
    checked_reason host_reason split_on
first_fetched = refl

abbrev two_pages : List (Address × ℕ)
two_pages = (sample_seed, 0) ∷ (x_url, 1) ∷ []

abbrev ended : Crawler sample_lib
ended = record grown {
  queue = ((some (domain (text "a.test")), text "https://a.test/secret"), 1) ∷ [];
}

second_popped : next_url sample_lib grown 1 ≡ (some (x_url, 1), ended)
unfolding next_url pop_allowed contains
second_popped = refl

begun-Crawl : Crawl sample_lib sample_get begun ended two_pages
begun-Crawl =
    subst
      (λ r.
        Crawl sample_lib sample_get begun r.1 (log_after sample_lib ((sample_seed, 0) ∷ []) r.0))
      second_popped
      (next 1 (
        fetch 1 sample_seed 0 first_page
          (subst (λ r. Crawl sample_lib sample_get begun r.1 (log_after sample_lib [] r.0))
            first_popped (next 0 start))
          (inl refl) first_fetched))

Crawl-sound_example :
    All (IsInScope sample_lib (IsServed sample_lib sample_get) sample_seed 1 enforce) two_pages
    × All (λ e. robot_allows sample_lib (some robots) e.0 ≡ true) two_pages
    × Distinct (keys sample_lib two_pages)
Crawl-sound_example =
    Crawl-sound sample_lib sample_get 0 sample_seed 1 10 enforce begun ended two_pages begun_made
      begun-Crawl

resolve_limits_tests :
    (resolve_limits none none ≡ (1, 10)) × (resolve_limits (some 9) (some 0) ≡ (5, 1))
unfolding resolve_limits
resolve_limits_tests = (refl, refl)
