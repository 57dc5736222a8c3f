-- ===== src/Crawler/Hops.antt =====
-- How far a URL is from the seed of a crawl over `Crawler` of crates/core/src/tools/webcrawl.rs: how
-- many links of served pages lead to it.
use stapler_mcp.Common.{ℕ, ◌+◌, Text, All, IsIn, All-of_members}
use stapler_mcp.Web.{WebLib}
use stapler_mcp.Crawler.{extract_links}

module _ (L : WebLib) (Serves : L.Url → Text → Type 0) where
  -- So many links lead from the seed to the URL, each on a page that was served for the URL before it.
  pub data Hops (seed : L.Url) : L.Url → ℕ → Type 0 where
    home : Hops seed seed 0
    hop :
        {url link : L.Url} {depth : ℕ} (html : Text)
        → Hops seed url depth
        → Serves url html
        → IsIn link (extract_links L html url)
        → Hops seed link (depth + 1)

  pub links-Hops :
      (seed url : L.Url) (depth : ℕ) (html : Text)
      → Hops seed url depth
      → Serves url html
      → All (λ link. Hops seed link (depth + 1)) (extract_links L html url)
  links-Hops seed url depth html h served =
      All-of_members (λ link. Hops seed link (depth + 1)) (extract_links L html url)
        (λ link i. hop html h served i)
