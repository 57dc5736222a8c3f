-- ===== src/ReadWebsite/Tests.antt =====
-- Runs of `read_website` of crates/core/src/tools/webcrawl.rs and of its helpers on small inputs.
use stapler_mcp.Common.{
  Bool-cases, inl, inr, contains, subst, ap, Option, Result, ◌↔◌, ℕ, suc, ◌≤◌, ◌<◌, ◌≡◌, refl, true,
  false, none, some, List, [], ◌∷◌, arith, Text, text, length, All, split_on, ok, err, byte_len,
  as_bytes, strip_prefix,
}
use stapler_mcp.Ports.{timeout, HttpResponse}
use stapler_mcp.Policy.{enforce}
use stapler_mcp.Samples.{sample_lib, sample_get, served}
use stapler_mcp.Crawler.{fetch_ok, resolve_limits, max_pages_ceiling}
use stapler_mcp.Crawler.Work.{weight, HasFewLinks}
use stapler_mcp.SavedPage.{strip_suffix, is_valid_saved_page_path}
use stapler_mcp.ReadWebsite.{
  ReadWebsiteInput, WebPorts, PageLib, resolve_inline_budget, hex, saved_path_for, read_website,
}
use stapler_mcp.ReadWebsite.Bound.{EndsWithin, read_website_ends}
use stapler_mcp.ReadWebsite.Paths.{
  saved_path_for_valid, IsSavedPagePath, is_valid_saved_page_path_iff,
}

abbrev digest : List ℕ
digest =
    0 ∷ 17 ∷ 34 ∷ 51 ∷ 68 ∷ 85 ∷ 102 ∷ 119 ∷ 136 ∷ 153 ∷ 170 ∷ 187 ∷ 204 ∷ 221 ∷ 238 ∷ 255 ∷ 0 ∷ 17
    ∷ 34 ∷ 51 ∷ 68 ∷ 85 ∷ 102 ∷ 119 ∷ 136 ∷ 153 ∷ 170 ∷ 187 ∷ 204 ∷ 221 ∷ 238 ∷ 255 ∷ []

-- A page is its own article; nothing decodes from the cache.
abbrev sample_pages : PageLib
sample_pages = record {
  Readability = Text;
  new_readability = λ html url. ok html;
  parse_article = λ r. ok (text "title", r);
  html_to_markdown = λ html. ok html;
  sha256 = λ bytes. digest;
  encode_page = λ page. none;
  decode_page = λ bytes. none;
}

-- No file is there, every write succeeds, and the browser times out.
abbrev sample_ports : WebPorts ℕ
sample_ports = record {
  get = sample_get;
  read_file = λ n path. (ok none, n);
  write_file = λ n path bytes. (ok tt, suc n);
  navigate_and_extract = λ n url limit. (err timeout, n);
}

served_few : (url : Text) → length (split_on b' ' (served url)) ≤ 2
unfolding split_on
served_few url = elim (Bool-cases (contains (text "robots.txt") url)) [
  | inl robots ↦ rw robots (omega arith)
  | inr page ↦ rw page (omega arith)
]

few : HasFewLinks sample_lib 2 sample_ports.get
unfolding fetch_ok
few w url r e =
    let same : served url ≡ r.body = ap (λ (o : Result (Option ℕ) HttpResponse). body_of o) e in
    subst (λ t. length (split_on b' ' t) ≤ 2) same (served_few url)
  where
    body_of : Result (Option ℕ) HttpResponse → Text
    body_of (ok p) = p.body
    body_of (err m) = []

weight_example : weight 2 5 ≡ 63
unfolding weight
weight_example = refl

abbrev ask : ReadWebsiteInput
ask = record {
  url = text "https://a.test/";
  max_depth = some 3;
  max_pages = some 0;
  max_inline_chars = none;
  always_save_to_file = none;
}

read_website_ends_example :
    EndsWithin
      (resolve_limits (some 3) (some 0)).1
      (read_website sample_lib sample_pages sample_ports (text "/cache") 64 0 ask enforce)
    × (0 < (resolve_limits (some 3) (some 0)).1)
    × ((resolve_limits (some 3) (some 0)).1 ≤ max_pages_ceiling)
read_website_ends_example =
    read_website_ends sample_lib sample_pages sample_ports (text "/cache") 2 few 64 0 ask enforce
      (omega (arith, weight_example))

digest_bytes : All (λ b. b < 256) digest
digest_bytes = ground arith

saved_path_for_valid_example :
    is_valid_saved_page_path
      (text "/cache")
      (saved_path_for sample_pages (text "/cache") (text "https://a.test/"))
    ≡ true
saved_path_for_valid_example =
    saved_path_for_valid sample_pages (text "/cache") (text "https://a.test/") (λ bs. refl)
      (λ bs. digest_bytes)

abbrev accepted : Text
accepted =
    text
      "/cache/read-website/output/00112233445566778899aabbccddeeff00112233445566778899aabbccddeeff.md"

accepted_valid : is_valid_saved_page_path (text "/cache") accepted ≡ true
unfolding is_valid_saved_page_path strip_suffix strip_prefix byte_len as_bytes
accepted_valid = refl

is_valid_saved_page_path_iff_example :
    (is_valid_saved_page_path (text "/cache") accepted ≡ true)
    ↔ IsSavedPagePath (text "/cache") accepted
is_valid_saved_page_path_iff_example = is_valid_saved_page_path_iff (text "/cache") accepted

resolve_inline_budget_tests :
    (resolve_inline_budget none none ≡ 60000)
    × (resolve_inline_budget (some 999999) none ≡ 200000)
    × (resolve_inline_budget (some 5) (some true) ≡ 0)
unfolding resolve_inline_budget
resolve_inline_budget_tests = (refl, refl, refl)

path_tests :
    (is_valid_saved_page_path (text "/cache") (text "/cache/read-website/output/../x.md") ≡ false)
    × (hex (255 ∷ 7 ∷ []) ≡ text "ff07")
unfolding is_valid_saved_page_path strip_suffix hex strip_prefix byte_len
path_tests = (refl, refl)
