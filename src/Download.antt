-- ===== src/Download.antt =====
-- `download_website` of crates/core/src/tools/webcrawl.rs and the path that it saves a page under. The
-- HTTP client and the file store are functions on the state of the world. The loop takes fuel; a panic
-- of the check for a login wall ends it.
pub mod Targets
mod Tests
use stapler_mcp.Common.{
  ℕ, zero, suc, Bool, true, false, not, ◌&&◌, Option, none, some, List, [], ◌∷◌, ◌++◌,
  if◌then◌else◌, ◌==◌, Text, text, text_eq, is_empty, ends_with, split_on, select, as_bytes, length,
  Result, ok, err,
}
use stapler_mcp.Ports.{PortError, display}
use stapler_mcp.Web.{WebLib}
use stapler_mcp.Policy.{NetworkPolicy}
use stapler_mcp.Crawler.{get_or, resolve_limits, Crawler, next_url, new_crawler, fetch_and_expand}
use stapler_mcp.ReadWebsite.{
  WebPorts, Turn, next, failed, panicked, Outcome, returned, crashed, out_of_fuel,
}
use stapler_mcp.SavedPage.{join_with}

pub record DownloadWebsiteInput : Type 0 where
  pub url : Text
  pub save_dir : Text
  pub max_depth : Option ℕ
  pub max_pages : Option ℕ

pub record DownloadedPage : Type 0 where
  pub url : Text
  pub path : Text

pub record DownloadWebsiteOutput : Type 0 where
  pub pages : List DownloadedPage

-- `trim_start_matches('/')`.
abbrev pub without_slashes : Text → Text
without_slashes [] = []
without_slashes (c ∷ s) = let rest = without_slashes s in if c == b'/' then rest else c ∷ s

abbrev pub is_safe : Text → Bool
is_safe seg = not (is_empty seg) && not (text_eq seg (text ".")) && not (text_eq seg (text ".."))

-- The path below the host's directory, from the path of the URL without its leading slashes.
unfoldable pub relative_path : Text → Text
relative_path raw =
    let safe_rel = join_with (text "/") (select is_safe (split_on b'/' raw)) in
    if is_empty safe_rel
    then text "index.html"
    else if ends_with (text "/") raw
    then safe_rel ++ text "/index.html"
    else safe_rel

-- The variables of the loop.
pub record Downloading (L : WebLib) (W : Type 0) : Type 0 where
  pub crawler : Crawler L
  pub pages : List DownloadedPage
  pub world : W

module _ (L : WebLib) where
  unfoldable pub save_path_for : Text → L.Url → Text
  save_path_for save_dir url =
      save_dir
      ++ (text "/"
          ++ (get_or (L.host_str url) (text "unknown-host")
              ++ (text "/" ++ relative_path (without_slashes (L.path url)))))

  module _ {W : Type 0} (ports : WebPorts W) (save_dir : Text) where
    -- A fetched page is written to its file; an error of the write ends the call.
    unfoldable pub save_page : Downloading L W → L.Url → Text → Turn (Downloading L W)
    save_page st url html =
        let path = save_path_for save_dir url in
        let (written, w) = ports.write_file st.world path (as_bytes html) in
        elim written [
          | err e ↦ failed (display e)
          | ok done ↦ next (record st {
            pages = st.pages ++ record { url = L.as_str url; path = path } ∷ [];
            world = w;
          })
        ]

    unfoldable pub download_page : Downloading L W → L.Url → ℕ → Turn (Downloading L W)
    download_page st url depth =
        let (fetched, w) = fetch_and_expand L ports.get st.world st.crawler url depth in
        elim fetched [
          | none ↦ panicked
          | some (err e, c) ↦ next (record st { crawler = c; world = w })
          | some (ok (html, final_url), c) ↦
              save_page (record st { crawler = c; world = w }) url html
        ]

    unfoldable pub download_loop : ℕ → Downloading L W → Outcome (Result Text DownloadWebsiteOutput)
    download_loop zero st = out_of_fuel
    download_loop (suc fuel) st =
        let (found, c) = next_url L st.crawler (length st.pages) in
        elim found [
          | none ↦ returned (ok (record { pages = st.pages }))
          | some (url, depth) ↦ elim (download_page (record st { crawler = c }) url depth) [
            | next st' ↦ download_loop fuel st'
            | failed e ↦ returned (err e)
            | panicked ↦ crashed
          ]
        ]

  unfoldable pub start_download :
      {W : Type 0}
      → WebPorts W
      → W
      → DownloadWebsiteInput
      → NetworkPolicy
      → Result Text (Downloading L W)
  start_download ports w input policy =
      if is_empty input.url
      then err (text "url must not be empty")
      else if is_empty input.save_dir
      then err (text "saveDir must not be empty")
      else elim (L.parse input.url) [
        | none ↦ err (text "invalid url: " ++ L.parse_error input.url)
        | some seed ↦
            let (max_depth, max_pages) = resolve_limits input.max_depth input.max_pages in
            let (made, w') = new_crawler L ports.get w seed max_depth max_pages policy in
            elim made [ err e ↦ err e | ok c ↦ ok (record { crawler = c; pages = []; world = w' }) ]
      ]

  unfoldable pub download_website :
      {W : Type 0}
      → WebPorts W
      → ℕ
      → W
      → DownloadWebsiteInput
      → NetworkPolicy
      → Outcome (Result Text DownloadWebsiteOutput)
  download_website ports fuel w input policy = elim (start_download ports w input policy) [
    | err e ↦ returned (err e)
    | ok st ↦ download_loop ports input.save_dir fuel st
  ]
