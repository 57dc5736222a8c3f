-- ===== src/Web.antt =====
-- The third-party code that crates/core/src/auth.rs and crates/core/src/tools/webcrawl.rs call, as a
-- record of parameters: the `url` crate, the HTML link selector, `texting_robots`, and the lossy
-- UTF-8 decoder. `Host` and the address types are those that `Url::host` returns.
use stapler_mcp.Common.{ℕ, Bool, List, Option, Text}

pub record Ipv4Addr : Type 0 where
  pub octet0 : ℕ
  pub octet1 : ℕ
  pub octet2 : ℕ
  pub octet3 : ℕ

pub record Ipv6Addr : Type 0 where
  pub segment0 : ℕ
  pub segment1 : ℕ
  pub segment2 : ℕ
  pub segment3 : ℕ
  pub segment4 : ℕ
  pub segment5 : ℕ
  pub segment6 : ℕ
  pub segment7 : ℕ

pub data Host : Type 0 where
  domain : Text → Host
  ipv4 : Ipv4Addr → Host
  ipv6 : Ipv6Addr → Host

pub record WebLib : Type 1 where
  -- `url::Url`: `Url::parse(s).ok()`, `as_str`, `host`, `host_str`, `scheme`, `path`, `join(s).ok()`.
  pub Url : Type 0
  pub parse : Text → Option Url
  -- The message of the error where `parse` gives none.
  pub parse_error : Text → Text
  pub as_str : Url → Text
  pub host : Url → Option Host
  pub host_str : Url → Option Text
  pub scheme : Url → Text
  pub path : Url → Text
  pub join : Url → Text → Option Url
  -- `Display for Ipv6Addr`.
  pub show_ipv6 : Ipv6Addr → Text
  -- The `href` attributes that `dom_query` selects by `a[href]`, in document order.
  pub hrefs : Text → List Text
  -- `texting_robots`: `get_robots_url(s).ok()`, `Robot::new(agent, body).ok()`, `Robot::allowed`.
  pub Robot : Type 0
  pub get_robots_url : Text → Option Text
  pub new_robot : Text → List ℕ → Option Robot
  pub robot_allowed : Robot → Text → Bool
  -- `String::from_utf8_lossy`.
  pub from_utf8_lossy : List ℕ → Text
