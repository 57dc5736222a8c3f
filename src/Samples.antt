-- ===== src/Samples.antt =====
-- Concrete parameters for the tests: a small URL library, a robots file and an HTML of words.
use stapler_mcp.Common.{
  ℕ, suc, not, Option, none, some, [], ◌∷◌, ◌++◌, if◌then◌else◌, ◌==◌, Text, text, contains,
  strip_prefix, split_on, ok,
}
use stapler_mcp.Web.{Host, domain, Ipv4Addr, WebLib}
use stapler_mcp.Crawler.{HttpGet}

abbrev host_part : Text → Text
host_part [] = []
host_part (c ∷ s) = let rest = host_part s in if c == b'/' then [] else c ∷ rest

-- A URL is its host and its text.
abbrev pub Address : Type 0
Address = Option Host × Text

abbrev pub parse_address : Text → Option Address
parse_address s = elim (strip_prefix (text "https://") s) [
  | none ↦ none
  | some rest ↦ some (some (domain (host_part rest)), s)
]

abbrev domain_of : Option Host → Option Text
domain_of (some (domain d)) = some d
domain_of _ = none

-- The words of a page are its links; the robots file is a text that no URL may contain.
abbrev pub sample_lib : WebLib
sample_lib = record {
  Url = Address;
  parse = parse_address;
  parse_error = λ s. text "relative URL without a base";
  as_str = λ u. u.1;
  host = λ u. u.0;
  host_str = λ u. domain_of u.0;
  scheme = λ u. text "https";
  path = λ u. text "/";
  join = λ base s. parse_address s;
  show_ipv6 = λ ip. text "::";
  hrefs = λ html. split_on b' ' html;
  Robot = Text;
  get_robots_url = λ s. some (s ++ text "robots.txt");
  new_robot = λ agent body. some body;
  robot_allowed = λ robot s. not (contains robot s);
  from_utf8_lossy = λ bytes. bytes;
}

abbrev pub private_address : Ipv4Addr
private_address = record { octet0 = 172; octet1 = 20; octet2 = 0; octet3 = 1 }

abbrev pub sample_seed : Address
sample_seed = (some (domain (text "a.test")), text "https://a.test/")

abbrev pub served : Text → Text
served url =
    if contains (text "robots.txt") url
    then text "secret"
    else text "https://a.test/x https://a.test/secret"

-- A server that answers each request with status 200; the state counts the requests.
abbrev pub sample_get : HttpGet ℕ
sample_get n url headers = (ok (record { status = 200; body = served url; final_url = url }), suc n)
