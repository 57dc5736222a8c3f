-- ===== src/Policy.antt =====
-- The SSRF guard of crates/core/src/tools/webcrawl.rs: `NetworkPolicy`, the address ranges, and
-- `blocked_host_reason`. The line that the guard prints to stderr is not modelled.
pub mod Ranges
pub mod Guard
mod Tests
use Prim.Native.Nat.{bit_and}
use stapler_mcp.Common.{
  ℕ, ◌/◌, ◌%◌, Bool, true, false, not, ◌&&◌, ◌||◌, Option, none, some, List, [], ◌∷◌, ◌++◌,
  if◌then◌else◌, leb, ◌==◌, Text, text, text_eq, is_empty, trim, to_ascii_lowercase, starts_with,
  select, show_nat, member, split_on, ends_with, map,
}
use stapler_mcp.Web.{Ipv4Addr, Ipv6Addr, Host, domain, ipv4, ipv6, WebLib}

pub data NetworkPolicy : Type 0 where
  enforce : NetworkPolicy
  allow_private_networks : NetworkPolicy
  enforce_with_allowlist : List Text → NetworkPolicy

-- `allowed_hosts.split(',')`, trimmed, in lower case, without the empty ones.
unfoldable pub parse_hosts : Text → List Text
unfolding split_on trim
parse_hosts s =
    select (λ h. not (is_empty h)) (map (λ h. to_ascii_lowercase (trim h)) (split_on b',' s))

abbrev or_default : Option Text → Text
or_default none = []
or_default (some s) = s

abbrev is_one : Option Text → Bool
is_one none = false
is_one (some s) = text_eq s (text "1")

abbrev policy_of : List Text → NetworkPolicy
policy_of [] = enforce
policy_of (h ∷ hs) = enforce_with_allowlist (h ∷ hs)

unfoldable pub from_env : Option Text → Option Text → NetworkPolicy
unfolding parse_hosts
from_env allow_private allowed_hosts =
    if is_one allow_private
    then allow_private_networks
    else policy_of (parse_hosts (or_default allowed_hosts))

-- The standard library's `Ipv4Addr::is_loopback`, `is_private` and `is_link_local`.
unfoldable pub is_loopback_ipv4 : Ipv4Addr → Bool
is_loopback_ipv4 ip = ip.octet0 == 127 || ip.octet0 == 0

unfoldable pub is_private_or_link_local_ipv4 : Ipv4Addr → Bool
is_private_or_link_local_ipv4 ip =
    (ip.octet0 == 10
      || (ip.octet0 == 172 && (leb 16 ip.octet1 && leb ip.octet1 31))
      || (ip.octet0 == 192 && ip.octet1 == 168))
    || (ip.octet0 == 169 && ip.octet1 == 254)

-- `Ipv6Addr::to_ipv4`: the forms `::a.b.c.d` and `::ffff:a.b.c.d`.
unfoldable pub to_ipv4 : Ipv6Addr → Option Ipv4Addr
to_ipv4 ip =
    if ip.segment0 == 0
      && ip.segment1 == 0
      && ip.segment2 == 0
      && ip.segment3 == 0
      && ip.segment4 == 0
      && (ip.segment5 == 0 || ip.segment5 == 0xffff)
    then some (record {
      octet0 = ip.segment6 / 256;
      octet1 = ip.segment6 % 256;
      octet2 = ip.segment7 / 256;
      octet3 = ip.segment7 % 256;
    })
    else none

-- `Ipv6Addr::is_loopback() || is_unspecified()`: the addresses `::1` and `::`.
abbrev pub is_one_or_unspecified : Ipv6Addr → Bool
is_one_or_unspecified ip =
    ip.segment0 == 0
    && ip.segment1 == 0
    && ip.segment2 == 0
    && ip.segment3 == 0
    && ip.segment4 == 0
    && ip.segment5 == 0
    && ip.segment6 == 0
    && (ip.segment7 == 1 || ip.segment7 == 0)

unfoldable pub is_loopback_ipv6 : Ipv6Addr → Bool
is_loopback_ipv6 ip =
    if is_one_or_unspecified ip
    then true
    else elim (to_ipv4 ip) [ none ↦ false | some v4 ↦ is_loopback_ipv4 v4 ]

unfoldable pub is_private_or_link_local_ipv6 : Ipv6Addr → Bool
is_private_or_link_local_ipv6 ip =
    if bit_and ip.segment0 0xfe00 == 0xfc00 || bit_and ip.segment0 0xffc0 == 0xfe80
    then true
    else elim (to_ipv4 ip) [ none ↦ false | some v4 ↦ is_private_or_link_local_ipv4 v4 ]

-- `Display for Ipv4Addr`.
unfoldable pub show_ipv4 : Ipv4Addr → Text
show_ipv4 ip =
    show_nat ip.octet0
    ++ (b'.' ∷ (show_nat ip.octet1 ++ (b'.' ∷ (show_nat ip.octet2 ++ (b'.' ∷ show_nat ip.octet3)))))

abbrev pub private_suffix : Text
private_suffix = text " is a private/link-local address"

module _ (L : WebLib) where
  -- The `match url.host()?` of the guard: the reason before the allowlist is asked. Its arm for
  -- `localhost` and its last arm, which every other domain takes, both give `None`.
  unfoldable pub host_reason : Host → Option Text
  host_reason (ipv4 ip) =
      if is_loopback_ipv4 ip
      then none
      else if is_private_or_link_local_ipv4 ip
      then some (show_ipv4 ip ++ private_suffix)
      else none
  host_reason (ipv6 ip) =
      if is_loopback_ipv6 ip
      then none
      else if is_private_or_link_local_ipv6 ip
      then some (L.show_ipv6 ip ++ private_suffix)
      else none
  host_reason (domain d) = none

  -- The key that is looked up in the allowlist.
  abbrev pub host_key : Host → Text
  host_key (ipv4 ip) = show_ipv4 ip
  host_key (ipv6 ip) = L.show_ipv6 ip
  host_key (domain d) = to_ascii_lowercase d

  unfoldable pub checked_reason : NetworkPolicy → Host → Option Text
  checked_reason allow_private_networks h = none
  checked_reason enforce h = host_reason h
  checked_reason (enforce_with_allowlist allowed) h = elim (host_reason h) [
    | none ↦ none
    | some reason ↦ if member (host_key h) allowed then none else some reason
  ]

  unfoldable pub blocked_host_reason : L.Url → NetworkPolicy → Option Text
  blocked_host_reason url policy = elim (L.host url) [
    | none ↦ none
    | some h ↦ checked_reason policy h
  ]
