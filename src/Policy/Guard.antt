-- ===== src/Policy/Guard.antt =====
-- What the SSRF guard of crates/core/src/tools/webcrawl.rs refuses, under each policy, and which
-- policies the environment can give.
use stapler_mcp.Common.{
  ℕ, ◌<◌, ◌≡◌, refl, ◌≢◌, ◌↔◌, inl, inr, true, false, not, Option, none, some, List, [], ◌∷◌, map,
  arith, Bool-cases, if◌then◌else◌, Text, text, text_eq, text_eq_iff, is_empty, member, All, select,
  ascii_lower, to_ascii_lowercase, trim, split_on, ap,
}
use stapler_mcp.Web.{Ipv4Addr, Ipv6Addr, Host, domain, ipv4, ipv6, WebLib}
use stapler_mcp.Policy.{
  NetworkPolicy, enforce, allow_private_networks, enforce_with_allowlist, parse_hosts, from_env,
  policy_of, or_default, is_loopback_ipv4, to_ipv4, is_loopback_ipv6, host_reason, host_key,
  checked_reason, blocked_host_reason,
}
use stapler_mcp.Policy.Ranges.{
  IsPrivateV4, IsPrivateV6, is_private_or_link_local_ipv4_iff, is_private_or_link_local_ipv6_iff,
}

abbrev pub IsPrivate : Host → Type 0
IsPrivate (domain d) = ⊥
IsPrivate (ipv4 ip) = IsPrivateV4 ip
IsPrivate (ipv6 ip) = IsPrivateV6 ip

-- The first segment of an IPv6 address is a 16-bit number.
abbrev pub IsWellFormed : Host → Type 0
IsWellFormed (ipv6 ip) = ip.segment0 < 65536
IsWellFormed _ = Unit

private_v4-not_loopback : (ip : Ipv4Addr) → IsPrivateV4 ip → is_loopback_ipv4 ip ≡ false
unfolding is_loopback_ipv4
private_v4-not_loopback ip p = ground arith

private_v6-not_loopback : (ip : Ipv6Addr) → IsPrivateV6 ip → is_loopback_ipv6 ip ≡ false
unfolding is_loopback_ipv6 to_ipv4 is_loopback_ipv4
private_v6-not_loopback ip p = ground arith

module _ (L : WebLib) where
  host_reason_iff : (h : Host) → IsWellFormed h → (host_reason L h ≢ none) ↔ IsPrivate h
  unfolding host_reason
  host_reason_iff (domain d) w = (λ n. n refl, λ p. absurd p)
  host_reason_iff (ipv4 ip) w =
      ground (arith, is_private_or_link_local_ipv4_iff ip, private_v4-not_loopback ip)
  host_reason_iff (ipv6 ip) w =
      ground (arith, is_private_or_link_local_ipv6_iff ip w, private_v6-not_loopback ip)

  -- The hosts that a policy lets through whatever their address.
  abbrev pub Exempts : NetworkPolicy → Host → Type 0
  Exempts enforce h = ⊥
  Exempts allow_private_networks h = Unit
  Exempts (enforce_with_allowlist allowed) h = member (host_key L h) allowed ≡ true

  -- For a URL with a host, whose first segment is a 16-bit number if it is an IPv6 address, the
  -- guard refuses the URL exactly when the host is an address in a private or link-local range and
  -- the policy does not exempt it.
  pub blocked_host_reason_iff :
      (url : L.Url) (policy : NetworkPolicy) (h : Host)
      → L.host url ≡ some h
      → IsWellFormed h
      → (blocked_host_reason L url policy ≢ none) ↔ (IsPrivate h × ¬ Exempts policy h)
  unfolding blocked_host_reason checked_reason
  blocked_host_reason_iff url enforce h e w = ground (arith, host_reason_iff h w)
  blocked_host_reason_iff url allow_private_networks h e w = ground arith
  blocked_host_reason_iff url (enforce_with_allowlist allowed) h e w =
      ground (arith, host_reason_iff h w)

ascii_lower_idem : (c : ℕ) → ascii_lower (ascii_lower c) ≡ ascii_lower c
ascii_lower_idem c = ground arith

to_ascii_lowercase_idem :
    (s : Text) → to_ascii_lowercase (to_ascii_lowercase s) ≡ to_ascii_lowercase s
to_ascii_lowercase_idem [] = refl
to_ascii_lowercase_idem (c ∷ s) = cc (ascii_lower_idem c, to_ascii_lowercase_idem s)

-- An entry that the guard can match: not empty, and in lower case as the keys it is compared with.
abbrev pub IsHostEntry : Text → Type 0
IsHostEntry h = (is_empty h ≡ false) × (to_ascii_lowercase h ≡ h)

select-IsHostEntry :
    (parts : List Text)
    → All IsHostEntry
        (select (λ h. not (is_empty h)) (map (λ h. to_ascii_lowercase (trim h)) parts))
select-IsHostEntry [] = tt
select-IsHostEntry (p ∷ ps) =
    keep (to_ascii_lowercase (trim p)) _ (to_ascii_lowercase_idem (trim p)) (select-IsHostEntry ps)
  where
    keep :
        (h : Text) (hs : List Text)
        → to_ascii_lowercase h ≡ h
        → All IsHostEntry hs
        → All IsHostEntry (if not (is_empty h) then h ∷ hs else hs)
    keep [] hs low rest = rest
    keep (c ∷ h) hs low rest = ((refl, low), rest)

-- What is promised of a policy that comes from the environment.
abbrev pub IsEnvPolicy : Option Text → NetworkPolicy → Type 0
IsEnvPolicy p enforce = p ≢ some (text "1")
IsEnvPolicy p allow_private_networks = p ≡ some (text "1")
IsEnvPolicy p (enforce_with_allowlist hosts) =
    (p ≢ some (text "1")) × (hosts ≢ []) × All IsHostEntry hosts

policy_of-IsEnvPolicy :
    (p : Option Text) (hosts : List Text)
    → p ≢ some (text "1")
    → All IsHostEntry hosts
    → IsEnvPolicy p (policy_of hosts)
policy_of-IsEnvPolicy p [] other all = other
policy_of-IsEnvPolicy p (h ∷ hs) other all = (other, cc, all)

-- The environment gives the open policy only for the value "1"; otherwise it gives the closed one,
-- or an allowlist that is not empty and whose entries are not empty and in lower case.
pub from_env-IsEnvPolicy :
    (allow_private allowed_hosts : Option Text)
    → IsEnvPolicy allow_private (from_env allow_private allowed_hosts)
unfolding from_env parse_hosts
from_env-IsEnvPolicy none hosts =
    policy_of-IsEnvPolicy none _ (cc) (select-IsHostEntry (split_on b',' (or_default hosts)))
from_env-IsEnvPolicy (some s) hosts = elim (Bool-cases (text_eq s (text "1"))) [
  | inl one ↦ rw one (ap some ((text_eq_iff s (text "1")).0 one))
  | inr other ↦ rw other (
      policy_of-IsEnvPolicy (some s) _ (ground (arith, other, text_eq_iff s (text "1")))
        (select-IsHostEntry (split_on b',' (or_default hosts))))
]
