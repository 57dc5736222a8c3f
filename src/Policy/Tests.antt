-- ===== src/Policy/Tests.antt =====
-- Runs of the SSRF guard of crates/core/src/tools/webcrawl.rs on small inputs.
use stapler_mcp.Common.{
  ◌≡◌, ◌≢◌, ◌↔◌, refl, true, none, some, [], ◌∷◌, arith, text, text_eq, trim, split_on, member,
  show_nat,
}
use stapler_mcp.Web.{ipv4, Ipv6Addr}
use stapler_mcp.Samples.{Address, sample_lib, private_address}
use stapler_mcp.Policy.{
  enforce, allow_private_networks, enforce_with_allowlist, from_env, parse_hosts, to_ipv4,
  is_private_or_link_local_ipv4, is_private_or_link_local_ipv6, is_loopback_ipv4,
  blocked_host_reason, host_reason, checked_reason, show_ipv4,
}
use stapler_mcp.Policy.Guard.{
  IsPrivate, Exempts, IsEnvPolicy, blocked_host_reason_iff, from_env-IsEnvPolicy,
}
use stapler_mcp.Policy.Ranges.{IsPrivateV6, is_private_or_link_local_ipv6_iff}

-- `::ffff:10.0.0.1`.
abbrev mapped_address : Ipv6Addr
mapped_address = record {
  segment0 = 0;
  segment1 = 0;
  segment2 = 0;
  segment3 = 0;
  segment4 = 0;
  segment5 = 0xffff;
  segment6 = 0x0a00;
  segment7 = 1;
}

abbrev private_url : Address
private_url = (some (ipv4 private_address), text "http://172.20.0.1/")

from_env_tests :
    (from_env (some (text "1")) none ≡ allow_private_networks)
    × (from_env (some (text "true")) none ≡ enforce)
    × (from_env none (some (text " NAS.local , ,10.0.0.1"))
        ≡ enforce_with_allowlist (text "nas.local" ∷ text "10.0.0.1" ∷ []))
unfolding from_env parse_hosts trim split_on text_eq
from_env_tests = (refl, refl, refl)

blocked_host_reason_tests :
    (blocked_host_reason sample_lib private_url enforce
      ≡ some (text "172.20.0.1 is a private/link-local address"))
    × (blocked_host_reason sample_lib private_url (enforce_with_allowlist (text "172.20.0.1" ∷ []))
        ≡ none)
    × (is_private_or_link_local_ipv6 mapped_address ≡ true)
unfolding blocked_host_reason checked_reason host_reason is_loopback_ipv4
    is_private_or_link_local_ipv4 is_private_or_link_local_ipv6 to_ipv4 show_ipv4 show_nat member
    text_eq
blocked_host_reason_tests = (refl, refl, refl)

blocked_host_reason_iff_example :
    (blocked_host_reason sample_lib private_url enforce ≢ none)
    ↔ (IsPrivate (ipv4 private_address) × ¬ Exempts sample_lib enforce (ipv4 private_address))
blocked_host_reason_iff_example =
    blocked_host_reason_iff sample_lib private_url enforce (ipv4 private_address) refl tt

from_env-IsEnvPolicy_example :
    IsEnvPolicy (some (text "true")) (from_env (some (text "true")) (some (text "NAS.local")))
from_env-IsEnvPolicy_example = from_env-IsEnvPolicy (some (text "true")) (some (text "NAS.local"))

is_private_or_link_local_ipv6_iff_example :
    (is_private_or_link_local_ipv6 mapped_address ≡ true) ↔ IsPrivateV6 mapped_address
is_private_or_link_local_ipv6_iff_example =
    is_private_or_link_local_ipv6_iff mapped_address (omega arith)
