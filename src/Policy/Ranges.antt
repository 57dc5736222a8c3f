-- ===== src/Policy/Ranges.antt =====
-- The private address ranges as intervals, and that the tests of crates/core/src/tools/webcrawl.rs,
-- which use bit masks, decide them.
use Prim.Native.Nat.{bit_and}
use stapler_mcp.Common.{
  ℕ, zero, suc, ◌≤◌, ◌<◌, ◌≡◌, refl, sym, ◌↔◌, ◌⊎◌, inl, inr, Bool, true, false, ◌&&◌, ◌||◌, Option,
  none, some, arith, leb, ltb, ◌==◌, Option-cases, Bool-cases,
}
use stapler_mcp.Web.{Ipv4Addr, Ipv6Addr}
use stapler_mcp.Policy.{is_private_or_link_local_ipv4, to_ipv4, is_private_or_link_local_ipv6}

-- 10.0.0.0/8, 172.16.0.0/12, 192.168.0.0/16 and 169.254.0.0/16.
abbrev pub IsPrivateV4 : Ipv4Addr → Type 0
IsPrivateV4 ip =
    (ip.octet0 ≡ 10)
    ⊎ ((ip.octet0 ≡ 172) × (16 ≤ ip.octet1) × (ip.octet1 ≤ 31))
    ⊎ ((ip.octet0 ≡ 192) × (ip.octet1 ≡ 168))
    ⊎ ((ip.octet0 ≡ 169) × (ip.octet1 ≡ 254))

pub is_private_or_link_local_ipv4_iff :
    (ip : Ipv4Addr) → (is_private_or_link_local_ipv4 ip ≡ true) ↔ IsPrivateV4 ip
unfolding is_private_or_link_local_ipv4
is_private_or_link_local_ipv4_iff ip = ground arith

-- fc00::/7, fe80::/10, and the private IPv4 addresses in their two embeddings.
abbrev pub IsPrivateV6 : Ipv6Addr → Type 0
IsPrivateV6 ip =
    ((0xfc00 ≤ ip.segment0) × (ip.segment0 < 0xfe00))
    ⊎ ((0xfe80 ≤ ip.segment0) × (ip.segment0 < 0xfec0))
    ⊎ ((v4 : Ipv4Addr) × (to_ipv4 ip ≡ some v4) × IsPrivateV4 v4)

-- Two tests agree.
abbrev same : Bool → Bool → Bool
same true b = b
same false true = false
same false false = true

masks : ℕ → Bool
masks x =
    same (bit_and x 0xfe00 == 0xfc00) (leb 0xfc00 x && ltb x 0xfe00)
    && same (bit_and x 0xffc0 == 0xfe80) (leb 0xfe80 x && ltb x 0xfec0)

-- The masks are compared with the intervals at every 16-bit number, from the largest down.
masks_hold : ℕ → Bool
masks_hold zero = true
masks_hold (suc x) = elim (masks x) [ true ↦ masks_hold x | false ↦ false ]

masks_hold_everywhere : masks_hold 65536 ≡ true
unfolding masks_hold masks
masks_hold_everywhere = refl

masks-masks_hold : (bound x : ℕ) → x < bound → masks_hold bound ≡ true → masks x ≡ true
unfolding masks_hold
masks-masks_hold zero x below checked = absurd (omega arith)
masks-masks_hold (suc bound) x below checked = elim (Bool-cases (masks bound)) [
  | inl good ↦ ground (arith, good, masks-masks_hold bound x)
  | inr bad ↦ absurd (cc (rw (bad, masks_hold) at checked))
]

same-eq : (a b : Bool) → same a b ≡ true → a ≡ b
same-eq true b h = sym h
same-eq false true h = cc
same-eq false false h = refl

masks-eq :
    (x : ℕ)
    → x < 65536
    → ((bit_and x 0xfe00 == 0xfc00) ≡ (leb 0xfc00 x && ltb x 0xfe00))
      × ((bit_and x 0xffc0 == 0xfe80) ≡ (leb 0xfe80 x && ltb x 0xfec0))
unfolding masks
masks-eq x h =
    let t = masks-masks_hold 65536 x h masks_hold_everywhere in
    (same-eq _ _ (and_left _ _ t), same-eq _ _ (and_right _ _ t))
  where
    and_left : (a b : Bool) → (a && b) ≡ true → a ≡ true
    and_left a b e = ground arith

    and_right : (a b : Bool) → (a && b) ≡ true → b ≡ true
    and_right a b e = ground arith

abbrev InRanges : ℕ → Type 0
InRanges x = ((0xfc00 ≤ x) × (x < 0xfe00)) ⊎ ((0xfe80 ≤ x) × (x < 0xfec0))

abbrev in_ranges : ℕ → Bool
in_ranges x = bit_and x 0xfe00 == 0xfc00 || bit_and x 0xffc0 == 0xfe80

in_ranges_iff : (x : ℕ) → x < 65536 → (in_ranges x ≡ true) ↔ InRanges x
in_ranges_iff x h = let (local, link) = masks-eq x h in rw (local, link) (ground arith)

-- For an address whose first segment is a 16-bit number, the test by bit masks says yes exactly
-- for fc00::/7, fe80::/10 and the private IPv4 ranges in their two embeddings.
pub is_private_or_link_local_ipv6_iff :
    (ip : Ipv6Addr)
    → ip.segment0 < 65536
    → (is_private_or_link_local_ipv6 ip ≡ true) ↔ IsPrivateV6 ip
unfolding is_private_or_link_local_ipv6
is_private_or_link_local_ipv6_iff ip h = elim (Bool-cases (in_ranges ip.segment0)) [
  | inl inside ↦ rw inside (λ _. widen ((in_ranges_iff ip.segment0 h).0 inside), λ _. refl)
  | inr outside ↦ rw outside (elim (Option-cases (to_ipv4 ip)) [
    | inl missing ↦ rw missing (λ e. cc, λ p. narrow none p outside)
    | inr (v4, found) ↦ rw found (
      λ e. inr (inr (v4, refl, (is_private_or_link_local_ipv4_iff v4).0 e)),
      λ p. narrow (some v4) p outside,
    )
  ])
]
  where
    widen : InRanges ip.segment0 → IsPrivateV6 ip
    widen (inl p) = inl p
    widen (inr p) = inr (inl p)

    embedded : Option Ipv4Addr → Bool
    embedded none = false
    embedded (some v4) = is_private_or_link_local_ipv4 v4

    narrow :
        (o : Option Ipv4Addr)
        → ((0xfc00 ≤ ip.segment0) × (ip.segment0 < 0xfe00))
          ⊎ ((0xfe80 ≤ ip.segment0) × (ip.segment0 < 0xfec0))
          ⊎ ((v4 : Ipv4Addr) × (o ≡ some v4) × IsPrivateV4 v4)
        → in_ranges ip.segment0 ≡ false
        → embedded o ≡ true
    narrow o (inl p) out = cc ((in_ranges_iff ip.segment0 h).1 (inl p))
    narrow o (inr (inl p)) out = cc ((in_ranges_iff ip.segment0 h).1 (inr p))
    narrow o (inr (inr (v4, e, p))) out = rw e ((is_private_or_link_local_ipv4_iff v4).1 p)
