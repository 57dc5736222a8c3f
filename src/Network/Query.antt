-- ===== src/Network/Query.antt =====
-- The two cuts that a body passes through, in `finish` and again in `query` of
-- crates/native/src/network.rs, act as one.
use stapler_mcp.Common.{
  ℕ, ◌-◌, ◌≤◌, ◌≡◌, refl, Bool, false, not, ◌||◌, Option, none, some, inl, inr, [], ◌∷◌, arith, leb,
  leb→le, Bool-cases, Text, utf8_len, byte_len,
}
use stapler_mcp.Network.{max_body_bytes, Partial, is_binary, kept_body, cap_body, query_cap, finish}
use stapler_mcp.Network.Truncate.{fits, fits_whole, truncate_utf8-fits}

fits-fits : (s : Text) (n m : ℕ) → n ≤ m → fits n (fits m s) ≡ fits n s
fits-fits [] n m h = refl
fits-fits (c ∷ s) n m h = ground (arith, fits-fits s (n - utf8_len c) (m - utf8_len c))

query_cap_le : (m : Option ℕ) → query_cap m ≤ max_body_bytes
query_cap_le none = omega arith
query_cap_le (some m) = omega arith

cut_flag :
    (b : Text) (cap limit : ℕ)
    → cap ≤ limit
    → (not (leb (byte_len b) limit) || not (leb (byte_len (fits limit b)) cap))
      ≡ not (leb (byte_len b) cap)
cut_flag b cap limit h = elim (Bool-cases (leb (byte_len b) limit)) [
  | inl short ↦ rw (fits_whole b limit (leb→le _ _ short), short)
  | inr long ↦ ground arith
]

module _ {Instant : Type 0} (le : Instant → Instant → Bool)
    (millis_between : Instant → Instant → ℕ) where
  -- A body of a type that is not binary, completed and then queried with any cap, is the original
  -- body cut once at the effective cap, and the flag says whether the original body was longer.
  pub cap_body-finish :
      (p : Partial Instant) (now : Instant) (status : Option ℕ) (b : Text) (cap : Option ℕ)
      → is_binary p.content_type ≡ false
      → let e = cap_body (query_cap cap) (finish le millis_between p now status (some b)) in
        (e.body ≡ some (fits (query_cap cap) b))
        × (e.body_truncated ≡ not (leb (byte_len b) (query_cap cap)))
  unfolding cap_body finish kept_body
  cap_body-finish p now status b cap plain =
      rw (plain, kept_body)
        (rw (truncate_utf8-fits b max_body_bytes) (
          rw (truncate_utf8-fits (fits max_body_bytes b) (query_cap cap)) (
            rw (fits-fits b (query_cap cap) max_body_bytes (query_cap_le cap))
              (refl, cut_flag b (query_cap cap) max_body_bytes (query_cap_le cap)))))
