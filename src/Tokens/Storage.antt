-- ===== src/Tokens/Storage.antt =====
-- A token that `generate_or_load` of crates/native/src/http_token.rs made is the one that it loads.
use stapler_mcp.Common.{
  ℕ, ◌/◌, ◌%◌, ◌<◌, ◌≡◌, refl, inl, inr, ◌∙◌, ap, Bool, true, false, List, [], ◌∷◌, reverse, arith,
  Text, is_empty, is_whitespace, trim, trim_start, as_bytes, All, All-reverse, length, subst,
  Option-cases, Result-cases, Result, ok, err,
}
use mathlib.Core.List.{reverse-reverse}
use stapler_mcp.ReadWebsite.{hex, hex_digit}
use stapler_mcp.Tokens.{BearerToken, TokenPorts, stored_token, generate, generate_or_load}

abbrev IsSolid : Text → Type 0
IsSolid s = All (λ c. is_whitespace c ≡ false) s

hex_digit_solid : (n : ℕ) → n < 16 → is_whitespace (hex_digit n) ≡ false
hex_digit_solid n h = ground arith

hex-IsSolid : (bs : List ℕ) → All (λ b. b < 256) bs → IsSolid (hex bs)
unfolding hex
hex-IsSolid [] h = tt
hex-IsSolid (b ∷ bs) (p, h) = (
  hex_digit_solid (b / 16) (omega arith),
  (hex_digit_solid (b % 16) (omega arith), hex-IsSolid bs h),
)

trim_start_solid : (s : Text) → IsSolid s → trim_start s ≡ s
unfolding trim_start
trim_start_solid [] h = refl
trim_start_solid (c ∷ s) (p, h) = ground (arith, p)

trim_solid : (s : Text) → IsSolid s → trim s ≡ s
unfolding trim
trim_solid s h =
    ap (λ t. reverse (trim_start (reverse t))) (trim_start_solid s h)
    ∙ ap reverse (trim_start_solid (reverse s) (All-reverse (λ c. is_whitespace c ≡ false) s h))
    ∙ reverse-reverse s

module _ {W : Type 0} (ports : TokenPorts W) where
  -- The file system gives back what was written; the system's random bytes are 32 bytes.
  abbrev pub KeepsFiles : Type 0
  KeepsFiles =
      (w : W) (path s : Text)
      → (ports.write_private w path (as_bytes s)).0 ≡ ok tt
      → (ports.read_to_string (ports.write_private w path (as_bytes s)).1 path).0 ≡ ok s

  abbrev pub DrawsBytes : Type 0
  DrawsBytes =
      (w : W) (bs : List ℕ)
      → (ports.random_bytes w).0 ≡ ok bs
      → (length bs ≡ 32) × All (λ b. b < 256) bs

  abbrev IsStored : Text → Result Text (BearerToken × Bool) × W → Type 0
  IsStored path (err e, w) = Unit
  IsStored path (ok (t, fresh), w) =
      ((ports.read_to_string w path).0 ≡ ok t.token) × IsSolid t.token × (is_empty t.token ≡ false)

  hex_full : (bs : List ℕ) → length bs ≡ 32 → is_empty (hex bs) ≡ false
  unfolding hex
  hex_full [] h = absurd (omega arith)
  hex_full (b ∷ bs) h = refl

  generate-IsStored :
      (keeps : KeepsFiles) (draws : DrawsBytes) (w : W) (path : Text)
      → IsStored path (generate ports w path)
  unfolding generate
  generate-IsStored keeps draws w path = elim (Result-cases (ports.create_parent w path).0) [
    | inr (e, failed) ↦ rw (failed, generate) tt
    | inl (u, made) ↦ elim (Result-cases (ports.random_bytes w₁).0) [
      | inr (e, failed) ↦ rw (made, generate) (rw failed tt)
      | inl (bs, drawn) ↦ elim (Result-cases (ports.write_private w₂ path (as_bytes (hex bs))).0) [
        | inr (e, failed) ↦ rw (made, generate) (rw drawn (rw failed tt))
        | inl (tt, written) ↦
            let (size, small) = draws w₁ bs drawn in
            rw (made, generate)
              (rw drawn (
                rw written
                  (keeps w₂ path (hex bs) written, hex-IsSolid bs small, hex_full bs size)))
      ]
    ]
  ]
    where
      w₁ : W
      w₁ = (ports.create_parent w path).1

      w₂ : W
      w₂ = (ports.random_bytes w₁).1

  -- Over a file system that gives back what was written, and random bytes that are 32 bytes: after a
  -- call that made a token, the next call loads the same one and makes none.
  pub generate_or_load_again :
      (keeps : KeepsFiles) (draws : DrawsBytes) (w w' : W) (path : Text) (t : BearerToken)
      → generate_or_load ports w path ≡ (ok (t, true), w')
      → (generate_or_load ports w' path).0 ≡ ok (t, false)
  unfolding generate_or_load
  generate_or_load_again keeps draws w w' path t first =
      elim (Option-cases (stored_token (ports.read_to_string w path).0)) [
        | inr (old, found) ↦ absurd (ground (arith, rw (found, generate_or_load) at first))
        | inl none_yet ↦
            let (kept, solid, full) : IsStored path (ok (t, true), w') =
              subst (IsStored path) (rw (none_yet, generate_or_load) at first)
                (generate-IsStored keeps draws (ports.read_to_string w path).1 path) in
            rw (kept, generate_or_load) (rw (trim_solid t.token solid) (rw full refl))
      ]
