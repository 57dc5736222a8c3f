-- ===== src/Tokens/Tests.antt =====
-- A file system with one file of ASCII bytes, for `generate_or_load` of
-- crates/native/src/http_token.rs. The state is the file.
use stapler_mcp.Common.{
  ℕ, ◌<◌, ◌≡◌, refl, ap, subst, inl, inr, Bool, true, false, Option, none, some, List, [], ◌∷◌,
  arith, if◌then◌else◌, ltb, Bool-cases, Text, text, as_bytes, all, length, All, Result, ok, err,
}
use stapler_mcp.ReadWebsite.{hex}
use stapler_mcp.Tokens.{BearerToken, TokenPorts, generate, generate_or_load}
use stapler_mcp.Tokens.Storage.{KeepsFiles, DrawsBytes, generate_or_load_again}

abbrev is_ascii : List ℕ → Bool
is_ascii bytes = all (λ b. ltb b 128) bytes

abbrev zeros : List ℕ
zeros =
    0 ∷ 0 ∷ 0 ∷ 0 ∷ 0 ∷ 0 ∷ 0 ∷ 0 ∷ 0 ∷ 0 ∷ 0 ∷ 0 ∷ 0 ∷ 0 ∷ 0 ∷ 0 ∷ 0 ∷ 0 ∷ 0 ∷ 0 ∷ 0 ∷ 0 ∷ 0 ∷ 0
    ∷ 0 ∷ 0 ∷ 0 ∷ 0 ∷ 0 ∷ 0 ∷ 0 ∷ 255 ∷ []

abbrev stored : Option (List ℕ) → Result Text Text
stored none = err (text "no such file")
stored (some bytes) = ok bytes

abbrev one_file : TokenPorts (Option (List ℕ))
one_file = record {
  read_to_string = λ w path. (stored w, w);
  create_parent = λ w path. (ok tt, w);
  random_bytes = λ w. (ok zeros, w);
  write_private =
      λ w path bytes. if is_ascii bytes then (ok tt, some bytes) else (err (text "refused"), w);
}

as_bytes_ascii : (s : Text) → is_ascii (as_bytes s) ≡ true → as_bytes s ≡ s
unfolding as_bytes
as_bytes_ascii [] h = refl
as_bytes_ascii (c ∷ s) h = elim (Bool-cases (ltb c 128)) [
  | inl small ↦ ground (arith, small, as_bytes_ascii s)
  | inr large ↦ absurd (ground (arith, large))
]

one_file-KeepsFiles : KeepsFiles one_file
one_file-KeepsFiles w path s h = elim (Bool-cases (is_ascii (as_bytes s))) [
  | inl plain ↦ rw plain (ap ok (as_bytes_ascii s plain))
  | inr other ↦ absurd (cc (rw other at h))
]

abbrev AreBytes : Result Text (List ℕ) → Type 0
AreBytes (err e) = Unit
AreBytes (ok bs) = (length bs ≡ 32) × All (λ b. b < 256) bs

one_file-DrawsBytes : DrawsBytes one_file
one_file-DrawsBytes w bs h = subst AreBytes h (refl, ground arith)

abbrev made : BearerToken
made = record { token = hex zeros }

first_call : generate_or_load one_file none (text "/t") ≡ (ok (made, true), some (hex zeros))
unfolding generate_or_load generate hex as_bytes
first_call = refl

generate_or_load_again_example :
    (generate_or_load one_file (some (hex zeros)) (text "/t")).0 ≡ ok (made, false)
generate_or_load_again_example =
    generate_or_load_again one_file one_file-KeepsFiles one_file-DrawsBytes none (some (hex zeros))
      (text "/t") made first_call
