-- ===== src/Tokens.antt =====
-- The bearer token of the HTTP transport: crates/core/src/http_auth.rs, and `generate_or_load` of
-- crates/native/src/http_token.rs. The file system and the system's random bytes are functions on the
-- state of the world; the comparison of the `subtle` crate is a parameter. An error is its text.
pub mod Storage
mod Tests
use stapler_mcp.Common.{
  ℕ, Bool, true, false, Option, none, some, List, if◌then◌else◌, Text, text, is_empty, trim,
  as_bytes, Result, ok, err,
}
use stapler_mcp.ReadWebsite.{hex}

pub record BearerToken : Type 0 where
  pub token : Text

-- `ConstantTimeEq` on the bytes.
unfoldable pub token_eq : (List ℕ → List ℕ → Bool) → BearerToken → BearerToken → Bool
token_eq ct_eq a b = ct_eq (as_bytes a.token) (as_bytes b.token)

abbrev pub debug_token : BearerToken → Text
debug_token t = text "BearerToken(***)"

pub record TokenPorts (W : Type 0) : Type 0 where
  pub read_to_string : W → Text → Result Text Text × W
  -- `create_dir_all` of the parent of a path, if it has one.
  pub create_parent : W → Text → Result Text (Unit {0}) × W
  -- 32 random bytes.
  pub random_bytes : W → Result Text (List ℕ) × W
  -- Opens the file with mode 0600, truncated, and writes all bytes.
  pub write_private : W → Text → List ℕ → Result Text (Unit {0}) × W

-- The stored token, if there is one that is not blank.
abbrev pub stored_token : Result Text Text → Option Text
stored_token (err e) = none
stored_token (ok existing) = if is_empty (trim existing) then none else some (trim existing)

module _ {W : Type 0} (ports : TokenPorts W) where
  -- A new token is stored before it is returned.
  unfoldable pub generate : W → Text → Result Text (BearerToken × Bool) × W
  generate w path =
      let (made, w₁) = ports.create_parent w path in
      elim made [
        | err e ↦ (err e, w₁)
        | ok _ ↦
            let (drawn, w₂) = ports.random_bytes w₁ in
            elim drawn [
              | err e ↦ (err e, w₂)
              | ok bytes ↦
                  let (written, w₃) = ports.write_private w₂ path (as_bytes (hex bytes)) in
                  elim written [
                    | err e ↦ (err e, w₃)
                    | ok _ ↦ (ok (record { token = hex bytes }, true), w₃)
                  ]
            ]
      ]

  unfoldable pub generate_or_load : W → Text → Result Text (BearerToken × Bool) × W
  generate_or_load w path =
      let (read, w₁) = ports.read_to_string w path in
      elim (stored_token read) [
        | some token ↦ (ok (record { token = token }, false), w₁)
        | none ↦ generate w₁ path
      ]
