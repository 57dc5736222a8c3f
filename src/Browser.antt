-- ===== src/Browser.antt =====
-- The tool `browser_type_secret` of crates/core/src/tools/credential.rs, with the conversion of a
-- snapshot of crates/core/src/tools/browser.rs that it returns. The browser driver is a function on
-- the state of the world. Times are in seconds. `resolve_timeout` and `map_error` of that file are
-- `resolve_timeout_seconds` and `map_type_secret_error`.
mod Tests
use stapler_mcp.Common.{
  ℕ, ◌≡◌, refl, arith, Bool, true, false, ◌||◌, inl, inr, Option, none, some, ◌++◌, if◌then◌else◌,
  ltb, Bool-cases, Result-cases, Text, text, is_empty, Result, ok, err,
}
use stapler_mcp.Ports.{
  PortError, display, credential_domain_mismatch, credential_ambiguous, credential_unauthenticated,
  credential_rate_limited, credential_expired, CredentialField, CredentialRef,
}
use stapler_mcp.Ax.{AxNode, AxNodes, AxSnapshot, node, nil, cons}

-- `node_output node_ref role name value children`.
mutual
  pub data AxNodeOutput : Type 0 where
    node_output : Text → Text → Text → Option Text → AxNodeOutputs → AxNodeOutput

  pub data AxNodeOutputs : Type 0 where
    no_outputs : AxNodeOutputs
    outputs : AxNodeOutput → AxNodeOutputs → AxNodeOutputs

unfoldable mutual
  pub to_node_output : AxNode → AxNodeOutput
  to_node_output (node r role name value children) =
      node_output r role name value (to_node_outputs children)

  pub to_node_outputs : AxNodes → AxNodeOutputs
  to_node_outputs nil = no_outputs
  to_node_outputs (cons n ns) = outputs (to_node_output n) (to_node_outputs ns)

pub record AxSnapshotOutput : Type 0 where
  pub root : AxNodeOutput
  pub url : Text
  pub truncated : Bool
  pub navigated_from : Option Text

unfoldable pub to_snapshot_output : AxSnapshot → AxSnapshotOutput
to_snapshot_output s = record {
  root = to_node_output s.root;
  url = s.url;
  truncated = s.truncated;
  navigated_from = s.navigated_from;
}

pub record BrowserActionOutput : Type 0 where
  pub snapshot : AxSnapshotOutput
  pub note : Option Text

pub data CredentialFieldInput : Type 0 where
  username password totp : CredentialFieldInput

pub record CredentialRefInput : Type 0 where
  pub domain : Text
  pub field : CredentialFieldInput

pub record BrowserTypeSecretInput : Type 0 where
  pub session_id : Text
  pub ref_id : Text
  pub credential : CredentialRefInput
  pub timeout_seconds : Option ℕ

abbrev pub default_timeout_seconds : ℕ
default_timeout_seconds = 30

unfoldable pub resolve_timeout_seconds : Option ℕ → ℕ
resolve_timeout_seconds none = default_timeout_seconds
resolve_timeout_seconds (some s) = if ltb 0 s then s else default_timeout_seconds

abbrev pub success_note : Text
success_note = text "value redacted; typed successfully"

unfoldable pub map_type_secret_error : Text → PortError → Text
map_type_secret_error domain (credential_domain_mismatch msg) = msg
map_type_secret_error domain (credential_ambiguous msg) = msg
map_type_secret_error domain (credential_unauthenticated msg) = msg
map_type_secret_error domain (credential_rate_limited msg) = msg
map_type_secret_error domain (credential_expired msg) = msg
map_type_secret_error domain e = text "type secret for " ++ (domain ++ (text ": " ++ display e))

abbrev pub to_credential_field : CredentialFieldInput → CredentialField
to_credential_field CredentialFieldInput.username = CredentialField.username
to_credential_field CredentialFieldInput.password = CredentialField.password
to_credential_field CredentialFieldInput.totp = CredentialField.totp

-- The driver's call, at a session, an element, a credential and a timeout.
abbrev pub TypeSecret : Type 0 → Type 0
TypeSecret W = W → Text → Text → CredentialRef → ℕ → Result PortError AxSnapshot × W

module _ {W : Type 0} (type_secret : TypeSecret W) where
  unfoldable pub browser_type_secret :
      W → BrowserTypeSecretInput → Result Text BrowserActionOutput × W
  browser_type_secret w input =
      let (typed, w') =
        type_secret w input.session_id input.ref_id
          (record {
            domain = input.credential.domain;
            field = to_credential_field input.credential.field;
          })
          (resolve_timeout_seconds input.timeout_seconds) in
      if is_empty input.session_id
      then (err (text "sessionId must not be empty"), w)
      else if is_empty input.ref_id
      then (err (text "refId must not be empty"), w)
      else elim typed [
        | err e ↦ (err (map_type_secret_error input.credential.domain e), w')
        | ok snapshot ↦
            (ok (record { snapshot = to_snapshot_output snapshot; note = some success_note }), w')
      ]

  -- With an empty session or element id the driver is not called; with both, the world is as one
  -- call of the driver leaves it, whatever that call gives.
  pub browser_type_secret_calls :
      (w : W) (input : BrowserTypeSecretInput)
      → (browser_type_secret w input).1 ≡ (
          if is_empty input.session_id || is_empty input.ref_id
          then w
          else (type_secret w input.session_id input.ref_id
              (record {
                domain = input.credential.domain;
                field = to_credential_field input.credential.field;
              })
              (resolve_timeout_seconds input.timeout_seconds)).1)
  unfolding browser_type_secret
  browser_type_secret_calls w input = ground arith
