-- ===== src/Ports.antt =====
-- crates/core/src/ports.rs and the records of crates/core/src/schema.rs that the ports carry: the
-- error type of every port with its text, and the values that cross the port traits.
use stapler_mcp.Common.{Text, text, ◌++◌, ℕ, Bool, List, Option}

pub record AuthRequiredInfo : Type 0 where
  pub requested_url : Text
  pub final_url : Text
  pub auth_host : Text
  pub hint : Option Text

pub data PortError : Type 0 where
  io : Text → PortError
  timeout : PortError
  other : Text → PortError
  not_found : Text → PortError
  session_crashed : Text → PortError
  not_actionable : Text → PortError
  credential_domain_mismatch : Text → PortError
  credential_ambiguous : Text → PortError
  credential_unauthenticated : Text → PortError
  credential_rate_limited : Text → PortError
  credential_expired : Text → PortError
  auth_required : AuthRequiredInfo → PortError

-- `Display for PortError`.
unfoldable pub display : PortError → Text
display (io e) = text "io error: " ++ e
display timeout = text "timed out"
display (other e) = e
display (not_found e) = text "not found: " ++ e
display (session_crashed e) = text "session crashed: " ++ e
display (not_actionable e) = text "not actionable: " ++ e
display (credential_domain_mismatch e) = text "credential rejected: " ++ e
display (credential_ambiguous e) = text "credential rejected: " ++ e
display (credential_unauthenticated e) = text "vault unauthenticated: " ++ e
display (credential_rate_limited e) = text "vault rate-limited: " ++ e
display (credential_expired e) = text "credential expired: " ++ e
display (auth_required info) =
    text "auth required: "
    ++ (info.requested_url ++ (text " redirected to login at " ++ info.auth_host))

pub record ProcessOutput : Type 0 where
  pub stdout : List ℕ
  pub stderr : List ℕ
  pub exit_code : ℕ

pub record HttpResponse : Type 0 where
  pub status : ℕ
  pub body : List ℕ
  pub final_url : Text

pub record PageExtract : Type 0 where
  pub title : Text
  pub html : Text
  pub body_text : Text
  pub final_url : Text

pub data CredentialField : Type 0 where
  username password totp : CredentialField

pub record CredentialRef : Type 0 where
  pub domain : Text
  pub field : CredentialField

pub record NetworkEntry : Type 0 where
  pub url : Text
  pub method : Text
  pub status : Option ℕ
  pub content_type : Option Text
  pub body : Option Text
  pub body_truncated : Bool
  pub timing_ms : Option ℕ
  pub started_at_ms : ℕ

pub record NetworkRequestsResult : Type 0 where
  pub entries : List NetworkEntry
  pub truncated : Bool
