-- ===== src/Browser/Tests.antt =====
-- A driver that counts its calls, for crates/core/src/tools/credential.rs.
use stapler_mcp.Common.{ℕ, ◌≡◌, ◌+◌, refl, none, text, err}
use stapler_mcp.Ports.{credential_expired}
use stapler_mcp.Browser.{
  TypeSecret, BrowserTypeSecretInput, CredentialFieldInput, map_type_secret_error,
  resolve_timeout_seconds, browser_type_secret,
}

abbrev counting : TypeSecret ℕ
counting w session locator cref seconds = (err (credential_expired (text "expired")), w + 1)

abbrev request : BrowserTypeSecretInput
request = record {
  session_id = text "sess-1";
  ref_id = text "e1";
  credential = record { domain = text "a.test"; field = CredentialFieldInput.password };
  timeout_seconds = none;
}

message_kept : browser_type_secret counting 0 request ≡ (err (text "expired"), 1)
unfolding browser_type_secret map_type_secret_error resolve_timeout_seconds
message_kept = refl

no_session :
    browser_type_secret counting 0 (record request { session_id = text "" })
    ≡ (err (text "sessionId must not be empty"), 0)
unfolding browser_type_secret
no_session = refl
