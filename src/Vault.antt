-- ===== src/Vault.antt =====
-- The 1Password credential store of crates/native/src/vault.rs: `lookup_domain`, `build_argv`, the
-- mapping of `op` failures, the audit line and `resolve_uncached`. `op` is a function on the state of
-- the world; `serde_json::Value` is a parameter. The audit lines on stderr are a list in the state.
pub mod Candidates
pub mod Lookup
pub mod Audit
pub mod Errors
pub mod Flight
mod Tests
use stapler_mcp.Common.{
  ℕ, zero, suc, ◌+◌, ◌-◌, ◌*◌, ◌^◌, Bool, true, false, not, ◌&&◌, ◌||◌, Option, none, some, List,
  [], ◌∷◌, ◌++◌, if◌then◌else◌, ltb, leb, ◌==◌, Text, text, is_empty, contains, to_ascii_lowercase,
  is_whitespace, show_nat, digits_value, any, select, map, reverse, length, Assoc, lookup, insert,
  Result, ok, err,
}
use mathlib.Core.List.{filter_map}
use stapler_mcp.Ports.{
  PortError, io, timeout, other, not_found, session_crashed, not_actionable,
  credential_domain_mismatch, credential_ambiguous, credential_unauthenticated,
  credential_rate_limited, credential_expired, auth_required, ProcessOutput, CredentialField,
  CredentialRef,
}
use stapler_mcp.Web.{WebLib}
use stapler_mcp.Crawler.{get_or, same_host}
use stapler_mcp.SavedPage.{join_with, strip_suffix}

pub record SecretValue : Type 0 where
  pub secret : Text

-- `serde_json::Value` with the accessors that the code calls, and `from_slice::<Vec<Value>>(s).ok()`.
pub record ValueLib : Type 1 where
  pub Value : Type 0
  pub get : Text → Value → Option Value
  pub as_str : Value → Option Text
  pub as_array : Value → Option (List Value)
  pub parse_items : List ℕ → Option (List Value)

-- The type of `ProcessSpawner::spawn_and_capture`.
abbrev pub SpawnAndCapture : Type 0 → Type 0
SpawnAndCapture W = W → List Text → Result PortError ProcessOutput × W

pub data ReadableField : Type 0 where
  username password : ReadableField

abbrev pub field_wire_segment : ReadableField → Text
field_wire_segment ReadableField.username = text "username"
field_wire_segment ReadableField.password = text "password"

-- The arguments of `op read`.
abbrev pub read_argv : ReadableField → Text → Text → List Text
read_argv readable vault_id item_id =
    text "op"
    ∷ text "read"
    ∷ text "--vault"
    ∷ vault_id
    ∷ (text "op://"
        ++ (vault_id ++ (text "/" ++ (item_id ++ (text "/" ++ field_wire_segment readable)))))
    ∷ []

unfoldable pub build_argv : CredentialField → Text → Text → List Text
build_argv CredentialField.totp vault_id item_id =
    text "op" ∷ text "item" ∷ text "get" ∷ text "--vault" ∷ vault_id ∷ item_id ∷ text "--otp" ∷ []
build_argv CredentialField.username vault_id item_id =
    read_argv ReadableField.username vault_id item_id
build_argv CredentialField.password vault_id item_id =
    read_argv ReadableField.password vault_id item_id

abbrev pub unauthenticated_message : Text
unauthenticated_message =
    text
      "1Password CLI reports not signed in — not typed. This requires human action (run `op signin` or unlock the desktop app); the agent cannot resolve this itself."

abbrev pub rate_limit_unspecified_delay : Text
rate_limit_unspecified_delay = text "retry after an unspecified delay"

abbrev pub stderr_contains : Text → Text → Bool
stderr_contains stderr_text needle =
    contains (to_ascii_lowercase needle) (to_ascii_lowercase stderr_text)

-- `str::split_whitespace`.
split_white : Text → Text → List Text
split_white cur [] = reverse cur ∷ []
split_white cur (c ∷ s) =
    let closed = split_white [] s in
    let longer = split_white (c ∷ cur) s in if is_whitespace c then reverse cur ∷ closed else longer

unfoldable pub split_whitespace : Text → List Text
unfolding split_white
split_whitespace s = select (λ t. not (is_empty t)) (split_white [] s)

-- `str::trim_end_matches('s')`.
strip_s : Text → Text
strip_s [] = []
strip_s (c ∷ s) = let rest = strip_s s in if c == b's' then rest else c ∷ s

-- `str::parse::<u64>`: digits after an optional plus sign, below 2 ^ 64.
abbrev u64_range : ℕ
u64_range = 18446744073709551616

abbrev in_u64 : Option ℕ → Option ℕ
in_u64 none = none
in_u64 (some n) = if ltb n u64_range then some n else none

abbrev unsigned_digits : Text → Option ℕ
unfolding digits_value
unsigned_digits [] = none
unsigned_digits (c ∷ s) = in_u64 (digits_value 0 (c ∷ s))

unfoldable pub parse_u64 : Text → Option ℕ
unfolding digits_value
parse_u64 [] = none
parse_u64 (c ∷ s) = if c == b'+' then unsigned_digits s else unsigned_digits (c ∷ s)

abbrev first_seconds : List Text → Option ℕ
unfolding strip_s
first_seconds [] = none
first_seconds (token ∷ tokens) =
    let later = first_seconds tokens in
    elim (parse_u64 (reverse (strip_s (reverse token)))) [ some n ↦ some n | none ↦ later ]

abbrev pub field_name : CredentialField → Text
field_name CredentialField.username = text "username"
field_name CredentialField.password = text "password"
field_name CredentialField.totp = text "totp"

abbrev pub outcome_name : Result PortError SecretValue → Text
outcome_name (ok _) = text "resolved"
outcome_name (err (credential_domain_mismatch _)) = text "rejected-domain-mismatch"
outcome_name (err (credential_ambiguous _)) = text "rejected-ambiguous"
outcome_name (err (credential_rate_limited _)) = text "rate-limited"
outcome_name (err (credential_expired _)) = text "totp-expired"
outcome_name (err _) = text "vault-lookup-failed"

unfoldable pub log_resolve_outcome :
    Text → CredentialField → Result PortError SecretValue → List Text → List Text
log_resolve_outcome domain field result log =
    log
    ++ (text "stapler-mcp: credential resolve domain='"
        ++ (domain
            ++ (text "' field="
                ++ (field_name field ++ (text " outcome=" ++ outcome_name result)))))
      ∷ []

unfoldable pub clone_port_error : PortError → PortError
clone_port_error (io s) = io s
clone_port_error timeout = timeout
clone_port_error (other s) = other s
clone_port_error (not_found s) = not_found s
clone_port_error (session_crashed s) = session_crashed s
clone_port_error (not_actionable s) = not_actionable s
clone_port_error (credential_domain_mismatch s) = credential_domain_mismatch s
clone_port_error (credential_ambiguous s) = credential_ambiguous s
clone_port_error (credential_unauthenticated s) = credential_unauthenticated s
clone_port_error (credential_rate_limited s) = credential_rate_limited s
clone_port_error (credential_expired s) = credential_expired s
clone_port_error (auth_required info) = auth_required info

-- The matches are pairs of a vault and an item, and the item's title.
unfoldable pub pick_unique_match : Text → List (Text × Text × Text) → Result PortError (Text × Text)
pick_unique_match domain [] = err (
    credential_domain_mismatch
      (text "no vault entry for domain \"" ++ (domain ++ text "\" — not typed")))
pick_unique_match domain ((vault_id, item_id, title) ∷ []) = ok (vault_id, item_id)
pick_unique_match domain (m ∷ n ∷ ms) = err (
    credential_ambiguous (
      show_nat (length (m ∷ n ∷ ms))
      ++ (text " vault items match domain \""
          ++ (domain
              ++ (text
                    "\" — ambiguous, not typed. Ask the user which item to use, or scope the request further. Candidates: "
                  ++ join_with (text ", ") (map (λ (x : Text × Text × Text). x.2) (m ∷ n ∷ ms)))))))

module _ (L : WebLib) (J : ValueLib) where
  -- The host test on one of the `urls`.
  abbrev pub href_matches : L.Url → J.Value → Bool
  href_matches target u = elim (J.get (text "href") u) [
    | none ↦ false
    | some h ↦ elim (J.as_str h) [
      | none ↦ false
      | some href ↦ elim (L.parse href) [ none ↦ false | some url ↦ same_host L url target ]
    ]
  ]

  unfoldable pub item_matches_domain : J.Value → L.Url → Bool
  item_matches_domain item target = elim (J.get (text "urls") item) [
    | none ↦ false
    | some urls ↦ elim (J.as_array urls) [ none ↦ false | some us ↦ any (href_matches target) us ]
  ]

module _ (J : ValueLib) where
  abbrev pub string_at : Text → J.Value → Option Text
  string_at key v = elim (J.get key v) [ none ↦ none | some x ↦ J.as_str x ]

  -- What `filter_map` keeps of a matching item.
  unfoldable pub item_ids : J.Value → Option (Text × Text × Text)
  item_ids item = elim (J.get (text "vault") item) [
    | none ↦ none
    | some vault ↦ elim (string_at (text "id") vault) [
      | none ↦ none
      | some vault_id ↦ elim (string_at (text "id") item) [
        | none ↦ none
        | some item_id ↦
            some (vault_id, item_id, get_or (string_at (text "title") item) (text "<untitled>"))
      ]
    ]
  ]

module _ (L : WebLib) (J : ValueLib) where
  unfoldable pub parse_matching_items :
      List ℕ → L.Url → Result PortError (List (Text × Text × Text))
  parse_matching_items stdout target = elim (J.parse_items stdout) [
    | none ↦ err (other (text "op item list: could not parse JSON output"))
    | some items ↦
        ok (filter_map (item_ids J) (select (λ item. item_matches_domain L J item target) items))
  ]

  -- `lookup_domain` after `op item list` succeeded.
  unfoldable pub choose_item : Text → List ℕ → Result PortError (Text × Text)
  choose_item domain stdout = elim (L.parse (text "https://" ++ domain)) [
    | none ↦ err (other (text "invalid domain \"" ++ (domain ++ text "\"")))
    | some target ↦ elim (parse_matching_items stdout target) [
      | err e ↦ err e
      | ok matches ↦ pick_unique_match domain matches
    ]
  ]

module _ (L : WebLib) where
  unfoldable pub parse_retry_after_seconds : List ℕ → Option ℕ
  unfolding strip_s
  parse_retry_after_seconds stdout = first_seconds (split_whitespace (L.from_utf8_lossy stdout))

  abbrev pub retry_detail : Result PortError ProcessOutput → Text
  retry_detail (err e) = rate_limit_unspecified_delay
  retry_detail (ok output) =
      if output.exit_code == 0
      then elim (parse_retry_after_seconds output.stdout) [
        | some secs ↦ text "retry after " ++ (show_nat secs ++ text "s")
        | none ↦ rate_limit_unspecified_delay
      ]
      else rate_limit_unspecified_delay

  -- The decoded output without one newline at its end.
  abbrev pub secret_of : List ℕ → SecretValue
  secret_of stdout =
      let decoded = L.from_utf8_lossy stdout in
      record { secret = get_or (strip_suffix (10 ∷ []) decoded) decoded }

  module _ {W : Type 0} (spawn_and_capture : SpawnAndCapture W) where
    unfoldable pub rate_limit_retry_after : W → Text × W
    rate_limit_retry_after w =
        let (output, w') =
          spawn_and_capture w (text "op" ∷ text "service-account" ∷ text "ratelimit" ∷ []) in
        (retry_detail output, w')

    unfoldable pub build_op_error : W → List ℕ → PortError × W
    build_op_error w stderr =
        let stderr_text = L.from_utf8_lossy stderr in
        let (detail, w') = rate_limit_retry_after w in
        if stderr_contains stderr_text (text "not currently signed in")
          || stderr_contains stderr_text (text "op signin")
        then (credential_unauthenticated unauthenticated_message, w)
        else if stderr_contains stderr_text (text "too many requests")
            || stderr_contains stderr_text (text "rate limit")
        then (credential_rate_limited detail, w')
        else (other (text "op invocation failed"), w)

    -- The call for the value of the field.
    unfoldable pub read_field : W → CredentialField → Text × Text → Result PortError SecretValue × W
    read_field w field (vault_id, item_id) =
        let (run, w₁) = spawn_and_capture w (build_argv field vault_id item_id) in
        elim run [
          | err e ↦ (err e, w₁)
          | ok output ↦
              let (e, w₂) = build_op_error w₁ output.stderr in
              if output.exit_code == 0 then (ok (secret_of output.stdout), w₁) else (err e, w₂)
        ]

-- `State`, with the audit log; the map of pending futures is in `Flight`.
pub record Vault (W : Type 0) : Type 0 where
  pub world : W
  pub id_cache : Assoc (Text × Text)
  pub log : List Text

abbrev pub list_argv : List Text
list_argv =
    text "op"
    ∷ text "item"
    ∷ text "list"
    ∷ text "--categories"
    ∷ text "Login"
    ∷ text "--format"
    ∷ text "json"
    ∷ []

module _ (L : WebLib) (J : ValueLib) {W : Type 0} (spawn_and_capture : SpawnAndCapture W) where
  unfoldable pub lookup_domain : W → Text → Result PortError (Text × Text) × W
  lookup_domain w domain =
      let (listed, w₁) = spawn_and_capture w list_argv in
      elim listed [
        | err e ↦ (err e, w₁)
        | ok output ↦
            let (e, w₂) = build_op_error L spawn_and_capture w₁ output.stderr in
            if output.exit_code == 0
            then (choose_item L J domain output.stdout, w₁)
            else (err e, w₂)
      ]

  -- From the ids on: the call and the audit line.
  unfoldable pub resolve_with :
      Vault W → CredentialRef → Text × Text → Result PortError SecretValue × Vault W
  resolve_with st credential_ref ids =
      let (result, w) = read_field L spawn_and_capture st.world credential_ref.field ids in
      (
        result,
        record st {
          world = w;
          log = log_resolve_outcome credential_ref.domain credential_ref.field result st.log;
        },
      )

  -- A lookup that failed is logged too.
  unfoldable pub reject_lookup :
      Vault W → CredentialRef → W → PortError → Result PortError SecretValue × Vault W
  reject_lookup st credential_ref w e = (
    err e,
    record st {
      world = w;
      log = log_resolve_outcome credential_ref.domain credential_ref.field (err e) st.log;
    },
  )

  unfoldable pub resolve_uncached : Vault W → CredentialRef → Result PortError SecretValue × Vault W
  resolve_uncached st credential_ref = elim (lookup credential_ref.domain st.id_cache) [
    | some ids ↦ resolve_with st credential_ref ids
    | none ↦
        let (found, w) = lookup_domain st.world credential_ref.domain in
        elim found [
          | err e ↦ reject_lookup st credential_ref w e
          | ok ids ↦
              resolve_with
                (record st { world = w; id_cache = insert credential_ref.domain ids st.id_cache })
                credential_ref ids
        ]
  ]
