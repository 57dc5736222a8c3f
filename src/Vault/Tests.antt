-- ===== src/Vault/Tests.antt =====
-- A vault with a login for each of two hosts, for crates/native/src/vault.rs. The state counts the
-- calls of `op`.
use stapler_mcp.Common.{
  ℕ, suc, ◌≡◌, ◌↔◌, ◌⊎◌, refl, Option, none, some, List, [], ◌∷◌, if◌then◌else◌, Text, text,
  text_eq, split_on, map, member, lookup, strip_prefix, contains, starts_with, show_nat,
  digits_value, length, ok, err,
}
use mathlib.Core.List.{filter_map}
use mathlib.Core.Option.{Option-elim}
use stapler_mcp.Crawler.{same_host}
use stapler_mcp.SavedPage.{strip_suffix}
use stapler_mcp.Ports.{credential_rate_limited, ProcessOutput, CredentialField, CredentialRef}
use stapler_mcp.Samples.{sample_lib}
use stapler_mcp.Vault.{
  ValueLib, SpawnAndCapture, Vault, list_argv, build_argv, lookup_domain, read_field,
  resolve_uncached, choose_item, parse_matching_items, pick_unique_match, item_matches_domain,
  item_ids, resolve_with, build_op_error, log_resolve_outcome, rate_limit_retry_after, parse_u64,
  split_white, split_whitespace, strip_s, first_seconds, parse_retry_after_seconds,
}
use stapler_mcp.Vault.Lookup.{NamesOnly, lookup_domain_iff}
use stapler_mcp.Vault.Audit.{
  resolve_uncached_audited, resolve_uncached_sound, Confirmed, AnswersFrom,
}
use stapler_mcp.Vault.Errors.{IsFixed, read_field_error}
use stapler_mcp.Vault.Flight.{
  cref_eq, after, Flights, no_flights, FlightEvent, arrives, finishes, after_all, arrive,
  finish_future, answer_of, find_pending,
}
use stapler_mcp.Vault.Flight.Laws.{IsSingleFlight, pending-IsSingleFlight}
use stapler_mcp.Vault.Flight.Answers.{finish_future_settles}

-- An item is known by its only URL.
data Json : Type 0 where
  item : Text → Json
  links : Text → Json
  link : Text → Json
  vault : Json
  str : Text → Json

abbrev get_key : Text → Json → Option Json
get_key key (item href) =
    if text_eq key (text "urls")
    then some (links href)
    else if text_eq key (text "vault")
    then some vault
    else if text_eq key (text "id")
    then some (str href)
    else none
get_key key (link href) = if text_eq key (text "href") then some (str href) else none
get_key key vault = if text_eq key (text "id") then some (str (text "v")) else none
get_key key _ = none

abbrev string_of : Json → Option Text
string_of (str s) = some s
string_of _ = none

abbrev array_of : Json → Option (List Json)
array_of (links href) = some (link href ∷ [])
array_of _ = none

-- A line for each item.
abbrev json : ValueLib
json = record {
  Value = Json;
  get = get_key;
  as_str = string_of;
  as_array = array_of;
  parse_items = λ bytes. some (map item (split_on 10 bytes));
}

abbrev two_logins : SpawnAndCapture ℕ
two_logins n argv = (
  ok (record {
    stdout =
        if member (text "list") argv
        then text "https://a.test/\nhttps://b.test/"
        else text "s3cret\n";
    stderr = [];
    exit_code = 0;
  }),
  suc n,
)

abbrev limited : SpawnAndCapture ℕ
limited n argv =
    if member (text "ratelimit") argv
    then (ok (record { stdout = text "reset in 42s"; stderr = []; exit_code = 0 }), suc n)
    else (ok (record { stdout = []; stderr = text "Too many requests"; exit_code = 1 }), suc n)

abbrev for_a : CredentialRef
for_a = record { domain = text "a.test"; field = CredentialField.password }

abbrev empty_vault : Vault ℕ
empty_vault = record { world = 0; id_cache = []; log = [] }

resolved :
    (resolve_uncached sample_lib json two_logins empty_vault for_a).0
    ≡ ok (record { secret = text "s3cret" })
unfolding resolve_uncached lookup lookup_domain choose_item strip_prefix parse_matching_items
    pick_unique_match filter_map split_on member text_eq item_matches_domain Option-elim same_host
    item_ids resolve_with read_field strip_suffix build_argv
resolved = refl

lookup_domain_iff_example :
    ((lookup_domain sample_lib json two_logins 0 (text "a.test")).0
      ≡ ok (text "v", text "https://a.test/"))
    ↔ ((output : ProcessOutput) × (((two_logins 0 list_argv).0 ≡ ok output)
          × (output.exit_code ≡ 0)
          × NamesOnly sample_lib json output.stdout
              (text "a.test")
              (text "v", text "https://a.test/")))
lookup_domain_iff_example =
    lookup_domain_iff sample_lib json two_logins 0 (text "a.test")
      (text "v", text "https://a.test/")

resolve_uncached_audited_example :
    (resolve_uncached sample_lib json two_logins empty_vault for_a).1.log
    ≡ text "stapler-mcp: credential resolve domain='a.test' field=password outcome=resolved" ∷ []
unfolding resolve_uncached lookup lookup_domain choose_item strip_prefix parse_matching_items
    pick_unique_match filter_map split_on member text_eq item_matches_domain same_host item_ids
    resolve_with read_field strip_suffix build_argv log_resolve_outcome
resolve_uncached_audited_example =
    resolve_uncached_audited sample_lib json two_logins empty_vault for_a

resolve_uncached_sound_example :
    (ids : Text × Text) × (Confirmed sample_lib json two_logins (text "a.test") ids
      × AnswersFrom sample_lib json two_logins for_a ids (ok (record { secret = text "s3cret" })))
resolve_uncached_sound_example =
    resolve_uncached_sound sample_lib json two_logins 0 [] [] for_a resolved

refused :
    (read_field sample_lib limited 0 CredentialField.totp (text "v", text "i")).0
    ≡ err (credential_rate_limited (text "retry after 42s"))
unfolding read_field build_op_error rate_limit_retry_after parse_retry_after_seconds parse_u64
    digits_value split_white split_whitespace strip_s first_seconds member text_eq contains
    starts_with show_nat build_argv
refused = refl

read_field_error_example :
    ((limited 0 (build_argv CredentialField.totp (text "v") (text "i"))).0
      ≡ err (credential_rate_limited (text "retry after 42s")))
    ⊎ IsFixed (credential_rate_limited (text "retry after 42s"))
read_field_error_example =
    read_field_error sample_lib limited 0 CredentialField.totp (text "v", text "i") refused

-- Two callers share the first future, and a third comes after its end.
abbrev shared_call : List FlightEvent
shared_call =
    arrives for_a
    ∷ arrives for_a
    ∷ finishes 0 (ok (record { secret = text "x" }))
    ∷ arrives for_a
    ∷ []

pending-IsSingleFlight_example : IsSingleFlight (after_all shared_call no_flights)
pending-IsSingleFlight_example = pending-IsSingleFlight shared_call

one_future :
    find_pending for_a (after_all (arrives for_a ∷ arrives for_a ∷ []) no_flights).pending ≡ some 0
unfolding find_pending after_all after arrive cref_eq text_eq
one_future = refl

abbrev settled : Flights
settled =
    finish_future 0 (ok (record { secret = text "x" }))
      (after_all (arrives for_a ∷ arrives for_a ∷ []) no_flights)

finish_future_settles_example :
    (answer_of (after_all (arrives for_a ∷ []) settled) 0
      ≡ some (ok (record { secret = text "x" })))
    × (find_pending for_a settled.pending ≡ none)
    × ((arrive for_a settled).callers ≡ (for_a, length settled.futures) ∷ settled.callers)
finish_future_settles_example =
    finish_future_settles (arrives for_a ∷ arrives for_a ∷ []) (arrives for_a ∷ []) for_a 0
      (ok (record { secret = text "x" })) one_future
