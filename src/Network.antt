-- ===== src/Network.antt =====
-- crates/native/src/network.rs: the network capture log of one browser session. `NetworkLog` is the
-- struct of that name; its maps are association lists, and each `&mut self` method returns the new
-- log. Monotonic times are floats in the source: their type, their order and the rounded
-- milliseconds between two of them are parameters.
pub mod Truncate
pub mod Bounds
pub mod Lifecycle
pub mod Query
mod Tests
use stapler_mcp.Common.{
  ℕ, zero, suc, ◌-◌, min, Bool, true, false, not, ◌&&◌, ◌||◌, Option, none, some, List, [], ◌∷◌,
  ◌++◌, map, if◌then◌else◌, leb, Text, text, is_empty, starts_with, contains, trim,
  to_ascii_lowercase, byte_len, slice_to, length, any, select, Assoc, lookup, insert, remove,
}
use stapler_mcp.Ports.{NetworkEntry, NetworkRequestsResult}

abbrev pub max_network_entries : ℕ
max_network_entries = 1000

abbrev pub max_body_bytes : ℕ
max_body_bytes = 16384

unfoldable pub is_binary_content_type : Text → Bool
unfolding trim starts_with
is_binary_content_type content_type =
    let ct = to_ascii_lowercase (trim content_type) in
    any (λ p. starts_with p ct) (text "image/" ∷ text "font/" ∷ text "audio/" ∷ text "video/" ∷ [])
    || starts_with (text "application/octet-stream") ct

-- The loop of `truncate_utf8`: down from `end` to the first char boundary, then the slice.
unfoldable pub slice_down : Text → ℕ → Text
slice_down s zero = []
slice_down s (suc n) =
    let lower = slice_down s n in elim (slice_to s (suc n)) [ none ↦ lower | some p ↦ p ]

unfoldable pub truncate_utf8 : Text → ℕ → Text × Bool
truncate_utf8 s limit = if leb (byte_len s) limit then (s, false) else (slice_down s limit, true)

abbrev pub is_binary : Option Text → Bool
is_binary none = false
is_binary (some ct) = is_binary_content_type ct

-- The body that `finish` keeps, and whether it was cut.
unfoldable pub kept_body : Bool → Option Text → Option Text × Bool
kept_body binary none = (none, false)
kept_body true (some b) = (none, false)
kept_body false (some b) = let (b', t) = truncate_utf8 b max_body_bytes in (some b', t)

-- The map step of `query`: the body is cut again to the caller's cap.
unfoldable pub cap_body : ℕ → NetworkEntry → NetworkEntry
cap_body cap e = elim e.body [
  | none ↦ e
  | some b ↦
      let (b', cut) = truncate_utf8 b cap in
      record e { body = some b'; body_truncated = e.body_truncated || cut }
]

abbrev pub query_cap : Option ℕ → ℕ
query_cap none = max_body_bytes
query_cap (some m) = min m max_body_bytes

abbrev pub matches_url : Option Text → NetworkEntry → Bool
matches_url none e = true
matches_url (some f) e = contains f e.url

module _ (Instant : Type 0) where
  pub record Partial : Type 0 where
    pub url : Text
    pub method : Text
    pub started_at_ms : ℕ
    pub started_monotonic_s : Instant
    pub status : Option ℕ
    pub content_type : Option Text
    pub response_seen : Bool

  pub record NetworkLog : Type 0 where
    pub partial : Assoc Partial
    pub entries : List NetworkEntry
    pub truncated : Bool

module _ {Instant : Type 0} where
  -- `NetworkLog::default()`.
  abbrev pub new_log : NetworkLog Instant
  new_log = record { partial = []; entries = []; truncated = false }

  unfoldable pub push : NetworkLog Instant → NetworkEntry → NetworkLog Instant
  push log entry =
      if leb max_network_entries (length log.entries)
      then record log { truncated = true }
      else record log { entries = log.entries ++ entry ∷ [] }

  unfoldable pub on_response : NetworkLog Instant → Text → Option ℕ → Text → NetworkLog Instant
  on_response log request_id status content_type = elim (lookup request_id log.partial) [
    | none ↦ log
    | some p ↦ record log {
      partial =
          insert request_id
            (record p {
              status = status;
              response_seen = true;
              content_type = if is_empty content_type then p.content_type else some content_type;
            })
            log.partial;
    }
  ]

  unfoldable pub has_response : NetworkLog Instant → Text → Bool
  has_response log request_id = elim (lookup request_id log.partial) [
    | none ↦ false
    | some p ↦ p.response_seen
  ]

  unfoldable pub wants_body : NetworkLog Instant → Text → Bool
  wants_body log request_id =
      if leb max_network_entries (length log.entries)
      then false
      else elim (lookup request_id log.partial) [
        | none ↦ false
        | some p ↦ elim p.content_type [ none ↦ false | some ct ↦ not (is_binary_content_type ct) ]
      ]

  unfoldable pub reset : NetworkLog Instant → NetworkLog Instant
  reset log = record { partial = []; entries = []; truncated = false }

  unfoldable pub query :
      NetworkLog Instant
      → Option Text
      → Option ℕ
      → Bool
      → NetworkRequestsResult × NetworkLog Instant
  query log filter_url max_bytes clear =
      let result : NetworkRequestsResult = record {
        entries =
            map (cap_body (query_cap max_bytes)) (select (matches_url filter_url) log.entries);
        truncated = log.truncated;
      } in
      (result, if clear then record log { entries = []; truncated = false } else log)

  module _ (le : Instant → Instant → Bool) (millis_between : Instant → Instant → ℕ) where
    unfoldable pub finish : Partial Instant → Instant → Option ℕ → Option Text → NetworkEntry
    finish p end_s status body =
        let (kept, cut) = kept_body (is_binary p.content_type) body in
        record {
          url = p.url;
          method = p.method;
          status = status;
          content_type = p.content_type;
          body = kept;
          body_truncated = cut;
          timing_ms =
              if le p.started_monotonic_s end_s
              then some (millis_between p.started_monotonic_s end_s)
              else none;
          started_at_ms = p.started_at_ms;
        }

    -- Removes the partial entry of a request and pushes it, finished with the given status.
    abbrev pub settle :
        NetworkLog Instant
        → Text
        → Instant
        → (Partial Instant → Option ℕ)
        → Option Text
        → NetworkLog Instant
    settle log request_id end_s status body = elim (lookup request_id log.partial) [
      | none ↦ log
      | some p ↦
          push (record log { partial = remove request_id log.partial })
            (finish p end_s (status p) body)
    ]

    unfoldable pub on_request :
        NetworkLog Instant → Text → Text → Text → ℕ → Instant → Option ℕ → NetworkLog Instant
    on_request log request_id url method started_at_ms monotonic_s redirect_status =
        let hop = settle log request_id monotonic_s (λ p. redirect_status) none in
        record hop {
          partial =
              insert request_id
                (record {
                  url = url;
                  method = method;
                  started_at_ms = started_at_ms;
                  started_monotonic_s = monotonic_s;
                  status = none;
                  content_type = none;
                  response_seen = false;
                })
                hop.partial;
        }

    unfoldable pub complete : NetworkLog Instant → Text → Instant → Option Text → NetworkLog Instant
    complete log request_id monotonic_s body =
        settle log request_id monotonic_s (λ p. p.status) body

    unfoldable pub on_failed : NetworkLog Instant → Text → Instant → NetworkLog Instant
    on_failed log request_id monotonic_s = settle log request_id monotonic_s (λ p. p.status) none
