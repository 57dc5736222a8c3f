-- ===== src/Network/Bounds.antt =====
-- The caps of the network log, kept by every method of crates/native/src/network.rs: the number of
-- entries, the size of each body, and no body for a binary content type.
use stapler_mcp.Common.{
  ℕ, ◌≤◌, ◌≡◌, Bool, true, false, Option, none, some, inl, inr, leb, leb→le, List, [], ◌∷◌, arith,
  Text, byte_len, length, length-append, All, All-append, lookup, Option-cases, Bool-cases,
}
use stapler_mcp.Ports.{NetworkEntry}
use stapler_mcp.Network.{
  max_network_entries, max_body_bytes, Partial, NetworkLog, new_log, push, is_binary, kept_body,
  on_response, reset, query, finish, settle, on_request, complete, on_failed,
}
use stapler_mcp.Network.Truncate.{truncate_utf8_maximal}

-- A body is bounded, and is there only if the content type is not a binary one.
abbrev pub IsBoundedBody : Option Text → Option Text → Type 0
IsBoundedBody content_type none = Unit
IsBoundedBody content_type (some b) =
    (byte_len b ≤ max_body_bytes) × (is_binary content_type ≡ false)

abbrev pub IsBoundedEntry : NetworkEntry → Type 0
IsBoundedEntry e = IsBoundedBody e.content_type e.body

kept_body-IsBoundedBody :
    (ct : Option Text) (body : Option Text) → IsBoundedBody ct (kept_body (is_binary ct) body).0
unfolding kept_body
kept_body-IsBoundedBody ct none = ground arith
kept_body-IsBoundedBody ct (some b) = elim (Bool-cases (is_binary ct)) [
  | inl binary ↦ rw binary tt
  | inr plain ↦ ground (arith, (truncate_utf8_maximal b max_body_bytes).2)
]

module _ {Instant : Type 0} where
  pub record IsBounded (log : NetworkLog Instant) : Type 0 where
    pub count : length log.entries ≤ max_network_entries
    pub full : log.truncated ≡ true → length log.entries ≡ max_network_entries
    pub bodies : All IsBoundedEntry log.entries

  pub new_log-IsBounded : IsBounded new_log
  new_log-IsBounded = record { count = omega arith; full = λ e. cc; bodies = tt }

  push-IsBounded :
      (log : NetworkLog Instant) (e : NetworkEntry)
      → IsBounded log
      → IsBoundedEntry e
      → IsBounded (push log e)
  unfolding push
  push-IsBounded log e v b = elim (Bool-cases (leb max_network_entries (length log.entries))) [
    | inl full ↦ rw full (record {
      count = v.count;
      full = λ _. omega (arith, v.count, leb→le _ _ full);
      bodies = v.bodies;
    })
    | inr room ↦ rw room (record {
      count = ground (arith, length-append log.entries (e ∷ []), room);
      full = λ t. absurd (ground (arith, v.full t, room));
      bodies = All-append IsBoundedEntry log.entries (e ∷ []) v.bodies (b, tt);
    })
  ]

  on_response-IsBounded :
      (log : NetworkLog Instant) (id : Text) (status : Option ℕ) (ct : Text)
      → IsBounded log
      → IsBounded (on_response log id status ct)
  unfolding on_response
  on_response-IsBounded log id status ct v = elim (Option-cases (lookup id log.partial)) [
    | inl missing ↦ rw (missing, on_response) v
    | inr (p, found) ↦
        rw (found, on_response) (record { count = v.count; full = v.full; bodies = v.bodies })
  ]

  query-IsBounded :
      (log : NetworkLog Instant) (filter_url : Option Text) (cap : Option ℕ) (clear : Bool)
      → IsBounded log
      → IsBounded (query log filter_url cap clear).1
  unfolding query
  query-IsBounded log filter_url cap true v = record {
    count = omega arith;
    full = λ e. cc;
    bodies = tt;
  }
  query-IsBounded log filter_url cap false v = v

-- Every event of a session's network log: the method calls that change it.
pub data Event (Instant : Type 0) : Type 0 where
  request : Text → Text → Text → ℕ → Instant → Option ℕ → Event Instant
  response : Text → Option ℕ → Text → Event Instant
  finished : Text → Instant → Option Text → Event Instant
  failed : Text → Instant → Event Instant
  queried : Option Text → Option ℕ → Bool → Event Instant
  navigated : Event Instant

module _ {Instant : Type 0} (le : Instant → Instant → Bool)
    (millis_between : Instant → Instant → ℕ) where
  abbrev pub step : NetworkLog Instant → Event Instant → NetworkLog Instant
  step log (request id url method at now redirect) =
      on_request le millis_between log id url method at now redirect
  step log (response id status ct) = on_response log id status ct
  step log (finished id now body) = complete le millis_between log id now body
  step log (failed id now) = on_failed le millis_between log id now
  step log (queried filter_url cap clear) = (query log filter_url cap clear).1
  step log navigated = reset log

  abbrev pub run : NetworkLog Instant → List (Event Instant) → NetworkLog Instant
  run log [] = log
  run log (e ∷ es) = run (step log e) es

  settle-IsBounded :
      (log : NetworkLog Instant) (id : Text) (now : Instant) (status : Partial Instant → Option ℕ)
      (body : Option Text)
      → IsBounded log
      → IsBounded (settle le millis_between log id now status body)
  unfolding finish
  settle-IsBounded log id now status body v = elim (Option-cases (lookup id log.partial)) [
    | inl missing ↦ rw (missing, settle) v
    | inr (p, found) ↦
        rw (found, settle)
          (push-IsBounded _ _ (record { count = v.count; full = v.full; bodies = v.bodies })
            (kept_body-IsBoundedBody p.content_type body))
  ]

  step-IsBounded :
      (log : NetworkLog Instant) (e : Event Instant) → IsBounded log → IsBounded (step log e)
  unfolding on_request complete on_failed reset
  step-IsBounded log (request id url method at now redirect) v =
      let w = settle-IsBounded log id now (λ p. redirect) none v in
      record { count = w.count; full = w.full; bodies = w.bodies }
  step-IsBounded log (response id status ct) v = on_response-IsBounded log id status ct v
  step-IsBounded log (finished id now body) v = settle-IsBounded log id now (λ p. p.status) body v
  step-IsBounded log (failed id now) v = settle-IsBounded log id now (λ p. p.status) none v
  step-IsBounded log (queried filter_url cap clear) v = query-IsBounded log filter_url cap clear v
  step-IsBounded log navigated v = new_log-IsBounded

  run-IsBounded :
      (log : NetworkLog Instant) (es : List (Event Instant))
      → IsBounded log
      → IsBounded (run log es)
  run-IsBounded log [] v = v
  run-IsBounded log (e ∷ es) v = run-IsBounded (step log e) es (step-IsBounded log e v)

  -- After any sequence of calls on a fresh log there are at most 1000 entries, the truncated flag is
  -- set only when there are exactly 1000, and each stored body has at most 16384 bytes and belongs
  -- to an entry whose content type is not binary.
  pub run-new_log-IsBounded : (es : List (Event Instant)) → IsBounded (run new_log es)
  run-new_log-IsBounded es = run-IsBounded new_log es new_log-IsBounded
