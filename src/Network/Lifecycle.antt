-- ===== src/Network/Lifecycle.antt =====
-- What one request leaves in the network log of crates/native/src/network.rs, from its start to its
-- end, and what a redirect hop does.
use stapler_mcp.Common.{
  ℕ, ◌<◌, ◌≡◌, ◌≢◌, ◌⊎◌, refl, Bool, true, false, Option, none, some, [], ◌∷◌, ◌++◌, arith, Text,
  is_empty, if◌then◌else◌, length, Assoc, lookup, insert, remove, lookup-insert, text_eq_refl,
}
use stapler_mcp.Ports.{NetworkEntry}
use stapler_mcp.Network.{
  max_network_entries, Partial, NetworkLog, push, kept_body, finish, on_request, settle, is_binary,
  truncate_utf8,
}

module _ {Instant : Type 0} (le : Instant → Instant → Bool)
    (millis_between : Instant → Instant → ℕ) where
  -- What `on_request` stores.
  abbrev pub started : Text → Text → ℕ → Instant → Partial Instant
  started url method at now = record {
    url = url;
    method = method;
    started_at_ms = at;
    started_monotonic_s = now;
    status = none;
    content_type = none;
    response_seen = false;
  }

  -- What `on_response` makes of it.
  abbrev pub answered : Partial Instant → Option ℕ → Text → Partial Instant
  answered p status ct = record p {
    status = status;
    response_seen = true;
    content_type = if is_empty ct then p.content_type else some ct;
  }

  push_room :
      (log : NetworkLog Instant) (e : NetworkEntry)
      → length log.entries < max_network_entries
      → push log e ≡ record log { entries = log.entries ++ e ∷ [] }
  unfolding push
  push_room log e h = ground arith

  lookup-insert_self :
      (id : Text) (p : Partial Instant) (m : Assoc (Partial Instant))
      → lookup id (insert id p m) ≡ some p
  lookup-insert_self id p m = simp (lookup-insert, text_eq_refl)

  -- The body of an entry: it is missing if none was read or the content type is binary, and else it
  -- is the body that was read, cut at 16384 bytes.
  abbrev pub HasBody : Option Text → NetworkEntry → Type 0
  HasBody body e =
      ((e.body ≡ none)
        × (e.body_truncated ≡ false)
        × ((body ≡ none) ⊎ (is_binary e.content_type ≡ true)))
      ⊎ ((b : Text) × ((body ≡ some b)
            × (is_binary e.content_type ≡ false)
            × (e.body ≡ some (truncate_utf8 b 16384).0)
            × (e.body_truncated ≡ (truncate_utf8 b 16384).1)))

  -- What the entry of a request says: which request it was, when it started, how long it took if the
  -- clock did not go back, and what the response was.
  pub record IsEntryOf (url method ct : Text) (at : ℕ) (t₀ t₁ : Instant) (status : Option ℕ)
      (body : Option Text) (e : NetworkEntry) : Type 0 where
    pub same_url : e.url ≡ url
    pub same_method : e.method ≡ method
    pub starts_at : e.started_at_ms ≡ at
    pub same_status : e.status ≡ status
    pub typed : ((ct ≡ []) × (e.content_type ≡ none)) ⊎ ((ct ≢ []) × (e.content_type ≡ some ct))
    pub timed :
        ((le t₀ t₁ ≡ true) × (e.timing_ms ≡ some (millis_between t₀ t₁)))
        ⊎ ((le t₀ t₁ ≡ false) × (e.timing_ms ≡ none))
    pub has_body : HasBody body e

  -- A second request with the id of one in flight is a redirect hop: with room in the log, the first
  -- hop becomes the last entry, with the redirect's status and no body, and the id stands for the
  -- new request.
  pub on_request_redirect :
      (log : NetworkLog Instant) (id url method : Text) (at : ℕ) (now : Instant)
      (redirect : Option ℕ) (p : Partial Instant)
      → lookup id log.partial ≡ some p
      → length log.entries < max_network_entries
      → let sent = on_request le millis_between log id url method at now redirect in
        (sent.entries ≡ log.entries ++ finish le millis_between p now redirect none ∷ [])
        × (lookup id sent.partial ≡ some (started url method at now))
        × ((finish le millis_between p now redirect none).body ≡ none)
        × ((finish le millis_between p now redirect none).status ≡ redirect)
  unfolding on_request finish kept_body
  on_request_redirect log id url method at now redirect p found room =
      rw (found, settle)
        (rw
          (push_room (record log { partial = remove id log.partial })
            (finish le millis_between p now redirect none) room)
          (refl, lookup-insert_self id (started url method at now) _, refl, refl))
