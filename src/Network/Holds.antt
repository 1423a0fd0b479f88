-- ===== src/Network/Holds.antt =====
-- What the relay of bhumi-relay/src/router.rs does with a message that it can pass on.
use bhumi.Base.{
  ℕ, ◌+◌, ◌^◌, ◌%◌, ◌≡◌, ◌≢◌, refl, sym, subst, ap, ◌∙◌, [], ◌∷◌, Bool, true, false, none, some,
  arith, bytes_has_eq, nat_has_eq, bytes_eq_iff,
}
use bhumi.Base.Map
use bhumi.Base.Map.{lookup-insert, lookup-insert_self, lookup-remove}
use bhumi.Base.Set
use bhumi.Base.Set.{contains-extend}
use bhumi.Proto.Buffer.{Bytes}
use bhumi.Proto.SendResult.{send_ok}
use bhumi.Relay.Router
use bhumi.Relay.Router.{
  Router, PendingDelivery, Env, responded, claimed, claim, take_commit, add_pending, add_commits,
  handle_ack, check_cache, route_message, finish, dispatch, settle,
}

-- The relay can pass a message with this preimage on to the device: it holds the device, with its
-- channel, and the preimage's commit; and it has no response for the preimage.
pub record Holds (sha256 : Bytes → Bytes) (id preimage : Bytes) (sender : ℕ) (r : Router)
    : Type 0 where
  pub device : Router.DeviceState
  pub registered : Map.lookup id r.devices ≡ some device
  pub channel : device.sender ≡ sender
  pub committed : Set.contains (sha256 preimage) device.commits ≡ true
  pub uncached : Map.lookup preimage r.response_cache ≡ none

module _ (sha256 : Bytes → Bytes) (id preimage : Bytes) (sender tx : ℕ) (r : Router)
    (h : Holds sha256 id preimage sender r) where
  -- The claim on such a message, and the router while the device works on it.
  abbrev pub claim_router : Router
  claim_router = record r {
    devices =
        Map.insert id (record h.device { commits = Set.remove (sha256 preimage) h.device.commits })
          r.devices;
    response_cache = Map.remove preimage r.response_cache;
    next_msg_id = (r.next_msg_id + 1) % 2 ^ 32;
  }

  abbrev pub waiting : Router
  waiting = add_pending r.next_msg_id preimage tx claim_router

  abbrev pub delivery : Bytes → PendingDelivery
  delivery payload = record { msg_id = r.next_msg_id; preimage = preimage; payload = payload }

  claim_lem :
      (is_closed : ℕ → Bool)
      → is_closed sender ≡ false
      → claim sha256 is_closed id preimage
          (record r { response_cache = Map.remove preimage r.response_cache })
        ≡ (claim_router, claimed r.next_msg_id sender)
  unfolding claim take_commit
  claim_lem is_closed still_open = ground (arith, still_open, h.registered, h.channel, h.committed)

  check_cache_lem :
      (now : ℕ)
      → check_cache now preimage r
        ≡ (record r { response_cache = Map.remove preimage r.response_cache }, none)
  unfolding check_cache
  check_cache_lem now = rw (check_cache, h.uncached) refl

  dispatch_lem :
      (env : Env) (payload sent : Bytes) (after : Router)
      → env.accepts ≡ true
      → env.tx ≡ tx
      → env.meanwhile waiting ≡ after
      → env.wait ≡ responded sent
      → dispatch env preimage payload (claim_router, claimed r.next_msg_id sender)
        ≡ (after, record { status = send_ok; payload = sent }, some (sender, delivery payload))
  unfolding dispatch settle
  dispatch_lem env payload sent after accepts same_tx turn answered =
      rw (dispatch, accepts, same_tx, turn, answered) refl

  -- The relay delivers the message, and hands on what the device answers.
  pub route_message-Holds :
      (env : Env) (payload sent : Bytes) (after : Router)
      → env.is_closed sender ≡ false
      → env.accepts ≡ true
      → env.tx ≡ tx
      → env.meanwhile waiting ≡ after
      → env.wait ≡ responded sent
      → route_message sha256 env id preimage payload r
        ≡ (after, record { status = send_ok; payload = sent }, some (sender, delivery payload))
  unfolding route_message finish
  route_message-Holds env payload sent after still_open accepts same_tx turn answered =
      ap (finish sha256 env id preimage payload) (check_cache_lem env.now)
      ∙ ap (dispatch env preimage payload) (claim_lem env.is_closed still_open)
      ∙ dispatch_lem env payload sent after accepts same_tx turn answered

  -- The device's entry with its new commit.
  abbrev renewed_device : Bytes → Router.DeviceState
  renewed_device fresh = record h.device {
    commits = Set.extend (sha256 fresh ∷ []) (Set.remove (sha256 preimage) h.device.commits);
  }

  abbrev renewed : Bytes → Router
  unfolding add_pending
  renewed fresh = record waiting { devices = Map.insert id (renewed_device fresh) waiting.devices }

  add_commits_lem : (fresh : Bytes) → add_commits id (sha256 fresh ∷ []) waiting ≡ renewed fresh
  unfolding add_commits add_pending renewed
  add_commits_lem fresh = rw (add_commits, lookup-insert_self id _ r.devices) refl

  handle_ack-renewed :
      (now : ℕ) (sent fresh : Bytes)
      → fresh ≢ preimage
      → Map.lookup fresh r.response_cache ≡ none
      → ((handle_ack now r.next_msg_id sent (renewed fresh)).1 ≡ some (tx, sent))
        × Holds sha256 id fresh sender (handle_ack now r.next_msg_id sent (renewed fresh)).0
  unfolding handle_ack add_pending renewed
  handle_ack-renewed now sent fresh other uncached =
      let waits = lookup-insert_self r.next_msg_id (preimage, tx) r.pending in
      let kept = Set.remove (sha256 preimage) h.device.commits in
      rw (handle_ack, waits)
        (
          refl,
          record {
            device = renewed_device fresh;
            registered = lookup-insert_self id (renewed_device fresh) waiting.devices;
            channel = h.channel;
            committed =
                unfold Set.contains in
                ground (
                  arith,
                  contains-extend (sha256 fresh) (sha256 fresh ∷ []) kept,
                  bytes_eq_iff (sha256 fresh) (sha256 fresh),
                );
            uncached = ground (
              arith,
              lookup-insert preimage fresh
                  (record { response = sent; expires_at = now + r.cache_ttl })
                  (Map.remove preimage r.response_cache),
              lookup-remove preimage fresh r.response_cache,
              bytes_eq_iff preimage fresh,
              uncached,
            );
          },
        )

  -- What the relay has once the device has given it a new commit and has answered: the sender that
  -- waits is told the answer, and the device can be reached with the new preimage.
  pub handle_ack-Holds :
      (now : ℕ) (sent fresh : Bytes)
      → fresh ≢ preimage
      → Map.lookup fresh r.response_cache ≡ none
      → let r3 = add_commits id (sha256 fresh ∷ []) waiting in
        ((handle_ack now r.next_msg_id sent r3).1 ≡ some (tx, sent))
        × Holds sha256 id fresh sender (handle_ack now r.next_msg_id sent r3).0
  handle_ack-Holds now sent fresh other uncached =
      subst
        (λ r3.
          ((handle_ack now r.next_msg_id sent r3).1 ≡ some (tx, sent))
          × Holds sha256 id fresh sender (handle_ack now r.next_msg_id sent r3).0)
        (sym (add_commits_lem fresh)) (handle_ack-renewed now sent fresh other uncached)
