-- ===== src/Sync/Pairing/Exchange.antt =====
-- What a pairing of internal/sync/pairing.go comes to, on both sides and on every branch.
use clipman_daemon.Prelude.{
  if◌then◌else◌, Option-cases, Bool-cases, ◌≡◌, refl, ap, ◌∙◌, inl, inr, Bool, true, false, Option,
  none, some, List, [], ◌∷◌, Bytes, bytes_equal,
}
use clipman_daemon.Prelude.Dict.{lookup, insert, lookup-insert, lookup-insert_self}
use clipman_daemon.Sync.Pairing.{
  PairingManager, PairingError, invalid_address, cannot_pair_with_self, already_in_progress,
  PairingRequest, PairingRequestCallback, PairingResponse, Decision, decided, handler_failed, done,
  is_paired, disable_pairing,
}
use clipman_daemon.Sync.Pairing.Code.{Hmac, generate_verification_code}
use clipman_daemon.Sync.Pairing.Protocol.{
  Incoming, Outgoing, Answer, respond, call_handler, handle_pairing_request, accept_response,
  exchange, request_pairing, refused, clear_in_progress, decided_response, responding_device,
  outgoing_request,
}

-- What the initiator finds on the stream: the response that is written, none if there is none.
abbrev pub delivered : Option Answer → Option (Option PairingResponse)
delivered none = none
delivered (some s) = elim s.response [ none ↦ none | some r ↦ some (some r) ]

module _ (hmac : Hmac) where
  exchange-pairing_in_progress :
      (pm : PairingManager) (o : Outgoing) (peer : Bytes) (addrs : List Bytes)
      → (clear_in_progress (exchange hmac pm o peer addrs)).requester.pairing_in_progress ≡ false
  exchange-pairing_in_progress pm o peer addrs = refl

  -- An attempt to pair, however it ends, leaves the mark of a pairing in progress as it found it.
  pub request_pairing-pairing_in_progress :
      (pm : PairingManager) (o : Outgoing)
      → (request_pairing hmac pm o).requester.pairing_in_progress ≡ pm.pairing_in_progress
  unfolding request_pairing
  request_pairing-pairing_in_progress pm o = elim (Option-cases o.parsed) [
    | inl p ↦ rw p refl
    | inr ((peer, addrs), p) ↦ elim (Bool-cases (bytes_equal peer pm.config.own_peer_id)) [
      | inl self ↦ rw (p, self) refl
      | inr other ↦ rw (p, other) (go peer addrs pm.pairing_in_progress)
    ]
  ]
    where
      go :
          (peer : Bytes) (addrs : List Bytes) (busy : Bool)
          → (if busy
              then refused (record pm { pairing_in_progress = busy }) already_in_progress
              else clear_in_progress (
                  exchange hmac
                    (record pm { pairing_in_progress = true })
                    o
                    peer
                    addrs)).requester.pairing_in_progress
            ≡ busy
      go peer addrs true = refl
      go peer addrs false = refl

  -- While a pairing is in progress, another attempt fails and changes nothing.
  pub request_pairing_busy :
      (pm : PairingManager) (o : Outgoing)
      → pm.pairing_in_progress ≡ true
      → (x : PairingError) × (request_pairing hmac pm o ≡ refused pm x)
  unfolding request_pairing
  request_pairing_busy pm o busy = elim (Option-cases o.parsed) [
    | inl p ↦ (invalid_address, rw p refl)
    | inr ((peer, addrs), p) ↦ elim (Bool-cases (bytes_equal peer pm.config.own_peer_id)) [
      | inl self ↦ (cannot_pair_with_self, rw (p, self) refl)
      | inr other ↦ (already_in_progress, rw (p, other) (go peer addrs pm.pairing_in_progress busy))
    ]
  ]
    where
      go :
          (peer : Bytes) (addrs : List Bytes) (b : Bool)
          → b ≡ true
          → (if b
              then refused pm already_in_progress
              else clear_in_progress
                  (exchange hmac (record pm { pairing_in_progress = true }) o peer addrs))
            ≡ refused pm already_in_progress
      go peer addrs true h = refl
      go peer addrs false h = cc h

  -- A request changes the entry of the stream's other end and of no other device, whatever identity
  -- the request claims.
  pub respond-lookup :
      (pm : PairingManager) (request : PairingRequest) (random : Bytes) (i : Incoming)
      (d : Decision) (k : Bytes)
      → bytes_equal i.remote_peer k ≡ false
      → lookup k (respond hmac pm request random i d).manager.paired_devices
        ≡ lookup k pm.paired_devices
  unfolding respond
  respond-lookup pm request random i (handler_failed text) k h = refl
  respond-lookup pm request random i (decided false) k h = refl
  respond-lookup pm request random i (decided true) k h = rw (lookup-insert, h) refl

  initiator_pairs :
      (a : PairingManager) (o : Outgoing) (peer : Bytes) (addrs : List Bytes) (ra : Bytes)
      (response : PairingResponse)
      → o.parsed ≡ some (peer, addrs)
      → bytes_equal peer a.config.own_peer_id ≡ false
      → a.pairing_in_progress ≡ false
      → o.stream_opens ≡ true
      → o.own_random ≡ some ra
      → o.is_sent ≡ true
      → o.reply (outgoing_request a o ra) ≡ some (some response)
      → response.accepted ≡ true
      → request_pairing hmac a o ≡ record {
        requester = record a {
          pairing_in_progress = false;
          paired_devices =
              insert peer (responding_device peer addrs response o.sent_at) a.paired_devices;
        };
        result = done (record response {
          pairing_code = generate_verification_code hmac ra response.response_random_data;
        });
        discovered = if o.has_manual_discovery then o.address ∷ [] else [];
      }
  unfolding request_pairing exchange accept_response
  initiator_pairs a o peer addrs ra response h1 h2 h3 h4 h5 h6 h7 h8 =
      rw (h1, h2, h3, h4, h5, h6, h7, h8) refl

  responder_pairs :
      (b : PairingManager) (i : Incoming) (handler : PairingRequestCallback)
      (request : PairingRequest) (rb : Bytes) (meanwhile : PairingManager → PairingManager)
      → b.pairing_enabled ≡ true
      → (meanwhile b).incoming_handler ≡ some handler
      → i.request ≡ some (some request)
      → i.random ≡ some rb
      → handler request i.remote_peer ≡ decided true
      → handle_pairing_request hmac meanwhile b i
        ≡ some (respond hmac (meanwhile b) request rb i (decided true))
  unfolding handle_pairing_request call_handler
  responder_pairs b i handler request rb meanwhile h1 h2 h3 h4 h5 =
      simp (h1, h3, h4, h2, h5, call_handler)

  -- Between two different peers, from an initiator that is not pairing and a responder that has
  -- pairing enabled: when the responder's user accepts and the initiator reads what the responder
  -- writes, both sides store the other under its peer id, the two verification codes are the same,
  -- and no pairing is in progress.
  pub pairing_agreement :
      (a b : PairingManager) (o : Outgoing) (i : Incoming) (handler : PairingRequestCallback)
      (addrs : List Bytes) (ra rb : Bytes) (meanwhile : PairingManager → PairingManager)
      → o.parsed ≡ some (b.config.own_peer_id, addrs)
      → bytes_equal b.config.own_peer_id a.config.own_peer_id ≡ false
      → a.pairing_in_progress ≡ false
      → o.stream_opens ≡ true
      → o.own_random ≡ some ra
      → o.is_sent ≡ true
      → b.pairing_enabled ≡ true
      → (meanwhile b).incoming_handler ≡ some handler
      → i.request ≡ some (some (outgoing_request a o ra))
      → i.remote_peer ≡ a.config.own_peer_id
      → i.random ≡ some rb
      → handler (outgoing_request a o ra) a.config.own_peer_id ≡ decided true
      → o.reply (outgoing_request a o ra) ≡ delivered (handle_pairing_request hmac meanwhile b i)
      → (r : PairingResponse) × (s : Answer) × ((request_pairing hmac a o).result ≡ done r)
        × (handle_pairing_request hmac meanwhile b i ≡ some s)
        × (s.code ≡ some r.pairing_code)
        × (is_paired (request_pairing hmac a o).requester b.config.own_peer_id ≡ true)
        × (is_paired s.manager a.config.own_peer_id ≡ true)
        × ((request_pairing hmac a o).requester.pairing_in_progress ≡ false)
  unfolding respond is_paired
  pairing_agreement a b o i handler addrs ra rb meanwhile h1 h2 h3 h4 h5 h6 h7 h8 h9 h10 h11 h12
        h13 =
      let q =
        responder_pairs b i handler (outgoing_request a o ra) rb meanwhile h7 h8 h9 h11
          (rw h10 h12) in
      let p =
        initiator_pairs a o b.config.own_peer_id addrs ra
          (decided_response (meanwhile b) rb i.now true) h1 h2 h3 h4 h5 h6 (h13 ∙ ap delivered q)
          refl in
      (
        _,
        _,
        ap (λ r. r.result) p,
        q,
        refl,
        rw (p, lookup-insert_self) refl,
        rw (h10, lookup-insert_self) refl,
        ap (λ r. r.requester.pairing_in_progress) p,
      )

  -- A readable request that was let in while pairing was enabled, and comes to the call after
  -- pairing is disabled, calls the nil handler: a panic.
  pub handle_pairing_request_panic :
      (pm : PairingManager) (i : Incoming) (request : PairingRequest) (random : Bytes)
      → pm.pairing_enabled ≡ true
      → i.request ≡ some (some request)
      → i.random ≡ some random
      → handle_pairing_request hmac disable_pairing pm i ≡ none
  unfolding handle_pairing_request call_handler disable_pairing
  handle_pairing_request_panic pm i request random on q r = rw (on, q, r, on) refl
