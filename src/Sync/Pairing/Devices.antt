-- ===== src/Sync/Pairing/Devices.antt =====
-- The paired devices of internal/sync/pairing.go: each is stored under its own peer id.
use clipman_daemon.Prelude.{
  All, [], ◌∷◌, ◌≡◌, refl, inl, inr, Bool, true, false, Option, none, some, List, Bytes,
  bytes_equal, if◌then◌else◌, arith, Bool-cases, Option-cases, is_some,
}
use clipman_daemon.Prelude.Dict.{Dict, lookup, insert, delete}
use clipman_daemon.Sync.Pairing.{
  PairingManager, PairingRequest, PairingRequestCallback, PairingResponse, PairedDevice, Decision,
  decided, handler_failed, remove_paired_device, update_paired_device, already_in_progress,
}
use clipman_daemon.Sync.Pairing.Code.{Hmac}
use clipman_daemon.Sync.Pairing.Protocol.{
  Incoming, Outgoing, Answer, outgoing_request, requesting_device, responding_device, respond,
  call_handler, handle_pairing_request, accept_response, exchange, request_pairing, refused,
  clear_in_progress,
}

abbrev pub AllKeyed : Dict PairedDevice → Type 0
AllKeyed = All (λ x. x.1.peer_id ≡ x.0)

-- Every device stands under its own peer id.
abbrev pub IsKeyed : PairingManager → Type 0
IsKeyed pm = AllKeyed pm.paired_devices

insert-Keyed :
    (k : Bytes) (v : PairedDevice) (m : Dict PairedDevice)
    → v.peer_id ≡ k
    → AllKeyed m
    → AllKeyed (insert k v m)
unfolding insert
insert-Keyed k v [] own keyed = (own, tt)
insert-Keyed k v ((j, w) ∷ m) own keyed = elim (Bool-cases (bytes_equal j k)) [
  | inl same ↦ rw same (own, keyed.1)
  | inr other ↦ rw other (keyed.0, insert-Keyed k v m own keyed.1)
]

delete-Keyed : (k : Bytes) (m : Dict PairedDevice) → AllKeyed m → AllKeyed (delete k m)
unfolding delete
delete-Keyed k [] keyed = tt
delete-Keyed k ((j, w) ∷ m) keyed = elim (Bool-cases (bytes_equal j k)) [
  | inl same ↦ rw same (delete-Keyed k m keyed.1)
  | inr other ↦ rw other (keyed.0, delete-Keyed k m keyed.1)
]

remove_paired_device-IsKeyed :
    (pm : PairingManager) (peer : Bytes) → IsKeyed pm → IsKeyed (remove_paired_device pm peer).0
unfolding remove_paired_device
remove_paired_device-IsKeyed pm peer keyed =
    elim (Bool-cases (is_some (lookup peer pm.paired_devices))) [
      | inl there ↦ rw there (delete-Keyed peer pm.paired_devices keyed)
      | inr missing ↦ rw missing keyed
    ]

update_paired_device-IsKeyed :
    (pm : PairingManager) (device : PairedDevice)
    → IsKeyed pm
    → IsKeyed (update_paired_device pm device).0
unfolding update_paired_device
update_paired_device-IsKeyed pm device keyed =
    elim (Bool-cases (is_some (lookup device.peer_id pm.paired_devices))) [
      | inl there ↦ rw there (insert-Keyed device.peer_id device pm.paired_devices refl keyed)
      | inr missing ↦ rw missing keyed
    ]

-- Removing and updating a device keep every device under its own peer id.
pub edit_paired_devices-IsKeyed :
    (pm : PairingManager) (peer : Bytes) (device : PairedDevice)
    → IsKeyed pm
    → IsKeyed (remove_paired_device pm peer).0 × IsKeyed (update_paired_device pm device).0
edit_paired_devices-IsKeyed pm peer device keyed =
    (remove_paired_device-IsKeyed pm peer keyed, update_paired_device-IsKeyed pm device keyed)

module _ (hmac : Hmac) where
  respond-IsKeyed :
      (pm : PairingManager) (request : PairingRequest) (random : Bytes) (i : Incoming)
      (d : Decision)
      → IsKeyed pm
      → IsKeyed (respond hmac pm request random i d).manager
  unfolding respond
  respond-IsKeyed pm request random i (handler_failed text) keyed = keyed
  respond-IsKeyed pm request random i (decided false) keyed = keyed
  respond-IsKeyed pm request random i (decided true) keyed =
      insert-Keyed i.remote_peer (requesting_device request i) pm.paired_devices refl keyed

  some_inj : {x y : Answer} → some x ≡ some y → x ≡ y
  some_inj h = ground (arith, h)

  call_handler-IsKeyed :
      (pm : PairingManager) (request : PairingRequest) (random : Bytes) (i : Incoming) (a : Answer)
      → IsKeyed pm
      → call_handler hmac pm request random i ≡ some a
      → IsKeyed a.manager
  unfolding call_handler
  call_handler-IsKeyed pm request random i a keyed h = go pm.incoming_handler h
    where
      go :
          (handler : Option PairingRequestCallback)
          → elim handler [
            | none ↦ none
            | some f ↦ some (respond hmac pm request random i (f request i.remote_peer))
          ]
            ≡ some a
          → IsKeyed a.manager
      go none k = cc k
      go (some f) k =
          rw (← some_inj k) (respond-IsKeyed pm request random i (f request i.remote_peer) keyed)

  -- An incoming request, however it ends, keeps every device under its own peer id, if what runs
  -- meanwhile does.
  pub handle_pairing_request-IsKeyed :
      (meanwhile : PairingManager → PairingManager) (pm : PairingManager) (i : Incoming)
      (a : Answer)
      → ((p : PairingManager) → IsKeyed p → IsKeyed (meanwhile p))
      → IsKeyed pm
      → handle_pairing_request hmac meanwhile pm i ≡ some a
      → IsKeyed a.manager
  unfolding handle_pairing_request
  handle_pairing_request-IsKeyed meanwhile pm i a safe keyed h =
      elim (Bool-cases pm.pairing_enabled) [
        | inr off ↦ rw (← some_inj (rw (handle_pairing_request, off) at h)) keyed
        | inl on ↦
            let k = safe pm keyed in
            elim (Option-cases i.request) [
              | inl q ↦ rw (← some_inj (rw (handle_pairing_request, on, q) at h)) k
              | inr (none, q) ↦ rw (← some_inj (rw (handle_pairing_request, on, q) at h)) k
              | inr (some request, q) ↦ elim (Option-cases i.random) [
                | inl r ↦ rw (← some_inj (rw (handle_pairing_request, on, q, r) at h)) k
                | inr (random, r) ↦
                    call_handler-IsKeyed (meanwhile pm) request random i a k
                      (rw (handle_pairing_request, on, q, r) at h)
              ]
            ]
      ]

  accept_response-IsKeyed :
      (pm : PairingManager) (o : Outgoing) (peer : Bytes) (addrs : List Bytes) (random : Bytes)
      (response : PairingResponse)
      → IsKeyed pm
      → IsKeyed (accept_response hmac pm o peer addrs random response).requester
  unfolding accept_response
  accept_response-IsKeyed pm o peer addrs random response keyed =
      elim (Bool-cases response.accepted) [
        | inl accepted ↦ rw accepted (
            insert-Keyed peer (responding_device peer addrs response o.sent_at) pm.paired_devices
              refl keyed)
        | inr rejected ↦ rw rejected keyed
      ]

  exchange-IsKeyed :
      (pm : PairingManager) (o : Outgoing) (peer : Bytes) (addrs : List Bytes)
      → IsKeyed pm
      → IsKeyed (exchange hmac pm o peer addrs).requester
  unfolding exchange
  exchange-IsKeyed pm o peer addrs keyed = go o.stream_opens o.own_random o.is_sent o.reply
    where
      go :
          (opens : Bool) (random : Option Bytes) (sent : Bool)
          (reply : PairingRequest → Option (Option PairingResponse))
          → IsKeyed
              (exchange hmac pm
                (record o {
                  stream_opens = opens;
                  own_random = random;
                  is_sent = sent;
                  reply = reply;
                })
                peer
                addrs).requester
      go false r s reply = keyed
      go true none s reply = keyed
      go true (some random) false reply = keyed
      go true (some random) true reply =
          elim (Option-cases (reply (outgoing_request pm o random))) [
            | inl q ↦ rw q keyed
            | inr (none, q) ↦ rw q keyed
            | inr (some response, q) ↦ rw q (
                accept_response-IsKeyed pm
                  (record o {
                    stream_opens = true;
                    own_random = some random;
                    is_sent = true;
                    reply = reply;
                  })
                  peer addrs random response keyed)
          ]

  -- A request to another device, however it ends, keeps every device under its own peer id.
  pub request_pairing-IsKeyed :
      (pm : PairingManager) (o : Outgoing)
      → IsKeyed pm
      → IsKeyed (request_pairing hmac pm o).requester
  unfolding request_pairing
  request_pairing-IsKeyed pm o keyed = elim (Option-cases o.parsed) [
    | inl p ↦ rw p keyed
    | inr ((peer, addrs), p) ↦ elim (Bool-cases (bytes_equal peer pm.config.own_peer_id)) [
      | inl self ↦ rw (p, self) keyed
      | inr other ↦ rw (p, other) (go peer addrs pm.pairing_in_progress)
    ]
  ]
    where
      go :
          (peer : Bytes) (addrs : List Bytes) (busy : Bool)
          → IsKeyed
              (if busy
                then refused pm already_in_progress
                else clear_in_progress (
                    exchange hmac
                      (record pm { pairing_in_progress = true })
                      o
                      peer
                      addrs)).requester
      go peer addrs true = keyed
      go peer addrs false =
          exchange-IsKeyed (record pm { pairing_in_progress = true }) o peer addrs keyed
