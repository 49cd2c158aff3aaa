-- ===== src/Sync/Pairing/Protocol.antt =====
-- internal/sync/pairing.go: the two ends of a pairing, `handlePairingRequest` and `RequestPairing`.
use clipman_daemon.Prelude.{
  Bool, true, false, not, Option, none, some, List, [], ◌∷◌, ◌++◌, Bytes, codes, bytes_equal,
  if◌then◌else◌,
}
use clipman_daemon.Prelude.Dict.{insert}
use clipman_daemon.Content.{Timestamp, zero_time}
use clipman_daemon.Sync.Pairing.{
  PairingManager, PairingRequest, PairingResponse, PairedDevice, Decision, decided, handler_failed,
  PairingError, Reply, done, failed, capabilities_of, version_metadata, pairing_error,
  invalid_address, cannot_pair_with_self, already_in_progress, open_stream_failed, random_failed,
  send_failed, read_failed, invalid_response,
}
use clipman_daemon.Sync.Pairing.Code.{Hmac, generate_verification_code}

-- What an incoming request meets. `request` is none when the line cannot be read, and `some none`
-- when it is no JSON of a request; `random` is 16 random bytes in base64, or an error.
pub record Incoming : Type 0 where
  pub request : Option (Option PairingRequest)
  pub random : Option Bytes
  pub remote_peer : Bytes
  pub remote_addresses : List Bytes
  pub now : Timestamp

-- What a request leaves: the manager, the response written if any, and the code shown if accepted.
pub record Answer : Type 0 where
  pub manager : PairingManager
  pub response : Option PairingResponse
  pub code : Option Bytes

abbrev pub answer : PairingManager → Option PairingResponse → Answer
answer pm r = record { manager = pm; response = r; code = none }

-- The response of a device whose user has decided.
abbrev pub decided_response : PairingManager → Bytes → Timestamp → Bool → PairingResponse
decided_response pm random now accepted = record {
  accepted = accepted;
  error_message = if accepted then [] else codes "Pairing request rejected";
  pairing_code = [];
  response_device_name = pm.config.own_device_name;
  response_device_type = pm.config.own_device_type;
  response_timestamp = now;
  response_random_data = random;
  response_peer_id = pm.config.own_peer_id;
  response_metadata = version_metadata;
  valid_until = zero_time;
}

-- The device that sent a request, under the identity of the stream's other end.
abbrev pub requesting_device : PairingRequest → Incoming → PairedDevice
requesting_device request i = record {
  peer_id = i.remote_peer;
  device_name = request.request_device_name;
  device_type = request.request_device_type;
  last_seen = i.now;
  paired_at = i.now;
  addresses = i.remote_addresses;
  metadata = request.request_metadata;
  capabilities = capabilities_of request.request_metadata;
}

-- From the handler's decision to the response.
unfoldable pub respond :
    Hmac → PairingManager → PairingRequest → Bytes → Incoming → Decision → Answer
respond hmac pm request random i (handler_failed text) =
    answer pm (some (pairing_error (codes "Error: " ++ text) i.now))
respond hmac pm request random i (decided false) =
    answer pm (some (decided_response pm random i.now false))
respond hmac pm request random i (decided true) = record {
  manager = record pm {
    paired_devices = insert i.remote_peer (requesting_device request i) pm.paired_devices;
  };
  response = some (decided_response pm random i.now true);
  code = some (generate_verification_code hmac request.request_random_data random);
}

-- The handler's call, where `incomingHandler` is read without the lock; `none` is the panic of a
-- call through nil.
unfoldable pub call_handler :
    Hmac → PairingManager → PairingRequest → Bytes → Incoming → Option Answer
unfolding respond
call_handler hmac pm request random i = elim pm.incoming_handler [
  | none ↦ none
  | some handler ↦ some (respond hmac pm request random i (handler request i.remote_peer))
]

-- `handlePairingRequest`. `meanwhile` is what other goroutines do to the manager between the test of
-- `pairingEnabled` and the handler's call.
unfoldable pub handle_pairing_request :
    Hmac → (PairingManager → PairingManager) → PairingManager → Incoming → Option Answer
unfolding call_handler
handle_pairing_request hmac meanwhile pm i =
    if not pm.pairing_enabled
    then some (answer pm (some (pairing_error (codes "Pairing not enabled on this device") i.now)))
    else elim i.request [
      | none ↦ some (answer (meanwhile pm) none)
      | some none ↦
          some (answer (meanwhile pm) (some (pairing_error (codes "Invalid request format") i.now)))
      | some (some request) ↦ elim i.random [
        | none ↦ some (answer (meanwhile pm) (some (pairing_error (codes "Internal error") i.now)))
        | some random ↦ call_handler hmac (meanwhile pm) request random i
      ]
    ]

-- What `RequestPairing` meets: the parsed address, whether the host has a manual discovery service,
-- whether the stream opens, the random data, whether the request is sent, and the response: none when
-- no line is read, `some none` when it is no JSON.
pub record Outgoing : Type 0 where
  pub address : Bytes
  pub parsed : Option (Bytes × List Bytes)
  pub stream_opens : Bool
  pub own_random : Option Bytes
  pub own_nonce : Bytes
  pub has_manual_discovery : Bool
  pub is_sent : Bool
  pub reply : PairingRequest → Option (Option PairingResponse)
  pub sent_at : Timestamp

-- What it leaves: the manager, the result, and what was handed to the manual discovery service.
pub record Requested : Type 0 where
  pub requester : PairingManager
  pub result : Reply PairingResponse
  pub discovered : List Bytes

abbrev pub refused : PairingManager → PairingError → Requested
refused pm x = record { requester = pm; result = failed x; discovered = [] }

abbrev pub outgoing_request : PairingManager → Outgoing → Bytes → PairingRequest
outgoing_request pm o random = record {
  request_device_name = pm.config.own_device_name;
  request_device_type = pm.config.own_device_type;
  request_timestamp = o.sent_at;
  request_random_data = random;
  request_peer_id = pm.config.own_peer_id;
  nonce = o.own_nonce;
  request_metadata = version_metadata;
}

abbrev pub responding_device : Bytes → List Bytes → PairingResponse → Timestamp → PairedDevice
responding_device peer addrs response now = record {
  peer_id = peer;
  device_name = response.response_device_name;
  device_type = response.response_device_type;
  last_seen = now;
  paired_at = now;
  addresses = addrs;
  metadata = response.response_metadata;
  capabilities = capabilities_of response.response_metadata;
}

-- From the response on.
unfoldable pub accept_response :
    Hmac → PairingManager → Outgoing → Bytes → List Bytes → Bytes → PairingResponse → Requested
accept_response hmac pm o peer addrs random response =
    if response.accepted
    then record {
      requester = record pm {
        paired_devices =
            insert peer (responding_device peer addrs response o.sent_at) pm.paired_devices;
      };
      result = done (record response {
        pairing_code = generate_verification_code hmac random response.response_random_data;
      });
      discovered = if o.has_manual_discovery then o.address ∷ [] else [];
    }
    else record { requester = pm; result = done response; discovered = [] }

-- From the opened stream to the response.
unfoldable pub exchange : Hmac → PairingManager → Outgoing → Bytes → List Bytes → Requested
unfolding accept_response
exchange hmac pm o peer addrs =
    if not o.stream_opens then refused pm open_stream_failed else elim o.own_random [
      | none ↦ refused pm random_failed
      | some random ↦
          if not o.is_sent
          then refused pm send_failed
          else elim (o.reply (outgoing_request pm o random)) [
            | none ↦ refused pm read_failed
            | some none ↦ refused pm invalid_response
            | some (some response) ↦ accept_response hmac pm o peer addrs random response
          ]
    ]

-- The deferred function.
abbrev pub clear_in_progress : Requested → Requested
clear_in_progress r = record r { requester = record r.requester { pairing_in_progress = false } }

unfoldable pub request_pairing : Hmac → PairingManager → Outgoing → Requested
unfolding exchange
request_pairing hmac pm o = elim o.parsed [
  | none ↦ refused pm invalid_address
  | some (peer, addrs) ↦
      if bytes_equal peer pm.config.own_peer_id
      then refused pm cannot_pair_with_self
      else if pm.pairing_in_progress
      then refused pm already_in_progress
      else clear_in_progress (exchange hmac (record pm { pairing_in_progress = true }) o peer addrs)
]
