-- ===== src/Tests/Syncing.antt =====
-- The theorems on internal/sync at concrete inputs.
use clipman_daemon.Prelude.{
  ◌≡◌, refl, Bool, true, false, none, some, List, [], ◌∷◌, Bytes, codes, length, arith, All,
  bytes_equal, take, if◌then◌else◌,
}
use clipman_daemon.Prelude.Int.{pos}
use clipman_daemon.Prelude.Dict.{lookup, insert}
use clipman_daemon.Sync.Pairing.{
  PairingConfig, PairingManager, PairingRequest, PairingRequestCallback, PairingResponse, decided,
  done, is_paired, disable_pairing,
}
use clipman_daemon.Sync.Pairing.Code.{
  Hmac, IsDigit, generate_verification_code, generate_verification_code-IsDigit,
}
use clipman_daemon.Sync.Pairing.Protocol.{
  Incoming, Outgoing, Answer, respond, call_handler, handle_pairing_request, request_pairing,
  decided_response, outgoing_request,
}
use clipman_daemon.Sync.Pairing.Devices.{IsKeyed, handle_pairing_request-IsKeyed}
use clipman_daemon.Sync.Pairing.Exchange.{pairing_agreement, handle_pairing_request_panic}
use clipman_daemon.Sync.Streams.{
  ReadStep, got, got_eof, filled, read_bytes, carried, read_bytes-take,
}
use clipman_daemon.Sync.Topics.{Node, IsPaired, join_topic}
use clipman_daemon.Sync.Config.{one_of, discovery_methods}
use clipman_daemon.Tests.Samples.{at}

-- A digest of 32 bytes.
abbrev hmac : Hmac
hmac key message = length key ∷ 2 ∷ 3 ∷ 4 ∷ codes "0123456789012345678901234567"

abbrev config_of : Bytes → PairingConfig
config_of peer = record {
  own_device_name = codes "host";
  own_device_type = codes "desktop";
  own_peer_id = peer;
  host_address = codes "/ip4/10.0.0.1/tcp/4001";
  config_pairing_timeout = pos 300;
}

abbrev accept_all : PairingRequestCallback
accept_all request peer = decided true

abbrev manager_of : Bytes → Bool → Bool → PairingManager
manager_of peer enabled busy = record {
  config = config_of peer;
  pairing_enabled = enabled;
  incoming_handler = if enabled then some accept_all else none;
  pairing_timeout = none;
  paired_devices = [];
  pairing_in_progress = busy;
  context_cancelled = false;
}

abbrev initiator : PairingManager
initiator = manager_of (codes "A") false false

abbrev responder : PairingManager
responder = manager_of (codes "B") true false

abbrev attempt : Outgoing
attempt = record {
  address = codes "/ip4/10.0.0.2/tcp/4001/p2p/B";
  parsed = some (codes "B", codes "/ip4/10.0.0.2/tcp/4001" ∷ []);
  stream_opens = true;
  own_random = some (codes "ra");
  own_nonce = codes "n";
  has_manual_discovery = false;
  is_sent = true;
  reply = λ r. some (some (decided_response responder (codes "rb") (at 4) true));
  sent_at = at 3;
}

abbrev request : PairingRequest
request = outgoing_request initiator attempt (codes "ra")

abbrev incoming : Incoming
incoming = record {
  request = some (some request);
  random = some (codes "rb");
  remote_peer = codes "A";
  remote_addresses = [];
  now = at 4;
}

generate_verification_code-IsDigit_example :
    (length (generate_verification_code hmac (codes "ra") (codes "rb")) ≡ 6)
    × All IsDigit (generate_verification_code hmac (codes "ra") (codes "rb"))
generate_verification_code-IsDigit_example =
    generate_verification_code-IsDigit hmac (codes "ra") (codes "rb")

different_peers : bytes_equal (codes "B") (codes "A") ≡ false
unfolding bytes_equal
different_peers = refl

other_peer : bytes_equal (codes "A") (codes "B") ≡ false
unfolding bytes_equal
other_peer = refl

pairing_agreement_example :
    (r : PairingResponse) × (s : Answer) × ((request_pairing hmac initiator attempt).result
      ≡ done r)
    × (handle_pairing_request hmac (λ pm. pm) responder incoming ≡ some s)
    × (s.code ≡ some r.pairing_code)
    × (is_paired (request_pairing hmac initiator attempt).requester (codes "B") ≡ true)
    × (is_paired s.manager (codes "A") ≡ true)
    × ((request_pairing hmac initiator attempt).requester.pairing_in_progress ≡ false)
unfolding handle_pairing_request
pairing_agreement_example =
    pairing_agreement hmac initiator responder attempt incoming accept_all
      (codes "/ip4/10.0.0.2/tcp/4001" ∷ []) (codes "ra") (codes "rb") (λ pm. pm) refl
      different_peers refl refl refl refl refl refl refl refl refl refl refl

handle_pairing_request_panic_example :
    handle_pairing_request hmac disable_pairing responder incoming ≡ none
handle_pairing_request_panic_example =
    handle_pairing_request_panic hmac responder incoming request (codes "rb") refl refl refl

abbrev accepted_answer : Answer
accepted_answer = respond hmac responder request (codes "rb") incoming (decided true)

accepted : handle_pairing_request hmac (λ pm. pm) responder incoming ≡ some accepted_answer
unfolding handle_pairing_request call_handler
accepted = refl

handle_pairing_request-IsKeyed_example : IsKeyed accepted_answer.manager
handle_pairing_request-IsKeyed_example =
    handle_pairing_request-IsKeyed hmac (λ pm. pm) responder incoming accepted_answer (λ p h. h) tt
      accepted

accepted-IsKeyed : IsKeyed accepted_answer.manager
unfolding respond insert
accepted-IsKeyed = (refl, tt)

abbrev steps : List ReadStep
steps = got (codes "ab") ∷ got [] ∷ got_eof (codes "cd") ∷ []

read_steps : read_bytes 4 [] steps ≡ filled (codes "abcd")
unfolding read_bytes
read_steps = refl

read_bytes-take_example : (codes "abcd" ≡ take 4 (carried steps)) × (length (codes "abcd") ≡ 4)
read_bytes-take_example = read_bytes-take 4 [] steps (codes "abcd") (omega arith) read_steps

abbrev node : Node
node = record { has_pubsub = true; topics = []; subscriptions = [] }

node-IsPaired : IsPaired node
unfolding lookup
node-IsPaired g = refl

joined : (join_topic node (codes "g") true true).1 ≡ none
unfolding join_topic lookup
joined = refl

mdns_is_known : one_of discovery_methods (codes "mdns") ≡ true
unfolding one_of bytes_equal
mdns_is_known = refl
