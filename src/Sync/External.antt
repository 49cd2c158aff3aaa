-- ===== src/Sync/External.antt =====
-- internal/types/sync.go: the types of the sync package's interface, and how internal/sync/sync.go makes
-- them of its own.
use clipman_daemon.Prelude.{Bool, Bytes}
use clipman_daemon.Content.{Timestamp}
use clipman_daemon.Sync.Pairing.{
  PairingRequest, PairingRequestCallback, PairingResponse, PairedDevice, Decision,
}

pub record ExternalRequest : Type 0 where
  pub device_name : Bytes
  pub device_type : Bytes
  pub peer_id : Bytes

pub record ExternalResponse : Type 0 where
  pub accepted : Bool
  pub error_message : Bytes
  pub pairing_code : Bytes
  pub device_name : Bytes
  pub device_type : Bytes
  pub peer_id : Bytes

pub record ExternalDevice : Type 0 where
  pub peer_id : Bytes
  pub device_name : Bytes
  pub device_type : Bytes
  pub last_seen : Timestamp
  pub paired_at : Timestamp

abbrev pub ExternalCallback : Type 0
ExternalCallback = ExternalRequest → Bytes → Decision

unfoldable pub external_request : PairingRequest → ExternalRequest
external_request r = record {
  device_name = r.request_device_name;
  device_type = r.request_device_type;
  peer_id = r.request_peer_id;
}

unfoldable pub external_response : PairingResponse → ExternalResponse
external_response r = record {
  accepted = r.accepted;
  error_message = r.error_message;
  pairing_code = r.pairing_code;
  device_name = r.response_device_name;
  device_type = r.response_device_type;
  peer_id = r.response_peer_id;
}

unfoldable pub external_device : PairedDevice → ExternalDevice
external_device d = record {
  peer_id = d.peer_id;
  device_name = d.device_name;
  device_type = d.device_type;
  last_seen = d.last_seen;
  paired_at = d.paired_at;
}

-- The wrapper around a handler.
unfoldable pub internal_handler : ExternalCallback → PairingRequestCallback
unfolding external_request
internal_handler handler request peer = handler (external_request request) peer
