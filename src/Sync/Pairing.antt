-- ===== src/Sync/Pairing.antt =====
-- internal/sync/pairing.go: pairing two devices. What the network, the clock and the random source
-- give is an argument of each operation; saving the devices to disk is a stub in the code, which
-- cannot fail, and what is only logged is left out.
pub mod Code
pub mod Service
pub mod Protocol
pub mod Devices
pub mod Exchange
use clipman_daemon.Prelude.{
  Bool, true, false, not, Option, none, some, List, [], ◌∷◌, ◌++◌, Bytes, codes, is_some,
  if◌then◌else◌,
}
use clipman_daemon.Prelude.Int.{ℤ, pos, ltb_ℤ}
use clipman_daemon.Prelude.Dict.{Dict, lookup, insert, delete, values}
use clipman_daemon.Content.{Timestamp, zero_time}

pub record PairingRequest : Type 0 where
  pub request_device_name : Bytes
  pub request_device_type : Bytes
  pub request_timestamp : Timestamp
  pub request_random_data : Bytes
  pub request_peer_id : Bytes
  pub nonce : Bytes
  pub request_metadata : Dict Bytes

pub record PairingResponse : Type 0 where
  pub accepted : Bool
  pub error_message : Bytes
  pub pairing_code : Bytes
  pub response_device_name : Bytes
  pub response_device_type : Bytes
  pub response_timestamp : Timestamp
  pub response_random_data : Bytes
  pub response_peer_id : Bytes
  pub response_metadata : Dict Bytes
  pub valid_until : Timestamp

pub record PairedDevice : Type 0 where
  pub peer_id : Bytes
  pub device_name : Bytes
  pub device_type : Bytes
  pub last_seen : Timestamp
  pub paired_at : Timestamp
  pub addresses : List Bytes
  pub metadata : Dict Bytes
  pub capabilities : List Bytes

-- What the user's handler answers: a decision, or an error and its text.
pub data Decision : Type 0 where
  decided : Bool → Decision
  handler_failed : Bytes → Decision

abbrev pub PairingRequestCallback : Type 0
PairingRequestCallback = PairingRequest → Bytes → Decision

-- The fields of SyncConfig and of the host that pairing reads. `host_address` is the first of the
-- host's addresses; the host of a started node has one.
pub record PairingConfig : Type 0 where
  pub own_device_name : Bytes
  pub own_device_type : Bytes
  pub own_peer_id : Bytes
  pub host_address : Bytes
  -- in seconds
  pub config_pairing_timeout : ℤ

-- `pairing_timeout` is the time, in seconds, of the timer if one is armed.
pub record PairingManager : Type 0 where
  pub config : PairingConfig
  pub pairing_enabled : Bool
  pub incoming_handler : Option PairingRequestCallback
  pub pairing_timeout : Option ℤ
  pub paired_devices : Dict PairedDevice
  pub pairing_in_progress : Bool
  pub context_cancelled : Bool

pub data PairingError : Type 0 where
  already_enabled invalid_address cannot_pair_with_self already_in_progress open_stream_failed :
      PairingError
  random_failed send_failed read_failed invalid_response device_not_paired : PairingError

-- A value and nil, or an error.
pub data Reply {ℓ} (A : Type ℓ) : Type ℓ where
  done : A → Reply A
  failed : PairingError → Reply A

unfoldable pub new_pairing_manager : PairingConfig → PairingManager
new_pairing_manager config = record {
  config = config;
  pairing_enabled = false;
  incoming_handler = none;
  pairing_timeout = none;
  paired_devices = [];
  pairing_in_progress = false;
  context_cancelled = false;
}

unfoldable pub stop : PairingManager → PairingManager
stop pm =
    if pm.pairing_enabled
    then record pm { pairing_timeout = none; pairing_enabled = false; context_cancelled = true }
    else record pm { context_cancelled = true }

unfoldable pub enable_pairing :
    PairingManager → PairingRequestCallback → PairingManager × Reply Bytes
enable_pairing pm handler = if pm.pairing_enabled then (pm, failed already_enabled) else (
  record pm {
    incoming_handler = some handler;
    pairing_enabled = true;
    pairing_timeout =
        if ltb_ℤ (pos 0) pm.config.config_pairing_timeout
        then some pm.config.config_pairing_timeout
        else pm.pairing_timeout;
  },
  done (pm.config.host_address ++ codes "/p2p/" ++ pm.config.own_peer_id),
)

-- Also what the timer of `EnablePairing` calls.
unfoldable pub disable_pairing : PairingManager → PairingManager
disable_pairing pm =
    if pm.pairing_enabled
    then record pm { pairing_timeout = none; pairing_enabled = false; incoming_handler = none }
    else pm

unfoldable pub is_pairing_enabled : PairingManager → Bool
is_pairing_enabled pm = pm.pairing_enabled

unfoldable pub is_paired : PairingManager → Bytes → Bool
is_paired pm peer = is_some (lookup peer pm.paired_devices)

unfoldable pub get_paired_devices : PairingManager → List PairedDevice
get_paired_devices pm = values pm.paired_devices

unfoldable pub remove_paired_device : PairingManager → Bytes → PairingManager × Option PairingError
remove_paired_device pm peer =
    if not (is_some (lookup peer pm.paired_devices))
    then (pm, some device_not_paired)
    else (record pm { paired_devices = delete peer pm.paired_devices }, none)

unfoldable pub update_paired_device :
    PairingManager → PairedDevice → PairingManager × Option PairingError
update_paired_device pm device =
    if not (is_some (lookup device.peer_id pm.paired_devices))
    then (pm, some device_not_paired)
    else (record pm { paired_devices = insert device.peer_id device pm.paired_devices }, none)

-- `if caps, ok := metadata["capabilities"]; ok`
abbrev pub capabilities_of : Dict Bytes → List Bytes
capabilities_of m = elim (lookup (codes "capabilities") m) [ none ↦ [] | some caps ↦ caps ∷ [] ]

abbrev pub version_metadata : Dict Bytes
version_metadata = (codes "version", codes "1.0.0") ∷ []

-- `sendPairingError`
abbrev pub pairing_error : Bytes → Timestamp → PairingResponse
pairing_error message now = record {
  accepted = false;
  error_message = message;
  pairing_code = [];
  response_device_name = [];
  response_device_type = [];
  response_timestamp = now;
  response_random_data = [];
  response_peer_id = [];
  response_metadata = [];
  valid_until = zero_time;
}
