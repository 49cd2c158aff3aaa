-- ===== src/Sync/Pairing/Service.antt =====
-- internal/sync/pairing.go: the dispatch on a stream's first line, and PairingDiscoveryService.
use clipman_daemon.Prelude.{
  ◌≡◌, ap, bytes_equal_sound, Bool, true, false, not, Option, none, some, List, [], ◌∷◌, ◌++◌,
  Bytes, codes, bytes_equal, is_some, if◌then◌else◌, arith, inl, inr, Bool-cases,
}
use clipman_daemon.Prelude.Dict.{lookup, lookup-insert}
use clipman_daemon.Content.{Timestamp}
use clipman_daemon.Sync.Discovery.Manual.{Host}
use clipman_daemon.Sync.Node.{parse_addresses}
use clipman_daemon.Sync.Pairing.{
  PairingManager, PairedDevice, get_paired_devices, update_paired_device,
}
use clipman_daemon.Sync.Pairing.Protocol.{Incoming, Answer, answer, handle_pairing_request}
use clipman_daemon.Sync.Pairing.Code.{Hmac}

-- `Handle`; none for the line is an error, after which the stream is reset. The handler of VERIFY is
-- empty.
unfoldable pub handle :
    Hmac
    → (PairingManager → PairingManager)
    → PairingManager
    → Option Bytes
    → Incoming
    → Option Answer
unfolding handle_pairing_request
handle hmac meanwhile pm none i = some (answer pm none)
handle hmac meanwhile pm (some line) i =
    if bytes_equal line (codes "REQUEST\n")
    then handle_pairing_request hmac meanwhile pm i
    else some (answer pm none)

-- The service, with what it dials and adds to the peerstore.
pub record PairingDiscoveryService (M : Type 0) : Type 0 where
  pub started : Bool
  pub dialled : List (Bytes × List M)

module _ {M : Type 0} (host : Host M) where
  -- `connectToPairedDevice` up to its goroutine: what is dialled, if anything.
  unfoldable pub connect_to_paired_device : PairedDevice → Option (Bytes × List M)
  unfolding parse_addresses
  connect_to_paired_device device = elim device.addresses [
    | [] ↦ none
    | a ∷ addresses ↦ elim (host.decode device.peer_id) [
      | none ↦ none
      | some id ↦ some (id, parse_addresses host (a ∷ addresses))
    ]
  ]

  unfoldable pub connect_all : List PairedDevice → List (Bytes × List M)
  unfolding connect_to_paired_device
  connect_all [] = []
  connect_all (device ∷ devices) =
      let rest = connect_all devices in
      elim (connect_to_paired_device device) [ none ↦ rest | some info ↦ info ∷ rest ]

  unfoldable pub start : PairingDiscoveryService M → PairingManager → PairingDiscoveryService M
  unfolding connect_all get_paired_devices
  start s pm =
      if s.started
      then s
      else record { started = true; dialled = s.dialled ++ connect_all (get_paired_devices pm) }

  unfoldable pub stop : PairingDiscoveryService M → PairingDiscoveryService M
  stop s = if not s.started then s else record s { started = false }

-- The goroutine of a connection: the device is the copy that `Start` took.
unfoldable pub connected : PairedDevice → Bool → Timestamp → PairingManager → PairingManager
unfolding update_paired_device
connected device connects now pm =
    if not connects then pm else (update_paired_device pm (record device { last_seen = now })).0

-- A connection that ends adds no device and removes none, whatever happened since the start.
pub connected-lookup :
    (device : PairedDevice) (connects : Bool) (now : Timestamp) (pm : PairingManager) (peer : Bytes)
    → is_some (lookup peer (connected device connects now pm).paired_devices)
      ≡ is_some (lookup peer pm.paired_devices)
unfolding connected update_paired_device
connected-lookup device connects now pm peer = elim (Bool-cases (bytes_equal device.peer_id peer)) [
  | inl same ↦
      let named = bytes_equal_sound device.peer_id peer same in
      ground (
        arith,
        same,
        ap (λ k. lookup k pm.paired_devices) named,
        lookup-insert device.peer_id peer (record device { last_seen = now }) pm.paired_devices,
      )
  | inr other ↦ ground (
    arith,
    other,
    lookup-insert device.peer_id peer (record device { last_seen = now }) pm.paired_devices,
  )
]
