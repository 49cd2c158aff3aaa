-- ===== src/Cli/Pair.antt =====
-- internal/cli/cmd/pair.go: the command that pairs devices. Each run makes a manager of its own; what the
-- network, the terminal and libp2p answer is an argument. Of the messages the list of devices is kept.
pub mod Losing
pub mod Consent
pub mod Mode
use clipman_daemon.Prelude.{
  ℕ, suc, ◌+◌, ◌/◌, ◌==◌, Bool, true, not, ◌||◌, Option, none, some, List, [], ◌∷◌, ◌++◌, Bytes,
  codes, bytes_equal, ltb, length, if◌then◌else◌,
}
use clipman_daemon.Prelude.Int.{ℤ, pos, ltb_ℤ}
use clipman_daemon.Text.{trim_space}
use clipman_daemon.Text.Decimal.{decimal}
use clipman_daemon.Sync.Config.{SyncConfig}
use clipman_daemon.Sync.Discovery.{Write, File}
use clipman_daemon.Sync.Discovery.Manual.{Host}
use clipman_daemon.Sync.Node.{Services}
use clipman_daemon.Sync.Node.Making.{Making, NodeError}
use clipman_daemon.Sync.Manager.{
  SyncManager, ManagerError, NewResult, made, not_made, new, start, request, enable_pairing,
  disable_pairing, is_pairing_enabled, is_paired, get_paired_devices, remove_paired_device,
}
use clipman_daemon.Sync.Pairing.{PairingManager, Decision, decided, handler_failed}
use clipman_daemon.Sync.External.{ExternalRequest, ExternalDevice}
use clipman_daemon.Sync.Pairing as Pairing
use clipman_daemon.Sync.Pairing.Code.{Hmac}
use clipman_daemon.Sync.Pairing.Protocol.{Incoming, Outgoing, handle_pairing_request}

pub data PairError : Type 0 where
  no_manager : NodeError → PairError
  no_configuration input_failed cancelled no_devices not_paired : PairError
  failed : ManagerError → PairError

-- Lower case, without the space around it, is "y" or "yes".
unfoldable pub is_yes : (Bytes → Bytes) → Bytes → Bool
is_yes to_lower line =
    bytes_equal (trim_space (to_lower line)) (codes "y")
    || bytes_equal (trim_space (to_lower line)) (codes "yes")

unfoldable pub plural : ℕ → Bytes
plural count = if count == 1 then [] else codes "s"

abbrev ago : ℕ → Bytes → Bytes
ago n unit = decimal n ++ (unit ++ (plural n ++ codes " ago"))

-- Of a number of seconds, not negative; what lies in the future is "just now", too.
unfoldable pub format_relative_time : ℕ → Bytes
unfolding plural decimal
format_relative_time seconds =
    if ltb seconds 60
    then codes "just now"
    else if ltb seconds 3_600
    then ago (seconds / 60) (codes " minute")
    else if ltb seconds 86_400
    then ago (seconds / 3_600) (codes " hour")
    else if ltb seconds 2_592_000
    then ago (seconds / 86_400) (codes " day")
    else if ltb seconds 31_536_000
    then ago (seconds / 2_592_000) (codes " month")
    else ago (seconds / 31_536_000) (codes " year")

-- `since` is the number of seconds since a time.
unfoldable pub device_lines : (ExternalDevice → ℕ × ℕ) → ℕ → List ExternalDevice → List Bytes
unfolding format_relative_time
device_lines since n [] = []
device_lines since n (d ∷ devices) =
    (decimal n
      ++ (codes ". Device: " ++ (d.device_name ++ (codes " (" ++ (d.device_type ++ codes ")")))))
    ∷ (codes "   Peer ID: " ++ d.peer_id)
    ∷ (codes "   Paired: " ++ format_relative_time (since d).0)
    ∷ (codes "   Last seen: " ++ format_relative_time (since d).1)
    ∷ []
    ∷ device_lines since (suc n) devices

unfoldable pub list_lines : (ExternalDevice → ℕ × ℕ) → List ExternalDevice → List Bytes
unfolding device_lines
list_lines since [] =
    codes "No paired devices found"
    ∷ []
    ∷ codes "To pair with a device:"
    ∷ codes "1. Run 'clipman pair' on this device to enter pairing mode"
    ∷ codes "2. Share the displayed address with your other device"
    ∷ codes "3. On the other device, run 'clipman pair --request <address>'"
    ∷ codes "4. Accept the pairing request and verify the codes match"
    ∷ []
list_lines since (d ∷ devices) =
    (codes "Found " ++ (decimal (length (d ∷ devices)) ++ codes " paired devices:"))
    ∷ []
    ∷ (device_lines since 1 (d ∷ devices)
        ++ codes "To remove a device, use: clipman pair --remove <peer_id>" ∷ [])

-- What a run meets: how the manager is made, the file of peers, pubsub, and the lines that are typed,
-- none for an error.
pub record Answers (X D : Type 0) : Type 0 where
  pub making : Making X
  pub config : SyncConfig
  pub address : Bytes
  pub file : File D
  pub pubsub_made : Bool
  pub makes_dir : Bool
  pub write : Write D
  pub typed : Option Bytes
  pub to_lower : Bytes → Bytes

-- What it leaves: the manager before it is stopped, the lines of the list, and the error.
pub record Outcome (M X : Type 0) : Type 0 where
  pub last : Option (SyncManager M X)
  pub lines : List Bytes
  pub error : Option PairError

abbrev stopped_with : {M X : Type 0} → PairError → Outcome M X
stopped_with e = record { last = none; lines = []; error = some e }

abbrev ended : {M X : Type 0} → SyncManager M X → List Bytes → Option PairError → Outcome M X
ended m lines e = record { last = some m; lines = lines; error = e }

module _ {M X D : Type 0} (host : Host M) (services : Services X (Unit {0}) D) where
  -- `getSyncManager`, with the manager or the error; its warning is left out.
  unfoldable pub get_sync_manager : Answers X D → NewResult M X
  unfolding new
  get_sync_manager a = new host a.making a.config a.address

  unfoldable pub started_manager : Answers X D → SyncManager M X → SyncManager M X
  unfolding start
  started_manager a m = start host services a.file a.pubsub_made m

  -- `ensurePairingEnabled`; it enables nothing.
  unfoldable pub ensure_pairing_enabled : Answers X D → SyncManager M X → Option PairError
  unfolding is_pairing_enabled is_yes
  ensure_pairing_enabled a m =
      if is_pairing_enabled m
      then none
      else if bytes_equal m.config.device_name []
      then some no_configuration
      else if m.config.pairing_enabled
      then none
      else elim a.typed [
        | none ↦ some input_failed
        | some line ↦ if is_yes a.to_lower line then none else some cancelled
      ]

  unfoldable pub list_paired_devices : Answers X D → (ExternalDevice → ℕ × ℕ) → Outcome M X
  unfolding get_sync_manager started_manager get_paired_devices list_lines
  list_paired_devices a since = elim (get_sync_manager a) [
    | not_made e ↦ stopped_with (no_manager e)
    | made m ↦
        let m' = started_manager a m in ended m' (list_lines since (get_paired_devices m')) none
  ]

  -- From the started manager on.
  unfoldable pub remove_from : Answers X D → Bytes → SyncManager M X → Outcome M X
  unfolding is_paired get_paired_devices remove_paired_device is_yes
  remove_from a peer_id m =
      if not (is_paired m peer_id)
      then elim (get_paired_devices m) [
        | [] ↦ ended m [] (some no_devices)
        | d ∷ devices ↦ ended m [] (some not_paired)
      ]
      else elim a.typed [
        | none ↦ ended m [] (some input_failed)
        | some line ↦
            if not (is_yes a.to_lower line)
            then ended m [] none
            else elim (remove_paired_device peer_id m).1 [
              | some e ↦ ended (remove_paired_device peer_id m).0 [] (some (failed e))
              | none ↦ ended (remove_paired_device peer_id m).0 [] none
            ]
      ]

  unfoldable pub remove : Answers X D → Bytes → Outcome M X
  unfolding get_sync_manager started_manager remove_from
  remove a peer_id = elim (get_sync_manager a) [
    | not_made e ↦ stopped_with (no_manager e)
    | made m ↦ remove_from a peer_id (started_manager a m)
  ]

  -- `requestPairing`
  unfoldable pub request_pairing : Hmac → Answers X D → Outgoing → ℕ → Outcome M X
  unfolding get_sync_manager ensure_pairing_enabled started_manager request
  request_pairing hmac a o now = elim (get_sync_manager a) [
    | not_made e ↦ stopped_with (no_manager e)
    | made m ↦ elim (ensure_pairing_enabled a m) [
      | some e ↦ stopped_with e
      | none ↦
          let r = request host hmac o now (started_manager a m) in
          elim r.1 [ some e ↦ ended r.0 [] (some (failed e)) | none ↦ ended r.0 [] none ]
    ]
  ]

-- What comes while pairing mode is on: a request, with whether the pairing mode is ended between its two
-- locked regions, or the end of the time that was set when it was enabled.
pub data PairingEvent : Type 0 where
  incoming : Bool → Incoming → PairingEvent
  timer_fires : PairingEvent

-- What the user types when asked about a request, none for an error with its text.
pub record Terminal : Type 0 where
  pub accept_all : Bool
  pub lower : Bytes → Bytes
  pub answer_to : ExternalRequest → Bytes → Option Bytes
  pub input_error : Bytes

-- The callback of `enablePairingMode`.
unfoldable pub pairing_callback : Terminal → ExternalRequest → Bytes → Decision
unfolding is_yes
pairing_callback t request remote =
    if t.accept_all then decided true else elim (t.answer_to request remote) [
      | none ↦ handler_failed (codes "failed to read input: " ++ t.input_error)
      | some line ↦ decided (is_yes t.lower line)
    ]

abbrev meanwhile : Bool → PairingManager → PairingManager
meanwhile ends pm = if ends then Pairing.disable_pairing pm else pm

-- The pairing manager after the events; none is a panic in a handler.
unfoldable pub pairing_loop : Hmac → PairingManager → List PairingEvent → Option PairingManager
unfolding handle_pairing_request
pairing_loop hmac pm [] = some pm
pairing_loop hmac pm (timer_fires ∷ events) = pairing_loop hmac (Pairing.disable_pairing pm) events
pairing_loop hmac pm (incoming ends i ∷ events) =
    elim (handle_pairing_request hmac (meanwhile ends) pm i) [
      | none ↦ none
      | some a ↦ pairing_loop hmac a.manager events
    ]

pub data ModeOutcome (M X : Type 0) : Type 0 where
  panicked : ModeOutcome M X
  finished : Outcome M X → ModeOutcome M X

module _ {M X D : Type 0} (host : Host M) (services : Services X (Unit {0}) D) where
  -- From the enabled manager on: the time that is given passes, or the user interrupts the program.
  unfoldable pub wait_for_requests :
      Hmac → ℤ → List PairingEvent → SyncManager M X → ModeOutcome M X
  unfolding pairing_loop disable_pairing
  wait_for_requests hmac timeout events m = elim (pairing_loop hmac m.pairing events) [
    | none ↦ panicked
    | some pm ↦
        let m' = record m { pairing = pm } in
        finished (ended (if ltb_ℤ (pos 0) timeout then disable_pairing m' else m') [] none)
  ]

  unfoldable pub enable_pairing_mode :
      Hmac → Answers X D → Terminal → ℤ → List PairingEvent → ModeOutcome M X
  enable_pairing_mode hmac a t timeout events = elim (get_sync_manager host services a) [
    | not_made e ↦ finished (stopped_with (no_manager e))
    | made m ↦ elim (ensure_pairing_enabled host services a m) [
      | some e ↦ finished (stopped_with e)
      | none ↦
          let r = enable_pairing (pairing_callback t) (started_manager host services a m) in
          elim r.1 [
            | some e ↦ finished (ended r.0 [] (some (failed e)))
            | none ↦ wait_for_requests hmac timeout events r.0
          ]
    ]
  ]

-- The flags, in the order in which they are looked at.
pub record PairFlags : Type 0 where
  pub list_paired : Bool
  pub remove_pair : Bytes
  pub pair_request : Bytes
  pub timeout : ℤ

module _ {M X D : Type 0} (host : Host M) (services : Services X (Unit {0}) D) where
  unfoldable pub pair :
      Hmac
      → Answers X D
      → Terminal
      → (ExternalDevice → ℕ × ℕ)
      → Outgoing
      → ℕ
      → List PairingEvent
      → PairFlags
      → ModeOutcome M X
  unfolding list_paired_devices remove request_pairing enable_pairing_mode
  pair hmac a t since o now events f =
      if f.list_paired
      then finished (list_paired_devices host services a since)
      else if not (bytes_equal f.remove_pair [])
      then finished (remove host services a f.remove_pair)
      else if not (bytes_equal f.pair_request [])
      then finished
          (request_pairing host services hmac a (record o { address = f.pair_request }) now)
      else enable_pairing_mode host services hmac a t f.timeout events
