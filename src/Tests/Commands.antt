-- ===== src/Tests/Commands.antt =====
-- The theorems on the commands that pair devices and install the service, and on the discovery, at
-- concrete inputs.
use clipman_daemon.Prelude.{
  ℕ, ◌+◌, ◌≡◌, ◌∙◌, ap, bytes_equal, if◌then◌else◌, refl, true, false, none, some, List, [], ◌∷◌,
  ◌++◌, Bytes, codes, reverse, All, arith,
}
use clipman_daemon.Prelude.Int.{pos}
use clipman_daemon.Prelude.Dict.{Dict, lookup, insert, lookup-insert}
use clipman_daemon.Sync.Config.{SyncConfig}
use clipman_daemon.Sync.Config.Loading.{load_sync_config, map_to_libp2p_options}
use clipman_daemon.Sync.Discovery.{DiscoveryPeerInfo, missing, written}
use clipman_daemon.Sync.Discovery.Dht.{DhtDiscovery, start, stop}
use clipman_daemon.Sync.Discovery.Dht.Loop.{
  Reach, panicked, entering, first, later, starts, panics_after_stop, stop_panics,
}
use clipman_daemon.Sync.Discovery.Manual.{Host}
use clipman_daemon.Sync.Node.{InternalPeerInfo, Services}
use clipman_daemon.Sync.Node.Connected.{get_connected_peers, collect_peers, get_connected_peers_lem}
use clipman_daemon.Sync.Node.Making.{Making, node_of}
use clipman_daemon.Sync.Manager.{SyncManager, made}
use clipman_daemon.Sync.Pairing.{PairingRequest}
use clipman_daemon.Sync.Pairing.Code.{Hmac}
use clipman_daemon.Sync.Pairing.Protocol.{Incoming}
use clipman_daemon.Cli.Pair.{
  Answers, Terminal, PairingEvent, incoming, timer_fires, get_sync_manager, list_paired_devices,
  list_lines, remove, no_devices, enable_pairing_mode, format_relative_time, is_yes,
}
use clipman_daemon.Cli.Pair.Losing.{pairings_are_lost}
use clipman_daemon.Cli.Pair.Consent.{NoConsent}
use clipman_daemon.Cli.Pair.Mode.{devices_after, nobody_is_paired}
use clipman_daemon.Cli.Service.{
  Surroundings, World, linux, already_exists, service_info, get_service_file, install_service,
  uninstall_service,
}
use clipman_daemon.Cli.Service.Installing.{IsUntouched, uninstall-install, install_twice}
use clipman_daemon.Tests.Samples.{at}

-- An address is the text of its peer.
abbrev pub host : Host Bytes
host = record {
  host_id = codes "me";
  parse_address = some;
  address_info = λ a. some (a, a ∷ []);
  address_string = λ a. a;
  id_string = λ id. id;
  short_string = λ id. id;
  decode = some;
  connects = λ cancelled id addrs. true;
}

abbrev pub services : Services ℕ (Unit {0}) (Dict DiscoveryPeerInfo)
services = record {
  marshal = some;
  unmarshal = some;
  start_other = λ x. (x, true);
  stop_other = λ x. (x, true);
  start_handler = λ h. h;
  stop_handler = λ h. h;
}

abbrev pub making : Making ℕ
making = record {
  generates = true;
  makes_host = true;
  parses = λ a. true;
  show_port = λ n. codes "4001";
  mdns = 1;
  dht = none;
  paired = 2;
}

abbrev config : SyncConfig
config = load_sync_config (record {
  sync_over_internet = false;
  use_relay_nodes = false;
  listen_port = pos 4001;
  discovery_method = codes "paired";
  clipboard_types = codes "text" ∷ [];
  max_clipboard_size_kb = pos 100;
  max_file_size_mb = pos 10;
  device_name = codes "desk";
})

abbrev answers : Answers ℕ (Dict DiscoveryPeerInfo)
answers = record {
  making = making;
  config = config;
  address = codes "/ip4/10.0.0.1/tcp/4001";
  file = missing;
  pubsub_made = true;
  makes_dir = true;
  write = written;
  typed = some (codes "y");
  to_lower = λ t. t;
}

-- The manager of a run, before it starts.
abbrev manager : SyncManager Bytes ℕ
manager = record {
  node = node_of host tt making config;
  pairing = clipman_daemon.Sync.Pairing.new_pairing_manager (
      clipman_daemon.Sync.Manager.pairing_config config (codes "me")
        (codes "/ip4/10.0.0.1/tcp/4001"));
  config = config;
  started = false;
}

manager_is_made : get_sync_manager host services answers ≡ made manager
unfolding get_sync_manager clipman_daemon.Sync.Config.validate_sync_config
    clipman_daemon.Sync.Config.one_of clipman_daemon.Prelude.bytes_equal load_sync_config
    clipman_daemon.Sync.Config.check_types map_to_libp2p_options
manager_is_made = refl

pairings_are_lost_example :
    ((list_paired_devices host services answers (λ d. (0, 0))).lines ≡ list_lines (λ d. (0, 0)) [])
    × ((remove host services answers (codes "B")).error ≡ some no_devices)
pairings_are_lost_example =
    pairings_are_lost host services answers (λ d. (0, 0)) (codes "B") manager manager_is_made

-- The user types no.
abbrev terminal : Terminal
terminal = record {
  accept_all = false;
  lower = λ t. t;
  answer_to = λ request peer. some (codes "n");
  input_error = [];
}

no_is_not_yes : is_yes (λ t. t) (codes "n") ≡ false
unfolding is_yes clipman_daemon.Prelude.bytes_equal clipman_daemon.Text.trim_space
    clipman_daemon.Text.space_size clipman_daemon.Text.is_space clipman_daemon.Text.space_size_rev
no_is_not_yes = refl

yes_is_yes : is_yes (λ t. t) (codes " yes ") ≡ true
unfolding is_yes clipman_daemon.Prelude.bytes_equal clipman_daemon.Text.trim_space
    clipman_daemon.Text.space_size clipman_daemon.Text.is_space clipman_daemon.Text.is_space2
    clipman_daemon.Text.is_space3 clipman_daemon.Text.space_size_rev
yes_is_yes = refl

same_line : (line : Bytes) → some (codes "n") ≡ some line → codes "n" ≡ line
same_line line typed = ground (arith, typed)

terminal-NoConsent : NoConsent terminal
terminal-NoConsent = record { asks = refl; says_no = λ request peer line typed. no line typed }
  where
    no : (line : Bytes) → some (codes "n") ≡ some line → is_yes (λ t. t) line ≡ false
    no line typed = rw (← same_line line typed) no_is_not_yes

abbrev hmac : Hmac
hmac key message = codes "01234567890123456789012345678901"

abbrev request : PairingRequest
request = record {
  request_device_name = codes "phone";
  request_device_type = codes "mobile";
  request_timestamp = at 3;
  request_random_data = codes "ra";
  request_peer_id = codes "A";
  nonce = codes "n";
  request_metadata = [];
}

abbrev asked : Incoming
asked = record {
  request = some (some request);
  random = some (codes "rb");
  remote_peer = codes "A";
  remote_addresses = [];
  now = at 4;
}

-- A request comes, then the time ends.
abbrev events : List PairingEvent
events = incoming false asked ∷ timer_fires ∷ []

nobody_is_paired_example :
    devices_after (enable_pairing_mode host services hmac answers terminal (pos 60) events) ≡ []
nobody_is_paired_example =
    nobody_is_paired host services hmac answers terminal (pos 60) events terminal-NoConsent

minutes : format_relative_time 125 ≡ codes "2 minutes ago"
unfolding format_relative_time
minutes = refl

one_hour : format_relative_time 3600 ≡ codes "1 hour ago"
unfolding format_relative_time
one_hour = refl

abbrev system : Surroundings
system = record {
  platform = linux;
  system_service = false;
  force_service = false;
  executable = some (codes "/usr/bin/clipman");
  home = codes "/home/u";
  temp = codes "/tmp";
  join = λ d f. d ++ (codes "/" ++ f);
  makes_dir = true;
  writes = true;
  removes = true;
  runs = λ command. false;
  effect = λ command files. insert (codes "/run/log") (codes "failed") files;
}

abbrev untouched : World
untouched = record { files = (codes "/etc/hosts", codes "127.0.0.1") ∷ []; commands = [] }

abbrev unit_file : Bytes × Bytes
unit_file = service_info system linux (codes "/usr/bin/clipman")

-- The commands write to a log of their own.
others-IsUntouched : (q : Bytes) → bytes_equal (codes "/run/log") q ≡ false → IsUntouched system q
others-IsUntouched q other command files =
    lookup-insert (codes "/run/log") q (codes "failed") files
    ∙ ap (λ b. if b then some (codes "failed") else lookup q files) other

-- No command succeeds, and still the service file is removed and the other one is as it was.
uninstall-install_example :
    (lookup
        (codes "/etc/hosts")
        (uninstall_service system (install_service system untouched).0).0.files
      ≡ lookup (codes "/etc/hosts") untouched.files)
    × ((uninstall_service system (install_service system untouched).0).1 ≡ none)
unfolding lookup get_service_file clipman_daemon.Cli.Service.file_exists service_info
    clipman_daemon.Prelude.bytes_equal
uninstall-install_example =
    uninstall-install system untouched unit_file.0 unit_file.1 (codes "/etc/hosts")
      (others-IsUntouched unit_file.0 refl) (others-IsUntouched (codes "/etc/hosts") refl) refl refl
      refl refl refl

second_install_is_refused :
    install_service system (install_service system untouched).0
    ≡ ((install_service system untouched).0, some already_exists)
unfolding lookup get_service_file clipman_daemon.Cli.Service.file_exists service_info
    clipman_daemon.Prelude.bytes_equal
second_install_is_refused =
    install_twice system untouched unit_file.0 unit_file.1 (others-IsUntouched unit_file.0 refl)
      refl refl refl refl refl

abbrev dht : DhtDiscovery Bytes
dht = record {
  bootstrap_peers = [];
  has_dht = false;
  has_ticker = false;
  cancelled = false;
  started = false;
}

abbrev running_dht : DhtDiscovery Bytes
running_dht = record {
  bootstrap_peers = [];
  has_dht = true;
  has_ticker = true;
  cancelled = false;
  started = true;
}

-- A service that was started.
started_dht : Reach dht (record { service = running_dht; loops = entering ∷ [] })
unfolding start clipman_daemon.Sync.Discovery.Dht.Loop.loops_after
started_dht = later (first {s = record { service = dht; loops = [] }} refl) (starts true refl refl)

panicked_dht : Reach dht (record { service = stop running_dht; loops = panicked ∷ [] })
panicked_dht =
    stop_panics dht (record { service = running_dht; loops = entering ∷ [] }) [] started_dht refl
      refl

stop_panics_example : Reach dht (record { service = stop running_dht; loops = panicked ∷ [] })
stop_panics_example =
    stop_panics dht (record { service = running_dht; loops = entering ∷ [] }) [] started_dht refl
      refl

panics_after_stop_example :
    All (λ p. p ≡ panicked → (stop running_dht).cancelled ≡ true) (panicked ∷ [])
panics_after_stop_example =
    panics_after_stop dht (record { service = stop running_dht; loops = panicked ∷ [] }) refl refl
      panicked_dht

abbrev store : Dict InternalPeerInfo
store = []

abbrev clock : ℕ → ℕ
clock i = 100 + i

get_connected_peers_lem_example :
    get_connected_peers host (λ id. []) clock store (codes "a" ∷ codes "b" ∷ [])
    ≡ reverse (collect_peers host (λ id. []) clock store 0 (codes "a" ∷ codes "b" ∷ []))
get_connected_peers_lem_example =
    get_connected_peers_lem host (λ id. []) clock (λ i j h. omega (arith, h)) store
      (codes "a" ∷ codes "b" ∷ [])
