-- ===== src/Tests/Running.antt =====
-- The theorems on the log, the configuration and the commands at concrete inputs.
use Prim.Native.Nat.{min}
use mathlib.Core.List.{Perm}
use clipman_daemon.Prelude.{
  ℕ, zero, suc, bytes_less, ◌+◌, ◌-◌, ◌≤◌, ◌<◌, ◌≡◌, refl, true, false, none, some, Option, List,
  [], ◌∷◌, ◌++◌, Bytes, codes, bytes_equal, length, drop, arith, All,
}
use clipman_daemon.Prelude.Int.{pos}
use clipman_daemon.Logger.Rotation.{FileInfo, clean_old_logs, found, clean_old_logs-perm}
use clipman_daemon.Config.{
  System, Config, load, loaded, prepared, default_config, default_system_paths,
}
use clipman_daemon.Config.Loading.{load-load}
use clipman_daemon.Storage.Display.{Printing}
use clipman_daemon.Storage.Cursor.{Bucket, Above, IsAscending}
use clipman_daemon.Storage.Flush.{IsItem}
use clipman_daemon.Cli.History.Running.{Processes, is_in_use}
use clipman_daemon.Cli.History.{Flags, Surroundings, history, history-drop}
use clipman_daemon.Tests.Samples.{backend, backend_laws, text_at, encode}

abbrev old_log : Bytes → ℕ → Option FileInfo
old_log name time = some (record { path = name; mod_time = time })

abbrev old_logs : List (Option FileInfo)
old_logs = old_log (codes "b") 7 ∷ old_log (codes "a") 3 ∷ none ∷ old_log (codes "c") 5 ∷ []

clean_old_logs-perm_example :
    Perm
      ((clean_old_logs (codes "log") (pos 2) old_logs).0
        ++ (clean_old_logs (codes "log") (pos 2) old_logs).1)
      (found old_logs)
    × (length (clean_old_logs (codes "log") (pos 2) old_logs).1 ≡ min 2 (length (found old_logs)))
    × All
        (λ f. All (λ g. f.mod_time ≤ g.mod_time) (clean_old_logs (codes "log") (pos 2) old_logs).1)
        (clean_old_logs (codes "log") (pos 2) old_logs).0
unfolding found bytes_equal
clean_old_logs-perm_example = clean_old_logs-perm (codes "log") (pos 2) old_logs

abbrev pub system : System Config
system = record {
  getenv = λ name. [];
  atoi = λ s. none;
  parse_int = λ s. none;
  user_home_dir = some (codes "/home/a");
  temp_dir = codes "/tmp";
  hostname = some (codes "host");
  uuid = codes "u1";
  join = λ dir file. dir ++ (codes "/" ++ file);
  default_sync = record {
    enabled = false;
    sync_over_internet = false;
    use_relay_nodes = false;
    listen_port = pos 0;
    discovery_method = codes "mdns";
  };
  files = λ path. none;
  decode = λ d base. some d;
  encode = λ c. c;
  mkdir_all = λ dir. true;
  create = λ path. true;
}

abbrev pub first_config : Config
first_config = prepared system (default_config system)

first_load :
    load system (codes "/etc/clipman.json")
    ≡ loaded first_config (some ((default_system_paths system).config_file, first_config))
unfolding load clipman_daemon.Config.finish prepared clipman_daemon.Config.get_system_paths
first_load = refl

uuid_is_given : bytes_equal (codes "u1") [] ≡ false
unfolding bytes_equal
uuid_is_given = refl

load-load_example :
    ((default_system_paths system).config_file ≡ (default_system_paths system).config_file)
    × (load (record system { uuid = codes "u2"; files = λ path. some (some first_config) }) []
        ≡ loaded first_config none)
load-load_example =
    load-load system (codes "/etc/clipman.json") (codes "u2") (λ path. some (some first_config))
      first_config (default_system_paths system).config_file first_config (λ c b. refl)
      uuid_is_given first_load refl

abbrev pub printing : Printing
printing = record {
  date_time = λ t. [];
  rfc3339 = λ t. [];
  age = λ t. 0;
  json_paths = λ d. none;
  stat_error = λ path. none;
}

-- One process is in the list of ps, and it is no daemon.
abbrev no_daemon : Processes
no_daemon = record {
  is_there = λ path. false;
  succeeds = λ c args. false;
  output = λ c args. some (codes "sh -c run");
  can_open = λ path. true;
  can_lock = λ path. true;
}

abbrev surroundings : Surroundings
surroundings = record {
  printing = printing;
  parse_time = λ s. none;
  stat = λ path. none;
  processes = no_daemon;
  db_file = codes "clipman.db";
  device_id = codes "d";
}

abbrev flags : Flags
flags = record {
  limit = pos 1;
  since = [];
  before = [];
  item_type = codes "text";
  reverse = false;
  min_size = pos 0;
  content_max_size = pos 0;
  json_output = true;
  dump_all = false;
  most_recent = false;
}

-- Items with one letter each, from time `n` on.
abbrev pub items_from : ℕ → ℕ → Bucket
items_from zero n = []
items_from (suc count) n = (n ∷ 0 ∷ [], encode (text_at n (codes "x"))) ∷ items_from count (n + 1)

items_from-Above : (count j n : ℕ) → j < n → Above (j ∷ 0 ∷ []) (items_from count n)
unfolding bytes_less
items_from-Above zero j n h = tt
items_from-Above (suc count) j n h =
    (ground (arith, h), items_from-Above count j (n + 1) (omega (arith, h)))

pub items_from-IsAscending : (count n : ℕ) → IsAscending (items_from count n)
items_from-IsAscending zero n = tt
items_from-IsAscending (suc count) n =
    (items_from-Above count n (n + 1) (omega arith), items_from-IsAscending count (n + 1))

pub items_from-IsItem : (count n : ℕ) → All (IsItem backend) (items_from count n)
items_from-IsItem zero n = tt
items_from-IsItem (suc count) n =
    ((text_at n (codes "x"), refl, refl), items_from-IsItem count (n + 1))

history-drop_example :
    (history backend surroundings flags (some (items_from 12 1))).1
    ≡ some (drop (length (items_from 12 1) - 10) (items_from 12 1))
unfolding is_in_use
history-drop_example =
    history-drop backend surroundings backend_laws flags (items_from 12 1)
      (items_from-IsAscending 12 1) (items_from-IsItem 12 1) refl

ten_items_are_left :
    (history backend surroundings flags (some (items_from 12 1))).1 ≡ some (items_from 10 3)
unfolding is_in_use
ten_items_are_left =
    history-drop backend surroundings backend_laws flags (items_from 12 1)
      (items_from-IsAscending 12 1) (items_from-IsItem 12 1) refl

-- Any process whose line has a pattern in it counts as a daemon.
editor_counts :
    is_in_use
      (record no_daemon { output = λ c args. some (codes "vim clipman run.txt") })
      (codes "clipman.db")
    ≡ true
unfolding is_in_use
editor_counts = refl
