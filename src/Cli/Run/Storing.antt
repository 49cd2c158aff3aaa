-- ===== src/Cli/Run/Storing.antt =====
-- internal/cli/root.go and cmd/run.go: the database that a run of the monitor leaves.
use mathlib.Core.Path.{subst}
use clipman_daemon.Prelude.{
  All, ◌+◌, ◌-◌, ◌≤◌, ◌≡◌, refl, ◌∙◌, true, false, not, ◌&&◌, ◌||◌, Option, none, some, List,
  length, arith, length-drop, if◌then◌else◌,
}
use clipman_daemon.Prelude.Int.{ℤ, pos, ltb_ℤ}
use clipman_daemon.Config.{Config, SystemPaths, System, get_system_paths}
use clipman_daemon.Storage.{BoltStorage, ok, new_bolt_storage, close}
use clipman_daemon.Storage.Cursor.{Bucket}
use clipman_daemon.Storage.Display.{Printing}
use clipman_daemon.Storage.Flush.{flush_cache_lem}
use clipman_daemon.Storage.Invariant.{flush_cache-IsSound, save_content-IsSound}
use clipman_daemon.Storage.Keeping.{save_content-keep_items}
use clipman_daemon.Storage.Saving.{IsSound}
use clipman_daemon.Storage.Services.{BackendLaws}
use clipman_daemon.Clipboard.Monitor.{
  ContentPublisher, Event, Services, Monitor, new_monitor, start, monitor_clipboard,
}
use clipman_daemon.Clipboard.Monitor.Invariant.{
  anything_is_offered, monitor_clipboard_keeps, monitor_clipboard_bound,
}
use clipman_daemon.Clipboard.Monitor.Total.{HasSlots, monitor_clipboard_lem}
use clipman_daemon.Clipboard.Monitor.Provenance.{IsExplained, monitor_clipboard-IsExplained}
use clipman_daemon.Clipboard.Processing.{ContentProcessor, set_max_size, add_transformer}
use clipman_daemon.Clipboard.Processing.Laws.{monitor_processor}
use clipman_daemon.Clipboard.History.{new_clipboard_history}
use clipman_daemon.Cli.Root.{
  Network, interrupted, no_op, sync_publisher, content_publisher, storage_config, monitored,
  run_in_process, Process, RootFlags, override_daemon, run_daemon,
}
use clipman_daemon.Cli.Run.{
  Moments, RunFlags, RunOutcome, finished, close_run, end_run, run_monitor, run, override_run,
}
use clipman_daemon.Cli.Run as Run

-- The database of an outcome, if the storage was opened and nothing panicked.
abbrev pub left : RunOutcome → Option Bucket
left Run.storage_failed = none
left Run.panicked = none
left (Run.interrupted m) = some m.storage.db
left (finished lines recent db) = some db

opened :
    (paths : SystemPaths) (c : Config) (b : Bucket)
    → (x : BoltStorage) × (new_bolt_storage (storage_config paths c) (some b) ≡ ok x)
      × (x.db ≡ b)
      × (x.keep_items ≡ 10)
unfolding new_bolt_storage storage_config
opened paths c b = (_, refl, refl, refl)

-- The processor of a monitor under a configuration.
abbrev pub configured_processor : Config → ContentProcessor
configured_processor c =
    monitor_processor
      (if ltb_ℤ (pos 0) c.storage.max_size then c.storage.max_size else pos 104857600)

module _ (s : Services) (laws : BackendLaws s.backend) where
  -- What a run knows of its storage: it is sound, and a flush keeps 10 items.
  abbrev IsRunning : BoltStorage → Type 0
  IsRunning x = IsSound s.backend x.db × (x.keep_items ≡ 10)

  start-storage : (m : Monitor) → (start s m).storage ≡ m.storage
  unfolding start
  start-storage m = ground (arith)

  start-history : (m : Monitor) → (start s m).history ≡ m.history
  unfolding start
  start-history m = ground (arith)

  start-processor : (m : Monitor) → (start s m).content_processor ≡ m.content_processor
  unfolding start
  start-processor m = ground (arith)

  new_monitor-processor :
      (c : Config) (publisher : ContentPublisher) (x : BoltStorage)
      → (new_monitor c.storage.max_size (some publisher) x).content_processor
        ≡ configured_processor c
  unfolding new_monitor set_max_size add_transformer
  new_monitor-processor c publisher x = ground (arith)

  -- The entries after the events are those before, and items that arise from the events.
  monitored-IsExplained :
      (c : Config) (publisher : ContentPublisher) (x : BoltStorage) (events : List Event)
      (m : Monitor)
      → IsSound s.backend x.db
      → monitored s c publisher x events ≡ some m
      → All (IsExplained s (configured_processor c) events x.db) m.storage.db
  unfolding monitored new_monitor
  monitored-IsExplained c publisher x events m sound e =
      let m0 = new_monitor c.storage.max_size (some publisher) x in
      subst (λ p. All (IsExplained s p events x.db) m.storage.db)
        (start-processor m0 ∙ new_monitor-processor c publisher x)
        (subst (λ y. All (IsExplained s (start s m0).content_processor events y.db) m.storage.db)
          (start-storage m0)
          (monitor_clipboard-IsExplained s laws (start s m0) m events (rw (start-storage m0) sound)
            e))

  new_monitor-HasSlots :
      (max_size : ℤ) (publisher : ContentPublisher) (x : BoltStorage)
      → HasSlots (new_monitor max_size (some publisher) x).history
  unfolding new_monitor new_clipboard_history
  new_monitor-HasSlots max_size publisher x = omega arith

  monitor_clipboard-IsRunning :
      (m m' : Monitor) (events : List Event)
      → IsRunning m.storage
      → monitor_clipboard s m events ≡ some m'
      → IsRunning m'.storage
  monitor_clipboard-IsRunning m m' events runs e =
      monitor_clipboard_keeps s IsRunning (λ d. Unit {0})
        (λ y d kind kept. (
          save_content-IsSound s.backend laws y d kept.0,
          save_content-keep_items s.backend y d ∙ kept.1,
        ))
        m m' events (anything_is_offered s m.content_processor events) runs e

  monitored-IsRunning :
      (c : Config) (publisher : ContentPublisher) (x : BoltStorage) (events : List Event)
      (m : Monitor)
      → IsRunning x
      → monitored s c publisher x events ≡ some m
      → IsRunning m.storage
  unfolding monitored new_monitor
  monitored-IsRunning c publisher x events m runs e =
      let m0 = new_monitor c.storage.max_size (some publisher) x in
      monitor_clipboard-IsRunning (start s m0) m events (rw (start-storage m0) runs) e

  close-bound :
      (x : BoltStorage)
      → IsRunning x
      → IsSound s.backend (close s.backend x).db × (length (close s.backend x).db ≤ 10)
  unfolding close
  close-bound x runs = (
    flush_cache-IsSound s.backend laws x runs.0,
    rw (close, flush_cache_lem s.backend laws x runs.0.ascending runs.0.all_items)
        (omega (arith, length-drop (length x.db - x.keep_items) x.db, runs.1)),
  )

  -- The monitor goes on from a running storage.
  goes_on :
      (m : Monitor) (events : List Event)
      → IsRunning m.storage
      → HasSlots m.history
      → (m' : Monitor) × (monitor_clipboard s m events ≡ some m')
        × IsRunning m'.storage
        × HasSlots m'.history
  goes_on m events runs slots =
      let (m', e, left) = monitor_clipboard_lem s m events slots in
      (m', e, monitor_clipboard-IsRunning m m' events runs e, left)

  -- The end of a run keeps what is saved after the flush beside the 10 items that it leaves.
  end_run-bound :
      (printing : Printing) (c : Config) (m : Monitor) (t : Moments)
      → IsRunning m.storage
      → HasSlots m.history
      → (db : Bucket) × (left (end_run s printing c m t) ≡ some db)
        × IsSound s.backend db
        × (length db ≤ 10 + length t.while_closing)
  unfolding end_run close_run
  end_run-bound printing c m t runs slots =
      let (m1, e1, runs1, slots1) = goes_on m t.while_logging runs slots in
      let (m2, e2, runs2, slots2) = goes_on m1 t.while_listing runs1 slots1 in
      let shut = close-bound m2.storage runs2 in
      let flushed = record m2 { storage = close s.backend m2.storage } in
      let (m3, e3, slots3) = monitor_clipboard_lem s flushed t.while_closing slots2 in
      let last = monitor_clipboard_bound s laws flushed m3 t.while_closing shut.0 e3 in
      (m3.storage.db, simp (end_run, close_run, e1, e2, e3), last.0, omega (arith, last.1, shut.1))

  -- A monitor on a fresh ring comes to the end of its events.
  monitored_lem :
      (c : Config) (publisher : ContentPublisher) (x : BoltStorage) (events : List Event)
      → (m : Monitor) × (monitored s c publisher x events ≡ some m) × HasSlots m.history
  unfolding monitored
  monitored_lem c publisher x events =
      let m0 = new_monitor c.storage.max_size (some publisher) x in
      monitor_clipboard_lem s (start s m0) events
        (rw (start-history m0) (new_monitor-HasSlots c.storage.max_size publisher x))

  -- The storage that is opened, and the monitor after the events.
  ran :
      (paths : SystemPaths) (c : Config) (publisher : ContentPublisher) (b : Bucket)
      (events : List Event)
      → IsSound s.backend b
      → (x : BoltStorage) × (m : Monitor) × (new_bolt_storage (storage_config paths c) (some b)
          ≡ ok x)
        × (monitored s c publisher x events ≡ some m)
        × IsRunning m.storage
        × HasSlots m.history
        × All (IsExplained s (configured_processor c) events b) m.storage.db
  ran paths c publisher b events sound =
      let (x, found, same, keeps) = opened paths c b in
      let (m, e, slots) = monitored_lem c publisher x events in
      (
        x,
        m,
        found,
        e,
        monitored-IsRunning c publisher x events m (rw same sound, keeps) e,
        slots,
        subst (λ d. All (IsExplained s (configured_processor c) events d) m.storage.db) same
            (monitored-IsExplained c publisher x events m (rw same sound) e),
      )

  -- On a sound database, a run for a duration comes to its end, whatever items its monitor takes: it
  -- leaves the database sound, with at most 10 items and one for each event that the monitor takes
  -- between the flush of Close and the closing of the file, whatever the configuration says of it.
  pub run_bound :
      {M X D F : Type 0} (printing : Printing) (n : Network M X D) (os : System F) (f : RunFlags)
      (config : Config) (b : Bucket) (t : Moments)
      → IsSound s.backend b
      → ltb_ℤ (pos 0) f.duration ≡ true
      → (db : Bucket) × (left (run s printing n os f config (some b) t) ≡ some db)
        × IsSound s.backend db
        × (length db ≤ 10 + length t.while_closing)
  unfolding run run_monitor
  run_bound printing n os f config b t sound timed =
      let c = override_run f config in
      let (x, m, found, monitors, runs, slots, explained) =
        ran (get_system_paths os c) c
          (content_publisher n
            (if f.no_sync || not c.sync.enabled then no_op else sync_publisher n c))
          b t.in_time sound in
      let (db, ended, still_sound, bound) = end_run-bound printing c m t runs slots in
      (db, rw (run, run_monitor, found, monitors, timed) ended, still_sound, bound)

  -- On a sound database, the monitor of a daemon that does not detach takes whatever items come over its
  -- channel, without a panic of its own, until the daemon ends: the database is left sound, and each entry
  -- in it was there before or is an item that came with one of the events, was not over the configured
  -- size, and went through the processor. A panic of another goroutine is such an end.
  pub run_daemon_lem :
      {M X D F : Type 0} (n : Network M X D) (os : System F) (p : Process) (f : RootFlags)
      (config : Config) (b : Bucket) (events : List Event)
      → IsSound s.backend b
      → (f.detach && not p.is_child) ≡ false
      → (m : Monitor) × (run_daemon n os s p f config (some b) events ≡ interrupted m)
        × IsSound s.backend m.storage.db
        × All
            (IsExplained s (configured_processor (override_daemon f config)) events b)
            m.storage.db
  unfolding run_daemon run_in_process
  run_daemon_lem n os p f config b events sound stays =
      let c = override_daemon f config in
      let (x, m, found, monitors, runs, slots, explained) =
        ran (get_system_paths os c) c
          (content_publisher n (if f.no_sync then no_op else sync_publisher n c)) b events sound in
      (m, rw (run_daemon, stays, run_in_process, found, monitors) refl, runs.0, explained)
