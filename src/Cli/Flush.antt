-- ===== src/Cli/Flush.antt =====
-- internal/cli/cmd/flush.go: the command that flushes the database.
use clipman_daemon.Prelude.{
  ℕ, ◌-◌, ◌≡◌, refl, ap, ◌∙◌, Bool, false, not, Option, none, some, List, [], Bytes, length, take,
  drop, if◌then◌else◌, arith, length-drop,
}
use clipman_daemon.Prelude.Int.{ℤ, pos, ◌-ℤ◌, int_laws}
use clipman_daemon.Content.{HistoryOptions, zero_time}
use clipman_daemon.Config.{Config, SystemPaths}
use clipman_daemon.Storage.{
  BoltStorage, StorageError, ok, err, new_bolt_storage, flush_cache, get_cache_size, close,
}
use clipman_daemon.Storage.Cursor.{Bucket, byte_size}
use clipman_daemon.Storage.Display.{Printing, log_complete_history}
use clipman_daemon.Storage.Flush.{data_size, items, oldest, newest, deleted, flush_cache_lem}
use clipman_daemon.Storage.Invariant.{newest-IsSound}
use clipman_daemon.Storage.Saving.{IsSound}
use clipman_daemon.Storage.Services.{Backend, BackendLaws}
use clipman_daemon.Cli.Root.{storage_config}

-- What is logged at the end: the sizes before and after, and their difference.
pub record Flushed : Type 0 where
  pub freed : ℤ
  pub size_before : ℤ
  pub size_after : ℤ

-- `done` has the lines of the history before and after, the sizes, and the database that is left.
pub data FlushOutcome : Type 0 where
  storage_failed : FlushOutcome
  flush_failed : StorageError → Bucket → FlushOutcome
  done : List Bytes → Flushed → List Bytes → Bucket → FlushOutcome

abbrev no_options : HistoryOptions
no_options = record {
  limit = pos 0;
  since = zero_time;
  before = zero_time;
  filter_type = [];
  reversed = false;
  min_size = pos 0;
  max_size = pos 0;
}

module _ (e : Backend) (printing : Printing) where
  -- The lines of the history, unless the command is quiet.
  unfoldable pub shown : Bool → BoltStorage → List Bytes
  unfolding log_complete_history
  shown quiet s = if not quiet then log_complete_history printing e s no_options else []

  -- From the flush of a storage on; Close comes last, after an error, too.
  unfoldable pub after_flush : Bool → BoltStorage → BoltStorage × Option StorageError → FlushOutcome
  unfolding shown get_cache_size
  after_flush quiet s (s', some x) = flush_failed x (close e s').db
  after_flush quiet s (s', none) =
      done (shown quiet s)
        (record {
          freed = get_cache_size e s -ℤ get_cache_size e s';
          size_before = get_cache_size e s;
          size_after = get_cache_size e s';
        })
        (shown quiet s') (close e s').db

  unfoldable pub flush_storage : Bool → BoltStorage → FlushOutcome
  unfolding after_flush
  flush_storage quiet s = after_flush quiet s (flush_cache e s)

  unfoldable pub flush : SystemPaths → Bool → Config → Option Bucket → FlushOutcome
  unfolding storage_config flush_storage
  flush paths quiet c database = elim (new_bolt_storage (storage_config paths c) database) [
    | err x ↦ storage_failed
    | ok s ↦ flush_storage quiet s
  ]

drop_none : {A : Type 0} (k : ℕ) (ys : List A) → k ≡ 0 → drop k ys ≡ ys
drop_none k ys e = rw e refl

drop_again :
    {A : Type 0} (n : ℕ) (xs : List A)
    → drop (length (drop (length xs - n) xs) - n) (drop (length xs - n) xs)
      ≡ drop (length xs - n) xs
drop_again n xs = drop_none _ _ (omega (arith, length-drop (length xs - n) xs))

sub_sub : (a : ℤ) (n : ℕ) → a -ℤ (a -ℤ pos n) ≡ pos n
sub_sub a n = grind int_laws

module _ (e : Backend) (laws : BackendLaws e) where
  close-db : (s : BoltStorage) → IsSound e s.db → (close e s).db ≡ newest e s
  unfolding close
  close-db s sound = ap (λ r. r.0.db) (flush_cache_lem e laws s sound.ascending sound.all_items)

  -- Closing after a flush removes nothing more.
  close-deleted :
      (s : BoltStorage)
      → IsSound e s.db
      → (close e (deleted e s (oldest e s) (newest e s))).db ≡ newest e s
  close-deleted s sound =
      close-db (deleted e s (oldest e s) (newest e s)) (newest-IsSound e laws s sound)
      ∙ drop_again s.keep_items s.db

  flush_storage_lem :
      (printing : Printing) (quiet : Bool) (s : BoltStorage)
      → IsSound e s.db
      → flush_storage e printing quiet s
        ≡ done
            (shown e printing quiet s)
            (record {
              freed = pos (data_size (items e (oldest e s)));
              size_before = s.cache_size;
              size_after = s.cache_size -ℤ pos (data_size (items e (oldest e s)));
            })
            (shown e printing quiet (deleted e s (oldest e s) (newest e s)))
            (newest e s)
  unfolding flush_storage after_flush get_cache_size
  flush_storage_lem printing quiet s sound =
      ap (after_flush e printing quiet s) (flush_cache_lem e laws s sound.ascending sound.all_items)
      ∙ rw (close-deleted s sound, sub_sub s.cache_size (data_size (items e (oldest e s)))) refl

  -- On a sound database the flush command succeeds and leaves the last 10 items, however many the
  -- configuration says that are kept, and it reports as freed the lengths of the data of the others.
  pub flush_lem :
      (printing : Printing) (paths : SystemPaths) (quiet : Bool) (c : Config) (b : Bucket)
      → IsSound e b
      → (before after : List Bytes) × (r : Flushed) × (flush e printing paths quiet c (some b)
          ≡ done before r after (drop (length b - 10) b))
        × (r.freed ≡ pos (data_size (items e (take (length b - 10) b))))
        × (r.size_before ≡ pos (byte_size b))
  unfolding flush new_bolt_storage storage_config
  flush_lem printing paths quiet c b sound =
      (_, _, _, flush_storage_lem printing quiet _ sound, refl, refl)
