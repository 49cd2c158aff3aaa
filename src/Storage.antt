-- ===== src/Storage.antt =====
-- internal/storage/boltdb.go: the state and the operations that write. A transaction that fails
-- leaves the bucket as it was; the counter `cache_size` is outside the transaction.
pub mod Cursor
pub mod Services
pub mod Reads
pub mod Saving
pub mod Accounting
pub mod History
pub mod Ranges
pub mod Latest
pub mod Filters
pub mod Invariant
pub mod Flush
pub mod Display
pub mod Keeping
use clipman_daemon.Prelude.{
  ℕ, zero, suc, ◌+◌, Bool, true, false, Option, none, some, List, [], ◌∷◌, reverse, Bytes,
  bytes_equal, length, take, if◌then◌else◌,
}
use clipman_daemon.Prelude.Int.{ℤ, pos, negsuc, ◌+ℤ◌, ◌-ℤ◌, ltb_ℤ}
use clipman_daemon.Content.{ClipboardContent}
use Cursor.{Bucket, byte_size, keys}
use Services.{Backend}

abbrev pub default_max_size : ℤ
default_max_size = pos 104857600

abbrev pub keep_items_default : ℕ
keep_items_default = 10

pub record StorageConfig : Type 0 where
  pub db_path : Bytes
  pub config_max_size : ℤ
  pub device_id : Bytes
  pub config_keep_items : ℤ

-- `db` is the content of the one bucket. The logger is left out.
pub record BoltStorage : Type 0 where
  pub db : Bucket
  pub cache_size : ℤ
  pub max_size : ℤ
  pub storage_device_id : Bytes
  pub keep_items : ℕ

pub data StorageError : Type 0 where
  open_failed encode_failed decode_failed decompress_failed put_failed delete_failed : StorageError

-- A value or an error, and what an operation leaves besides its error.
pub data Result {ℓ} (A : Type ℓ) : Type ℓ where
  ok : A → Result A
  err : StorageError → Result A

abbrev positive_or : ℤ → ℕ → ℕ
positive_or (pos zero) d = d
positive_or (pos (suc n)) d = suc n
positive_or (negsuc n) d = d

-- `NewBoltStorage`. `opened` is what bbolt finds: the bucket, or an error.
unfoldable pub new_bolt_storage : StorageConfig → Option Bucket → Result BoltStorage
new_bolt_storage config none = err open_failed
new_bolt_storage config (some b) = ok (record {
  db = b;
  cache_size = pos (byte_size b);
  max_size =
      if ltb_ℤ (pos 0) config.config_max_size then config.config_max_size else default_max_size;
  storage_device_id = config.device_id;
  keep_items = positive_or config.config_keep_items keep_items_default;
})

unfoldable pub member : Bytes → List Bytes → Bool
member k [] = false
member k (j ∷ js) = if bytes_equal k j then true else member k js

abbrev account : BoltStorage → Bucket × Option ℕ → BoltStorage × Option StorageError
account s (b, none) = (record s { db = b }, some delete_failed)
account s (b, some freed) = (record s { db = b; cache_size = s.cache_size -ℤ pos freed }, none)

-- db.Update: an error rolls the bucket back, and nothing else.
abbrev pub update_tx :
    BoltStorage → BoltStorage × Option StorageError → BoltStorage × Option StorageError
update_tx s (s', none) = (s', none)
update_tx s (s', some x) = (record s' { db = s.db }, some x)

module _ (e : Backend) where
  -- The loop of `collectItemsToFlush`: what cannot be decoded is logged and passed over.
  unfoldable pub items_not_kept : List Bytes → Bucket → List ClipboardContent
  unfolding member
  items_not_kept keep_keys [] = []
  items_not_kept keep_keys ((k, v) ∷ m) =
      let rest = items_not_kept keep_keys m in
      if member k keep_keys then rest else elim (e.unmarshal v) [ none ↦ rest | some c ↦ c ∷ rest ]

  unfoldable pub collect_items_to_flush : BoltStorage → List ClipboardContent
  unfolding items_not_kept
  collect_items_to_flush s = items_not_kept (take s.keep_items (reverse (keys s.db))) s.db

  unfoldable pub get_content_to_flush : BoltStorage → List ClipboardContent
  unfolding collect_items_to_flush
  get_content_to_flush s = collect_items_to_flush s

  -- The loop of `deleteItemsFromBucket`: the bucket so far, and the bytes freed if no delete failed.
  unfoldable pub delete_items : Bucket → List ClipboardContent → ℕ → Bucket × Option ℕ
  delete_items b [] freed = (b, some freed)
  delete_items b (c ∷ cs) freed = elim (e.delete (e.format c.created) b) [
    | none ↦ (b, none)
    | some b' ↦ delete_items b' cs (freed + length c.content_data)
  ]

  unfoldable pub delete_items_from_bucket :
      BoltStorage → List ClipboardContent → BoltStorage × Option StorageError
  unfolding delete_items
  delete_items_from_bucket s [] = (s, none)
  delete_items_from_bucket s (c ∷ cs) = account s (delete_items s.db (c ∷ cs) 0)

  unfoldable pub flush_oldest_content : BoltStorage → BoltStorage × Option StorageError
  unfolding collect_items_to_flush delete_items_from_bucket
  flush_oldest_content s = delete_items_from_bucket s (collect_items_to_flush s)

  unfoldable pub delete_contents :
      BoltStorage → List ClipboardContent → BoltStorage × Option StorageError
  unfolding delete_items_from_bucket
  delete_contents s cs = update_tx s (delete_items_from_bucket s cs)

  unfoldable pub flush_cache : BoltStorage → BoltStorage × Option StorageError
  unfolding flush_oldest_content
  flush_cache s = update_tx s (flush_oldest_content s)

  -- An error of the flush is logged, and the Put goes on in the same transaction.
  unfoldable pub make_room : BoltStorage → BoltStorage
  unfolding flush_oldest_content
  make_room s = if ltb_ℤ s.max_size s.cache_size then (flush_oldest_content s).0 else s

  put_content : BoltStorage → Bytes → Bytes → BoltStorage × Option StorageError
  put_content s k v = elim (e.put k v s.db) [
    | none ↦ (s, some put_failed)
    | some b ↦ (record s { db = b }, none)
  ]

  unfoldable pub save_content : BoltStorage → ClipboardContent → BoltStorage × Option StorageError
  unfolding put_content
  save_content s content = elim (e.marshal content) [
    | none ↦ (s, some encode_failed)
    | some encoded ↦ update_tx s (
        put_content (make_room (record s { cache_size = s.cache_size +ℤ pos (length encoded) }))
          (e.format content.created) encoded)
  ]

  unfoldable pub get_cache_size : BoltStorage → ℤ
  get_cache_size s = s.cache_size

  -- The flush before the file is closed; its error is logged.
  unfoldable pub close : BoltStorage → BoltStorage
  unfolding flush_cache
  close s = (flush_cache s).0
