-- ===== src/Storage/Services.antt =====
-- What internal/storage/boltdb.go calls and does not implement: bbolt's Put and Delete, the JSON and
-- time formats of the standard library, and gzip.
use clipman_daemon.Prelude.{ℕ, ◌≤◌, ◌<◌, ◌≡◌, Option, none, some, Bytes, length}
use clipman_daemon.Content.{ClipboardContent, Timestamp}
use clipman_daemon.Compression.{Gzip, GzipLaws}
use clipman_daemon.Storage.Cursor.{Bucket, upsert, remove}

-- `none` is an error.
pub record Backend : Type 0 where
  pub gzip : Gzip
  -- json.Marshal and json.Unmarshal
  pub marshal : ClipboardContent → Option Bytes
  pub unmarshal : Bytes → Option ClipboardContent
  -- Format and Parse in the layout time.RFC3339Nano
  pub format : Timestamp → Bytes
  pub parse : Bytes → Option Timestamp
  -- b.Put(k, v) and b.Delete(k), in a read-write transaction
  pub put : Bytes → Bytes → Bucket → Option Bucket
  pub delete : Bytes → Bucket → Option Bucket

-- bbolt's MaxKeySize and MaxValueSize
abbrev pub max_key_size : ℕ
max_key_size = 32768

abbrev pub max_value_size : ℕ
max_value_size = 2147483646

-- The documented behaviour that the theorems use, for types in UTF-8 and for years up to 9999: the program
-- makes no other items.
pub record BackendLaws (e : Backend) : Type 0 where
  pub gzip_laws : GzipLaws e.gzip
  pub unmarshal-marshal :
      (c : ClipboardContent) (v : Bytes) → e.marshal c ≡ some v → e.unmarshal v ≡ some c
  -- JSON holds the data in base64, among field names.
  pub marshal_grows :
      (c : ClipboardContent) (v : Bytes) → e.marshal c ≡ some v → length c.content_data < length v
  pub format_size :
      (t : Timestamp) → (0 < length (e.format t)) × (length (e.format t) ≤ max_key_size)
  pub parse-format :
      (t : Timestamp) → (u : Timestamp) × (e.parse (e.format t) ≡ some u) × (u.instant ≡ t.instant)
  -- Put refuses an empty key, a key or a value that is too large, and nothing else.
  pub put_ok :
      (k v : Bytes) (b : Bucket)
      → 0 < length k
      → length k ≤ max_key_size
      → length v ≤ max_value_size
      → e.put k v b ≡ some (upsert k v b)
  pub put_too_large : (k v : Bytes) (b : Bucket) → max_value_size < length v → e.put k v b ≡ none
  -- Delete of a missing key does nothing, and returns no error.
  pub delete_ok : (k : Bytes) (b : Bucket) → e.delete k b ≡ some (remove k b)
