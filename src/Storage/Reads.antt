-- ===== src/Storage/Reads.antt =====
-- The reading operations of internal/storage/boltdb.go: GetLatestContent, GetContentSince,
-- GetAllContents and GetHistory.
use clipman_daemon.Prelude.{
  ℕ, ◌+◌, Bool, true, false, not, ◌&&◌, ◌||◌, Option, none, some, List, [], ◌∷◌, reverse, Bytes,
  bytes_equal, bytes_less, length, ltb, if◌then◌else◌,
}
use clipman_daemon.Prelude.Int.{ℤ, pos, ltb_ℤ}
use clipman_daemon.Content.{ClipboardContent, Timestamp, HistoryOptions, is_zero, zero_time}
use clipman_daemon.Compression.{decompress_content}
use clipman_daemon.Storage.Cursor.{Bucket, seek, before_seek}
use clipman_daemon.Storage.Services.{Backend}
use clipman_daemon.Storage.{
  BoltStorage, StorageError, Result, ok, err, decode_failed, decompress_failed,
}

-- c.Last()
unfoldable pub last_entry : Bucket → Option (Bytes × Bytes)
last_entry [] = none
last_entry (x ∷ []) = some x
last_entry (x ∷ y ∷ m) = last_entry (y ∷ m)

-- The `Limit` is reached after `count` items; a limit that is not positive is none.
unfoldable pub limit_reached : ℤ → ℕ → Bool
limit_reached limit count = ltb_ℤ (pos 0) limit && not (ltb_ℤ (pos count) limit)

module _ (e : Backend) where
  or_error : Option ClipboardContent → StorageError → Result (Option ClipboardContent)
  or_error none x = err x
  or_error (some c) x = ok (some c)

  unfoldable pub get_latest_content : BoltStorage → Result (Option ClipboardContent)
  unfolding last_entry or_error
  get_latest_content s = elim (last_entry s.db) [
    | none ↦ ok none
    | some (k, v) ↦ elim (e.unmarshal v) [
      | none ↦ err decode_failed
      | some c ↦
          if c.compressed
          then or_error (decompress_content e.gzip c) decompress_failed
          else ok (some c)
    ]
  ]

  -- The body of both loops: an item, decompressed if need be.
  unfoldable pub plain_content : ClipboardContent → Option ClipboardContent
  plain_content c = if c.compressed then decompress_content e.gzip c else some c

  -- The contents collected up to an error come back with it.
  unfoldable pub since_loop : Bucket → List ClipboardContent × Option StorageError
  unfolding plain_content
  since_loop [] = ([], none)
  since_loop ((k, v) ∷ m) =
      let (rest, x) = since_loop m in
      elim (e.unmarshal v) [
        | none ↦ ([], some decode_failed)
        | some c ↦ elim (plain_content c) [
          | none ↦ ([], some decompress_failed)
          | some d ↦ (d ∷ rest, x)
        ]
      ]

  unfoldable pub get_content_since :
      BoltStorage → Timestamp → List ClipboardContent × Option StorageError
  unfolding since_loop seek
  get_content_since s since = since_loop (seek (e.format since) s.db)

  unfoldable pub get_all_contents : BoltStorage → List ClipboardContent × Option StorageError
  unfolding get_content_since
  get_all_contents s = get_content_since s zero_time

  -- The entries that `GetHistory` walks, in its order. Going back from a `Before` time, a Seek that
  -- finds no entry ends the walk at once.
  unfoldable pub start_entries : HistoryOptions → Bucket → Bucket
  start_entries o b =
      if o.reversed
      then if not (is_zero o.before)
        then elim (seek (e.format o.before) b) [
          | [] ↦ []
          | (k, v) ∷ _ ↦
              if not (bytes_less k (e.format o.before))
              then before_seek (e.format o.before) [] b
              else (k, v) ∷ before_seek (e.format o.before) [] b
        ]
        else reverse b
      else if not (is_zero o.since)
      then seek (e.format o.since) b
      else b

  -- The tests on an entry's time; `false` is `continue`.
  unfoldable pub in_time : HistoryOptions → Timestamp → Bool
  in_time o t =
      not (not (is_zero o.since) && ltb t.instant o.since.instant)
      && not (not (is_zero o.before) && ltb o.before.instant t.instant)

  -- The tests on an item's type and size.
  unfoldable pub passes_filters : HistoryOptions → ClipboardContent → Bool
  passes_filters o c =
      (bytes_equal o.filter_type [] || bytes_equal c.content_type o.filter_type)
      && not (ltb_ℤ (pos 0) o.min_size && ltb_ℤ (pos (length c.content_data)) o.min_size)
      && not (ltb_ℤ (pos 0) o.max_size && ltb_ℤ o.max_size (pos (length c.content_data)))

  -- One round of the loop: the item to append, or `continue`.
  unfoldable pub accept_entry : HistoryOptions → Bytes × Bytes → Option ClipboardContent
  unfolding in_time passes_filters plain_content
  accept_entry o (k, v) = elim (e.parse k) [
    | none ↦ none
    | some t ↦ if not (in_time o t) then none else elim (e.unmarshal v) [
      | none ↦ none
      | some c ↦ if passes_filters o c then plain_content c else none
    ]
  ]

  unfoldable pub history_loop : HistoryOptions → Bucket → ℕ → List ClipboardContent
  history_loop o [] count = []
  history_loop o (x ∷ m) count = elim (accept_entry o x) [
    | none ↦ history_loop o m count
    | some c ↦ c ∷ (elim (limit_reached o.limit (count + 1)) [
      | true ↦ []
      | false ↦ history_loop o m (count + 1)
    ])
  ]

  -- The error is always nil.
  unfoldable pub get_history : BoltStorage → HistoryOptions → List ClipboardContent
  unfolding history_loop
  get_history s o = history_loop o (start_entries o s.db) 0
