-- ===== src/Storage/Filters.antt =====
-- What GetHistory of internal/storage/boltdb.go returns, whatever is in the bucket.
use clipman_daemon.Prelude.{
  ℕ, suc, ◌+◌, ◌≤◌, ◌≡◌, refl, inl, inr, true, false, ◌||◌, some, [], ◌∷◌, Bytes, bytes_equal,
  length, arith, All, Bool-cases, Option-cases,
}
use clipman_daemon.Prelude.Int.{pos}
use clipman_daemon.Content.{ClipboardContent, HistoryOptions}
use clipman_daemon.Compression.{decompress_content}
use clipman_daemon.Storage.{BoltStorage}
use clipman_daemon.Storage.Cursor.{Bucket}
use clipman_daemon.Storage.Services.{Backend}
use clipman_daemon.Storage.Reads.{
  limit_reached, plain_content, passes_filters, in_time, accept_entry, history_loop, start_entries,
  get_history,
}

-- An item that is not compressed, and of the type asked for.
abbrev pub IsWanted : HistoryOptions → ClipboardContent → Type 0
IsWanted o d =
    (d.compressed ≡ false)
    × ((bytes_equal o.filter_type [] || bytes_equal d.content_type o.filter_type) ≡ true)

module _ (e : Backend) where
  some_inj : {x y : ClipboardContent} → some x ≡ some y → x ≡ y
  some_inj h = ground (arith, h)

  plain_content_lem :
      (c d : ClipboardContent)
      → plain_content e c ≡ some d
      → (d.compressed ≡ false) × (d.content_type ≡ c.content_type)
  unfolding plain_content decompress_content
  plain_content_lem c d h = elim (Bool-cases c.compressed) [
    | inr plain ↦ let k = some_inj (rw plain at h) in rw (← k) (refl, refl)
    | inl packed ↦ elim (Option-cases (e.gzip.decode_string c.content_data)) [
      | inl x ↦ cc (rw (packed, x) at h)
      | inr (z, x) ↦ elim (Option-cases (e.gzip.uncompress z)) [
        | inl y ↦ cc (rw (packed, x, y) at h)
        | inr (u, y) ↦ let k = some_inj (rw (packed, x, y) at h) in rw (← k) (refl, refl)
      ]
    ]
  ]

  type_passes :
      (o : HistoryOptions) (c : ClipboardContent)
      → passes_filters e o c ≡ true
      → (bytes_equal o.filter_type [] || bytes_equal c.content_type o.filter_type) ≡ true
  unfolding passes_filters
  type_passes o c h = ground (arith, h)

  accept_entry-IsWanted :
      (o : HistoryOptions) (x : Bytes × Bytes) (d : ClipboardContent)
      → accept_entry e o x ≡ some d
      → IsWanted o d
  unfolding accept_entry
  accept_entry-IsWanted o (k, v) d h = elim (Option-cases (e.parse k)) [
    | inl p ↦ cc (rw (accept_entry, p) at h)
    | inr (t, p) ↦ elim (Bool-cases (in_time e o t)) [
      | inr late ↦ cc (rw (accept_entry, p, late) at h)
      | inl timely ↦ elim (Option-cases (e.unmarshal v)) [
        | inl u ↦ cc (rw (accept_entry, p, timely, u) at h)
        | inr (c, u) ↦ elim (Bool-cases (passes_filters e o c)) [
          | inr fails ↦ cc (rw (accept_entry, p, timely, u, fails) at h)
          | inl passes ↦
              let q = plain_content_lem c d (rw (accept_entry, p, timely, u, passes) at h) in
              (q.0, rw q.1 (type_passes o c passes))
        ]
      ]
    ]
  ]

  below_limit :
      (o : HistoryOptions) (n count : ℕ)
      → o.limit ≡ pos (suc n)
      → count ≤ n
      → limit_reached o.limit (count + 1) ≡ false
      → count + 1 ≤ n
  unfolding limit_reached
  below_limit o n count l h more = ground (arith, rw l at more, h)

  history_loop_within :
      (o : HistoryOptions) (n : ℕ) (m : Bucket) (count : ℕ)
      → o.limit ≡ pos (suc n)
      → count ≤ n
      → (count + length (history_loop e o m count) ≤ suc n)
        × All (IsWanted o) (history_loop e o m count)
  unfolding history_loop
  history_loop_within o n [] count l h = (omega (arith, h), tt)
  history_loop_within o n (x ∷ m) count l h = elim (Option-cases (accept_entry e o x)) [
    | inl skip ↦ rw (history_loop, skip) (history_loop_within o n m count l h)
    | inr (d, take) ↦ elim (Bool-cases (limit_reached o.limit (count + 1))) [
      | inl full ↦
          rw (history_loop, take, full) (omega (arith, h), (accept_entry-IsWanted o x d take, tt))
      | inr more ↦
          let rest = history_loop_within o n m (count + 1) l (below_limit o n count l h more) in
          rw (history_loop, take, more)
            (omega (arith, rest.0), (accept_entry-IsWanted o x d take, rest.1))
    ]
  ]

  -- With a positive limit, GetHistory returns no more items than that, each decompressed, and of the
  -- type asked for if one is.
  pub get_history-IsWanted :
      (s : BoltStorage) (o : HistoryOptions) (n : ℕ)
      → o.limit ≡ pos (suc n)
      → (length (get_history e s o) ≤ suc n) × All (IsWanted o) (get_history e s o)
  unfolding get_history
  get_history-IsWanted s o n l =
      let h = history_loop_within o n (start_entries e o s.db) 0 l (omega arith) in
      (omega (arith, h.0), h.1)
