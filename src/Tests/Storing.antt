-- ===== src/Tests/Storing.antt =====
-- The theorems on internal/storage and pkg/compression at concrete inputs.
use clipman_daemon.Prelude.{
  ℕ, ◌≡◌, refl, true, none, some, [], ◌∷◌, Bytes, codes, length, arith, All, bytes_equal,
  bytes_less, length-replicate, replicate,
}
use clipman_daemon.Prelude.Int.{pos}
use clipman_daemon.Content.{ClipboardContent, HistoryOptions}
use clipman_daemon.Compression.{compress_content}
use clipman_daemon.Storage.{BoltStorage, save_content, flush_cache, ok}
use clipman_daemon.Storage.Cursor.{IsAscending, value_of, upsert}
use clipman_daemon.Storage.Reads.{get_history, get_latest_content}
use clipman_daemon.Storage.Flush.{IsItem, oldest, newest, deleted, flush_cache_lem}
use clipman_daemon.Storage.Saving.{IsSound, room_db, room_size, save_content_lem}
use clipman_daemon.Storage.Invariant.{save_content-IsSound}
use clipman_daemon.Storage.History.{take_limit, accepted}
use clipman_daemon.Storage.Ranges.{candidates, Agrees, get_history_lem, get_history_forwards}
use clipman_daemon.Storage.Latest.{AllBelow, get_latest-save}
use clipman_daemon.Tests.Samples.{
  gzip, backend, backend_laws, text_at, three_items, storage_with, all_history, encode, at,
}

abbrev store : BoltStorage
store = storage_with (pos 1000) three_items

abbrev full_store : BoltStorage
full_store = storage_with (pos 50) three_items

abbrev four : ClipboardContent
four = text_at 8 (codes "four")

three_items-IsAscending : IsAscending three_items
unfolding bytes_less
three_items-IsAscending = ((refl, (refl, tt)), ((refl, tt), (tt, tt)))

three_items-IsItem : All (IsItem backend) three_items
three_items-IsItem = (
  (text_at 5 (codes "one"), refl, refl),
  ((text_at 6 (codes "two"), refl, refl), ((text_at 7 (codes "three"), refl, refl), tt)),
)

three_items-IsSound : IsSound backend three_items
three_items-IsSound = record { ascending = three_items-IsAscending; all_items = three_items-IsItem }

save_content_lem_example : save_content backend full_store four ≡ (
  record full_store {
    db = upsert (8 ∷ 0 ∷ []) (encode four) (room_db backend full_store (length (encode four)));
    cache_size = room_size backend full_store (length (encode four));
  },
  none,
)
save_content_lem_example =
    save_content_lem backend backend_laws full_store four (encode four) three_items-IsSound refl
      (omega arith)

save_content-IsSound_example : IsSound backend (save_content backend full_store four).0.db
save_content-IsSound_example =
    save_content-IsSound backend backend_laws full_store four three_items-IsSound

flush_cache_lem_example :
    flush_cache backend full_store
    ≡ (deleted backend full_store (oldest backend full_store) (newest backend full_store), none)
flush_cache_lem_example =
    flush_cache_lem backend backend_laws full_store three_items-IsAscending three_items-IsItem

four-is_new : value_of (8 ∷ 0 ∷ []) three_items ≡ none
unfolding value_of bytes_equal
four-is_new = refl

zeros : ℕ → Bytes
zeros n = replicate n 0

length-zeros : (n : ℕ) → length (zeros n) ≡ n
unfolding zeros
length-zeros n = length-replicate n 0

abbrev since_six : HistoryOptions
since_six = record all_history { since = at 6 }

get_history_lem_example :
    get_history backend store all_history
    ≡ take_limit (pos 2) (accepted backend all_history (candidates backend all_history three_items))
get_history_lem_example = get_history_lem backend store all_history three_items-IsAscending

three_items-Agrees : All (Agrees backend (at 6)) three_items
unfolding bytes_less
three_items-Agrees = (
  λ t p b. ground (arith, p, b),
  (λ t p b. ground (arith, p, b), (λ t p b. ground (arith, p, b), tt)),
)

get_history_forwards_example :
    get_history backend store since_six
    ≡ take_limit (pos 2) (accepted backend since_six three_items)
get_history_forwards_example =
    get_history_forwards backend store since_six three_items-IsAscending refl three_items-Agrees

three_items_before_ten : All (λ x. bytes_less x.0 (10 ∷ 0 ∷ []) ≡ true) three_items
unfolding bytes_less
three_items_before_ten = (refl, (refl, (refl, tt)))

three_items_below : AllBelow (8 ∷ 0 ∷ []) three_items
unfolding bytes_less
three_items_below = (refl, (refl, (refl, tt)))

get_latest-save_example :
    get_latest_content backend (save_content backend full_store four).0 ≡ ok (some four)
get_latest-save_example =
    get_latest-save backend backend_laws full_store four (encode four) three_items-IsSound refl
      (omega arith) three_items_below refl

abbrev long_text : ClipboardContent
long_text = text_at 9 (zeros 1024)

-- A run: the text is long enough to be compressed.
compress_long : compress_content gzip long_text ≡ some (record long_text { compressed = true })
unfolding compress_content
compress_long = ground (arith, length-zeros 1024)
