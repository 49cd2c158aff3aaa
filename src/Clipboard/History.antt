-- ===== src/Clipboard/History.antt =====
-- internal/clipboard/history.go: the last items, in a ring of package container/ring. The ring is the
-- list of its slots from the current one on; a ring of no slots is the nil pointer.
pub mod Window
use clipman_daemon.Prelude.{
  ℕ, Option, none, some, List, [], ◌∷◌, ◌++◌, length, replicate, ltb, if◌then◌else◌,
}
use clipman_daemon.Content.{ClipboardContent, Timestamp}

pub record HistoryItem : Type 0 where
  pub item_content : ClipboardContent
  pub item_time : Timestamp

pub record ClipboardHistory : Type 0 where
  pub slots : List (Option HistoryItem)
  pub size : ℕ

unfoldable pub new_clipboard_history : ℕ → ClipboardHistory
new_clipboard_history size = record { slots = replicate size none; size = size }

-- `Add` at the time `now`; `none` is a panic, the write through the nil ring.
unfoldable pub add : ClipboardHistory → ClipboardContent → Timestamp → Option ClipboardHistory
add ch content now = elim ch.slots [
  | [] ↦ none
  | current ∷ rest ↦
      some (record ch {
        slots = rest ++ some (record { item_content = content; item_time = now }) ∷ [];
      })
]

-- The function that `GetLast` passes to the ring's Do, over the slots.
unfoldable pub collect : ℕ → List HistoryItem → List (Option HistoryItem) → List HistoryItem
collect n items [] = items
collect n items (none ∷ rest) = collect n items rest
collect n items (some v ∷ rest) = collect n (if ltb (length items) n then v ∷ items else items) rest

-- `GetLast`, for n that is not negative.
unfoldable pub get_last : ClipboardHistory → ℕ → List HistoryItem
unfolding collect
get_last ch n = collect (if ltb ch.size n then ch.size else n) [] ch.slots
