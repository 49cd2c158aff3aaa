-- ===== src/Clipboard/Monitor/Total.antt =====
-- The loop of internal/clipboard/monitor.go does not panic: the ring that it adds to is not empty.
use clipman_daemon.Prelude.{
  ℕ, ◌<◌, ◌≡◌, refl, inl, inr, Option, none, some, List, [], ◌∷◌, ◌++◌, length, arith, Bool-cases,
  Option-cases, length-append,
}
use clipman_daemon.Content.{ClipboardContent, Timestamp}
use clipman_daemon.Clipboard.History.{ClipboardHistory, HistoryItem, add}
use clipman_daemon.Clipboard.Processing.{process}
use clipman_daemon.Clipboard.Monitor.{
  Monitor, Services, Event, received, cancelled, is_content_equal, prepare_content, keep_content,
  process_new_content, publish_content, monitor_step, monitor_clipboard,
}
use clipman_daemon.Storage.{save_content}

-- A ring with a slot.
abbrev pub HasSlots : ClipboardHistory → Type 0
HasSlots h = 0 < length h.slots

-- A result, and that the monitor's ring has a slot.
abbrev Goes : Option Monitor → Type 0
Goes r = (m : Monitor) × (r ≡ some m) × HasSlots m.history

add-HasSlots :
    (h : ClipboardHistory) (c : ClipboardContent) (now : Timestamp)
    → HasSlots h
    → (h' : ClipboardHistory) × (add h c now ≡ some h') × HasSlots h'
unfolding add
add-HasSlots h c now some_slot = go h.slots h.size some_slot
  where
    go :
        (slots : List (Option HistoryItem)) (size : ℕ)
        → 0 < length slots
        → (h' : ClipboardHistory) × (add (record { slots = slots; size = size }) c now ≡ some h')
          × HasSlots h'
    go [] size none_there = absurd (omega (arith, none_there))
    go (x ∷ slots) size there = (
      _,
      refl,
      omega (arith, length-append slots (some (record { item_content = c; item_time = now }) ∷ [])),
    )

module _ (s : Services) where
  keep_content-Goes :
      (m : Monitor) (c : ClipboardContent) (now : Timestamp)
      → HasSlots m.history
      → Goes (keep_content s m c now)
  unfolding keep_content
  keep_content-Goes m c now some_slot =
      let (h', added, there) = add-HasSlots m.history c now some_slot in
      (
        record m {
          storage = (save_content s.backend m.storage c).0;
          published = m.published ++ (publish_content m.content_publisher c).0;
          history = h';
          last_content = some c;
        },
        rw (keep_content, added) refl,
        there,
      )

  process_new_content-Goes :
      (m : Monitor) (c : ClipboardContent) (now : Timestamp)
      → HasSlots m.history
      → Goes (process_new_content s m c now)
  unfolding process_new_content
  process_new_content-Goes m c now some_slot =
      elim (Option-cases (process s.files m.content_processor (some c))) [
        | inl dropped ↦ (m, rw (process_new_content, dropped) refl, some_slot)
        | inr (d, passed) ↦
            let (m', kept, there) = keep_content-Goes m (prepare_content s d) now some_slot in
            (m', rw (process_new_content, passed) kept, there)
      ]

  monitor_step-Goes : (m : Monitor) (ev : Event) → HasSlots m.history → Goes (monitor_step s m ev)
  unfolding monitor_step
  monitor_step-Goes m cancelled some_slot = (_, refl, some_slot)
  monitor_step-Goes m (received none now) some_slot = (_, refl, some_slot)
  monitor_step-Goes m (received (some c) now) some_slot =
      elim (Bool-cases (is_content_equal (some c) m.last_content)) [
        | inl same ↦ (m, rw (monitor_step, same) refl, some_slot)
        | inr new ↦
            let (m', processed, there) = process_new_content-Goes m c now some_slot in
            (m', rw (monitor_step, new) processed, there)
      ]

  -- Whatever arrives on the channel, the loop of a monitor whose ring has a slot does not panic, and leaves it one.
  pub monitor_clipboard_lem :
      (m : Monitor) (evs : List Event)
      → HasSlots m.history
      → (m' : Monitor) × (monitor_clipboard s m evs ≡ some m') × HasSlots m'.history
  unfolding monitor_clipboard
  monitor_clipboard_lem m [] some_slot = (m, refl, some_slot)
  monitor_clipboard_lem m (ev ∷ evs) some_slot =
      let (n, stepped, there) = monitor_step-Goes m ev some_slot in
      let (m', ran, left) = monitor_clipboard_lem n evs there in
      elim (Bool-cases m.stopped) [
        | inl over ↦ (m, simp (monitor_clipboard, over), some_slot)
        | inr goes_on ↦ (m', simp (monitor_clipboard, goes_on, stepped) ran, left)
      ]
