-- ===== src/Platform/Darwin.antt =====
-- internal/platform/clipboard_darwin.go: the clipboard of macOS. What the pasteboard answers is an argument
-- of each call.
use clipman_daemon.Prelude.{
  ℕ, ◌==◌, ◌≡◌, refl, inl, inr, Bool, true, false, not, Option, none, some, List, [], ◌∷◌, Bytes,
  bytes_equal, if◌then◌else◌, arith, Bool-cases,
}
use clipman_daemon.Content.{ClipboardContent, Timestamp, type_text, type_image}

pub record DarwinClipboard : Type 0 where
  pub last_change_count : ℕ

-- The answers of the package that reads the pasteboard: a text, and an image with what encoding it as
-- PNG gives.
pub record Pasteboard : Type 0 where
  pub unsupported : Bool
  pub text : Option Bytes
  pub image : Option (Option Bytes)
  pub now : Timestamp

pub data DarwinError : Type 0 where
  unsupported content_unchanged encode_failed no_content write_failed unsupported_type : DarwinError

pub data DarwinRead : Type 0 where
  got : ClipboardContent → DarwinRead
  failed : DarwinError → DarwinRead

-- `getChangeCount`, a placeholder.
unfoldable pub get_change_count : ℕ
get_change_count = 0

unfoldable pub new_clipboard : DarwinClipboard
unfolding get_change_count
new_clipboard = record { last_change_count = get_change_count }

abbrev plain : Bytes → Bytes → Timestamp → ClipboardContent
plain t bytes now = record {
  content_type = t;
  content_data = bytes;
  created = now;
  compressed = false;
}

-- The formats in their order.
unfoldable pub read_formats : Pasteboard → DarwinRead
read_formats p = elim p.text [
  | some t ↦ got (plain type_text t p.now)
  | none ↦ elim p.image [
    | none ↦ failed no_content
    | some encoded ↦ elim encoded [
      | none ↦ failed encode_failed
      | some png ↦ got (plain type_image png p.now)
    ]
  ]
]

-- `Read`
unfoldable pub read : Pasteboard → DarwinClipboard → DarwinClipboard × DarwinRead
unfolding get_change_count read_formats
read p c =
    if p.unsupported
    then (c, failed DarwinError.unsupported)
    else if get_change_count == c.last_change_count
    then (c, failed content_unchanged)
    else (record c { last_change_count = get_change_count }, read_formats p)

-- What the goroutine meets: a time at which a ticker that runs fires, with the pasteboard and whether the
-- item is taken before the monitor is stopped; or the monitor is stopped.
pub data DarwinEvent : Type 0 where
  interval_over : Pasteboard → Bool → DarwinEvent
  stopped : DarwinEvent

-- The goroutine's loop on a ticker that runs or not: the items that are sent. Errors are printed.
unfoldable pub monitor_loop : Bool → List DarwinEvent → DarwinClipboard → List ClipboardContent
unfolding get_change_count read
monitor_loop ticking [] c = []
monitor_loop ticking (stopped ∷ events) c = []
monitor_loop ticking (interval_over p taken ∷ events) c =
    let waiting = monitor_loop ticking events c in
    let r = read p (record c { last_change_count = get_change_count }) in
    let rest = monitor_loop ticking events r.0 in
    if not ticking
    then waiting
    else if get_change_count == c.last_change_count
    then waiting
    else elim r.1 [ failed e ↦ rest | got content ↦ if taken then content ∷ rest else [] ]

-- `MonitorChanges` returns when the goroutine is started, and its deferred call stops the ticker then.
unfoldable pub monitor_changes : List DarwinEvent → DarwinClipboard → List ClipboardContent
unfolding monitor_loop
monitor_changes events c = monitor_loop false events c

-- `Write`, with whether the package writes a text; none is no error.
unfoldable pub write : Bool → Bool → ClipboardContent → Option DarwinError
write is_unsupported writes c =
    if is_unsupported
    then some DarwinError.unsupported
    else if bytes_equal c.content_type type_text
    then (if writes then none else some write_failed)
    else some unsupported_type

read_refused :
    (p : Pasteboard) → (e : DarwinError) × (read p new_clipboard ≡ (new_clipboard, failed e))
unfolding read new_clipboard
read_refused p = elim (Bool-cases p.unsupported) [
  | inl off ↦ (DarwinError.unsupported, ground (arith, off))
  | inr on ↦ (content_unchanged, ground (arith, on))
]

loop_idle :
    (ticking : Bool) (events : List DarwinEvent) → monitor_loop ticking events new_clipboard ≡ []
unfolding monitor_loop new_clipboard
loop_idle ticking [] = refl
loop_idle ticking (stopped ∷ events) = refl
loop_idle true (interval_over p taken ∷ events) = loop_idle true events
loop_idle false (interval_over p taken ∷ events) = loop_idle false events

-- A new clipboard reads nothing, whatever the pasteboard holds; and its monitor sends nothing, whatever
-- comes, nor would it if the ticker ran on.
pub nothing_is_read :
    (p : Pasteboard) (events : List DarwinEvent)
    → ((e : DarwinError) × (read p new_clipboard ≡ (new_clipboard, failed e)))
      × (monitor_changes events new_clipboard ≡ [])
      × (monitor_loop true events new_clipboard ≡ [])
unfolding monitor_changes
nothing_is_read p events = (read_refused p, loop_idle false events, loop_idle true events)
