-- ===== src/Tests/Windows.antt =====
-- The theorems on the clipboard of Windows, at a desktop with a text and a small bitmap.
use clipman_daemon.Prelude.{
  ℕ, ◌+◌, ◌*◌, ◌≤◌, ◌<◌, ◌≡◌, ◌==◌, refl, Bool, true, false, none, some, List, [], ◌∷◌, Bytes,
  bytes_equal, codes, ltb, arith, if◌then◌else◌,
}
use clipman_daemon.Content.{ClipboardContent, Timestamp}
use clipman_daemon.Platform.Reading.{content}
use clipman_daemon.Platform.Windows.{
  Desk, WindowsPackages, ClipFormat, cf_unicodetext, new_clipboard, read, text_item,
}
use clipman_daemon.Platform.Windows.Image.{Dib, stride, convert_dib_to_png}
use clipman_daemon.Platform.Windows.Bounds.{with_memory, convert_dib_to_png_bound}
use clipman_daemon.Platform.Windows.Rereading.{write-read}
use clipman_daemon.Platform.Windows.Watching.{
  WriteAnswers, WindowEvent, write, window_message, clipboard_update, notified, stopped,
  monitor_changes,
}
use clipman_daemon.Platform.Windows.Channel.{IsAccounted, monitor_changes-IsAccounted}
use clipman_daemon.Tests.Samples.{text_at}

abbrev hello : Bytes
hello = codes "hello"

abbrev only_text : ClipFormat → Bool
only_text cf_unicodetext = true
only_text _ = false

abbrev packages : WindowsPackages
packages = record {
  utf16_to_string = some;
  utf16_from_string = some;
  is_url = λ d. false;
  encode_png = λ rows. some [];
  marshal = λ files. none;
  header_size = 40;
}

abbrev desk : Desk
desk = record {
  opens = true;
  sequence = 7;
  is_available = only_text;
  unicode_text = some hello;
  byte_text = λ f. none;
  dib = λ f. none;
  dropped_files = none;
}

abbrev at_time : ℕ → Timestamp
at_time n = record { instant = n; zone = 0 }

abbrev answers : WriteAnswers
answers = record { opens = true; empties = true; allocates = true; locks = true; sets = true }

abbrev greeting : ClipboardContent
greeting = text_at 1 hello

greeting_is_written : (write packages answers greeting).succeeds ≡ true
unfolding write bytes_equal
greeting_is_written = refl

greeting_is_put : desk.unicode_text ≡ (write packages answers greeting).put
unfolding write bytes_equal
greeting_is_put = refl

desk_is_new : (desk.sequence == new_clipboard.last_clip_format) ≡ false
unfolding new_clipboard
desk_is_new = refl

write-read_example :
    (read packages desk (at_time 3) new_clipboard).1
    ≡ content (text_item packages hello (at_time 3))
write-read_example =
    write-read packages answers greeting desk (at_time 3) new_clipboard (λ u e. cc (e))
      greeting_is_written greeting_is_put refl desk_is_new refl refl refl refl

-- Two rows of two pixels, eight bytes each.
abbrev bitmap : Dib
bitmap = record { width = 2; height = 2; is_bottom_up = true; bit_count = 24; memory = λ i. i }

-- The same up to the end of the last row.
abbrev cut_off : ℕ → ℕ
cut_off i = if ltb i 56 then i else 0

rows_are_kept : (i : ℕ) → i < 40 + bitmap.height * stride bitmap → i ≡ cut_off i
unfolding stride
rows_are_kept i inside = ground (arith, inside)

convert_dib_to_png_bound_example :
    convert_dib_to_png 40 packages.encode_png bitmap
    ≡ convert_dib_to_png 40 packages.encode_png (with_memory bitmap cut_off)
convert_dib_to_png_bound_example =
    convert_dib_to_png_bound 40 packages.encode_png bitmap cut_off rows_are_kept

abbrev two_updates : List WindowEvent
two_updates =
    window_message clipboard_update
    ∷ window_message clipboard_update
    ∷ notified desk (at_time 4) true
    ∷ stopped
    ∷ []

none_waiting : new_clipboard.messages ≤ 10
unfolding new_clipboard
none_waiting = omega arith

monitor_changes-IsAccounted_example :
    IsAccounted (new_clipboard.messages + 2) (monitor_changes packages new_clipboard two_updates)
monitor_changes-IsAccounted_example =
    monitor_changes-IsAccounted packages two_updates new_clipboard none_waiting
