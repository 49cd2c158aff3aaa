-- ===== src/Platform/Polling.antt =====
-- The adaptive polling of internal/platform/clipboard_linux.go. One tick of the timer is one step.
-- Durations are in nanoseconds, on 64 bits with a sign.
pub mod Hash
pub mod Intervals
use clipman_daemon.Prelude.{
  ℕ, zero, suc, ◌+◌, ◌-◌, ◌*◌, ◌%◌, ◌^◌, Bool, true, false, not, Option, none, some, List, [],
  Bytes, bytes_equal, ltb, leb, if◌then◌else◌,
}
use clipman_daemon.Prelude.Int.{ℤ, pos, negsuc, ltb_ℤ}
use clipman_daemon.Content.{ClipboardContent}
use clipman_daemon.Platform.Formats.{formats_equal}
use Hash.{hash_content}

-- The integer of 64 bits with a sign that is equal to `z` modulo 2^64.
abbrev pub wrap_int64 : ℤ → ℤ
wrap_int64 (pos n) =
    if ltb (n % 2 ^ 64) (2 ^ 63) then pos (n % 2 ^ 64) else negsuc (2 ^ 64 - 1 - n % 2 ^ 64)
wrap_int64 (negsuc n) =
    if ltb (n % 2 ^ 64) (2 ^ 63) then negsuc (n % 2 ^ 64) else pos (2 ^ 64 - 1 - n % 2 ^ 64)

-- z * k, on 64 bits with a sign.
abbrev pub times_int64 : ℤ → ℕ → ℤ
times_int64 (pos n) k = wrap_int64 (pos (n * k))
times_int64 (negsuc n) zero = pos 0
times_int64 (negsuc n) (suc k) = wrap_int64 (negsuc (n * suc k + k))

-- time.Millisecond
abbrev pub millisecond : ℕ
millisecond = 1_000_000

-- The base and the maximum interval that `SetPollingIntervals` stores.
unfoldable pub set_polling_intervals : ℤ → ℤ → ℤ × ℤ
set_polling_intervals base_ms max_ms =
    let base = if ltb_ℤ base_ms (pos 1000) then pos 1000 else base_ms in
    let max = if ltb_ℤ max_ms base then times_int64 base 3 else max_ms in
    (times_int64 base millisecond, times_int64 max millisecond)

-- The local variables of the polling goroutine, and the inactivity counter of the clipboard.
pub record Poller : Type 0 where
  pub base_interval : ℤ
  pub max_interval : ℤ
  pub current_interval : ℤ
  pub skip_threshold : ℕ
  pub inactive_streak : ℕ
  pub last_content_hash : Bytes
  pub formats : List Bytes
  pub skip_counter : ℕ

-- `none` is the panic of time.NewTicker.
unfoldable pub monitor_with_adaptive_polling : ℤ → ℤ → Bool → Option Poller
monitor_with_adaptive_polling base max stealth_mode =
    if not (ltb_ℤ (pos 0) base)
    then none
    else some (record {
      base_interval = base;
      max_interval = max;
      current_interval = base;
      skip_threshold = if stealth_mode then 5 else 3;
      inactive_streak = 0;
      last_content_hash = [];
      formats = [];
      skip_counter = 0;
    })

-- c.Read()
pub data ReadResult : Type 0 where
  read_content : ClipboardContent → ReadResult
  content_unchanged read_error : ReadResult

-- What one tick leaves: the goroutine's variables, whether the clipboard was read, and what is sent.
pub record Tick : Type 0 where
  pub poller : Poller
  pub was_read : Bool
  pub sent : Option ClipboardContent

abbrev pub quiet : Poller → Bool → Tick
quiet p r = record { poller = p; was_read = r; sent = none }

-- ticker.Reset panics on an interval that is not positive.
unfoldable pub reset_ticker : Poller → ℤ → Option Poller
reset_ticker p interval =
    if ltb_ℤ (pos 0) interval then some (record p { current_interval = interval }) else none

-- The exponential backoff, after the streak has been counted up.
unfoldable pub back_off : Poller → Option Poller
unfolding reset_ticker
back_off p =
    let doubled = times_int64 p.current_interval 2 in
    let interval = if ltb_ℤ p.max_interval doubled then p.max_interval else doubled in
    if leb 2 p.inactive_streak then reset_ticker p interval else some p

abbrev pub count_inactive : Poller → Poller
count_inactive p = record p { inactive_streak = p.inactive_streak + 1 }

abbrev pub tick_of : Option Poller → Bool → Option Tick
tick_of none r = none
tick_of (some p) r = some (quiet p r)

-- From `c.Read()` on.
unfoldable pub check_content : Poller → ReadResult → Option Tick
unfolding hash_content
check_content p read_error = some (quiet p true)
check_content p content_unchanged = tick_of (back_off (count_inactive p)) true
check_content p (read_content c) =
    if bytes_equal (hash_content c.content_data) p.last_content_hash
    then some (quiet (count_inactive p) true)
    else some (record {
      poller = record p {
        last_content_hash = hash_content c.content_data;
        current_interval = p.base_interval;
        inactive_streak = 0;
      };
      was_read = true;
      sent = some c;
    })

-- One tick: `new_formats` is what getAvailableFormats gives, `read` what a read would give.
unfoldable pub poll : Poller → Option (List Bytes) → ReadResult → Option Tick
unfolding check_content
poll p none read = some (quiet p false)
poll p (some new_formats) read =
    if formats_equal p.formats new_formats
    then (if ltb (p.skip_counter + 1) p.skip_threshold
        then tick_of
            (back_off (record p {
              inactive_streak = p.inactive_streak + 1;
              skip_counter = p.skip_counter + 1;
            }))
            false
        else check_content (record p { inactive_streak = p.inactive_streak + 1; skip_counter = 0 })
            read)
    else check_content (record p { skip_counter = 0; formats = new_formats }) read
