-- ===== src/Tests/Polling.antt =====
-- The theorems on internal/platform at concrete inputs.
use clipman_daemon.Prelude.{
  ℕ, ◌≡◌, refl, ◌⊎◌, true, false, none, some, [], ◌∷◌, Bytes, codes, length, arith, bytes_equal,
  replicate, length-replicate,
}
use clipman_daemon.Prelude.Int.{pos}
use clipman_daemon.Prelude.Dict.{lookup}
use clipman_daemon.Platform.Polling.{Poller, Tick, read_content, poll}
use clipman_daemon.Platform.Polling.Intervals.{IsPaced, poll-IsPaced}
use clipman_daemon.Platform.Cache.{LinuxClipboard, CustomMimeTypeHandler, register_custom_mime_type}
use clipman_daemon.Tests.Samples.{text_at}

-- The default intervals, of 5 and 30 seconds, after one backoff.
abbrev poller : Poller
poller = record {
  base_interval = pos 5_000_000_000;
  max_interval = pos 30_000_000_000;
  current_interval = pos 10_000_000_000;
  skip_threshold = 3;
  inactive_streak = 2;
  last_content_hash = [];
  formats = codes "text/plain" ∷ [];
  skip_counter = 1;
}

poller-IsPaced : IsPaced poller
poller-IsPaced = record {
  base_positive = omega arith;
  above_base = omega arith;
  below_max = omega arith;
  max_bounded = omega arith;
  skips = omega arith;
}

poll-IsPaced_example :
    (t : Tick) × (poll poller
        (some (codes "text/plain" ∷ []))
        (read_content (text_at 1 (codes "x")))
      ≡ some t)
    × IsPaced t.poller
    × ((some (codes "text/plain" ∷ []) ≡ none) ⊎ (t.was_read ≡ true) ⊎ (t.poller.skip_counter ≡ 2))
poll-IsPaced_example =
    poll-IsPaced poller (some (codes "text/plain" ∷ [])) (read_content (text_at 1 (codes "x")))
      poller-IsPaced

zeros : ℕ → Bytes
zeros n = replicate n 0

length-zeros : (n : ℕ) → length (zeros n) ≡ n
unfolding zeros
length-zeros n = length-replicate n 0

abbrev clipboard : LinuxClipboard
clipboard = record {
  content_cache = none;
  cache_enabled = true;
  cache_expiry = pos 2_000_000_000;
  custom_types = [];
}

abbrev handler : CustomMimeTypeHandler
handler = record {
  mime_type = codes "application/x-a";
  type_id = codes "a";
  description = [];
  detect_func = some (λ d. true);
  convert_func = none;
}

handler_accepted : (register_custom_mime_type clipboard handler).1 ≡ none
unfolding register_custom_mime_type lookup bytes_equal
handler_accepted = refl

type_id_is_given : bytes_equal (codes "a") [] ≡ false
unfolding bytes_equal
type_id_is_given = refl
