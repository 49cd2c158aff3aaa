-- ===== src/Platform/Polling/Intervals.antt =====
-- The intervals of the adaptive polling of internal/platform/clipboard_linux.go, and how long a
-- change of the content can go unread.
use clipman_daemon.Prelude.{
  ℕ, ◌+◌, ◌^◌, ◌<◌, ◌≡◌, ◌⊎◌, refl, ap, true, false, Option, none, some, List, Bytes, bytes_equal,
  if◌then◌else◌, arith, Bool-cases, inl, inr, leb, ltb, ltb→lt,
}
use clipman_daemon.Prelude.Int.{ℤ, pos, negsuc, ltb_ℤ, ◌≤ℤ◌}
use clipman_daemon.Platform.Formats.{formats_equal}
use clipman_daemon.Platform.Polling.Hash.{hash_content}
use clipman_daemon.Platform.Polling.{
  Poller, Tick, ReadResult, read_content, content_unchanged, read_error, times_int64, reset_ticker,
  back_off, count_inactive, tick_of, check_content, poll,
}

-- The current interval lies between the base and the maximum; doubling it stays below 2^63.
pub record IsPaced (p : Poller) : Type 0 where
  pub base_positive : pos 1 ≤ℤ p.base_interval
  pub above_base : p.base_interval ≤ℤ p.current_interval
  pub below_max : p.current_interval ≤ℤ p.max_interval
  pub max_bounded : p.max_interval ≤ℤ pos (2 ^ 61)
  pub skips : p.skip_counter < p.skip_threshold

next_interval : ℤ → ℤ → ℤ
next_interval current max = if ltb_ℤ max (times_int64 current 2) then max else times_int64 current 2

next_interval_bounds :
    (current max : ℤ)
    → pos 1 ≤ℤ current
    → current ≤ℤ max
    → max ≤ℤ pos (2 ^ 61)
    → (current ≤ℤ next_interval current max) × (next_interval current max ≤ℤ max)
unfolding next_interval
next_interval_bounds (pos c) (pos m) h1 h2 h3 = ground arith
next_interval_bounds (pos c) (negsuc m) h1 h2 h3 = ground arith
next_interval_bounds (negsuc c) m h1 h2 h3 = ground arith

positive_interval :
    (p : Poller)
    → IsPaced p
    → ltb_ℤ (pos 0) (next_interval p.current_interval p.max_interval) ≡ true
positive_interval p h = ground (
  arith,
  (next_interval_bounds p.current_interval p.max_interval
      (omega (arith, h.base_positive, h.above_base)) h.below_max h.max_bounded).0,
  h.base_positive,
  h.above_base,
)

-- What back_off leaves: no panic, and the invariant.
back_off-IsPaced :
    (p : Poller)
    → IsPaced p
    → (q : Poller) × (back_off p ≡ some q) × IsPaced q × (q.skip_counter ≡ p.skip_counter)
unfolding back_off reset_ticker next_interval
back_off-IsPaced p h =
    let b =
      next_interval_bounds p.current_interval p.max_interval
        (omega (arith, h.base_positive, h.above_base)) h.below_max h.max_bounded in
    elim (Bool-cases (leb 2 p.inactive_streak)) [
      | inr awake ↦ (p, rw awake refl, h, refl)
      | inl idle ↦ (
        record p { current_interval = next_interval p.current_interval p.max_interval },
        rw (idle, positive_interval p h) refl,
        record {
          base_positive = h.base_positive;
          above_base = omega (arith, h.above_base, b.0);
          below_max = b.1;
          max_bounded = h.max_bounded;
          skips = h.skips;
        },
        refl,
      )
    ]

check_content-IsPaced :
    (p : Poller) (r : ReadResult)
    → IsPaced p
    → (t : Tick) × (check_content p r ≡ some t) × IsPaced t.poller × (t.was_read ≡ true)
unfolding check_content
check_content-IsPaced p read_error h = (_, refl, h, refl)
check_content-IsPaced p content_unchanged h =
    let b = back_off-IsPaced (count_inactive p) (record {
      base_positive = h.base_positive;
      above_base = h.above_base;
      below_max = h.below_max;
      max_bounded = h.max_bounded;
      skips = h.skips;
    }) in
    (_, ap (λ o. tick_of o true) b.1, b.2, refl)
check_content-IsPaced p (read_content c) h =
    elim (Bool-cases (bytes_equal (hash_content c.content_data) p.last_content_hash)) [
      | inl same ↦ rw same (
        _,
        refl,
        record {
          base_positive = h.base_positive;
          above_base = h.above_base;
          below_max = h.below_max;
          max_bounded = h.max_bounded;
          skips = h.skips;
        },
        refl,
      )
      | inr new ↦ rw new (
        _,
        refl,
        record {
          base_positive = h.base_positive;
          above_base = omega arith;
          below_max = omega (arith, h.above_base, h.below_max);
          max_bounded = h.max_bounded;
          skips = h.skips;
        },
        refl,
      )
    ]

-- A poller with other counters, below the threshold.
recount :
    (p : Poller) (streak skip : ℕ) (f : List Bytes)
    → skip < p.skip_threshold
    → IsPaced p
    → IsPaced (record p { inactive_streak = streak; skip_counter = skip; formats = f })
recount p streak skip f l h = record {
  base_positive = h.base_positive;
  above_base = h.above_base;
  below_max = h.below_max;
  max_bounded = h.max_bounded;
  skips = l;
}

-- A tick never panics, keeps the intervals within their bounds, and, when the formats can be had,
-- either reads the clipboard or counts one more skip, below the threshold.
pub poll-IsPaced :
    (p : Poller) (f : Option (List Bytes)) (r : ReadResult)
    → IsPaced p
    → (t : Tick) × (poll p f r ≡ some t)
      × IsPaced t.poller
      × ((f ≡ none) ⊎ (t.was_read ≡ true) ⊎ (t.poller.skip_counter ≡ p.skip_counter + 1))
unfolding poll
poll-IsPaced p none r h = (_, refl, h, inl refl)
poll-IsPaced p (some f) r h = elim (Bool-cases (formats_equal p.formats f)) [
  | inr changed ↦
      let c =
        check_content-IsPaced (record p { skip_counter = 0; formats = f }) r
          (recount p p.inactive_streak 0 f (omega (arith, h.skips)) h) in
      rw changed (c.0, c.1, c.2, inr (inl c.3))
  | inl same ↦ elim (Bool-cases (ltb (p.skip_counter + 1) p.skip_threshold)) [
    | inl skip ↦
        let b =
          back_off-IsPaced
            (record p {
              inactive_streak = p.inactive_streak + 1;
              skip_counter = p.skip_counter + 1;
            })
            (recount p (p.inactive_streak + 1) (p.skip_counter + 1) p.formats (ltb→lt _ _ skip)
              h) in
        rw (same, skip) (_, ap (λ o. tick_of o false) b.1, b.2, inr (inr b.3))
    | inr full ↦
        let c =
          check_content-IsPaced
            (record p { inactive_streak = p.inactive_streak + 1; skip_counter = 0 }) r
            (recount p (p.inactive_streak + 1) 0 p.formats (omega (arith, h.skips)) h) in
        rw (same, full) (c.0, c.1, c.2, inr (inl c.3))
  ]
]
