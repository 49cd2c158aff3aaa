-- ===== src/Platform/Retry.antt =====
-- `withRetry` of internal/platform/clipboard_linux.go. Attempt number `n` gives `operation n`; the
-- model also counts the milliseconds that it sleeps.
use clipman_daemon.Prelude.{
  ℕ, zero, suc, ◌+◌, ◌*◌, ◌≤◌, ◌≡◌, Option, none, some, arith, ltb, if◌then◌else◌, ◌⊎◌,
}

abbrev pub max_retry_attempts : ℕ
max_retry_attempts = 3

abbrev pub retry_delay_ms : ℕ
retry_delay_ms = 100

-- The loop, from `attempt`, with `left` attempts to go.
unfoldable pub retry_loop : {A : Type 0} → (ℕ → Option A) → ℕ → ℕ → Option A × ℕ
retry_loop operation zero attempt = (none, 0)
retry_loop operation (suc left) attempt =
    let delay = if ltb 0 attempt then attempt * retry_delay_ms else 0 in
    let rest = retry_loop operation left (attempt + 1) in
    elim (operation attempt) [
      | none ↦ (rest.0, delay + rest.1)
      | some result ↦ (some result, delay)
    ]

unfoldable pub with_retry : {A : Type 0} → (ℕ → Option A) → Option A × ℕ
unfolding retry_loop
with_retry operation = retry_loop operation max_retry_attempts 0

-- The first success among the attempts.
abbrev pub first_of_three : {A : Type 0} → (ℕ → Option A) → Option A
first_of_three operation = elim (operation 0) [
  | some a ↦ some a
  | none ↦ elim (operation 1) [ some a ↦ some a | none ↦ operation 2 ]
]

-- An operation is tried three times at most: the result is that of the first attempt that succeeds,
-- an error exactly if all three fail, and the waits sum to 300 milliseconds at most, none of them
-- before the first attempt.
pub with_retry_lem :
    {A : Type 0} (operation : ℕ → Option A)
    → ((with_retry operation).0 ≡ first_of_three operation)
      × ((with_retry operation).1 ≤ 300)
      × ((operation 0 ≡ none) ⊎ ((with_retry operation).1 ≡ 0))
unfolding with_retry retry_loop
with_retry_lem operation = ground arith
