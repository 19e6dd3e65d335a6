-- ===== src/Reliability/Deadline.antt =====
-- `OperationDeadline` and `RetryPolicy` of reliability.py, in microseconds.
use wikipedia_rag.Common.{
  ℕ, ◌+◌, ◌-◌, ◌*◌, ◌/◌, ◌≤◌, ◌<◌, min, max, Option, none, some, ◌≡◌, ◌↔◌, leb, if◌then◌else◌,
  arith,
}
use wikipedia_rag.Common.Int.{ℤ, pos, pos_part}

pub record Deadline : Type 0 where
  pub expires_at : ℕ

-- `after`: a negative timeout counts as 0.
unfoldable pub after : ℤ → ℕ → Deadline
after timeout now = record { expires_at = now + pos_part timeout }

-- `max(0.0, expires_at - now)`: subtraction on ℕ stops at 0.
unfoldable pub remaining_seconds : Deadline → ℕ → ℕ
remaining_seconds d now = d.expires_at - now

unfoldable pub remaining_ms : Deadline → ℕ → ℕ
unfolding remaining_seconds
remaining_ms d now = remaining_seconds d now / 1000

-- A configured timeout, or `float("inf")`.
pub data Timeout : Type 0 where
  seconds : ℤ → Timeout
  infinite : Timeout

-- `none` is OperationDeadlineExceeded.
unfoldable pub timeout_seconds : Deadline → Timeout → ℕ → Option ℕ
unfolding remaining_seconds
timeout_seconds d configured now =
    let remaining = remaining_seconds d now in
    if leb remaining 0 then none else elim configured [
      | seconds c ↦ some (min (max 1000 (pos_part c)) remaining)
      | infinite ↦ some remaining
    ]

-- `true` when it returns, `false` when it raises.
unfoldable pub ensure_remaining : Deadline → ℕ → Option (Unit {0})
unfolding timeout_seconds
ensure_remaining d now = elim (timeout_seconds d infinite now) [ none ↦ none | some _ ↦ some tt ]

-- A timeout is given exactly while the deadline lies ahead; it is positive, it never reaches past the
-- deadline, and it never exceeds the configured one by more than the floor of a millisecond.
pub timeout_seconds_bounds :
    (d : Deadline) (c : ℤ) (now : ℕ)
    → ((timeout_seconds d (seconds c) now ≡ none) ↔ (d.expires_at ≤ now))
      × ((t : ℕ)
          → timeout_seconds d (seconds c) now ≡ some t
          → (0 < t) × (now + t ≤ d.expires_at) × (t ≤ max 1000 (pos_part c)))
unfolding timeout_seconds
timeout_seconds_bounds d c now = ground arith

-- A nested deadline that takes its timeout from an outer one expires no later than it.
pub nested_deadline :
    (outer : Deadline) (c : ℤ) (now t : ℕ)
    → timeout_seconds outer (seconds c) now ≡ some t
    → (after (pos t) now).expires_at ≤ outer.expires_at
unfolding timeout_seconds after
nested_deadline outer c now t h = ground arith

pub record RetryPolicy : Type 0 where
  pub max_attempts : ℕ
  pub base_delay : ℕ
  pub max_delay : ℕ

unfoldable pub delay_seconds : RetryPolicy → ℤ → ℕ
delay_seconds p attempt = min p.max_delay (p.base_delay * max 1 (pos_part attempt))

-- The delay grows with the attempt, up to the maximal delay, which it never passes.
pub delay_seconds_mono :
    (p : RetryPolicy) (a b : ℕ)
    → a ≤ b
    → (delay_seconds p (pos a) ≤ delay_seconds p (pos b)) × (delay_seconds p (pos b) ≤ p.max_delay)
unfolding delay_seconds
delay_seconds_mono p a b h = grind arith
