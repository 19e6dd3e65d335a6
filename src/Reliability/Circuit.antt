-- ===== src/Reliability/Circuit.antt =====
-- `DependencyCircuit` of reliability.py. A method returns the circuit that it leaves.
pub mod Invariant
pub mod Probe
pub mod Provider
use wikipedia_rag.Common.{
  ℕ, ◌+◌, ◌-◌, max, String, Bool, true, false, Option, none, some, ltb, leb, ◌&&◌, if◌then◌else◌,
}
use wikipedia_rag.Common.Int.{ℤ, pos_part}

pub record Circuit : Type 0 where
  pub dependency : String
  pub failure_threshold : ℕ
  pub cooldown : ℕ
  pub consecutive_failures : ℕ
  pub opened_at : Option ℕ
  pub last_failure_at : Option ℕ
  pub half_open_probe : Bool

-- `__init__`; 0.001 seconds are 1000 microseconds.
unfoldable pub init : String → ℤ → ℤ → Circuit
init dependency failure_threshold cooldown = record {
  dependency = dependency;
  failure_threshold = max 1 (pos_part failure_threshold);
  cooldown = max 1000 (pos_part cooldown);
  consecutive_failures = 0;
  opened_at = none;
  last_failure_at = none;
  half_open_probe = false;
}

-- The call may go ahead, or DependencyCircuitOpen is raised with `retry_after`.
pub data Verdict : Type 0 where
  admitted : Verdict
  rejected : (retry_after : ℕ) → Verdict

unfoldable pub before_call : Circuit → ℕ → Verdict × Circuit
before_call c now = elim c.opened_at [
  | none ↦ (admitted, c)
  | some opened ↦
      let elapsed = now - opened in
      if ltb elapsed c.cooldown
      then (rejected (c.cooldown - elapsed), c)
      else if c.half_open_probe
      then (rejected c.cooldown, c)
      else (admitted, record c { half_open_probe = true })
]

unfoldable pub record_success : Circuit → Circuit
record_success c = record c {
  consecutive_failures = 0;
  opened_at = none;
  last_failure_at = none;
  half_open_probe = false;
}

-- The clock is read for `_last_failure_at`, and once more where the circuit opens.
unfoldable pub record_failure : Circuit → ℕ → ℕ → Circuit
record_failure c now now' =
    let failed = record c {
      consecutive_failures = c.consecutive_failures + 1;
      last_failure_at = some now;
      half_open_probe = false;
    } in
    if leb c.failure_threshold (c.consecutive_failures + 1)
    then record failed { opened_at = some now' }
    else failed

unfoldable pub is_open : Circuit → ℕ → Bool
is_open c now = elim c.opened_at [ none ↦ false | some opened ↦ ltb (now - opened) c.cooldown ]

unfoldable pub is_degraded : Circuit → ℕ → Bool
is_degraded c now = elim c.last_failure_at [ none ↦ false | some t ↦ ltb (now - t) c.cooldown ]
