-- ===== src/Reliability/Circuit/Probe.antt =====
-- When the circuit opens, whom it admits while it is opened, and when it recovers.
use wikipedia_rag.Common.{
  ℕ, ◌+◌, ◌≤◌, ◌<◌, true, false, none, some, List, [], ◌∷◌, length, ◌≡◌, ◌≢◌, ◌↔◌, refl, leb,
  leb→lt, Bool-cases, inl, inr, arith,
}
use wikipedia_rag.Reliability.Circuit.{
  Circuit, Verdict, admitted, rejected, before_call, record_success, record_failure,
}
use wikipedia_rag.Reliability.Circuit.Invariant.{IsValid}

abbrev is_admitted : Verdict → ℕ
is_admitted admitted = 1
is_admitted (rejected _) = 0

-- The calls that are admitted when the circuit is asked at each of the times in turn, with nothing
-- recorded in between.
pub admissions : Circuit → List ℕ → ℕ
admissions c [] = 0
admissions c (now ∷ times) =
    let (verdict, c') = before_call c now in is_admitted verdict + admissions c' times

-- Failures in a row, each with its two readings of the clock.
pub failures : Circuit → List (ℕ × ℕ) → Circuit
failures c [] = c
failures c ((now, now') ∷ times) = failures (record_failure c now now') times

pub admissions_probing :
    (c : Circuit) (times : List ℕ)
    → c.opened_at ≢ none
    → c.half_open_probe ≡ true
    → admissions c times ≡ 0
unfolding admissions before_call
admissions_probing c [] o p = refl
admissions_probing c (now ∷ times) o p = ground (arith, admissions_probing c times)

-- However often an opened circuit is asked, at whatever times, it admits one probe at most until an
-- outcome is recorded.
pub admissions-le : (c : Circuit) (times : List ℕ) → c.opened_at ≢ none → admissions c times ≤ 1
unfolding admissions before_call
admissions-le c [] o = omega arith
admissions-le c (now ∷ times) o =
    ground
      (arith, admissions-le c times, admissions_probing (record c { half_open_probe = true }) times)

-- A rejection by an opened circuit with no probe in flight states the exact wait: it is positive and
-- at most the cooldown, every call before it is over is rejected, and a call when it is over is
-- admitted as the probe.
pub retry_after_exact :
    (c : Circuit) (opened now wait : ℕ) {c' : Circuit}
    → c.opened_at ≡ some opened
    → c.half_open_probe ≡ false
    → opened ≤ now
    → before_call c now ≡ (rejected wait, c')
    → (0 < wait)
      × (wait ≤ c.cooldown)
      × ((later : ℕ) → now ≤ later → later < now + wait → (before_call c later).0 ≢ admitted)
      × (before_call c (now + wait) ≡ (admitted, record c { half_open_probe = true }))
unfolding before_call
retry_after_exact c opened now wait o p before h =
    (ground arith, ground arith, λ later le lt. ground arith, ground arith)

failures_opened :
    (c : Circuit) (times : List (ℕ × ℕ)) → c.opened_at ≢ none → (failures c times).opened_at ≢ none
unfolding failures
failures_opened c [] o = o
failures_opened c ((now, now') ∷ times) o =
    failures_opened (record_failure c now now') times (unfold record_failure in ground arith)

-- A closed circuit opens with the failure that makes the run of failures as long as the threshold:
-- after a run it is closed exactly when the run is shorter.
pub failures_open :
    (c : Circuit) (times : List (ℕ × ℕ))
    → c.opened_at ≡ none
    → c.consecutive_failures < c.failure_threshold
    → ((failures c times).opened_at ≡ none)
      ↔ (c.consecutive_failures + length times < c.failure_threshold)
unfolding failures
failures_open c [] o h = (λ _. omega arith, λ _. o)
failures_open c ((now, now') ∷ times) o h =
    let d = record_failure c now now' in
    elim (Bool-cases (leb c.failure_threshold (c.consecutive_failures + 1))) [
      | inl full ↦
          let opened : d.opened_at ≢ none = unfold record_failure in ground arith in
          (λ e. absurd (failures_opened d times opened e), λ e. absurd (ground arith))
      | inr room ↦
          let closed : d.opened_at ≡ none = unfold record_failure in ground arith in
          let count : d.consecutive_failures ≡ c.consecutive_failures + 1 =
            unfold record_failure in ground arith in
          let same : d.failure_threshold ≡ c.failure_threshold =
            unfold record_failure in ground arith in
          let (only, all) = failures_open d times closed (omega (arith, leb→lt _ _ room)) in
          (λ e. omega (arith, only e), λ e. all (omega arith))
    ]

-- A failed probe opens the circuit anew: it rejects every call for a full cooldown from the second
-- reading of the clock.
pub failed_probe_reopens :
    (c : Circuit) (start now now' later : ℕ)
    → IsValid start c
    → c.opened_at ≢ none
    → now' ≤ later
    → later < now' + c.cooldown
    → (before_call (record_failure c now now') later).0 ≢ admitted
unfolding before_call record_failure
failed_probe_reopens c start now now' later v o le lt = ground arith

-- A success closes the circuit whatever its state: every later call is admitted and changes nothing.
pub record_success-before_call :
    (c : Circuit) (now : ℕ) → before_call (record_success c) now ≡ (admitted, record_success c)
unfolding before_call record_success
record_success-before_call c now = refl
