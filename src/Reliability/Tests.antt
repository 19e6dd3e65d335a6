-- ===== src/Reliability/Tests.antt =====
-- A circuit with a threshold of two, and the theorems of reliability.py at it.
use wikipedia_rag.Common.{◌≤◌, true, false, none, some, [], ◌∷◌, ◌≡◌, ◌≢◌, refl, arith}
use wikipedia_rag.Common.Int.{pos}
use wikipedia_rag.Reliability.Circuit.{
  Circuit, admitted, rejected, init, before_call, record_success, record_failure, is_open,
  is_degraded,
}
use wikipedia_rag.Reliability.Circuit.Invariant
use wikipedia_rag.Reliability.Circuit.Invariant.{IsValid, Step, Reach, here, next, fail}
use wikipedia_rag.Reliability.Circuit.Probe
use wikipedia_rag.Reliability.Circuit.Probe.{admissions, failures}
use wikipedia_rag.Reliability.Circuit.Provider
use wikipedia_rag.Reliability.Circuit.Provider.{
  Reply, Alias, answered, timed_out, Forwarded, alias_unready, settle, proxy,
}
use wikipedia_rag.Reliability.Deadline.{seconds, after, timeout_seconds, RetryPolicy, delay_seconds}
use wikipedia_rag.Reliability.Failure.{
  Raised, Failing, value_error, timeout_error, is_transient_status,
}

program : Unit {0}
unfolding init before_call record_success record_failure is_open is_degraded settle proxy
    is_transient_status timeout_seconds after delay_seconds
program = tt

abbrev closed : Circuit
closed = record {
  dependency = "model";
  failure_threshold = 2;
  cooldown = 5000;
  consecutive_failures = 0;
  opened_at = none;
  last_failure_at = none;
  half_open_probe = false;
}

abbrev opened : Circuit
opened = record closed {
  consecutive_failures = 2;
  opened_at = some 102;
  last_failure_at = some 101;
}

-- Two failures open the circuit; during the cooldown it rejects, then it admits one probe.
circuit_runs :
    (init "model" (pos 2) (pos 5000) ≡ closed)
    × (record_failure (record_failure closed 50 51) 101 102 ≡ opened)
    × (before_call opened 1102 ≡ (rejected 4000, opened))
    × (before_call opened 5102 ≡ (admitted, record opened { half_open_probe = true }))
unfolding program
circuit_runs = (refl, refl, refl, refl)

opened-IsValid : IsValid 102 opened
opened-IsValid = omega arith

one_failure :
    Reach 0
      (init "model" (pos 2) (pos 5000))
      51
      (record_failure (init "model" (pos 2) (pos 5000)) 50 51)
one_failure = next here (fail (init "model" (pos 2) (pos 5000)) 0 50 51 (omega arith) (omega arith))

Reach-IsValid_example : IsValid 51 (record_failure (init "model" (pos 2) (pos 5000)) 50 51)
Reach-IsValid_example = Invariant.Reach-IsValid "model" (pos 2) (pos 5000) 0 one_failure

opened-ne-none : opened.opened_at ≢ none
opened-ne-none = λ e. cc

admissions-le_example : admissions opened (6000 ∷ 6001 ∷ 7000 ∷ []) ≤ 1
admissions-le_example = Probe.admissions-le opened (6000 ∷ 6001 ∷ 7000 ∷ []) opened-ne-none

rejected_at : before_call opened 1102 ≡ (rejected 4000, opened)
unfolding program
rejected_at = refl

abbrev alias : Alias
alias = record { circuit = opened; streak = 2; unready = false }

probe_admitted : (before_call opened 6000).0 ≡ admitted
unfolding program
probe_admitted = refl

bad_request-Unrecorded : is_transient_status 400 ≡ false
unfolding is_transient_status
bad_request-Unrecorded = refl

-- A probe that is answered with 400 leaves the circuit rejecting for good.
lost_probe_wedges_example :
    admissions
      (proxy false alias 6000 (answered 400 true true false) 6001 6002).1.circuit
      (100000 ∷ 200000 ∷ [])
    ≡ 0
lost_probe_wedges_example =
    Provider.lost_probe_wedges false alias 6000 (answered 400 true true false) 6001 6002
      (100000 ∷ 200000 ∷ []) opened-ne-none probe_admitted refl
      (omega arith, bad_request-Unrecorded)

abbrev unready : Alias
unready = record alias { unready = true }

last_millisecond :
    timeout_seconds (record { expires_at = 5000 }) (seconds (pos 3000)) 4000 ≡ some 1000
unfolding program
last_millisecond = refl

abbrev policy : RetryPolicy
policy = record { max_attempts = 2; base_delay = 500000; max_delay = 2000000 }

-- A ValueError that is a TimeoutError too, caused by nothing.
abbrev bad_value : Raised
bad_value = record {
  is_a = λ c. elim c [ value_error ↦ true | timeout_error ↦ true | _ ↦ false ];
  response_status = 0;
  status_code = some 503;
}

abbrev failing : Failing
failing = record {
  raised = bad_value;
  safe_code = some "";
  code = none;
  metadata_code = none;
  retryable = none;
  cause = none;
}
