-- ===== src/Reliability/Circuit/Provider.antt =====
-- `proxy` of gateway_app.py from the circuit check on: what it records of a provider call in the
-- alias's circuit and in its streak of structured outputs that break the contract.
use wikipedia_rag.Common.{
  ℕ, ◌+◌, ◌≤◌, ◌<◌, Bool, true, false, not, ◌&&◌, none, List, ◌≡◌, ◌≢◌, refl, inl, inr, Bool-cases,
  leb, leb→le, if◌then◌else◌, arith,
}
use wikipedia_rag.Reliability.Circuit.{
  Circuit, admitted, rejected, before_call, record_success, record_failure,
}
use wikipedia_rag.Reliability.Circuit.Probe.{admissions, admissions_probing}
use wikipedia_rag.Reliability.Failure.{is_transient_status}

-- How the POST ends. A reply says whether its JSON is valid, and for a structured request whether
-- the schema holds and the output limit is kept.
pub data Reply : Type 0 where
  timed_out network_failed other_error : Reply
  answered : (status : ℕ) (json_valid schema_valid exceeded : Bool) → Reply

-- What the caller gets: the result, or the HTTP error that is raised.
pub data Forwarded : Type 0 where
  result alias_unready circuit_open : Forwarded
  dependency_timeout dependency_unavailable provider_error : Forwarded
  output_invalid schema_rejected output_truncated other_raised : Forwarded

-- The state of one alias: `_structured_schema_invalid_streak` (a missing key is 0) and whether the
-- alias is in `_structured_alias_unready`.
pub record Alias : Type 0 where
  pub circuit : Circuit
  pub streak : ℕ
  pub unready : Bool

abbrev pub failed : Alias → ℕ → ℕ → Alias
failed a now now' = record a { circuit = record_failure a.circuit now now' }

-- A structured output that breaks the contract counts as a failure, and the third in a row makes the
-- alias unready.
abbrev pub violated : Alias → ℕ → ℕ → Alias
violated a now now' = record {
  circuit = record_failure a.circuit now now';
  streak = a.streak + 1;
  unready = if leb 3 (a.streak + 1) then true else a.unready;
}

-- From the reply on; `now` and `now'` are the readings that `record_failure` makes.
unfoldable pub settle : Bool → Reply → Alias → ℕ → ℕ → Forwarded × Alias
settle structured timed_out a now now' = (dependency_timeout, failed a now now')
settle structured network_failed a now now' = (dependency_unavailable, failed a now now')
settle structured other_error a now now' = (other_raised, a)
settle structured (answered status json_valid schema_valid exceeded) a now now' =
    if leb 400 status
    then (provider_error, if is_transient_status status then failed a now now' else a)
    else if not json_valid
    then (output_invalid, failed a now now')
    else if structured && not schema_valid
    then (schema_rejected, violated a now now')
    else if structured && exceeded
    then (output_truncated, violated a now now')
    else (
      result,
      record {
        circuit = record_success a.circuit;
        streak = if structured then 0 else a.streak;
        unready = a.unready;
      },
    )

-- One request: refused, or sent and settled. `at` is the clock of `before_call`.
unfoldable pub proxy : Bool → Alias → ℕ → Reply → ℕ → ℕ → Forwarded × Alias
proxy structured a at reply now now' =
    let (verdict, circuit) = before_call a.circuit at in
    if a.unready && structured then (alias_unready, a) else elim verdict [
      | rejected _ ↦ (circuit_open, record a { circuit = circuit })
      | admitted ↦ settle structured reply (record a { circuit = circuit }) now now'
    ]

-- A reply after which neither success nor failure is recorded.
abbrev pub Unrecorded : Reply → Type 0
Unrecorded timed_out = ⊥
Unrecorded network_failed = ⊥
Unrecorded other_error = Unit
Unrecorded (answered status _ _ _) = (400 ≤ status) × (is_transient_status status ≡ false)

proxy-Unrecorded :
    (structured : Bool) (a : Alias) (at : ℕ) (reply : Reply) (now now' : ℕ)
    → a.circuit.opened_at ≢ none
    → (before_call a.circuit at).0 ≡ admitted
    → (a.unready && structured) ≡ false
    → Unrecorded reply
    → (proxy structured a at reply now now').1.circuit
      ≡ record (a.circuit) { half_open_probe = true }
unfolding proxy settle before_call
proxy-Unrecorded structured a at other_error now now' o h r u = ground arith
proxy-Unrecorded structured a at (answered status j v x) now now' o h r u = ground arith
proxy-Unrecorded structured a at timed_out now now' o h r u = absurd u
proxy-Unrecorded structured a at network_failed now now' o h r u = absurd u

-- A probe that the provider answers with an error outside 429, 502, 503 and 504 (or that ends by an
-- exception which is neither a timeout nor a network error) stays in flight: from then on the circuit
-- rejects every call, at every time.
pub lost_probe_wedges :
    (structured : Bool) (a : Alias) (at : ℕ) (reply : Reply) (now now' : ℕ) (times : List ℕ)
    → a.circuit.opened_at ≢ none
    → (before_call a.circuit at).0 ≡ admitted
    → (a.unready && structured) ≡ false
    → Unrecorded reply
    → admissions (proxy structured a at reply now now').1.circuit times ≡ 0
lost_probe_wedges structured a at reply now now' times o h r u =
    rw (proxy-Unrecorded structured a at reply now now' o h r u)
      (admissions_probing (record (a.circuit) { half_open_probe = true }) times o refl)

-- Every other reply ends the probe: once it is settled, none is in flight.
pub settle_ends_probe :
    (structured : Bool) (reply : Reply) (a : Alias) (now now' : ℕ)
    → ¬ Unrecorded reply
    → (settle structured reply a now now').1.circuit.half_open_probe ≡ false
unfolding settle record_success record_failure
settle_ends_probe structured timed_out a now now' h = ground arith
settle_ends_probe structured network_failed a now now' h = ground arith
settle_ends_probe structured other_error a now now' h = absurd (h tt)
settle_ends_probe structured (answered status j v x) a now now' h =
    elim (Bool-cases (leb 400 status)) [
      | inl error ↦ elim (Bool-cases (is_transient_status status)) [
        | inl t ↦ ground arith
        | inr t ↦ absurd (h (leb→le 400 status error, t))
      ]
      | inr fine ↦ ground arith
    ]

-- A structured request on an unready alias is refused before the provider or the circuit is asked.
-- An alias whose streak stands at two becomes unready by one more structured reply that breaks the
-- schema, whatever its other flags; a structured reply that keeps the contract clears the streak.
pub structured_streak :
    (a b : Alias) (at status : ℕ) (x : Bool) (reply : Reply) (now now' : ℕ)
    → a.unready ≡ true
    → b.streak ≡ 2
    → status < 400
    → (proxy true a at reply now now' ≡ (alias_unready, a))
      × ((settle true (answered status true false x) b now now').1.unready ≡ true)
      × ((settle true (answered status true true true) b now now').1.unready ≡ true)
      × ((settle true (answered status true true false) b now now').1.streak ≡ 0)
unfolding proxy settle
structured_streak a b at status x reply now now' h k l = ground arith
