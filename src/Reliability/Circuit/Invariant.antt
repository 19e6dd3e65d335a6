-- ===== src/Reliability/Circuit/Invariant.antt =====
-- What always holds of a circuit, whatever calls are made and however they end.
use wikipedia_rag.Common.{
  ℕ, ◌≤◌, ◌<◌, String, Bool, true, false, Option, none, some, ◌≡◌, ◌≢◌, arith,
}
use wikipedia_rag.Common.Int.{ℤ}
use wikipedia_rag.Reliability.Circuit.{
  Circuit, init, before_call, record_success, record_failure, is_open, is_degraded,
}

-- By the opening and the last failure: an opened circuit has met its threshold, a closed one has not
-- and has no probe in flight; it opened after its last failure, and both are past at time `now`.
abbrev pub ValidAt : ℕ → ℕ → ℕ → Bool → Option ℕ → Option ℕ → Type 0
ValidAt now threshold failures probe none none = (failures < threshold) × (probe ≡ false)
ValidAt now threshold failures probe none (some f) =
    (failures < threshold) × (probe ≡ false) × (f ≤ now)
ValidAt now threshold failures probe (some t) none = ⊥
ValidAt now threshold failures probe (some t) (some f) =
    (threshold ≤ failures) × (t ≤ now) × (f ≤ t)

pub record IsValid (now : ℕ) (c : Circuit) : Type 0 where
  pub threshold : 1 ≤ c.failure_threshold
  pub valid_at :
      ValidAt now c.failure_threshold c.consecutive_failures c.half_open_probe c.opened_at
        c.last_failure_at

-- One call of the circuit, from a reading of the clock to a later one.
pub data Step : ℕ → Circuit → ℕ → Circuit → Type 0 where
  call : (c : Circuit) (now later : ℕ) → now ≤ later → Step now c later (before_call c later).1
  succeed : (c : Circuit) (now later : ℕ) → now ≤ later → Step now c later (record_success c)
  fail :
      (c : Circuit) (now later latest : ℕ)
      → now ≤ later
      → later ≤ latest
      → Step now c latest (record_failure c later latest)

pub data Reach (start : ℕ) (c : Circuit) : ℕ → Circuit → Type 0 where
  here : Reach start c start c
  next :
      {now later : ℕ} {d e : Circuit}
      → Reach start c now d
      → Step now d later e
      → Reach start c later e

init-IsValid :
    (dependency : String) (threshold cooldown : ℤ) (now : ℕ)
    → IsValid now (init dependency threshold cooldown)
unfolding init
init-IsValid dependency threshold cooldown now = ground arith

Step-IsValid :
    {now later : ℕ} {c d : Circuit} → Step now c later d → IsValid now c → IsValid later d
unfolding before_call record_success record_failure
Step-IsValid (call c now later h) v = ground arith
Step-IsValid (succeed c now later h) v = ground arith
Step-IsValid (fail c now later latest h k) v = ground arith

-- In every state that a new circuit can come to, by any calls at any later times, the invariant
-- holds.
pub Reach-IsValid :
    (dependency : String) (threshold cooldown : ℤ) (start : ℕ) {now : ℕ} {c : Circuit}
    → Reach start (init dependency threshold cooldown) now c
    → IsValid now c
Reach-IsValid dependency threshold cooldown start here =
    init-IsValid dependency threshold cooldown start
Reach-IsValid dependency threshold cooldown start (next r s) =
    Step-IsValid s (Reach-IsValid dependency threshold cooldown start r)

-- An opened circuit that still shows its last failure is open.
pub is_open_of_degraded :
    (c : Circuit) (now : ℕ)
    → IsValid now c
    → c.opened_at ≢ none
    → is_degraded c now ≡ true
    → is_open c now ≡ true
unfolding is_open is_degraded
is_open_of_degraded c now v opened h = ground arith
