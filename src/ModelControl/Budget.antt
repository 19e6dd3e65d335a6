-- ===== src/ModelControl/Budget.antt =====
-- What the budgets of model_control.py grant, and when they refuse.
use wikipedia_rag.Common.{
  ℕ, ◌+◌, ◌≤◌, ◌-◌, min, Bool, false, ◌≡◌, ◌↔◌, arith, Bool-cases, inl, inr, ltb, ◌||◌, leb, subst,
}
use wikipedia_rag.Common.Int.{pos, pos_part}
use wikipedia_rag.ModelControl.{
  returned, raised, ThinkingPolicy, BudgetRequest, OutputBudget, has_negative, cap_of,
  resolve_output_budget, TokenEnvelope, reasoning_of, compile_token_envelope,
}

-- A completion of `n` tokens that the request, its cap and the window leave room for, and that the
-- minimum asks.
pub record Affordable (q : BudgetRequest) (n : ℕ) : Type 0 where
  wanted : n ≤ pos_part q.requested_tokens
  capped : n ≤ cap_of q.stage_cap (pos_part q.requested_tokens)
  enough : pos_part q.minimum_tokens ≤ n
  room :
      pos_part q.input_tokens + pos_part q.reasoning_reserve + pos_part q.safety_reserve + n
      ≤ pos_part q.context_window

module _ (q : BudgetRequest) where
  abbrev used : ℕ
  used = pos_part q.input_tokens + pos_part q.reasoning_reserve + pos_part q.safety_reserve

  abbrev granted : ℕ
  granted =
      min (min (pos_part q.requested_tokens) (cap_of q.stage_cap (pos_part q.requested_tokens)))
        (pos_part q.context_window - used)

  abbrev refused : Bool
  refused = ltb (pos_part q.context_window) used || ltb granted (pos_part q.minimum_tokens)

  granted-Affordable : refused ≡ false → Affordable q granted
  granted-Affordable h =
      let inside : used ≤ pos_part q.context_window = ground arith in
      let above : pos_part q.minimum_tokens ≤ granted = ground arith in
      record {
        wanted = omega arith;
        capped = omega arith;
        enough = above;
        room = omega (arith, inside);
      }

  Affordable-granted : (n : ℕ) → Affordable q n → n ≤ granted
  Affordable-granted n a = omega (arith, a.wanted, a.capped, a.room)

  Affordable-refused : (n : ℕ) → Affordable q n → refused ≡ false
  Affordable-refused n a =
      let most = Affordable-granted n a in let least = a.enough in let room = a.room in ground arith

-- What is granted is affordable, and the most that is.
pub resolve_output_budget-Affordable :
    (q : BudgetRequest) (b : OutputBudget)
    → resolve_output_budget q ≡ returned b
    → Affordable q b.effective_tokens × ((n : ℕ) → Affordable q n → n ≤ b.effective_tokens)
unfolding resolve_output_budget
resolve_output_budget-Affordable q b h =
    let clear : has_negative q ≡ false = ground arith in
    let fair : refused q ≡ false = ground arith in
    let e : granted q ≡ b.effective_tokens = ground arith in
    (
      subst (Affordable q) e (granted-Affordable q fair),
      λ n a. subst (λ m. n ≤ m) e (Affordable-granted q n a),
    )

-- A request without a negative value is refused exactly when no completion is affordable.
pub resolve_output_budget-raised_iff :
    (q : BudgetRequest)
    → has_negative q ≡ false
    → (resolve_output_budget q ≡ raised "MODEL_TOKEN_BUDGET_EXCEEDED")
      ↔ ((n : ℕ) → ¬ Affordable q n)
unfolding resolve_output_budget
resolve_output_budget-raised_iff q h = (
  λ e n a. let fair = Affordable-refused q n a in ground arith,
  λ none_fits. elim (Bool-cases (refused q)) [
    | inl r ↦ ground arith
    | inr fair ↦ absurd (none_fits (granted q) (granted-Affordable q fair))
  ],
)

abbrev envelope : ℕ → ℕ → ℕ → ℕ → ThinkingPolicy → TokenEnvelope
envelope max_input context_window final_output safety thinking = record {
  max_input = max_input;
  reasoning_reserve = reasoning_of thinking;
  final_output_reserve = final_output;
  safety_reserve = safety;
  context_window = context_window;
}

-- An envelope is compiled exactly when no value is negative and the sum of its parts is within the
-- context window; its reasoning reserve is the thinking budget, and 0 with thinking off.
pub compile_token_envelope-returned_iff :
    (max_input context_window final_output safety : ℕ) (thinking : ThinkingPolicy)
    → ((e : TokenEnvelope) × (compile_token_envelope
            (pos max_input)
            (pos context_window)
            (pos final_output)
            thinking
            (pos safety)
          ≡ returned e))
      ↔ (max_input + reasoning_of thinking + final_output + safety ≤ context_window)
unfolding compile_token_envelope
compile_token_envelope-returned_iff m w f s thinking =
    elim (Bool-cases (leb (m + reasoning_of thinking + f + s) w)) [
      | inl within ↦ (λ x. ground arith, λ h. (envelope m w f s thinking, ground arith))
      | inr over ↦ (λ x. ground (arith, x.1), λ h. absurd (ground arith))
    ]
