-- ===== src/ToolLoop/Rounds.antt =====
-- What the tool calls of a turn collect: a result and a record for each.
use meetkai.Common.{
  ℕ, suc, ◌+◌, ◌≤◌, ◌≡◌, refl, sym, ap, ◌∙◌, inl, inr, String, Bool, true, false, Option, some,
  List, [], ◌∷◌, ◌++◌, map, arith, All, All-append, Bool-cases, Option-cases, is_some,
  if◌then◌else◌,
}
use meetkai.Common.Dict.{Dict}
use meetkai.Common.Try.{returned}
use meetkai.ToolLoop.{
  Outside, ChatMessage, MessageRole, tool, Response, ToolCall, ToolCallRecord, Turn,
  maybe_resolve_action_tool_call, resolve_tool, execute_tool_call, record_tool_call, run_tool_calls,
}

abbrev pub is_tool : MessageRole → Bool
is_tool tool = true
is_tool _ = false

-- The contents of the tool messages, in order.
abbrev pub tool_results : List ChatMessage → List (Option String)
tool_results [] = []
tool_results (m ∷ ms) = if is_tool m.role then m.content ∷ tool_results ms else tool_results ms

-- How many messages are not results of tools.
abbrev pub model_messages : List ChatMessage → ℕ
model_messages [] = 0
model_messages (m ∷ ms) = if is_tool m.role then model_messages ms else suc (model_messages ms)

tool_results-append :
    (xs ys : List ChatMessage) → tool_results (xs ++ ys) ≡ tool_results xs ++ tool_results ys
tool_results-append [] ys = refl
tool_results-append (m ∷ ms) ys = elim (Bool-cases (is_tool m.role)) [
  | inl yes_tool ↦ rw yes_tool (ap (◌∷◌ m.content) (tool_results-append ms ys))
  | inr no_tool ↦ rw no_tool (tool_results-append ms ys)
]

model_messages-append :
    (xs ys : List ChatMessage) → model_messages (xs ++ ys) ≡ model_messages xs + model_messages ys
model_messages-append [] ys = omega arith
model_messages-append (m ∷ ms) ys = elim (Bool-cases (is_tool m.role)) [
  | inl yes_tool ↦ rw yes_tool (model_messages-append ms ys)
  | inr no_tool ↦ rw no_tool (omega (arith, model_messages-append ms ys))
]

map-append {ℓ κ} :
    {A : Type ℓ} {B : Type κ} (f : A → B) (xs ys : List A) → map f (xs ++ ys) ≡ map f xs ++ map f ys
map-append f [] ys = refl
map-append f (x ∷ xs) ys = ap (◌∷◌ (f x)) (map-append f xs ys)

module _ {V T : Type 0} (env : Outside V T) (tools_by_name : Dict T)
    (active_by_name : Option (Dict T)) where
  -- A call that is recorded as ok is one of a tool that the turn knows.
  abbrev pub IsKnown : ToolCallRecord V → Type 0
  IsKnown r = r.ok ≡ true → is_some (resolve_tool env tools_by_name active_by_name r.name) ≡ true

  -- The records and the tool messages tell the same results in the same order, a result that is ok is
  -- one of a known tool, and the model was asked at most `n` times.
  pub record IsTurn (n : ℕ) (turn : Turn V) : Type 0 where
    pub same_results :
        tool_results turn.scratchpad ≡ map (λ (r : ToolCallRecord V). some r.result) turn.records
    pub known : All IsKnown turn.records
    pub asked : model_messages turn.scratchpad ≤ n

  -- The model's own messages are not tool results.
  abbrev pub Answers : Type 0
  Answers =
      (sent : List ChatMessage) (r : Response V)
      → env.achat_with_tools sent ≡ returned r
      → is_tool r.message.role ≡ false

  pub told-IsTurn :
      (n : ℕ) (turn : Turn V) (m : ChatMessage)
      → is_tool m.role ≡ false
      → IsTurn n turn
      → IsTurn (suc n) (record turn { scratchpad = turn.scratchpad ++ m ∷ [] })
  told-IsTurn n turn m model h = record {
    same_results =
        tool_results-append turn.scratchpad (m ∷ [])
        ∙ rw model (ap (λ xs. xs ++ []) h.same_results ∙ append_nil _);
    known = h.known;
    asked =
        let sum = model_messages-append turn.scratchpad (m ∷ []) in
        let one : model_messages (m ∷ []) ≡ 1 = rw model refl in omega (arith, sum, one, h.asked);
  }
    where
      append_nil : {A : Type 0} (xs : List A) → xs ++ [] ≡ xs
      append_nil [] = refl
      append_nil (x ∷ xs) = ap (◌∷◌ x) (append_nil xs)

  executed_known :
      (sofar : List ChatMessage) (tc : ToolCall V)
      → (execute_tool_call env tools_by_name active_by_name sofar tc).1 ≡ true
      → is_some (resolve_tool env tools_by_name active_by_name tc.tool_name) ≡ true
  unfolding execute_tool_call
  executed_known sofar tc h =
      elim (Option-cases (resolve_tool env tools_by_name active_by_name tc.tool_name)) [
        | inl missing ↦ absurd (cc (rw (missing, execute_tool_call) at h))
        | inr (t, found) ↦ rw found refl
      ]

  recorded-IsTurn :
      (n : ℕ) (tc : ToolCall V) (result : String) (ok : Bool) (turn : Turn V)
      → (ok ≡ true → is_some (resolve_tool env tools_by_name active_by_name tc.tool_name) ≡ true)
      → IsTurn n turn
      → IsTurn n (record_tool_call env tools_by_name active_by_name tc result ok turn)
  unfolding record_tool_call
  recorded-IsTurn n tc result ok turn found h =
      let m : ChatMessage = record {
        role = tool;
        content = some result;
        tool_call_id = some tc.tool_id;
      } in
      record {
        same_results =
            tool_results-append turn.scratchpad (m ∷ [])
            ∙ ap (λ xs. xs ++ some result ∷ []) h.same_results
            ∙ sym (map-append (λ (r : ToolCallRecord V). some r.result) turn.records _);
        known = All-append IsKnown turn.records _ h.known (found, tt);
        asked = omega (arith, model_messages-append turn.scratchpad (m ∷ []), h.asked);
      }

  pub run_tool_calls-IsTurn :
      (n : ℕ) (tcs : List (ToolCall V)) (turn : Turn V)
      → IsTurn n turn
      → IsTurn n (run_tool_calls env tools_by_name active_by_name tcs turn).1
  unfolding run_tool_calls
  run_tool_calls-IsTurn n [] turn h = h
  run_tool_calls-IsTurn n (tc ∷ tcs) turn h =
      elim (Option-cases (maybe_resolve_action_tool_call env tools_by_name active_by_name tc)) [
        | inr (a, e) ↦ rw (e, run_tool_calls) h
        | inl no_action ↦
            rw (no_action, run_tool_calls)
              (run_tool_calls-IsTurn n tcs _
                (recorded-IsTurn n tc _ _ turn (executed_known turn.scratchpad tc) h))
      ]
