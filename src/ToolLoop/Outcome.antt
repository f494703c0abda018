-- ===== src/ToolLoop/Outcome.antt =====
-- How the rounds of a turn end, and with it the turn.
use meetkai.Common.{
  ℕ, zero, suc, ◌+◌, ◌≡◌, refl, ap, inl, inr, String, false, not, ◌||◌, Option, none, some, List,
  [], ◌∷◌, ◌++◌, arith, Bool-cases, Option-cases,
}
use meetkai.Common.Dict.{Dict, contains}
use meetkai.Common.Try.{Try, returned, ◌>>=◌, >>=-eq-returned, Try-cases}
use meetkai.ToolLoop.{
  Outside, ActionResult, ChatMessage, is_listed, Response, ToolCall, ToolCallRecord, LoopEnd, early,
  finished, Turn, max_tool_rounds, build_predict_messages, maybe_resolve_action_tool_call,
  run_tool_calls, run_rounds, finish_turn, parse_final_action, resolve_terminal_action,
  normalize_action_text, run_with_tools,
}
use meetkai.ToolLoop.Parse.{
  ComesFrom, again-ComesFrom, parse_final_action-ComesFrom, action_from_tool_call-ComesFrom,
  resolve_terminal_action-ComesFrom,
}
use meetkai.ToolLoop.Rounds.{is_tool, IsTurn, Answers, told-IsTurn, run_tool_calls-IsTurn}

module _ {V T : Type 0} (env : Outside V T) (tools_by_name : Dict T)
    (active_by_name : Option (Dict T)) where
  IsTurn-weaken :
      (n k : ℕ) (turn : Turn V)
      → IsTurn env tools_by_name active_by_name n turn
      → IsTurn env tools_by_name active_by_name (n + k) turn
  IsTurn-weaken n k turn h = record {
    same_results = h.same_results;
    known = h.known;
    asked = omega (arith, h.asked);
  }

  -- How the rounds end: the turn is as above, and an early action comes from the model's class.
  abbrev pub Ended : ℕ → LoopEnd V → Type 0
  Ended n (early a turn) = IsTurn env tools_by_name active_by_name n turn × ComesFrom env a
  Ended n (finished text turn) = IsTurn env tools_by_name active_by_name n turn

  resolved-ComesFrom :
      (tc : ToolCall V) (a : ActionResult V)
      → maybe_resolve_action_tool_call env tools_by_name active_by_name tc ≡ some a
      → ComesFrom env a
  unfolding maybe_resolve_action_tool_call
  resolved-ComesFrom tc a h =
      elim (Bool-cases
        (not (is_listed tc.tool_name env.action_values) || contains tc.tool_name tools_by_name)) [
          | inl no_action ↦ absurd (cc (rw (no_action, maybe_resolve_action_tool_call) at h))
          | inr acts ↦
              action_from_tool_call-ComesFrom env tc a
                (rw (acts, maybe_resolve_action_tool_call) at h)
        ]

  early-ComesFrom :
      (tcs : List (ToolCall V)) (turn : Turn V) (a : ActionResult V)
      → (run_tool_calls env tools_by_name active_by_name tcs turn).0 ≡ some a
      → ComesFrom env a
  unfolding run_tool_calls
  early-ComesFrom [] turn a h = absurd (cc h)
  early-ComesFrom (tc ∷ tcs) turn a h =
      elim (Option-cases (maybe_resolve_action_tool_call env tools_by_name active_by_name tc)) [
        | inr (b, e) ↦
            let same : b ≡ a = cc (rw (e, run_tool_calls) at h) in
            rw (← same) (resolved-ComesFrom tc b e)
        | inl no_action ↦ early-ComesFrom tcs _ a (rw (no_action, run_tool_calls) at h)
      ]

  -- The rounds leave a turn in which every recorded result has its tool message, in the same order, in
  -- which a result that is ok is one of a known tool, and which has asked the model at most once for
  -- each round.
  pub run_rounds-IsTurn :
      (n k : ℕ) (messages loop_messages : List ChatMessage) (turn : Turn V) (end : LoopEnd V)
      → Answers env tools_by_name active_by_name
      → IsTurn env tools_by_name active_by_name k turn
      → run_rounds env tools_by_name active_by_name n messages loop_messages turn ≡ returned end
      → Ended (k + n) end
  unfolding run_rounds
  run_rounds-IsTurn zero k messages loop_messages turn end answers h e =
      let same : finished none turn ≡ end = cc e in
      let more : k + 0 ≡ k = omega arith in rw (more, ← same) h
  run_rounds-IsTurn (suc n) k messages loop_messages turn end answers h e =
      elim (Try-cases (env.achat_with_tools (loop_messages ++ turn.scratchpad))) [
        | inl fails ↦ absurd (cc (rw (fails, run_rounds) at e))
        | inr (response, asked) ↦
            let more : k + suc n ≡ suc k + n = omega arith in
            rw more (
              go (λ next turn'. run_rounds-IsTurn n (suc k) messages next turn' end answers)
                response (answers _ response asked) response.tool_calls
                (rw (asked, run_rounds) at e))
      ]
    where
      told : Response V → Turn V
      told response = record turn { scratchpad = turn.scratchpad ++ response.message ∷ [] }

      after : Response V → List (ToolCall V) → Try (LoopEnd V)
      after response tcs = elim tcs [
        | [] ↦ returned (finished response.message.content (told response))
        | tc ∷ more ↦
            let (action, turn') =
              run_tool_calls env tools_by_name active_by_name (tc ∷ more) (told response) in
            elim action [
              | some a ↦ returned (early a turn')
              | none ↦ build_predict_messages messages [] env.json_instruction >>= λ next.
                  run_rounds env tools_by_name active_by_name n messages next turn'
            ]
      ]

      ended :
          ((next : List ChatMessage) (turn' : Turn V)
            → IsTurn env tools_by_name active_by_name (suc k) turn'
            → run_rounds env tools_by_name active_by_name n messages next turn' ≡ returned end
            → Ended (suc k + n) end)
          → (called : Option (ActionResult V) × Turn V)
          → IsTurn env tools_by_name active_by_name (suc k) called.1
          → ((a : ActionResult V) → called.0 ≡ some a → ComesFrom env a)
          → (elim called.0 [
            | some a ↦ returned (early a called.1)
            | none ↦ build_predict_messages messages [] env.json_instruction >>= λ next.
                run_rounds env tools_by_name active_by_name n messages next called.1
          ])
            ≡ returned end
          → Ended (suc k + n) end
      ended later (some a, turn') h' from e' =
          let same : early a turn' ≡ end = cc e' in
          rw (← same) (IsTurn-weaken (suc k) n turn' h', from a refl)
      ended later (none, turn') h' from e' =
          let (next, built, e'') =
            >>=-eq-returned (build_predict_messages messages [] env.json_instruction)
              (λ next. run_rounds env tools_by_name active_by_name n messages next turn') e' in
          later next turn' h' e''

      go :
          ((next : List ChatMessage) (turn' : Turn V)
            → IsTurn env tools_by_name active_by_name (suc k) turn'
            → run_rounds env tools_by_name active_by_name n messages next turn' ≡ returned end
            → Ended (suc k + n) end)
          → (response : Response V) → is_tool response.message.role ≡ false
          → (tcs : List (ToolCall V)) → after response tcs ≡ returned end
          → Ended (suc k + n) end
      go later response model [] e' =
          let same : finished response.message.content (told response) ≡ end = cc e' in
          rw (← same) (
            IsTurn-weaken (suc k) n (told response)
              (told-IsTurn env tools_by_name active_by_name k turn response.message model h))
      go later response model (tc ∷ more) e' =
          let called =
            run_tool_calls-IsTurn env tools_by_name active_by_name (suc k) (tc ∷ more)
              (told response)
              (told-IsTurn env tools_by_name active_by_name k turn response.message model h) in
          ended later (run_tool_calls env tools_by_name active_by_name (tc ∷ more) (told response))
            called (early-ComesFrom (tc ∷ more) (told response)) e'

  -- The turn that the rounds leave.
  abbrev pub turn_of : LoopEnd V → Turn V
  turn_of (early a turn) = turn
  turn_of (finished text turn) = turn

  Ended-IsTurn :
      (n : ℕ) (end : LoopEnd V)
      → Ended n end
      → IsTurn env tools_by_name active_by_name n (turn_of end)
  Ended-IsTurn n (early a turn) (ok, from) = ok
  Ended-IsTurn n (finished text turn) ok = ok

  abbrev pub no_turn : Turn V
  no_turn = record { scratchpad = []; records = [] }

  -- The rounds of the turn end, with these records: each stands with its tool message, which tells
  -- the same result, in the scratchpad that the rounds sent the model; a result that is ok is one of a
  -- known tool; and the rounds asked the model at most 24 times.
  abbrev pub RoundsLeave : List ChatMessage → List (ToolCallRecord V) → Type 0
  RoundsLeave messages records =
      (end : LoopEnd V) × (run_rounds env tools_by_name active_by_name max_tool_rounds messages
          messages no_turn
        ≡ returned end)
      × IsTurn env tools_by_name active_by_name max_tool_rounds (turn_of end)
      × ((turn_of end).records ≡ records)

  -- A turn that returns, of a model whose messages are not tool results: its action comes from a
  -- validated action of the turn's class, or from a recovered base action. Its records are those that
  -- its rounds leave: each has its tool message with the same result, in the same order, a result that
  -- is ok is one of a known tool, and the rounds asked the model at most 24 times, not counting the at
  -- most two requests that a final text without an action leads to.
  pub run_with_tools-Ended :
      (messages : List ChatMessage) (a : ActionResult V) (records : List (ToolCallRecord V))
      → Answers env tools_by_name active_by_name
      → run_with_tools env tools_by_name active_by_name messages ≡ returned (a, records)
      → ComesFrom env a × RoundsLeave messages records
  unfolding run_with_tools
  run_with_tools-Ended messages a records answers h =
      let (end, rounds, e) =
        >>=-eq-returned
          (run_rounds env tools_by_name active_by_name max_tool_rounds messages messages no_turn)
          (finish_turn env messages) h in
      let ended =
        run_rounds-IsTurn max_tool_rounds 0 messages messages no_turn end answers
          (record { same_results = refl; known = tt; asked = omega arith }) rounds in
      let (from, same) = finished_turn end ended e in
      (from, (end, rounds, Ended-IsTurn max_tool_rounds end ended, same))
    where
      Same : (p q : ActionResult V × List (ToolCallRecord V)) → Type 0
      Same p q = p ≡ q

      closing :
          (text : Option String) (turn : Turn V)
          → finish_turn env messages (finished text turn) ≡ returned (a, records)
          → (b : ActionResult V) × ComesFrom env b × Same (b, turn.records) (a, records)
      closing text turn e = elim (Option-cases (parse_final_action env text)) [
        | inr (b, parsed) ↦ (
          normalize_action_text env b,
          again-ComesFrom env b (parse_final_action-ComesFrom env text b parsed),
          cc (rw (parsed, finish_turn) at e),
        )
        | inl unparsed ↦ elim (Try-cases (resolve_terminal_action env messages turn.scratchpad)) [
          | inl fails ↦ absurd (cc (rw (unparsed, fails, finish_turn) at e))
          | inr (b, resolved) ↦ (
            normalize_action_text env b,
            again-ComesFrom env b
                (resolve_terminal_action-ComesFrom env messages turn.scratchpad b resolved),
            cc (rw (unparsed, resolved, finish_turn) at e),
          )
        ]
      ]

      finished_turn :
          (end : LoopEnd V)
          → Ended max_tool_rounds end
          → finish_turn env messages end ≡ returned (a, records)
          → ComesFrom env a × ((turn_of end).records ≡ records)
      finished_turn (early b turn) (ok, from) e =
          let same : Same (b, turn.records) (a, records) = unfold finish_turn in cc e in
          (rw (← ap (λ r. r.0) same) from, ap (λ r. r.1) same)
      finished_turn (finished text turn) ok e =
          let (b, from, same) = closing text turn (unfold finish_turn in e) in
          (rw (← ap (λ r. r.0) same) from, ap (λ r. r.1) same)
