-- ===== src/ToolLoop/Parse.antt =====
-- Where the action of a turn comes from.
use meetkai.Common.{
  ◌≡◌, refl, sym, ap, ◌∙◌, inl, inr, ◌⊎◌, String, true, false, Option, none, some, List, [], ◌∷◌,
  ◌++◌, arith, Bool-cases, Option-cases,
}
use meetkai.Common.Text.{is_empty, strip}
use meetkai.Common.Dict.{Dict, put}
use meetkai.Common.Try.{Try, returned, raised, >>=-eq-returned}
use meetkai.ActionParsing.{strip_reasoning_channels, truthy_text, parse_kv_lines, repair_json}
use meetkai.ToolLoop.{
  Outside, ActionResult, ChatMessage, ToolCall, is_control, or_blank, normalize_action_text,
  normalized, parse_standard, parse_fields, parse_repaired, out_of_scope, recoverable,
  recover_payload, recover_base_action, extract_payload, parse_structured_text, parse_final_action,
  action_from_tool_call, attempt, or_raise, or_else, text_values, correction, second_attempt,
  two_attempts, build_predict_messages, assistant, resolve_terminal_action,
}

-- A validated action of the turn's class, or a base action that was recovered: then the action is no
-- control action, it has text, and the payload's action is not one that the turn allows.
pub data Origin {V T : Type 0} (env : Outside V T) : ActionResult V → Type 0 where
  from_parser :
      (text : String) (a : ActionResult V) → env.parse text ≡ returned (inl a) → Origin env a
  from_fields :
      (fields : Dict V) (a : ActionResult V) → env.model_validate fields ≡ some a → Origin env a
  from_json :
      (text : String) (a : ActionResult V) → env.model_validate_json text ≡ some a → Origin env a
  from_base :
      (payload : Dict V) (a : ActionResult V)
      → env.validate_base payload ≡ some a
      → out_of_scope env payload ≡ true
      → is_control a.action ≡ false
      → is_empty (or_blank a.text) ≡ false
      → Origin env a

-- The action and its fields other than the text are those of an action with that origin.
abbrev pub ComesFrom : {V T : Type 0} → Outside V T → ActionResult V → Type 0
ComesFrom {V} env a =
    (raw : ActionResult V) × Origin env raw × (a.action ≡ raw.action) × (a.extra ≡ raw.extra)

module _ {V T : Type 0} (env : Outside V T) where
  pub normalized-ComesFrom :
      (o : Option (ActionResult V)) (a : ActionResult V)
      → ((b : ActionResult V) → o ≡ some b → Origin env b)
      → normalized env o ≡ some a
      → ComesFrom env a
  unfolding normalize_action_text
  normalized-ComesFrom none a origin h = absurd (cc h)
  normalized-ComesFrom (some b) a origin h =
      let same : normalize_action_text env b ≡ a = cc h in
      rw (← same) (b, origin b refl, refl, refl)

  pub again-ComesFrom :
      (a : ActionResult V) → ComesFrom env a → ComesFrom env (normalize_action_text env a)
  unfolding normalize_action_text
  again-ComesFrom a (raw, origin, same_action, same_extra) = (raw, origin, same_action, same_extra)

  parse_standard-ComesFrom :
      (text : String) (a : ActionResult V) → parse_standard env text ≡ some a → ComesFrom env a
  unfolding parse_standard
  parse_standard-ComesFrom text a h = go (env.parse text) refl h
    where
      go :
          (p : Try (ActionResult V ⊎ Dict V))
          → env.parse text ≡ p
          → (elim p [
            | raised ↦ none
            | returned (inl b) ↦ normalized env (some b)
            | returned (inr fields) ↦ normalized env (env.model_validate fields)
          ])
            ≡ some a
          → ComesFrom env a
      go raised e h' = absurd (cc h')
      go (returned (inl b)) e h' =
          normalized-ComesFrom (some b) a
            (λ c same. from_parser text c (e ∙ ap returned (ap inl (cc same)))) h'
      go (returned (inr fields)) e h' =
          normalized-ComesFrom (env.model_validate fields) a (λ c. from_fields fields c) h'

  parse_fields-ComesFrom :
      (kv : Dict V) (a : ActionResult V) → parse_fields env kv ≡ some a → ComesFrom env a
  unfolding parse_fields
  parse_fields-ComesFrom [] a h = absurd (cc h)
  parse_fields-ComesFrom (f ∷ fs) a h =
      normalized-ComesFrom (env.model_validate (f ∷ fs)) a (λ b. from_fields (f ∷ fs) b) h

  parse_repaired-ComesFrom :
      (repaired : Option String) (a : ActionResult V)
      → parse_repaired env repaired ≡ some a
      → ComesFrom env a
  unfolding parse_repaired
  parse_repaired-ComesFrom none a h = absurd (cc h)
  parse_repaired-ComesFrom (some text) a h = elim (Bool-cases (is_empty text)) [
    | inl nothing ↦ absurd (cc (rw (nothing, parse_repaired) at h))
    | inr something ↦
        normalized-ComesFrom (env.model_validate_json text) a (λ b. from_json text b)
          (rw (something, parse_repaired) at h)
  ]

  recover_payload-Origin :
      (payload : Dict V) (a : ActionResult V) → recover_payload env payload ≡ some a → Origin env a
  unfolding recover_payload recoverable
  recover_payload-Origin payload a h = elim (Option-cases (env.validate_base payload)) [
    | inl bad ↦ absurd (ground (arith, bad))
    | inr (b, e) ↦
        let same : b ≡ a = ground (arith, e) in
        rw (← same)
          (from_base payload b e (ground (arith, e)) (ground (arith, e)) (ground (arith, e)))
  ]

  recover_base_action-Origin :
      (repaired : Option String) (kv : Dict V) (a : ActionResult V)
      → recover_base_action env repaired kv ≡ some a
      → Origin env a
  unfolding recover_base_action
  recover_base_action-Origin repaired kv a h =
      elim (Option-cases (extract_payload env repaired kv)) [
        | inl bad ↦ absurd (cc (rw (bad, recover_base_action) at h))
        | inr (payload, e) ↦ recover_payload-Origin payload a (rw (e, recover_base_action) at h)
      ]

  or_else-cases :
      (o p : Option (ActionResult V)) (a : ActionResult V)
      → or_else env o p ≡ some a
      → (o ≡ some a) ⊎ (p ≡ some a)
  or_else-cases none p a h = inr h
  or_else-cases (some b) p a h = inl h

  -- Whatever strategy parses a text, the action comes from a validated action of the turn's class, or
  -- from a base action with text, out of the turn's scope, that is not a control action.
  pub parse_structured_text-ComesFrom :
      (text : String) (a : ActionResult V)
      → parse_structured_text env text ≡ some a
      → ComesFrom env a
  unfolding parse_structured_text
  parse_structured_text-ComesFrom text a h =
      let kv = text_values env (parse_kv_lines env.is_word text) in
      let repaired = repair_json text in
      elim (or_else-cases _ _ a h) [
        | inl standard ↦ parse_standard-ComesFrom text a standard
        | inr h₁ ↦ elim (or_else-cases _ _ a h₁) [
          | inl fields ↦ parse_fields-ComesFrom kv a fields
          | inr h₂ ↦ elim (or_else-cases _ _ a h₂) [
            | inl json ↦ parse_repaired-ComesFrom repaired a json
            | inr base ↦
                normalized-ComesFrom (recover_base_action env repaired kv) a
                  (recover_base_action-Origin repaired kv) base
          ]
        ]
      ]

  pub parse_final_action-ComesFrom :
      (final_text : Option String) (a : ActionResult V)
      → parse_final_action env final_text ≡ some a
      → ComesFrom env a
  unfolding parse_final_action
  parse_final_action-ComesFrom final_text a h = elim (Option-cases (truthy_text final_text)) [
    | inl nothing ↦ absurd (cc (rw (nothing, parse_final_action) at h))
    | inr (text, e) ↦ elim (Bool-cases (is_empty (strip (strip_reasoning_channels text)))) [
      | inl blank ↦ absurd (cc (rw (e, blank, parse_final_action) at h))
      | inr something ↦
          parse_structured_text-ComesFrom (strip_reasoning_channels text) a
            (rw (e, something, parse_final_action) at h)
    ]
  ]

  pub action_from_tool_call-ComesFrom :
      (tc : ToolCall V) (a : ActionResult V)
      → action_from_tool_call env tc ≡ some a
      → ComesFrom env a
  unfolding action_from_tool_call
  action_from_tool_call-ComesFrom tc a h =
      normalized-ComesFrom
        (env.model_validate (put "action" (env.text_value tc.tool_name) tc.tool_kwargs)) a
        (λ b. from_fields _ b) h

  attempt-parsed :
      (messages : List ChatMessage) (r : String × Option (ActionResult V))
      → attempt env messages ≡ returned r
      → r.1 ≡ parse_structured_text env r.0
  unfolding attempt
  attempt-parsed messages r h =
      let (content, e, same) = >>=-eq-returned (env.achat messages) _ h in
      let whole : (
        strip_reasoning_channels (or_blank content),
        parse_structured_text env (strip_reasoning_channels (or_blank content)),
      )
          ≡ r =
        cc same in
      rw (← whole) refl

  or_raise-ComesFrom :
      (messages : List ChatMessage) (r : String × Option (ActionResult V)) (a : ActionResult V)
      → attempt env messages ≡ returned r
      → or_raise env r ≡ returned a
      → ComesFrom env a
  or_raise-ComesFrom messages (raw_text, none) a e h = absurd (cc h)
  or_raise-ComesFrom messages (raw_text, some b) a e h =
      let same : some b ≡ some a = cc h in
      parse_structured_text-ComesFrom raw_text a
        (sym (attempt-parsed messages (raw_text, some b) e) ∙ same)

  second_attempt-ComesFrom :
      (messages : List ChatMessage) (r : String × Option (ActionResult V)) (a : ActionResult V)
      → attempt env messages ≡ returned r
      → second_attempt env messages r ≡ returned a
      → ComesFrom env a
  unfolding second_attempt
  second_attempt-ComesFrom messages (raw_text, some b) a e h =
      or_raise-ComesFrom messages (raw_text, some b) a e h
  second_attempt-ComesFrom messages (raw_text, none) a e h =
      let again =
        messages
        ++ record { role = assistant; content = some raw_text; tool_call_id = none }
          ∷ correction
          ∷ [] in
      let (r, e', h') = >>=-eq-returned (attempt env again) (or_raise env) h in
      or_raise-ComesFrom again r a e' h'

  pub resolve_terminal_action-ComesFrom :
      (messages scratchpad : List ChatMessage) (a : ActionResult V)
      → resolve_terminal_action env messages scratchpad ≡ returned a
      → ComesFrom env a
  unfolding resolve_terminal_action two_attempts
  resolve_terminal_action-ComesFrom messages scratchpad a h =
      let (prompt, e, h') =
        >>=-eq-returned (build_predict_messages messages scratchpad env.json_instruction)
          (two_attempts env) h in
      let (first, e', h'') = >>=-eq-returned (attempt env prompt) (second_attempt env prompt) h' in
      second_attempt-ComesFrom prompt first a e' h''
