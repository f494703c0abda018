-- ===== src/Edits/Language.antt =====
-- The language of a deployment and its copy in the settings.
use meetkai.Common.{
  ◌≡◌, refl, ◌∙◌, inl, inr, ◌⊎◌, String, Bool, true, false, ◌||◌, some, [], ◌∷◌, arith, Bool-cases,
  is_some, all, any, str_eq, if◌then◌else◌,
}
use meetkai.Common.Dict.{Dict, lookup, put, keys, lookup-put}
use meetkai.Common.Try.{Try, returned, >>=-eq-returned, Try-cases}
use meetkai.Edits.{
  Json, FieldValue, plain, object, null, flag, int, text, nested, Deployment, BotType, merge,
  require_non_empty, apply_goal, apply_language, apply_feature_flags, apply_settings,
  apply_brain_mandatory, apply_brain_instruction, apply_template, apply_tool_overrides, apply_field,
  apply_fields, is_listed, set_but_falsy, put_language,
}

abbrev pub IsSynced : Deployment → Type 0
IsSynced d = lookup "language" d.settings ≡ some d.language

abbrev pub HasLanguage : Deployment → Type 0
HasLanguage d = is_some (lookup "language" d.settings) ≡ true

-- An applier keeps a language in the settings; where it does not report a change, it leaves the
-- settings and the language as they are.
pub record Keeps (d : Deployment) (changed : Bool) (e : Deployment) : Type 0 where
  pub has : HasLanguage d → HasLanguage e
  pub same : changed ≡ false → (e.settings ≡ d.settings) × (e.language ≡ d.language)

unchanged-Keeps :
    (d e : Deployment) → e.settings ≡ d.settings → e.language ≡ d.language → Keeps d false e
unchanged-Keeps d e settings language = record {
  has = λ h. rw settings h;
  same = λ no_change. (settings, language);
}

put_keeps :
    (k : String) (v : Json) (settings : Dict Json)
    → is_some (lookup "language" settings) ≡ true
    → is_some (lookup "language" (put k v settings)) ≡ true
put_keeps k v settings h =
    rw (lookup-put k "language" v settings)
      (elim (Bool-cases (str_eq k "language")) [ inl here ↦ rw here refl | inr other ↦ rw other h ])

merge_keeps :
    (settings value : Dict Json)
    → is_some (lookup "language" settings) ≡ true
    → is_some (lookup "language" (merge settings value)) ≡ true
unfolding merge
merge_keeps settings [] h = h
merge_keeps settings ((k, v) ∷ more) h =
    merge_keeps (put k v settings) more (put_keeps k v settings h)

apply_settings-Keeps :
    (bt : BotType) (value : FieldValue) (d : Deployment) (r : Bool × Deployment)
    → apply_settings bt value d ≡ returned r
    → Keeps d r.0 r.1
unfolding apply_settings
apply_settings-Keeps bt (plain v) d r h = absurd (cc h)
apply_settings-Keeps bt (object value) d r h =
    elim (Bool-cases (any (set_but_falsy value) bt.required_settings)) [
      | inl bad ↦ absurd (cc (rw (bad, apply_settings) at h))
      | inr good ↦
          let same : (
            true,
            record d { settings = merge d.settings value; settings_assigned = true },
          )
              ≡ r =
            cc (rw (good, apply_settings) at h) in
          rw (← same) (record { has = merge_keeps d.settings value; same = λ no. absurd (cc no) })
    ]

apply_language-Keeps :
    (bt : BotType) (value : FieldValue) (d : Deployment) (r : Bool × Deployment)
    → apply_language bt value d ≡ returned r
    → Keeps d r.0 r.1
unfolding apply_language
apply_language-Keeps bt value d r h = elim (Try-cases (require_non_empty bt value)) [
  | inl bad ↦ absurd (cc (rw (bad, apply_language) at h))
  | inr (language, e) ↦ elim (Bool-cases (is_listed bt.all_languages language)) [
    | inr unknown ↦ absurd (cc (rw (e, unknown, apply_language) at h))
    | inl known ↦
        let same : (true, put_language (text language) (record d { language = text language }))
            ≡ r =
          cc (rw (e, known, apply_language) at h) in
        rw (← same) (record {
          has = put_keeps "language" (text language) d.settings;
          same = λ no. absurd (cc no);
        })
  ]
]

apply_goal-Keeps :
    (bt : BotType) (value : FieldValue) (d : Deployment) (r : Bool × Deployment)
    → apply_goal bt value d ≡ returned r
    → Keeps d r.0 r.1
unfolding apply_goal
apply_goal-Keeps bt value d r h = elim (Try-cases (require_non_empty bt value)) [
  | inl bad ↦ absurd (cc (rw (bad, apply_goal) at h))
  | inr (goal, e) ↦
      let same : (false, record d { goal = goal }) ≡ r = cc (rw (e, apply_goal) at h) in
      rw (← same) (unchanged-Keeps d (record d { goal = goal }) refl refl)
]

apply_feature_flags-Keeps :
    (bt : BotType) (value : FieldValue) (d : Deployment) (r : Bool × Deployment)
    → apply_feature_flags bt value d ≡ returned r
    → Keeps d r.0 r.1
unfolding apply_feature_flags
apply_feature_flags-Keeps bt (plain v) d r h = absurd (cc h)
apply_feature_flags-Keeps bt (object value) d r h =
    elim (Bool-cases (all (is_listed bt.feature_flags) (keys value))) [
      | inr bad ↦ absurd (cc (rw (bad, apply_feature_flags) at h))
      | inl good ↦
          let same : (false, record d { feature_flags = value }) ≡ r =
            cc (rw (good, apply_feature_flags) at h) in
          rw (← same) (unchanged-Keeps d (record d { feature_flags = value }) refl refl)
    ]

pair-Keeps :
    (d e : Deployment) (r : Bool × Deployment)
    → e.settings ≡ d.settings
    → e.language ≡ d.language
    → returned (false, e) ≡ returned r
    → Keeps d r.0 r.1
pair-Keeps d e r settings language h =
    let same : (false, e) ≡ r = cc h in rw (← same) (unchanged-Keeps d e settings language)

apply_brain_mandatory-Keeps :
    (value : FieldValue) (d : Deployment) (r : Bool × Deployment)
    → apply_brain_mandatory value d ≡ returned r
    → Keeps d r.0 r.1
unfolding apply_brain_mandatory
apply_brain_mandatory-Keeps (plain null) d r h = pair-Keeps d _ r refl refl h
apply_brain_mandatory-Keeps (plain (flag b)) d r h = pair-Keeps d _ r refl refl h
apply_brain_mandatory-Keeps (plain (int n)) d r h = absurd (cc h)
apply_brain_mandatory-Keeps (plain (text t)) d r h = absurd (cc h)
apply_brain_mandatory-Keeps (plain (nested t)) d r h = absurd (cc h)
apply_brain_mandatory-Keeps (object es) d r h = absurd (cc h)

apply_brain_instruction-Keeps :
    (value : FieldValue) (d : Deployment) (r : Bool × Deployment)
    → apply_brain_instruction value d ≡ returned r
    → Keeps d r.0 r.1
unfolding apply_brain_instruction
apply_brain_instruction-Keeps (plain null) d r h = pair-Keeps d _ r refl refl h
apply_brain_instruction-Keeps (plain (text t)) d r h = pair-Keeps d _ r refl refl h
apply_brain_instruction-Keeps (plain (flag b)) d r h = absurd (cc h)
apply_brain_instruction-Keeps (plain (int n)) d r h = absurd (cc h)
apply_brain_instruction-Keeps (plain (nested t)) d r h = absurd (cc h)
apply_brain_instruction-Keeps (object es) d r h = absurd (cc h)

apply_tool_overrides-Keeps :
    (value : FieldValue) (d : Deployment) (r : Bool × Deployment)
    → apply_tool_overrides value d ≡ returned r
    → Keeps d r.0 r.1
unfolding apply_tool_overrides
apply_tool_overrides-Keeps (plain v) d r h = absurd (cc h)
apply_tool_overrides-Keeps (object value) d r h =
    elim (Bool-cases (all (is_listed ("enable" ∷ "disable" ∷ [])) (keys value))) [
      | inr bad ↦ absurd (cc (rw (bad, apply_tool_overrides) at h))
      | inl good ↦ pair-Keeps d _ r refl refl (rw (good, apply_tool_overrides) at h)
    ]

if-cases :
    (b : Bool) (x y : Try (Bool × Deployment)) (r : Bool × Deployment)
    → (if b then x else y) ≡ returned r
    → (x ≡ returned r) ⊎ (y ≡ returned r)
if-cases true x y r h = inl h
if-cases false x y r h = inr h

apply_field-Keeps :
    (bt : BotType) (key : String) (value : FieldValue) (d : Deployment) (r : Bool × Deployment)
    → apply_field bt key value d ≡ returned r
    → Keeps d r.0 r.1
unfolding apply_field apply_template
apply_field-Keeps bt key value d r h = elim (if-cases (str_eq key "goal") _ _ r h) [
  | inl h₁ ↦ apply_goal-Keeps bt value d r h₁
  | inr h₁ ↦ elim (if-cases (str_eq key "language") _ _ r h₁) [
    | inl h₂ ↦ apply_language-Keeps bt value d r h₂
    | inr h₂ ↦ elim (if-cases (str_eq key "feature_flags") _ _ r h₂) [
      | inl h₃ ↦ apply_feature_flags-Keeps bt value d r h₃
      | inr h₃ ↦ elim (if-cases (str_eq key "settings") _ _ r h₃) [
        | inl h₄ ↦ apply_settings-Keeps bt value d r h₄
        | inr h₄ ↦ elim (if-cases (str_eq key "brain_mandatory") _ _ r h₄) [
          | inl h₅ ↦ apply_brain_mandatory-Keeps value d r h₅
          | inr h₅ ↦ elim (if-cases (str_eq key "brain_instruction") _ _ r h₅) [
            | inl h₆ ↦ apply_brain_instruction-Keeps value d r h₆
            | inr h₆ ↦ elim (if-cases (str_eq key "template") _ _ r h₆) [
              | inl h₇ ↦ pair-Keeps d _ r refl refl h₇
              | inr h₇ ↦ elim (if-cases (str_eq key "tool_overrides") _ _ r h₇) [
                | inl h₈ ↦ apply_tool_overrides-Keeps value d r h₈
                | inr h₈ ↦ pair-Keeps d d r refl refl h₈
              ]
            ]
          ]
        ]
      ]
    ]
  ]
]

or-false : (b c : Bool) → (b || c) ≡ false → (b ≡ false) × (c ≡ false)
or-false b c h = (ground (arith, h), ground (arith, h))

pub apply_fields-Keeps :
    (bt : BotType) (fields : Dict FieldValue) (changed : Bool) (d : Deployment)
    (r : Bool × Deployment)
    → apply_fields bt fields changed d ≡ returned r
    → Keeps d r.0 r.1 × (r.0 ≡ false → changed ≡ false)
unfolding apply_fields
apply_fields-Keeps bt [] changed d r h =
    let same : (changed, d) ≡ r = cc h in
    rw (← same) (record { has = λ x. x; same = λ no. (refl, refl) }, λ no. no)
apply_fields-Keeps bt ((key, value) ∷ fields) changed d r h =
    let (first, e, h') =
      >>=-eq-returned (apply_field bt key value d)
        (λ q. apply_fields bt fields (q.0 || changed) q.1) h in
    let k = apply_field-Keeps bt key value d first e in
    let (rest, none_before) = apply_fields-Keeps bt fields (first.0 || changed) first.1 r h' in
    (
      record {
        has = λ x. rest.has (k.has x);
        same = λ no.
            let clean = or-false first.0 changed (none_before no) in
            ((rest.same no).0 ∙ (k.same clean.0).0, (rest.same no).1 ∙ (k.same clean.0).1);
      },
      λ no. (or-false first.0 changed (none_before no)).1,
    )
