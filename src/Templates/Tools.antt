-- ===== src/Templates/Tools.antt =====
-- Which tools a deployment has.
use mathlib.Core.Bool.{or-false, and-false, and-true}
use meetkai.Common.{
  ◌≡◌, refl, sym, inl, inr, String, Bool, true, false, not, ◌&&◌, ◌||◌, List, [], ◌∷◌, ◌++◌, any,
  arith, Bool-cases, str_eq, eq_iff, if◌then◌else◌,
}
use meetkai.Templates.{
  Template, is_in, add_name, discard_name, add_names, discard_names, build_tool_set, resolve_tools,
  is_tool_configured, known_tool_names, non_disableable_defaults,
}

is_in-append : (n : String) (xs ys : List String) → is_in (xs ++ ys) n ≡ (is_in xs n || is_in ys n)
is_in-append n [] ys = refl
is_in-append n (x ∷ xs) ys = ground (arith, is_in-append n xs ys)

is_in-add :
    (n tool : String) (tools : List String)
    → is_in (add_name tool tools) n ≡ (is_in tools n || str_eq n tool)
is_in-add n tool tools = elim (Bool-cases (is_in tools tool)) [
  | inl there ↦ rw there (elim (Bool-cases (str_eq n tool)) [
    | inl same ↦
        let listed : is_in tools n ≡ true = rw ((eq_iff n tool).0 same) there in
        rw (same, listed) refl
    | inr other ↦ rw (other, or-false) refl
  ])
  | inr new ↦ rw (new, is_in-append, or-false) refl
]

is_in-discard :
    (n tool : String) (tools : List String)
    → is_in (discard_name tool tools) n ≡ (is_in tools n && not (str_eq n tool))
is_in-discard n tool [] = refl
is_in-discard n tool (t ∷ tools) =
    ground (arith, is_in-discard n tool tools, eq_iff n tool, eq_iff t tool, eq_iff n t)

absorb : (a b : Bool) → ((a || true) || (b && true)) ≡ (a || true)
absorb true b = refl
absorb false b = refl

discarded :
    (a k m : Bool)
    → ((a && not ((not k && a) && true)) && not (m && not k)) ≡ (a && not (true && not k))
discarded true true true = refl
discarded true true false = refl
discarded true false m = refl
discarded false k m = refl

is_in-discard_if :
    (n tool : String) (tools : List String) (test : Bool)
    → is_in (if test then discard_name tool tools else tools) n
      ≡ (is_in tools n && not (test && str_eq n tool))
is_in-discard_if n tool tools true = is_in-discard n tool tools
is_in-discard_if n tool tools false = sym (and-true (is_in tools n))

is_in-add_names :
    (n : String) (wanted : String → Bool) (names tools : List String)
    → is_in (add_names wanted names tools) n ≡ (is_in tools n || (is_in names n && wanted n))
unfolding add_names
is_in-add_names n wanted [] tools = rw or-false refl
is_in-add_names n wanted (tool ∷ names) tools = elim (Bool-cases (wanted tool)) [
  | inl wants ↦
      rw (wants, is_in-add_names n wanted names (add_name tool tools), is_in-add n tool tools)
        (elim (Bool-cases (str_eq n tool)) [
          | inl same ↦
              let this : wanted n ≡ true = rw ((eq_iff n tool).0 same) wants in
              rw (same, this) (absorb (is_in tools n) (any (str_eq n) names))
          | inr other ↦ rw (other, or-false) refl
        ])
  | inr shuns ↦
      rw (shuns, is_in-add_names n wanted names tools)
        (elim (Bool-cases (str_eq n tool)) [
          | inl same ↦
              let this : wanted n ≡ false = rw ((eq_iff n tool).0 same) shuns in
              rw (same, this, and-false) refl
          | inr other ↦ rw other refl
        ])
]

is_in-discard_names :
    (n : String) (kept names tools : List String)
    → is_in (discard_names kept names tools) n
      ≡ (is_in tools n && not (is_in names n && not (is_in kept n)))
unfolding discard_names
is_in-discard_names n kept [] tools = ground arith
is_in-discard_names n kept (tool ∷ names) tools =
    rw
      (
        is_in-discard_names n kept names _,
        is_in-discard_if n tool tools (not (is_in kept tool) && is_in tools tool),
      )
      (elim (Bool-cases (str_eq n tool)) [
        | inl same ↦
            rw (same, ← (eq_iff n tool).0 same)
              (discarded (is_in tools n) (is_in kept n) (any (str_eq n) names))
        | inr other ↦ rw (other, and-false) (rw and-true refl)
      ])

-- A tool is in the final set exactly if it is a default one, required by the template, one of the
-- bot's, optional and configured, or known and enabled by the operator; and it is not disabled by
-- the operator, or cannot be. So no wish removes a required or a safety tool that is there, and no
-- wish brings in an unknown tool.
pub resolve_tools-final :
    (n : String) (default_tools : List String) (env : String → String) (template : Template)
    (enable disable : List String)
    → is_in (resolve_tools default_tools env template enable disable).final_tools n ≡ (
        (is_in default_tools n
          || is_in template.required n
          || is_in template.bot_tools n
          || (is_in template.optional n && is_tool_configured env n)
          || (is_in enable n && is_in known_tool_names n))
        && not (
            is_in disable n && not (is_in non_disableable_defaults n || is_in template.required n)))
unfolding resolve_tools build_tool_set
resolve_tools-final n default_tools env template enable disable =
    rw
      (
        is_in-discard_names, is_in-add_names, is_in-add_names, is_in-add_names, is_in-add_names,
        is_in-append, and-true, and-true,
      )
      refl
