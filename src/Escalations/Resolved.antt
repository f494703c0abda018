-- ===== src/Escalations/Resolved.antt =====
-- `resolve`: which escalations it changes.
use mathlib.Core.Bool.{and-false, and-eq-true_iff}
use meetkai.Common.{
  ℕ, ◌+◌, ◌≤◌, ◌≡◌, refl, sym, ◌∙◌, inl, inr, String, Bool, true, false, not, ◌&&◌, Option, none,
  some, List, [], ◌∷◌, All, arith, Bool-cases, Option-cases, str_eq, if◌then◌else◌, eq_iff,
}
use meetkai.Common.Dict.{lookup, put, lookup-put}
use meetkai.Escalations.{
  Escalation, EscalationStore, Resolution, resolve, add, save_locked, owned_by_other, as_resolved,
}

pub escalations-save_locked :
    (writable : Bool) (s : EscalationStore) → (save_locked writable s).escalations ≡ s.escalations
unfolding save_locked
escalations-save_locked writable s = elim (Bool-cases (s.has_path && writable)) [
  | inl saves ↦ rw saves refl
  | inr skips ↦ rw skips refl
]

-- An escalation that is there, active, and not of another owner than the one asked for.
abbrev pub is_open_to : Option String → Option Escalation → Bool
is_open_to owner none = false
is_open_to none (some e) = not e.resolved
is_open_to (some owner) (some e) = not e.resolved && str_eq e.user_id owner

abbrev pub resolved_entry : Resolution → Option Escalation → Option Escalation
resolved_entry r none = none
resolved_entry r (some e) = some (as_resolved r.now r.resolved_by e)

is_open_to_lem :
    (owner : Option String) (e : Escalation)
    → is_open_to owner (some e) ≡ (not e.resolved && not (owned_by_other owner e))
unfolding owned_by_other
is_open_to_lem none e = ground arith
is_open_to_lem (some owner) e = ground arith

-- The store after `resolve` has found an escalation that it may resolve.
abbrev resolving : Resolution → Escalation → EscalationStore → EscalationStore
resolving r e s = save_locked r.writable (record s {
  escalations = put r.escalation_id (as_resolved r.now r.resolved_by e) s.escalations;
})

module _ (r : Resolution) (s : EscalationStore) where
  resolve_missing : lookup r.escalation_id s.escalations ≡ none → resolve r s ≡ (false, s)
  unfolding resolve
  resolve_missing h = rw (h, resolve) refl

  resolved_at :
      (k : String) (e : Escalation)
      → lookup r.escalation_id s.escalations ≡ some e
      → (if str_eq r.escalation_id k
          then some (as_resolved r.now r.resolved_by e)
          else lookup k s.escalations)
        ≡ (if str_eq r.escalation_id k
            then resolved_entry r (lookup k s.escalations)
            else lookup k s.escalations)
  resolved_at k e h = elim (Bool-cases (str_eq r.escalation_id k)) [
    | inl same ↦ rw (same, ← (eq_iff r.escalation_id k).0 same, h) refl
    | inr other ↦ rw other refl
  ]

  resolve_found :
      (e : Escalation)
      → lookup r.escalation_id s.escalations ≡ some e
      → resolve r s
        ≡ (if is_open_to r.owner_slug (some e) then (true, resolving r e s) else (false, s))
  unfolding resolve
  resolve_found e h = elim (Bool-cases (owned_by_other r.owner_slug e)) [
    | inl other ↦
        rw (h, resolve, is_open_to_lem r.owner_slug e, other)
          (elim (Bool-cases e.resolved) [ inl done ↦ rw done refl | inr still ↦ rw still refl ])
    | inr own ↦
        rw (h, resolve, is_open_to_lem r.owner_slug e, own)
          (elim (Bool-cases e.resolved) [ inl done ↦ rw done refl | inr still ↦ rw still refl ])
  ]

  -- A call answers whether the escalation is there, active and not of another owner. If so, this
  -- escalation is marked resolved with the time and the name of the call, and no other changes; if
  -- not, the store stays as it is.
  pub resolve_lem :
      (k : String)
      → let found = is_open_to r.owner_slug (lookup r.escalation_id s.escalations) in
        let after = resolve r s in
        (after.0 ≡ found)
        × (found ≡ false → after.1 ≡ s)
        × (lookup k after.1.escalations ≡ (
            if found && str_eq r.escalation_id k
            then resolved_entry r (lookup k s.escalations)
            else lookup k s.escalations))
  resolve_lem k = elim (Option-cases (lookup r.escalation_id s.escalations)) [
    | inl missing ↦ rw (missing, resolve_missing missing) (refl, λ _. refl, refl)
    | inr (e, h) ↦ elim (Bool-cases (is_open_to r.owner_slug (some e))) [
      | inl fits ↦
          rw (h, resolve_found e h, fits, escalations-save_locked, lookup-put)
            (refl, λ no. cc, resolved_at k e h)
      | inr shut ↦ rw (h, resolve_found e h, shut) (refl, λ _. refl, refl)
    ]
  ]

-- A call that writes escalations; `clear` is for tests.
pub data Call : Type 0 where
  add_call : Bool → Escalation → Call
  resolve_call : Resolution → Call

unfoldable pub call : Call → EscalationStore → Bool × EscalationStore
call (add_call writable e) s = (false, add writable e s)
call (resolve_call r) s = resolve r s

-- The call answers that it resolved this escalation.
abbrev pub resolves : String → Call → EscalationStore → Bool
resolves k (add_call writable e) s = false
resolves k (resolve_call r) s = str_eq r.escalation_id k && (resolve r s).0

-- The store after the calls, and how many of them answered that they resolved the escalation.
unfoldable pub run_calls : String → List Call → EscalationStore → ℕ × EscalationStore
unfolding call
run_calls k [] s = (0, s)
run_calls k (c ∷ cs) s =
    let (n, s') = run_calls k cs (call c s).1 in ((if resolves k c s then 1 else 0) + n, s')

-- Ids are fresh: no call adds an escalation under the id again.
abbrev pub IsFresh : String → Call → Type 0
IsFresh k (add_call writable e) = str_eq e.id k ≡ false
IsFresh k (resolve_call r) = Unit

abbrev pub is_resolved : Option Escalation → Bool
is_resolved none = false
is_resolved (some e) = e.resolved

resolved-not_open :
    (owner : Option String) (e : Escalation) → e.resolved ≡ true → is_open_to owner (some e) ≡ false
resolved-not_open none e h = rw h refl
resolved-not_open (some owner) e h = rw h refl

-- A resolved escalation is never resolved again, and stays as it is.
resolved_stays :
    (k : String) (e : Escalation) (c : Call) (s : EscalationStore)
    → IsFresh k c
    → lookup k s.escalations ≡ some e
    → e.resolved ≡ true
    → (resolves k c s ≡ false) × (lookup k (call c s).1.escalations ≡ some e)
unfolding call add
resolved_stays k e (add_call writable f) s fresh h done =
    (refl, rw (escalations-save_locked, lookup-put, fresh) h)
resolved_stays k e (resolve_call r) s fresh h done = elim (Bool-cases (str_eq r.escalation_id k)) [
  | inl same ↦
      let shut : is_open_to r.owner_slug (lookup r.escalation_id s.escalations) ≡ false =
        rw ((eq_iff r.escalation_id k).0 same, h) (resolved-not_open r.owner_slug e done) in
      rw ((resolve_lem r s k).0, (resolve_lem r s k).1 shut, shut, same) (refl, h)
  | inr other ↦ rw ((resolve_lem r s k).2, other, and-false) (refl, h)
]

resolves_none :
    (k : String) (e : Escalation) (cs : List Call) (s : EscalationStore)
    → All (IsFresh k) cs
    → lookup k s.escalations ≡ some e
    → e.resolved ≡ true
    → ((run_calls k cs s).0 ≡ 0) × (lookup k (run_calls k cs s).1.escalations ≡ some e)
unfolding run_calls
resolves_none k e [] s fresh h done = (refl, h)
resolves_none k e (c ∷ cs) s fresh h done =
    let (quiet, kept) = resolved_stays k e c s fresh.0 h done in
    let (none_left, still) = resolves_none k e cs (call c s).1 fresh.1 kept done in
    (rw (quiet, none_left) refl, still)

-- A call that resolves the escalation leaves it resolved.
resolves_done :
    (k : String) (c : Call) (s : EscalationStore)
    → resolves k c s ≡ true
    → (e : Escalation) × (lookup k (call c s).1.escalations ≡ some e) × (e.resolved ≡ true)
unfolding call
resolves_done k (add_call writable e) s h = cc
resolves_done k (resolve_call r) s h =
    let (same, answer) = (and-eq-true_iff (str_eq r.escalation_id k) (resolve r s).0).0 h in
    let fits : is_open_to r.owner_slug (lookup r.escalation_id s.escalations) ≡ true =
      sym (resolve_lem r s k).0 ∙ answer in
    elim (Option-cases (lookup r.escalation_id s.escalations)) [
      | inl missing ↦ absurd (cc (rw missing at fits))
      | inr (e, found) ↦ (
        as_resolved r.now r.resolved_by e,
        rw ((resolve_lem r s k).2, fits, same, ← (eq_iff r.escalation_id k).0 same, found) refl,
        refl,
      )
    ]

-- In any sequence of calls that add nothing under its id, an escalation is resolved at most once.
pub run_calls-resolves_once :
    (k : String) (cs : List Call) (s : EscalationStore)
    → All (IsFresh k) cs
    → (run_calls k cs s).0 ≤ 1
unfolding run_calls
run_calls-resolves_once k [] s fresh = omega arith
run_calls-resolves_once k (c ∷ cs) s fresh = elim (Bool-cases (resolves k c s)) [
  | inl now ↦
      let (e, h, done) = resolves_done k c s now in
      rw now (omega (arith, (resolves_none k e cs (call c s).1 fresh.1 h done).0))
  | inr later ↦ rw later (omega (arith, run_calls-resolves_once k cs (call c s).1 fresh.1))
]
