-- ===== src/Deployments/Reconcile.antt =====
-- Which deployments a reconciliation clears and restarts.
use meetkai.Common.{
  ◌≡◌, refl, ap, inl, inr, Bool, true, false, not, ◌&&◌, List, [], ◌∷◌, select, arith, Bool-cases,
  if◌then◌else◌, str_eq, eq_iff,
}
use meetkai.Common.Try.{Try, returned, raised, ◌>>=◌, >>=-eq-returned}
use meetkai.Deployments.{Deployment, check_row, clear_stale, to_restart, clear_control_port}

-- A probe that comes back without an answer, but not one that fails.
abbrev pub is_dead : Try Bool → Bool
is_dead raised = false
is_dead (returned answers) = not answers

restarted-or_not :
    (d : Deployment) (p : Try Bool) (xs ys : List Deployment)
    → xs ≡ ys
    → (elim p [ returned false ↦ d ∷ xs | returned true ↦ xs | raised ↦ xs ])
      ≡ (if is_dead p then d ∷ ys else ys)
restarted-or_not d raised xs ys h = h
restarted-or_not d (returned true) xs ys h = h
restarted-or_not d (returned false) xs ys h = ap (◌∷◌ d) h

-- The deployments that are restarted are those that should be running and whose probe finds no bot,
-- in the order of the table: none whose bot answers, and none whose probe raises.
pub to_restart-eq-select :
    (fetch_status : Deployment → Try Bool) (rows : List Deployment)
    → to_restart fetch_status rows
      ≡ select (λ d. str_eq d.desired_state "running" && is_dead (fetch_status d)) rows
unfolding to_restart
to_restart-eq-select fetch_status [] = refl
to_restart-eq-select fetch_status (d ∷ ds) = elim (Bool-cases (str_eq d.desired_state "running")) [
  | inr idle ↦ rw (idle, to_restart) (to_restart-eq-select fetch_status ds)
  | inl wanted ↦
      rw (wanted, to_restart)
        (restarted-or_not d (fetch_status d) _ _ (to_restart-eq-select fetch_status ds))
]

-- What the first loop makes of one row: the same intent, and a row that still says that it is running
-- has a bot that answers.
pub record IsChecked (fetch_status : Deployment → Try Bool) (d e : Deployment) : Type 0 where
  pub same_desired : e.desired_state ≡ d.desired_state
  pub same_run : e.run_id ≡ d.run_id
  pub running_answers : e.status ≡ "running" → fetch_status d ≡ returned true

abbrev pub AllChecked : (Deployment → Try Bool) → List Deployment → List Deployment → Type 0
AllChecked fetch_status [] [] = Unit
AllChecked fetch_status (d ∷ ds) (e ∷ es) =
    IsChecked fetch_status d e × AllChecked fetch_status ds es
AllChecked fetch_status _ _ = ⊥

cleared-IsChecked :
    (fetch_status : Deployment → Try Bool) (d : Deployment)
    → IsChecked fetch_status d
        (clear_control_port (record d { status = "stopped"; needs_restart = false }))
unfolding clear_control_port
cleared-IsChecked fetch_status d = record {
  same_desired = refl;
  same_run = refl;
  running_answers = λ h.
      let same : str_eq "stopped" "running" ≡ true = (eq_iff "stopped" "running").1 h in
      absurd (ground (arith, same));
}

check_row-IsChecked :
    (fetch_status : Deployment → Try Bool) (d e : Deployment)
    → check_row fetch_status d ≡ returned e
    → IsChecked fetch_status d e
unfolding check_row
check_row-IsChecked fetch_status d e h = elim (Bool-cases (str_eq d.status "running")) [
  | inr idle ↦
      let same : d ≡ e = cc (rw (idle, check_row) at h) in
      rw (← same) (record {
        same_desired = refl;
        same_run = refl;
        running_answers = λ s. absurd (cc (idle, (eq_iff d.status "running").1 s));
      })
  | inl marked ↦ probed (fetch_status d) refl (rw (marked, check_row) at h)
]
  where
    probed :
        (p : Try Bool)
        → fetch_status d ≡ p
        → (elim p [
          | raised ↦ raised
          | returned true ↦ returned d
          | returned false ↦
              returned (clear_control_port (record d { status = "stopped"; needs_restart = false }))
        ])
          ≡ returned e
        → IsChecked fetch_status d e
    probed raised e' h' = absurd (cc h')
    probed (returned true) e' h' =
        let same : d ≡ e = cc h' in
        rw (← same) (record { same_desired = refl; same_run = refl; running_answers = λ s. e' })
    probed (returned false) e' h' =
        let same : clear_control_port (record d { status = "stopped"; needs_restart = false }) ≡ e =
          cc h' in
        rw (← same) (cleared-IsChecked fetch_status d)

-- If the first loop of a reconciliation returns, each row keeps its intent and its run, and a row
-- that is still marked as running has a bot that answers.
pub clear_stale-AllChecked :
    (fetch_status : Deployment → Try Bool) (rows rows' : List Deployment)
    → clear_stale fetch_status rows ≡ returned rows'
    → AllChecked fetch_status rows rows'
unfolding clear_stale
clear_stale-AllChecked fetch_status [] rows' h = let same : [] ≡ rows' = cc h in rw (← same) tt
clear_stale-AllChecked fetch_status (d ∷ ds) rows' h =
    let (e, checked, h') =
      >>=-eq-returned (check_row fetch_status d)
        (λ d'. clear_stale fetch_status ds >>= λ ds'. returned (d' ∷ ds')) h in
    let (es, more, h'') =
      >>=-eq-returned (clear_stale fetch_status ds) (λ ds'. returned (e ∷ ds')) h' in
    let same : e ∷ es ≡ rows' = cc h'' in
    rw (← same)
      (check_row-IsChecked fetch_status d e checked, clear_stale-AllChecked fetch_status ds es more)
