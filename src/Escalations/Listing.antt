-- ===== src/Escalations/Listing.antt =====
-- The listings of the escalation store, and the count that the cockpit shows.
use mathlib.Core.List.{Perm}
use meetkai.Common.{
  suc, ◌≡◌, refl, ◌∙◌, sym, ap, inl, inr, String, not, List, [], ◌∷◌, Bool-cases, select, length,
  str_eq,
}
use meetkai.Common.Dict.{values}
use meetkai.Common.Sort.{
  IsSortedBy, sort_by-IsSortedBy, select-IsSortedBy, select-sort_by, length-Perm,
}
use meetkai.Calendar.{instant}
use meetkai.Escalations.{
  Escalation, EscalationStore, list_all, list_active, list_for_user, active_count, count_unresolved,
}

count_unresolved_lem :
    (es : List Escalation) → count_unresolved es ≡ length (select (λ e. not e.resolved) es)
unfolding count_unresolved
count_unresolved_lem [] = refl
count_unresolved_lem (e ∷ es) = elim (Bool-cases (not e.resolved)) [
  | inl open_one ↦ rw open_one (ap suc (count_unresolved_lem es))
  | inr done ↦ rw done (count_unresolved_lem es)
]

-- The count of the sidebar is the length of the list of active escalations, which is taken from the
-- sorted listing.
pub active_count-eq-length : (s : EscalationStore) → active_count s ≡ length (list_active s)
unfolding active_count list_active list_all
active_count-eq-length s =
    count_unresolved_lem (values s.escalations)
    ∙ sym (length-Perm (select-sort_by _ (λ e. not e.resolved) (values s.escalations)))

-- The listing of an owner is ordered by creation time, and holds the escalations of the store that
-- carry exactly this owner, each as often as the store does.
pub list_for_user_lem :
    (owner : String) (s : EscalationStore)
    → IsSortedBy (λ e. instant e.created_at) (list_for_user owner s)
      × Perm (list_for_user owner s) (select (λ e. str_eq e.user_id owner) (values s.escalations))
unfolding list_for_user list_all
list_for_user_lem owner s = (
  select-IsSortedBy _ _ _ (sort_by-IsSortedBy _ (values s.escalations)),
  select-sort_by _ _ (values s.escalations),
)
