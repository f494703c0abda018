-- ===== src/Runs/Registry.antt =====
-- What the registry hands out, and instance ids.
use Prim.Native.Char.{code}
use meetkai.Common.{◌≡◌, refl, ap, inl, inr, String, true, false, some, Bool-cases}
use meetkai.Common.Text.{is_empty}
use meetkai.Runs.{
  RunRecord, Machine, RunsFile, valid, absent, unreadable, invalid, get, record_is_live, is_safe,
  clean, sanitize_instance_id,
}

-- A record that `get` hands out is that of the file, it is live, the file stays, and asking again
-- gives the same record.
pub get_lem :
    (os : Machine) (file : RunsFile) (r : RunRecord)
    → (get os file).0 ≡ some r
    → (file ≡ valid r) × (record_is_live os r ≡ true) × (get os (get os file).1 ≡ (some r, file))
unfolding get
get_lem os absent r h = absurd (cc h)
get_lem os unreadable r h = absurd (cc h)
get_lem os invalid r h = absurd (cc h)
get_lem os (valid s) r h = elim (Bool-cases (record_is_live os s)) [
  | inl live ↦
      let same : s ≡ r = cc (rw (live, get) at h) in
      (ap valid same, rw (← same) live, rw (← same, live, get, live) refl)
  | inr dead ↦ absurd (cc (rw (dead, get) at h))
]

-- All characters of a text are safe.
abbrev pub AllSafe : String → Type 0
AllSafe String.[] = Unit
AllSafe (String.◌∷◌ c s) = (is_safe (code c) ≡ true) × AllSafe s

clean-AllSafe : (s : String) → AllSafe (clean s)
unfolding clean is_safe
clean-AllSafe String.[] = tt
clean-AllSafe (String.◌∷◌ c s) = elim (Bool-cases (is_safe (code c))) [
  | inl safe ↦ rw safe (safe, clean-AllSafe s)
  | inr other ↦ rw other (refl, clean-AllSafe s)
]

-- An instance id becomes a text that is not empty and has none but safe characters.
pub sanitize_instance_id-AllSafe :
    (s : String) → AllSafe (sanitize_instance_id s) × (is_empty (sanitize_instance_id s) ≡ false)
unfolding sanitize_instance_id clean is_safe
sanitize_instance_id-AllSafe String.[] =
    ((refl, (refl, (refl, (refl, (refl, (refl, (refl, tt))))))), refl)
sanitize_instance_id-AllSafe (String.◌∷◌ c s) = (clean-AllSafe (String.◌∷◌ c s), refl)
