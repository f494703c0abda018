-- ===== src/Edits/Synced.antt =====
-- Edits, and the language with its copy in the settings.
use meetkai.Common.{
  ◌≡◌, refl, subst, sym, ap, ◌∙◌, inl, inr, Bool, true, false, some, Bool-cases, Option-cases,
  str_eq, if◌then◌else◌,
}
use meetkai.Common.Dict.{Dict, lookup, contains, lookup-put_self}
use meetkai.Common.Try.{returned, >>=-eq-returned}
use meetkai.Edits.{
  FieldValue, Deployment, BotType, apply_fields, sync_language, apply_edit, edit, Session,
}
use meetkai.Edits.Language.{IsSynced, HasLanguage, Keeps, apply_fields-Keeps}

returned_inj {ℓ} : {A : Type ℓ} {x y : A} → returned x ≡ returned y → x ≡ y
returned_inj h = cc

-- What `edit` returns for the row that it has made.
abbrev committed : Session → Deployment → Deployment × Deployment
committed session e = (
  e,
  record e {
    settings = session.refresh e;
    settings_assigned = false;
    stored_settings = session.refresh e;
  },
)

sync_language-IsSynced :
    (in_fields changed : Bool) (d e : Deployment)
    → Keeps d changed e
    → IsSynced d
    → IsSynced (sync_language in_fields changed e)
unfolding sync_language
sync_language-IsSynced true changed d e k h = lookup-put_self "language" e.language e.settings
sync_language-IsSynced false false d e k h =
    let (settings, language) = k.same refl in
    ap (lookup "language") settings ∙ h ∙ ap some (sym language)
sync_language-IsSynced false true d e k h = elim (Option-cases (lookup "language" e.settings)) [
  | inl missing ↦ let has : HasLanguage e = k.has (rw h refl) in absurd (cc (rw missing at has))
  | inr (v, found) ↦ rw found refl
]

flagged-IsSynced :
    (d : Deployment)
    → IsSynced d
    → IsSynced (if str_eq d.status "running" then record d { needs_restart = true } else d)
flagged-IsSynced d h = elim (Bool-cases (str_eq d.status "running")) [
  | inl running ↦ rw running h
  | inr stopped ↦ rw stopped h
]

apply_edit-IsSynced :
    (bt : BotType) (fields : Dict FieldValue) (d e : Deployment)
    → IsSynced d
    → apply_edit bt fields d ≡ returned e
    → IsSynced e
unfolding apply_edit
apply_edit-IsSynced bt fields d e h edited =
    let (r, applied, rest) = >>=-eq-returned (apply_fields bt fields false d) _ edited in
    let (k, none_before) = apply_fields-Keeps bt fields false d r applied in
    let synced = sync_language-IsSynced (contains "language" fields) r.0 d r.1 k h in
    let last = sync_language (contains "language" fields) r.0 r.1 in
    let same : (if str_eq last.status "running" then record last { needs_restart = true } else last)
        ≡ e =
      cc rest in
    subst IsSynced same (flagged-IsSynced last synced)

edited_row :
    (session : Session) (bt : BotType) (fields : Dict FieldValue) (d e c : Deployment)
    → edit session bt fields d ≡ returned (e, c)
    → (apply_edit bt fields d ≡ returned e)
      × (c.settings ≡ session.refresh e)
      × (c.language ≡ e.language)
unfolding edit
edited_row session bt fields d e c h =
    let (row, applied, rest) = >>=-eq-returned (apply_edit bt fields d) _ h in
    let pair : committed session row ≡ (e, c) = returned_inj rest in
    let first : row ≡ e = ap (λ p. p.0) pair in
    (
      applied ∙ ap returned first,
      ap (λ (p : Deployment × Deployment). p.1.settings) (sym pair) ∙ ap session.refresh first,
      ap (λ (p : Deployment × Deployment). p.1.language) (sym pair) ∙ ap (λ x. x.language) first,
    )

-- If the settings of a deployment, as the session holds the row, hold its language, they do so after
-- every edit that is accepted, also of the settings themselves, when the config file is written from
-- the row; and the commit keeps the language of the row.
pub edit-IsSynced :
    (session : Session) (bt : BotType) (fields : Dict FieldValue) (d e c : Deployment)
    → IsSynced d
    → edit session bt fields d ≡ returned (e, c)
    → IsSynced e × (c.language ≡ e.language)
edit-IsSynced session bt fields d e c h edited =
    let (applied, read, language) = edited_row session bt fields d e c edited in
    (apply_edit-IsSynced bt fields d e h applied, language)

-- The documentation of SQLAlchemy on a plain JSON column: a change in place is not tracked, so without
-- an assignment nothing is stored, and the row is read back as it is stored.
abbrev pub Untracked : Session → Type 0
Untracked session =
    (d : Deployment) → d.settings_assigned ≡ false → session.refresh d ≡ d.stored_settings
