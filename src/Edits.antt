-- ===== src/Edits.antt =====
-- `src/kai/cockpit/deployment_edits.py` and `DeploymentsService.edit` of
-- `src/kai/cockpit/deployments.py`: the edits of a deployment's fields, each with its validation.
pub mod Language
pub mod Synced
pub mod Samples
use meetkai.Common.{
  ℕ, String, Bool, true, false, not, ◌&&◌, ◌||◌, Option, none, some, List, [], ◌∷◌, any, all, ◌==◌,
  str_eq, if◌then◌else◌,
}
use meetkai.Common.Text.{is_empty, strip}
use meetkai.Common.Dict.{Dict, lookup, contains, put, keys}
use meetkai.Common.Try.{Try, returned, raised, ◌>>=◌}

-- A JSON value in the settings; a list or an object in them stands with its JSON text.
pub data Json : Type 0 where
  null : Json
  flag : Bool → Json
  int : ℕ → Json
  text : String → Json
  nested : String → Json

-- The value of a field that is edited.
pub data FieldValue : Type 0 where
  plain : Json → FieldValue
  object : Dict Json → FieldValue

-- The row as the session holds it in memory, with the fields that an edit reads or writes: a value that
-- is put into the settings in place is in this object, from which the config file is written.
-- `settings_assigned` tells whether the attribute `settings` was assigned since the row was loaded, and
-- `stored_settings` is what the table holds. The languages and the lists of the bot type are arguments
-- of the appliers.
pub record Deployment : Type 0 where
  pub goal : String
  pub language : Json
  pub template : String
  pub settings : Dict Json
  pub settings_assigned : Bool
  pub stored_settings : Dict Json
  pub feature_flags : Dict Json
  pub brain_mandatory : Json
  pub brain_instruction : Option String
  pub tool_overrides : Dict Json
  pub status : String
  pub needs_restart : Bool

-- The entry of BOT_TYPES, ALL_LANGUAGES, and `str` of a value that is not a text.
pub record BotType : Type 0 where
  pub feature_flags : List String
  pub required_settings : List String
  pub all_languages : List String
  pub str_of : FieldValue → String

abbrev pub empty_list : Json
empty_list = nested "[]"

-- `not value`
unfoldable pub is_falsy : Json → Bool
is_falsy null = true
is_falsy (flag b) = not b
is_falsy (int n) = n == 0
is_falsy (text t) = is_empty t
is_falsy (nested t) = str_eq t "[]" || str_eq t "{}"

unfoldable pub is_falsy_field : FieldValue → Bool
unfolding is_falsy
is_falsy_field (plain v) = is_falsy v
is_falsy_field (object []) = true
is_falsy_field (object (e ∷ es)) = false

-- `str(value)`
abbrev pub str : BotType → FieldValue → String
str bt (plain (text t)) = t
str bt (plain null) = bt.str_of (plain null)
str bt (plain (flag b)) = bt.str_of (plain (flag b))
str bt (plain (int n)) = bt.str_of (plain (int n))
str bt (plain (nested t)) = bt.str_of (plain (nested t))
str bt (object es) = bt.str_of (object es)

-- `require_non_empty`: the stripped text, or a ValueError.
unfoldable pub require_non_empty : BotType → FieldValue → Try String
unfolding is_falsy_field strip
require_non_empty bt value =
    if is_falsy_field value || is_empty (strip (str bt value))
    then raised
    else returned (strip (str bt value))

abbrev pub is_listed : List String → String → Bool
is_listed names name = any (λ n. str_eq n name) names

-- `{**settings, **value}`
unfoldable pub merge : Dict Json → Dict Json → Dict Json
unfolding put
merge settings [] = settings
merge settings ((k, v) ∷ more) = merge (put k v settings) more

abbrev set_but_falsy : Dict Json → String → Bool
set_but_falsy value req = elim (lookup req value) [ none ↦ false | some v ↦ is_falsy v ]

abbrev or_default : Option Json → Json → Json
or_default none d = d
or_default (some v) d = v

-- `deployment.settings["language"] = language`, in place
abbrev pub put_language : Json → Deployment → Deployment
put_language language d = record d { settings = put "language" language d.settings }

-- An applier: a ValueError, or whether the settings may have changed and the new row.
abbrev Applied : Type 0
Applied = Try (Bool × Deployment)

unfoldable pub apply_goal : BotType → FieldValue → Deployment → Applied
unfolding require_non_empty
apply_goal bt value d =
    require_non_empty bt value >>= λ goal. returned (false, record d { goal = goal })

unfoldable pub apply_language : BotType → FieldValue → Deployment → Applied
unfolding require_non_empty put
apply_language bt value d = require_non_empty bt value >>= λ language.
    if is_listed bt.all_languages language
    then returned (true, put_language (text language) (record d { language = text language }))
    else raised

unfoldable pub apply_feature_flags : BotType → FieldValue → Deployment → Applied
apply_feature_flags bt (object value) d =
    if all (is_listed bt.feature_flags) (keys value)
    then returned (false, record d { feature_flags = value })
    else raised
apply_feature_flags bt _ d = raised

unfoldable pub apply_settings : BotType → FieldValue → Deployment → Applied
unfolding merge is_falsy lookup
apply_settings bt (object value) d =
    if any (set_but_falsy value) bt.required_settings
    then raised
    else returned (true, record d { settings = merge d.settings value; settings_assigned = true })
apply_settings bt _ d = raised

unfoldable pub apply_brain_mandatory : FieldValue → Deployment → Applied
apply_brain_mandatory (plain null) d = returned (false, record d { brain_mandatory = null })
apply_brain_mandatory (plain (flag b)) d = returned (false, record d { brain_mandatory = flag b })
apply_brain_mandatory _ d = raised

unfoldable pub apply_brain_instruction : FieldValue → Deployment → Applied
unfolding strip
apply_brain_instruction (plain null) d = returned (false, record d { brain_instruction = none })
apply_brain_instruction (plain (text t)) d =
    returned (false, record d { brain_instruction = some (strip t) })
apply_brain_instruction _ d = raised

unfoldable pub apply_template : BotType → FieldValue → Deployment → Applied
apply_template bt value d = returned (false, record d { template = str bt value })

unfoldable pub apply_tool_overrides : FieldValue → Deployment → Applied
unfolding lookup
apply_tool_overrides (object value) d =
    if all (is_listed ("enable" ∷ "disable" ∷ [])) (keys value)
    then returned (
      false,
      record d {
        tool_overrides =
            ("enable", or_default (lookup "enable" value) empty_list)
            ∷ ("disable", or_default (lookup "disable" value) empty_list)
            ∷ [];
      },
    )
    else raised
apply_tool_overrides _ d = raised

-- `FIELD_APPLIERS`; a field that is not in the table is passed over.
unfoldable pub apply_field : BotType → String → FieldValue → Deployment → Applied
unfolding apply_goal apply_language apply_feature_flags apply_settings
apply_field bt key value d =
    if str_eq key "goal"
    then apply_goal bt value d
    else if str_eq key "language"
    then apply_language bt value d
    else if str_eq key "feature_flags"
    then apply_feature_flags bt value d
    else if str_eq key "settings"
    then apply_settings bt value d
    else if str_eq key "brain_mandatory"
    then apply_brain_mandatory value d
    else if str_eq key "brain_instruction"
    then apply_brain_instruction value d
    else if str_eq key "template"
    then apply_template bt value d
    else if str_eq key "tool_overrides"
    then apply_tool_overrides value d
    else returned (false, d)

-- The loop over the fields; a ValueError leaves the function.
unfoldable pub apply_fields : BotType → Dict FieldValue → Bool → Deployment → Applied
unfolding apply_field
apply_fields bt [] changed d = returned (changed, d)
apply_fields bt ((key, value) ∷ fields) changed d =
    apply_field bt key value d >>= λ r. apply_fields bt fields (r.0 || changed) r.1

-- The language and its copy in the settings are brought into line.
unfoldable pub sync_language : Bool → Bool → Deployment → Deployment
unfolding put lookup
sync_language in_fields changed d =
    if in_fields
    then put_language d.language d
    else if changed
    then record d { language = or_default (lookup "language" d.settings) d.language }
    else d

-- `edit` for a known bot type, up to the writing of the config file.
unfoldable pub apply_edit : BotType → Dict FieldValue → Deployment → Try Deployment
unfolding apply_fields sync_language contains
apply_edit bt fields d = apply_fields bt fields false d >>= λ r.
    let synced = sync_language (contains "language" fields) r.0 r.1 in
    returned
      (if str_eq synced.status "running" then record synced { needs_restart = true } else synced)

-- What SQLAlchemy's session does with the settings at a commit: the settings that are read back.
pub record Session : Type 0 where
  pub refresh : Deployment → Dict Json

-- The row that the config file is written from, and the row after the commit.
unfoldable pub edit :
    Session → BotType → Dict FieldValue → Deployment → Try (Deployment × Deployment)
unfolding apply_edit
edit session bt fields d = apply_edit bt fields d >>= λ e.
    let read = session.refresh e in
    returned (e, record e { settings = read; settings_assigned = false; stored_settings = read })
