-- ===== src/Edits/Samples.antt =====
-- An edit of the settings that changes the language in them.
use meetkai.Common.{◌≡◌, refl, if◌then◌else◌, true, false, none, [], ◌∷◌}
use meetkai.Common.Dict.{Dict, lookup}
use meetkai.Common.Try.{returned}
use meetkai.Edits.{Session, FieldValue, object, null, text, Deployment, BotType, edit}
use meetkai.Edits.Language.{IsSynced}
use meetkai.Edits.Synced.{edit-IsSynced}

abbrev email : BotType
email = record {
  feature_flags = [];
  required_settings = "mailbox" ∷ [];
  all_languages = "English" ∷ "German" ∷ [];
  str_of = λ v. "value";
}

abbrev before : Deployment
before = record {
  goal = "answer mail";
  language = text "English";
  template = "general";
  settings = ("language", text "English") ∷ ("mailbox", text "inbox") ∷ [];
  settings_assigned = false;
  stored_settings = ("language", text "English") ∷ ("mailbox", text "inbox") ∷ [];
  feature_flags = [];
  brain_mandatory = null;
  brain_instruction = none;
  tool_overrides = [];
  status = "running";
  needs_restart = false;
}

abbrev fields : Dict FieldValue
fields = ("settings", object (("language", text "German") ∷ [])) ∷ []

abbrev after : Deployment
after = record before {
  language = text "German";
  settings = ("language", text "German") ∷ ("mailbox", text "inbox") ∷ [];
  settings_assigned = true;
  needs_restart = true;
}

-- A session that stores what is assigned.
abbrev session : Session
session = record { refresh = λ d. if d.settings_assigned then d.settings else d.stored_settings }

abbrev committed : Deployment
committed = record after { settings_assigned = false; stored_settings = after.settings }

edited : edit session email fields before ≡ returned (after, committed)
unfolding edit
edited = refl

before-IsSynced : IsSynced before
unfolding lookup
before-IsSynced = refl

edit-IsSynced_example : IsSynced after × (committed.language ≡ after.language)
edit-IsSynced_example =
    edit-IsSynced session email fields before after committed before-IsSynced edited

abbrev in_german : Deployment
in_german = record after { settings_assigned = false }

abbrev reverted : Deployment
reverted = record in_german { settings = before.stored_settings }
