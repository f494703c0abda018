-- ===== src/Tasks/Repeat.antt =====
-- `RepeatKind` of `src/kai/agent/scheduler.py`, and the reading of a persisted value.
use mathlib.Core.Option.{Option}
use meetkai.Common.{String, str_eq, if◌then◌else◌}

pub data RepeatKind : Type 0 where
  none daily weekly monthly : RepeatKind

abbrev kind_of : String → RepeatKind
kind_of text =
    if str_eq text "daily"
    then daily
    else if str_eq text "weekly"
    then weekly
    else if str_eq text "monthly"
    then monthly
    else none

-- The value is None or, through `str`, a text; an unknown text falls back to "none".
unfoldable pub coerce_repeat : Option String → RepeatKind
coerce_repeat Option.none = none
coerce_repeat (Option.some text) = kind_of text
