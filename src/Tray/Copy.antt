-- ===== src/Tray/Copy.antt =====
-- sysadmin_tray/notifications.py: the words of a notification (`_humanise_minutes`, `_count_line`,
-- `_highest`) and Python's truth of an optional text.
use sysadmin_assistant.Shared.{
  ℕ, ◌+◌, ◌/◌, ◌%◌, String, Bool, false, ◌&&◌, not, Option, none, some, List, [], ◌∷◌, ltb, leb,
  ◌==◌, if◌then◌else◌, str_eq,
}
use sysadmin_assistant.Shared.Text.{concat, join, show}
use sysadmin_assistant.Escalation.{round_div, minute}
use sysadmin_assistant.Tray.Data.{level_or}

-- Is it neither `None` nor empty?
unfoldable pub is_present : Option String → Bool
is_present none = false
is_present (some s) = not (str_eq s "")

-- `s or ""`
abbrev pub text_of : Option String → String
text_of none = ""
text_of (some s) = s

unfoldable pub humanise_minutes : ℕ → String
humanise_minutes minutes =
    let mins = round_div minutes minute in
    if leb 60 mins && mins % 60 == 0
    then (let hours = mins / 60 in
        if hours == 1 then "hour" else concat (show hours ∷ " hours" ∷ []))
    else concat (show (if leb mins 0 then 1 else mins) ∷ " min" ∷ [])

unfoldable pub count : String → List String → ℕ
count severity [] = 0
count severity (s ∷ ss) = (if str_eq s severity then 1 else 0) + count severity ss

count_parts : List String → List String → List String
count_parts [] severities = []
count_parts (sev ∷ sevs) severities =
    let n = count sev severities in
    let rest = count_parts sevs severities in
    if n == 0 then rest else concat (show n ∷ " " ∷ sev ∷ []) ∷ rest

unfoldable pub count_line : List String → String
unfolding count_parts
count_line severities = join ", " (count_parts ("critical" ∷ "warning" ∷ "info" ∷ []) severities)

-- `max(..., key=...)`: the first of the greatest.
highest_from : String → List String → String
highest_from best [] = best
highest_from best (s ∷ ss) =
    highest_from (if ltb (level_or 0 best) (level_or 0 s) then s else best) ss

unfoldable pub highest : List String → String
unfolding highest_from
highest [] = "info"
highest (s ∷ ss) = highest_from s ss
