-- ===== src/FailureReplay/Codes.antt =====
-- What a replay announces, and its exit code.
use Prim.Native.String
use sysadmin_assistant.Shared.{
  ℕ, zero, suc, ◌≡◌, String, Bool, true, false, ◌&&◌, not, List, [], ◌∷◌, length, ltb, ◌==◌,
  if◌then◌else◌,
}
use sysadmin_assistant.Shared.Text.{concat}
use sysadmin_assistant.Escalation.{Datetime}
use sysadmin_assistant.FailureReplay.{max_spoken, PendingFailure}

-- Does the text have the part in it?
abbrev pub Contains : String → String → Type 0
Contains part text =
    (before : String) × (after : String) × (text ≡ String.◌++◌ before (String.◌++◌ part after))

-- Has the text every failed unit in it?
abbrev pub Named : List PendingFailure → String → Type 0
Named [] text = Unit
Named (row ∷ rows) text = Contains row.unit text × Named rows text

-- Is there one announcement for each failure, in their order, with its unit as the summary and its
-- message in the body?
abbrev pub Told : List PendingFailure → List (String × String) → Type 0
Told [] announced = announced ≡ []
Told (row ∷ rows) [] = ⊥
Told (row ∷ rows) ((summary, body) ∷ announced) =
    (summary ≡ concat ("STILL FAILED: " ∷ row.unit ∷ []))
    × Contains row.message body
    × Told rows announced

-- What is announced: nothing where nobody listens, one text with every unit where there are more than
-- three failures, and else each failure by itself.
abbrev pub Spoken : List PendingFailure → Bool → List (String × String) → Type 0
Spoken pending false announced = announced ≡ []
Spoken pending true announced =
    if ltb 3 (length pending)
    then ((summary : String) × (body : String) × (announced ≡ (summary, body) ∷ [])
        × Named pending body)
    else Told pending announced

module _ (moments : ℕ → Datetime) (lands : ℕ → Bool) where
  -- Do so many announcements land, from the given number on?
  abbrev pub all_land : ℕ → ℕ → Bool
  all_land number zero = true
  all_land number (suc n) = lands number && all_land (suc number) n

  -- How many announcements there are: none, one for all, or one for each.
  abbrev pub announcements : ℕ → Bool → ℕ
  announcements pending listening =
      if not listening then 0 else if ltb max_spoken pending then 1 else pending

  abbrev pub exit_code : ℕ → Bool → ℕ
  exit_code pending listening =
      if pending == 0
      then 0
      else if not listening
      then 1
      else if all_land 0 (announcements pending listening)
      then 0
      else 2
