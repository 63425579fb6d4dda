-- ===== src/Tray/Summary.antt =====
-- The summary of a poll with several requests (`_coalesce`), and where it fails.
use sysadmin_assistant.Shared.{
  ◌≤◌, ◌<◌, max, String, ◌≡◌, refl, ◌⊎◌, inl, inr, Bool, true, false, not, none, some, List, [],
  ◌∷◌, arith, length, any, is_some, take, ltb, Bool-cases, Option-cases,
}
use sysadmin_assistant.Shared.Text.{first_line}
use sysadmin_assistant.Tray.Data.{NotificationRequest, NotificationSettings, max_listed_titles}
use sysadmin_assistant.Tray.Poll.{coalesce, first_lines, summary_of}

summary_of_lem :
    (fresh : List NotificationRequest) (label fp : String) (reminder : Bool) (lines : List String)
    → ((summary_of fresh label fp reminder lines).fingerprint ≡ some fp)
      × ((summary_of fresh label fp reminder lines).escalation ≡ false)
      × ((summary_of fresh label fp reminder lines).reminder ≡ reminder)
unfolding summary_of
summary_of_lem fresh label fp reminder lines = (refl, refl, refl)

-- Has the request's body no line at all?
abbrev pub is_blank : NotificationRequest → Bool
is_blank r = not (is_some (first_line r.body))

first_lines-blank :
    (rs : List NotificationRequest) → is_some (first_lines rs) ≡ not (any is_blank rs)
unfolding first_lines
first_lines-blank [] = refl
first_lines-blank (r ∷ rs) = elim (Option-cases (first_line r.body)) [
  | inl blank ↦ ground (arith, blank)
  | inr (l, read) ↦ elim (Option-cases (first_lines rs)) [
    | inl fault ↦ ground (arith, read, fault, first_lines-blank rs)
    | inr (ls, rest) ↦ ground (arith, read, rest, first_lines-blank rs)
  ]
]

-- Below the threshold the requests go out as they are. From it on, when one of the five that are
-- listed has a body without a line, there is an error; otherwise there is one summary, under the
-- given fingerprint, never an escalation, and marked a reminder exactly as asked.
pub coalesce_cases :
    (settings : NotificationSettings) (fresh : List NotificationRequest) (label fp : String)
    (reminder : Bool)
    → ((length fresh < max settings.coalesce_threshold 2)
        × (coalesce settings fresh label fp reminder ≡ some fresh))
      ⊎ (((max settings.coalesce_threshold 2 ≤ length fresh)
            × (any is_blank (take max_listed_titles fresh) ≡ true)
            × (coalesce settings fresh label fp reminder ≡ none))
          ⊎ ((r : NotificationRequest) × (max settings.coalesce_threshold 2 ≤ length fresh)
              × (any is_blank (take max_listed_titles fresh) ≡ false)
              × (coalesce settings fresh label fp reminder ≡ some (r ∷ []))
              × (r.fingerprint ≡ some fp)
              × (r.escalation ≡ false)
              × (r.reminder ≡ reminder)))
unfolding coalesce
coalesce_cases settings fresh label fp reminder =
    let listed = take max_listed_titles fresh in
    elim (Bool-cases (ltb (length fresh) (max settings.coalesce_threshold 2))) [
      | inl few ↦ inl (ground arith, ground (arith, few))
      | inr many ↦ elim (Option-cases (first_lines listed)) [
        | inl fault ↦ inr (
            inl (
              ground arith,
              ground (arith, fault, first_lines-blank listed),
              ground (arith, many, fault),
            ))
        | inr (lines, read) ↦ inr (
            inr (
              summary_of fresh label fp reminder lines,
              ground arith,
              ground (arith, read, first_lines-blank listed),
              ground (arith, many, read),
              (summary_of_lem fresh label fp reminder lines).0,
              (summary_of_lem fresh label fp reminder lines).1,
              (summary_of_lem fresh label fp reminder lines).2,
            ))
      ]
    ]
