-- ===== src/Tests/Texts.antt =====
-- A review that runs over its limit, and the title of a log message.
use sysadmin_assistant.Shared.{
  ℕ, ◌+◌, ◌≤◌, ◌≡◌, refl, String, true, Option, some, [], ◌∷◌, if◌then◌else◌, length, leb, arith,
}
use sysadmin_assistant.Shared.Text.{
  text_length, concat, is_space, starts_word, lstrip, rstrip, is_digit, is_word_char,
}
use sysadmin_assistant.WordLimit.{
  narrative_word_limit, word_count, prefix, Request, hold_to_word_limit, trim_to_words, word_ends,
  trimmed, before_nth, nth, word_starts, cut_at, last_entry, sentence_ends,
}
use sysadmin_assistant.WordLimit.Bound.{IsHeld, hold_to_word_limit-IsHeld}
use sysadmin_assistant.WordLimit.Positions.{text_length-prefix}
use sysadmin_assistant.LogSignature.{
  signature, ws_sub, num_sub, hex_sub, title_prefix, title_max, reserved, alert_title,
}
use sysadmin_assistant.LogSignature.Settled.{digit_free, spaced}
use sysadmin_assistant.LogSignature.Stripped.{signature_settles}
use sysadmin_assistant.LogSignature.Title.{Truncates, alert_title-fits}

-- The sentence ends in the second half of the limit, so the text is cut behind it.
trim_test : trim_to_words "..." "One two three. Four five six seven" 5 ≡ some "One two three. ..."
unfolding trim_to_words word_ends is_space starts_word trimmed before_nth nth word_starts concat
    rstrip prefix cut_at last_entry sentence_ends
trim_test = refl

-- Ten words, and 160 of them.
abbrev ten : String
ten = "the disk is full and the log is full too. "

abbrev long_prose : String
long_prose = concat (
    ten ∷ ten ∷ ten ∷ ten ∷ ten ∷ ten ∷ ten ∷ ten ∷ ten ∷ ten ∷ ten ∷ ten ∷ ten ∷ ten ∷ ten ∷ ten
    ∷ [])

-- A model that answers the prompt back.
abbrev echo : Request → Option String
echo request = some request.prompt

abbrev unchanged : String → String
unchanged text = text

hold_to_word_limit-IsHeld_example :
    let (result, requests) =
      hold_to_word_limit "..." unchanged echo long_prose "Shorten." "You review." true in
    IsHeld result (narrative_word_limit + word_count "...")
    × (length requests ≡ (if leb (word_count long_prose) narrative_word_limit then 0 else 1))
hold_to_word_limit-IsHeld_example =
    hold_to_word_limit-IsHeld "..." unchanged echo long_prose "Shorten." "You review." true

-- The 0 of the hexadecimal literal's replacement is replaced in its turn.
signature_test : signature "  usb 1-11:  error 0x1f" ≡ "usb N-N: error NxN"
unfolding signature rstrip lstrip ws_sub num_sub hex_sub is_digit is_space is_word_char
signature_test = refl

signature_settles_example :
    (digit_free (signature "usb 1-11:  error 0x1f") ≡ true)
    × (spaced true (signature "usb 1-11:  error 0x1f") ≡ true)
    × (signature (signature "usb 1-11:  error 0x1f") ≡ signature "usb 1-11:  error 0x1f")
signature_settles_example = signature_settles "usb 1-11:  error 0x1f"

-- Stand-ins for the hash and for the cut of a text.
abbrev same_digest : String → String
same_digest text = "a028de53"

abbrev cut : String → ℕ → String
cut text n = prefix n text

cut-Truncates : Truncates same_digest cut "..."
cut-Truncates text n = omega (arith, text_length-prefix n text)

alert_title-fits_example :
    text_length (alert_title same_digest cut "..." "error" "kernel" "usb 1-11: error 0x1f")
    ≤ title_max
unfolding reserved title_prefix concat
alert_title-fits_example =
    alert_title-fits same_digest cut "..." "error" "kernel" "usb 1-11: error 0x1f" cut-Truncates
      (omega arith)
