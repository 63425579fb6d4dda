-- ===== src/LogSignature.antt =====
-- sysadmin/monitor/log_signature.py: the signature of a log message, and the title of its alert.
-- Digits, word characters and white space are ASCII. The hash and `truncate_at_word` with its marker are
-- parameters.
pub mod Settled
pub mod Stripped
pub mod Title
use Prim.Native.Char.{Char, code}
use Prim.Native.String.{char_at}
use Prim.Native.String
use sysadmin_assistant.Shared.{
  ℕ, zero, suc, ◌+◌, ◌-◌, max, String, Bool, true, false, ◌&&◌, ◌||◌, not, Option, none, some, List,
  [], ◌∷◌, leb, ◌==◌, if◌then◌else◌,
}
use sysadmin_assistant.Shared.Text.{
  concat, is_digit, is_space, is_word_char, lstrip, rstrip, text_length,
}
use sysadmin_assistant.WordLimit.{prefix}

abbrev pub title_max : ℕ
title_max = 255

abbrev pub signature_digest_chars : ℕ
signature_digest_chars = 8

-- `[0-9a-fA-F]`
is_hex_char : Char → Bool
is_hex_char c =
    is_digit c
    || (leb b'a' (code c) && leb (code c) b'f')
    || (leb b'A' (code c) && leb (code c) b'F')

-- `[0-9a-fA-F]*\b` behind a word character: how many characters it takes.
hex_run : String → Option ℕ
unfolding is_hex_char
hex_run String.[] = some 0
hex_run (String.◌∷◌ c s) =
    let rest = hex_run s in
    if is_hex_char c
    then elim rest [ none ↦ none | some n ↦ some (suc n) ]
    else if is_word_char c
    then none
    else some 0

-- `[0-9a-fA-F]+\b`
hex_digits : String → Option ℕ
unfolding hex_run
hex_digits String.[] = none
hex_digits (String.◌∷◌ c s) = if is_hex_char c then hex_run (String.◌∷◌ c s) else none

-- `x[0-9a-fA-F]+\b`
hex_behind : String → Option ℕ
unfolding hex_digits
hex_behind String.[] = none
hex_behind (String.◌∷◌ c s) =
    if code c == b'x' then elim (hex_digits s) [ none ↦ none | some n ↦ some (suc n) ] else none

-- `_HEX` at a character and the text behind it, the character in front being a word character or
-- not: how many characters it takes behind the character.
hex_here : Bool → Char → String → Option ℕ
unfolding hex_behind
hex_here before c s = if not before && code c == b'0' then hex_behind s else none

-- `_HEX.sub("0xN", s)`, while so many characters of a match are still to be passed.
unfoldable pub hex_sub : ℕ → Bool → String → String
unfolding hex_here
hex_sub passing before String.[] = ""
hex_sub (suc passing) before (String.◌∷◌ c s) = hex_sub passing true s
hex_sub zero before (String.◌∷◌ c s) = elim (hex_here before c s) [
  | none ↦ String.◌∷◌ c (hex_sub zero (is_word_char c) s)
  | some n ↦ String.◌++◌ "0xN" (hex_sub n true s)
]

abbrev letter_n : Char
letter_n = char_at "N" 0

abbrev pub blank : Char
blank = char_at " " 0

-- `_NUM.sub("N", s)`, in a run of digits or not.
unfoldable pub num_sub : Bool → String → String
num_sub run String.[] = ""
num_sub run (String.◌∷◌ c s) =
    let rest = num_sub (is_digit c) s in
    if is_digit c then (if run then rest else String.◌∷◌ letter_n rest) else String.◌∷◌ c rest

-- `_WS.sub(" ", s)`, in a run of white space or not.
unfoldable pub ws_sub : Bool → String → String
ws_sub run String.[] = ""
ws_sub run (String.◌∷◌ c s) =
    let rest = ws_sub (is_space c) s in
    if is_space c then (if run then rest else String.◌∷◌ blank rest) else String.◌∷◌ c rest

-- `signature`
unfoldable pub signature : String → String
signature message = rstrip (lstrip (ws_sub false (num_sub false (hex_sub 0 false message))))

module _ (sha256_hex : String → String) (truncate_at_word : String → ℕ → String)
    (marker : String) where
  -- `signature_digest`
  unfoldable pub signature_digest : String → String
  signature_digest text = prefix signature_digest_chars (sha256_hex text)

  -- The f-string `prefix` of `alert_title`.
  unfoldable pub title_prefix : String → String → String
  title_prefix severity source = concat ("Log " ∷ severity ∷ ": " ∷ source ∷ " — " ∷ [])

  -- What the budget leaves out: the prefix, the marker and one character.
  unfoldable pub reserved : String → String → ℕ
  reserved severity source = text_length (title_prefix severity source) + text_length marker + 1

  -- `alert_title`
  unfoldable pub alert_title : String → String → String → String
  alert_title severity source message =
      let text = signature message in
      let suffix = concat (" [" ∷ signature_digest text ∷ "]" ∷ []) in
      if leb (text_length text + reserved severity source) title_max
      then concat (title_prefix severity source ∷ text ∷ [])
      else concat (
          title_prefix severity source
          ∷ truncate_at_word text
              (max (title_max - reserved severity source - text_length suffix) 1)
          ∷ suffix
          ∷ [])
