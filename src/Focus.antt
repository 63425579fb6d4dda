-- ===== src/Focus.antt =====
-- sysadmin/games/focus.py: which window of the desktop has the focus. The texts that the probe
-- writes and reads, its calls and what it does when one fails are here. A digit is an ASCII one.
-- Journal lines and the printing of a process id by KWin's script engine are not the program's: the
-- line is modelled as the script's `print` writes it, the id in decimal.
pub mod Number
pub mod Search
pub mod Lines
pub mod Probe
use Prim.Native.Char.{Char, code}
use Prim.Native.String
use sysadmin_assistant.Shared.{
  ℕ, zero, suc, ◌+◌, ◌-◌, ◌*◌, String, Bool, true, false, ◌&&◌, Option, none, some, List, [], ◌∷◌,
  leb, ◌==◌, if◌then◌else◌,
}
use sysadmin_assistant.Shared.Text.{concat, show, is_digit}

abbrev pub plugin_name : String
plugin_name = "sysadmin-focus-probe"

abbrev pub marker : String
marker = "sysadmin-focus-probe"

abbrev pub no_window : ℕ
no_window = 0

abbrev pub journal_attempts : ℕ
journal_attempts = 5

-- The script's text.
unfoldable pub script_text : String → String
script_text token = concat (
    "var w = workspace.activeWindow;\nprint(\"" ∷ marker ∷ " token=" ∷ token
    ∷ " pid=\" + (w ? w.pid : 0));\n" ∷ [])

-- The text in front of the id, in the script's line and in the pattern that reads it.
unfoldable pub tag : String → String
tag token = concat (marker ∷ " token=" ∷ token ∷ " pid=" ∷ [])

-- The line that the script prints for a window of the process, and for no window with the id 0.
unfoldable pub printed : String → ℕ → String
printed token pid = String.◌++◌ (tag token) (show pid)

-- The text behind the literal `p` at the front of the text.
unfoldable pub behind : String → String → Option String
behind String.[] s = some s
behind (String.◌∷◌ c p) String.[] = none
behind (String.◌∷◌ c p) (String.◌∷◌ d s) =
    let rest = behind p s in if code c == code d then rest else none

-- The rest of a number of which `n` is read.
unfoldable pub digits : ℕ → String → ℕ
unfolding is_digit
digits n String.[] = n
digits n (String.◌∷◌ c s) =
    let rest = digits (n * 10 + (code c - b'0')) s in if is_digit c then rest else n

-- `\d+` at the front of the text, as a number.
unfoldable pub number : String → Option ℕ
unfolding is_digit digits
number String.[] = none
number (String.◌∷◌ c s) = if is_digit c then some (digits 0 (String.◌∷◌ c s)) else none

-- `pid if pid > 0 else NO_WINDOW` of `-?\d+` at the front of the text.
unfoldable pub window_pid : String → Option ℕ
unfolding number
window_pid String.[] = none
window_pid (String.◌∷◌ c s) =
    if code c == b'-'
    then elim (number s) [ none ↦ none | some n ↦ some no_window ]
    else number (String.◌∷◌ c s)

-- Does the pattern match here, and with which id?
unfoldable pub pid_here : String → String → Option ℕ
unfolding behind window_pid
pid_here pattern s = elim (behind pattern s) [ none ↦ none | some rest ↦ window_pid rest ]

-- `a` where it is something, else `b`.
abbrev pub or_else {ℓ} : {A : Type ℓ} → Option A → Option A → Option A
or_else none b = b
or_else (some a) b = some a

-- The first match of the pattern.
unfoldable pub pid_from : String → String → Option ℕ
unfolding pid_here
pid_from pattern String.[] = pid_here pattern ""
pid_from pattern (String.◌∷◌ c s) = or_else (pid_here pattern (String.◌∷◌ c s)) (pid_from pattern s)

-- `parse_line`
unfoldable pub parse_line : String → String → Option ℕ
unfolding pid_from tag
parse_line output token = pid_from (tag token) output
