-- ===== src/Focus/Probe.antt =====
-- sysadmin/games/focus.py: the probe's calls. Each call is answered by the outside, which has seen the
-- calls before it: `answers` is a parameter, and `failed` is a ProbeFailedError or an OSError. The
-- list of the calls made so far has the newest in front. Whether the
-- session's environment can be built (else a SystemdQueryError) and the token are given.
pub mod Cleanup
use Prim.Native.Char.{Char, code}
use Prim.Native.String
use sysadmin_assistant.Shared.{
  ℕ, zero, suc, ◌+◌, ◌-◌, ◌*◌, String, Bool, true, false, ◌&&◌, not, Option, none, some, List, [],
  ◌∷◌, ◌==◌, if◌then◌else◌,
}
use sysadmin_assistant.Shared.Text.{is_digit, is_empty, lstrip, rstrip}
use sysadmin_assistant.Focus.{journal_attempts, script_text, parse_line}

pub data ScriptId : Type 0 where
  pos : ℕ → ScriptId
  negsuc : ℕ → ScriptId

pub data Call : Type 0 where
  make_script load unload read_journal pause remove_script : Call
  write_script : String → Call
  start : ScriptId → Call

pub data Answer : Type 0 where
  failed : Answer
  answered : String → Answer

-- A result, or a ProbeFailedError or OSError that was raised.
pub data Result (A : Type 0) : Type 0 where
  raised : Result A
  returned : A → Result A

-- `,)` and the end of the text.
closes : String → Bool
unfolding is_empty
closes String.[] = false
closes (String.◌∷◌ c s) = code c == b')' && is_empty s

-- `\d*,\)`, with the number that the digits make from `n` on.
digits_closed : ℕ → String → Option ℕ
unfolding closes
digits_closed n String.[] = none
digits_closed n (String.◌∷◌ c s) =
    let rest = digits_closed (n * 10 + (code c - b'0')) s in
    if is_digit c then rest else if code c == b',' && closes s then some n else none

-- `\d+,\)`
number_closed : String → Option ℕ
unfolding digits_closed
number_closed String.[] = none
number_closed (String.◌∷◌ c s) = if is_digit c then digits_closed 0 (String.◌∷◌ c s) else none

negated : ℕ → ScriptId
negated zero = pos 0
negated (suc n) = negsuc n

-- `-?\d+,\)`
signed : String → Option ScriptId
unfolding number_closed negated
signed String.[] = none
signed (String.◌∷◌ c s) =
    if code c == b'-'
    then elim (number_closed s) [ none ↦ none | some n ↦ some (negated n) ]
    else elim (number_closed (String.◌∷◌ c s)) [ none ↦ none | some n ↦ some (pos n) ]

opened : String → Option ScriptId
unfolding signed
opened String.[] = none
opened (String.◌∷◌ c s) = if code c == b'(' then signed s else none

-- `parse_load_id`
unfoldable pub parse_load_id : String → Option ScriptId
unfolding opened lstrip rstrip
parse_load_id output = opened (rstrip (lstrip output))

-- `script_id is None or script_id < 0`, which raises.
usable : Option ScriptId → Result ScriptId
usable none = raised
usable (some (pos n)) = returned (pos n)
usable (some (negsuc n)) = raised

-- What a call of `loadScript` answers.
load_answer : Answer → Result (Option ScriptId)
load_answer failed = raised
load_answer (answered output) = returned (parse_load_id output)

abbrev pub Answers : Type 0
Answers = List Call → Call → Answer

-- `script_id == -1`
is_taken : Result (Option ScriptId) → Bool
is_taken raised = false
is_taken (returned none) = false
is_taken (returned (some (pos n))) = false
is_taken (returned (some (negsuc n))) = n == 0

-- The last check of `_load`.
check_id : Result (Option ScriptId) → Result ScriptId
unfolding usable
check_id raised = raised
check_id (returned id) = usable id

module _ (answers : Answers) where
  -- Loading a second time, after a probe that died was unloaded.
  load_again : Answer → List Call → Result ScriptId × List Call
  unfolding check_id load_answer
  load_again failed calls = (raised, calls)
  load_again (answered output) calls = (check_id (load_answer (answers calls load)), load ∷ calls)

  -- `_load`
  unfoldable pub load_script : List Call → Result ScriptId × List Call
  unfolding load_answer is_taken load_again check_id
  load_script calls =
      let first = load_answer (answers calls load) in
      let tried = load ∷ calls in
      if is_taken first
      then load_again (answers tried unload) (unload ∷ tried)
      else (check_id first, tried)

  -- Unloading the script, whatever comes of it.
  run_started : Answer → List Call → Result Unit × List Call
  run_started failed calls = (raised, unload ∷ calls)
  run_started (answered output) calls = (returned tt, unload ∷ calls)

  run_loaded : Result ScriptId × List Call → Result Unit × List Call
  unfolding run_started
  run_loaded (raised, calls) = (raised, calls)
  run_loaded (returned script_id, calls) =
      run_started (answers calls (start script_id)) (start script_id ∷ calls)

  -- One answer of the journal; `later` is the rest of the loop.
  take_answer :
      String → Answer → List Call → Result (Option ℕ) × List Call → Result (Option ℕ) × List Call
  take_answer token failed calls later = (raised, calls)
  take_answer token (answered output) calls later = elim (parse_line output token) [
    | none ↦ later
    | some pid ↦ (returned (some pid), calls)
  ]

  -- The pause before another attempt.
  paused : ℕ → List Call → List Call
  paused zero calls = calls
  paused (suc left) calls = pause ∷ calls

  -- The loop of `_read_journal`, with so many attempts left.
  read_attempts : ℕ → String → List Call → Result (Option ℕ) × List Call
  unfolding take_answer paused
  read_attempts zero token calls = (returned none, calls)
  read_attempts (suc left) token calls =
      let tried = read_journal ∷ calls in
      take_answer token (answers calls read_journal) tried
        (read_attempts left token (paused left tried))

  -- `_read_journal`
  unfoldable pub read_journal_line : String → List Call → Result (Option ℕ) × List Call
  unfolding read_attempts
  read_journal_line token calls = read_attempts journal_attempts token calls

  -- After the script was run, or not.
  read_result : String → Result Unit × List Call → Result (Option ℕ) × List Call
  unfolding read_journal_line
  read_result token (raised, calls) = (raised, calls)
  read_result token (returned done, calls) = read_journal_line token calls

  -- The body of the outer `try`.
  run_script : String → Answer → List Call → Result (Option ℕ) × List Call
  unfolding load_script run_loaded read_result
  run_script token failed calls = (raised, calls)
  run_script token (answered output) calls = read_result token (run_loaded (load_script calls))

  -- An error that the probe catches is no answer.
  caught : Result (Option ℕ) → Option ℕ
  caught raised = none
  caught (returned pid) = pid

  -- From the making of the script's file on, which raises where it fails.
  probe_from : String → Answer → List Call → Result (Option ℕ) × List Call
  unfolding run_script caught
  probe_from token failed calls = (raised, calls)
  probe_from token (answered path) calls =
      let write = write_script (script_text token) in
      let (result, calls') = run_script token (answers calls write) (write ∷ calls) in
      (returned (caught result), remove_script ∷ calls')

  -- `kwin_focus_probe`
  unfoldable pub kwin_focus_probe : Bool → String → Result (Option ℕ) × List Call
  unfolding probe_from
  kwin_focus_probe false token = (returned none, [])
  kwin_focus_probe true token = probe_from token (answers [] make_script) (make_script ∷ [])
