-- ===== src/Focus/Probe/Cleanup.antt =====
-- What the probe leaves behind: its file and its script are gone, and it asks the journal a bounded
-- number of times.
use sysadmin_assistant.Shared.{
  ℕ, zero, suc, ◌+◌, ◌≤◌, ◌≡◌, ◌⊎◌, inl, inr, refl, String, Bool, true, false, ◌&&◌, Option, List,
  [], ◌∷◌, if_cases, option_cases, arith,
}
use sysadmin_assistant.Focus.{journal_attempts, script_text, parse_line}
use sysadmin_assistant.Focus.Probe.{
  ScriptId, Call, make_script, load, unload, read_journal, pause, remove_script, write_script,
  start, Answer, failed, answered, Result, raised, returned, Answers, load_again, load_script,
  load_answer, is_taken, run_started, run_loaded, take_answer, paused, read_attempts,
  read_journal_line, read_result, run_script, probe_from, kwin_focus_probe,
}

-- Newest first: is each started script unloaded by a later call? `unloaded` says whether one of the
-- calls in front unloads.
abbrev pub all_unloaded : Bool → List Call → Bool
all_unloaded unloaded [] = true
all_unloaded unloaded (start i ∷ calls) = unloaded && all_unloaded unloaded calls
all_unloaded unloaded (unload ∷ calls) = all_unloaded true calls
all_unloaded unloaded (make_script ∷ calls) = all_unloaded unloaded calls
all_unloaded unloaded (load ∷ calls) = all_unloaded unloaded calls
all_unloaded unloaded (read_journal ∷ calls) = all_unloaded unloaded calls
all_unloaded unloaded (pause ∷ calls) = all_unloaded unloaded calls
all_unloaded unloaded (remove_script ∷ calls) = all_unloaded unloaded calls
all_unloaded unloaded (write_script text ∷ calls) = all_unloaded unloaded calls

-- How often the journal is read.
abbrev pub reads : List Call → ℕ
reads [] = 0
reads (read_journal ∷ calls) = suc (reads calls)
reads (start i ∷ calls) = reads calls
reads (unload ∷ calls) = reads calls
reads (make_script ∷ calls) = reads calls
reads (load ∷ calls) = reads calls
reads (pause ∷ calls) = reads calls
reads (remove_script ∷ calls) = reads calls
reads (write_script text ∷ calls) = reads calls

-- No script is started and the journal is not read.
abbrev Untouched : List Call → Type 0
Untouched calls =
    (all_unloaded true calls ≡ true) × (all_unloaded false calls ≡ true) × (reads calls ≡ 0)

-- Every script that was started is unloaded, and the journal was read so often at most.
abbrev Ended : ℕ → List Call → Type 0
Ended n calls = (all_unloaded false calls ≡ true) × (reads calls ≤ n)

module _ (answers : Answers) where
  load_again-Untouched :
      (answer : Answer) (calls : List Call)
      → Untouched calls
      → Untouched (load_again answers answer calls).1
  unfolding load_again
  load_again-Untouched failed calls h = h
  load_again-Untouched (answered output) calls h = h

  load_script-Untouched :
      (calls : List Call) → Untouched calls → Untouched (load_script answers calls).1
  unfolding load_script
  load_script-Untouched calls h =
      if_cases (λ (r : Result ScriptId × List Call). Untouched r.1)
        (is_taken (load_answer (answers calls load)))
        (load_again-Untouched (answers (load ∷ calls) unload) (unload ∷ load ∷ calls)
          (h.0, h.0, h.2))
        h

  run_started-Ended :
      (answer : Answer) (i : ScriptId) (calls : List Call)
      → Untouched calls
      → Ended 0 (run_started answers answer (start i ∷ calls)).1
  unfolding run_started
  run_started-Ended failed i calls h = (h.0, omega (arith, h.2))
  run_started-Ended (answered output) i calls h = (h.0, omega (arith, h.2))

  run_loaded-Ended :
      (loaded : Result ScriptId × List Call)
      → Untouched loaded.1
      → Ended 0 (run_loaded answers loaded).1
  unfolding run_loaded
  run_loaded-Ended (raised, calls) h = (h.1, omega (arith, h.2))
  run_loaded-Ended (returned i, calls) h = run_started-Ended (answers calls (start i)) i calls h

  paused-Ended :
      (n left : ℕ) (calls : List Call) → Ended n calls → Ended n (paused answers left calls)
  unfolding paused
  paused-Ended n zero calls h = h
  paused-Ended n (suc left) calls h = h

  take_answer-Ended :
      (n : ℕ) (token : String) (answer : Answer) (calls : List Call)
      (later : Result (Option ℕ) × List Call)
      → Ended n calls
      → Ended n later.1
      → Ended n (take_answer answers token answer calls later).1
  unfolding take_answer
  take_answer-Ended n token failed calls later now after = now
  take_answer-Ended n token (answered output) calls later now after =
      option_cases (λ (r : Result (Option ℕ) × List Call). Ended n r.1) (parse_line output token)
        after (λ pid. now)

  read_attempts-Ended :
      (left n : ℕ) (token : String) (calls : List Call)
      → Ended n calls
      → Ended (left + n) (read_attempts answers left token calls).1
  unfolding read_attempts
  read_attempts-Ended zero n token calls h = (h.0, omega (arith, h.1))
  read_attempts-Ended (suc left) n token calls h =
      let tried = read_journal ∷ calls in
      let later =
        read_attempts-Ended left (suc n) token (paused answers left tried)
          (paused-Ended (suc n) left tried (h.0, omega (arith, h.1))) in
      take_answer-Ended (suc left + n) token (answers calls read_journal) tried
        (read_attempts answers left token (paused answers left tried)) (h.0, omega (arith, h.1))
        (later.0, omega (arith, later.1))

  read_result-Ended :
      (token : String) (run : Result Unit × List Call)
      → Ended 0 run.1
      → Ended journal_attempts (read_result answers token run).1
  unfolding read_result read_journal_line
  read_result-Ended token (raised, calls) h = (h.0, omega (arith, h.1))
  read_result-Ended token (returned done, calls) h =
      read_attempts-Ended journal_attempts 0 token calls h

  run_script-Ended :
      (token : String) (answer : Answer) (calls : List Call)
      → Untouched calls
      → Ended journal_attempts (run_script answers token answer calls).1
  unfolding run_script
  run_script-Ended token failed calls h = (h.1, omega (arith, h.2))
  run_script-Ended token (answered output) calls h =
      read_result-Ended token (run_loaded answers (load_script answers calls))
        (run_loaded-Ended (load_script answers calls) (load_script-Untouched calls h))

  -- The last call.
  abbrev pub is_removed : List Call → Bool
  is_removed (remove_script ∷ calls) = true
  is_removed calls = false

  -- The probe has come to an end, or it raised because its file could not be made, its only call.
  abbrev pub IsOver : Result (Option ℕ) × List Call → Type 0
  IsOver (raised, calls) = (answers [] make_script ≡ failed) × (calls ≡ make_script ∷ [])
  IsOver (returned pid, calls) =
      (calls ≡ [])
      ⊎ ((is_removed calls ≡ true) × (all_unloaded false calls ≡ true) × (reads calls ≤ 5))

  probe_from-IsOver :
      (token : String) (answer : Answer)
      → answers [] make_script ≡ answer
      → IsOver (probe_from answers token answer (make_script ∷ []))
  unfolding probe_from
  probe_from-IsOver token failed h = (h, refl)
  probe_from-IsOver token (answered path) h =
      let write = write_script (script_text token) in
      let ended =
        run_script-Ended token (answers (make_script ∷ []) write) (write ∷ make_script ∷ [])
          (refl, refl, refl) in
      inr (refl, ended.0, ended.1)

  -- Whatever call fails, a probe that makes any call ends by removing its script's file, every script
  -- that it started it asked to unload afterwards, and it reads the journal five times at most. It
  -- raises only where the file could not be made, and then has made no other call.
  pub kwin_focus_probe-IsOver :
      (env : Bool) (token : String) → IsOver (kwin_focus_probe answers env token)
  unfolding kwin_focus_probe
  kwin_focus_probe-IsOver false token = inl refl
  kwin_focus_probe-IsOver true token = probe_from-IsOver token (answers [] make_script) refl
