-- ===== src/Focus/Lines.antt =====
-- A journal of the scripts' lines, and what is read of it.
use Prim.Native.Char.{Char, code}
use Prim.Native.String.{char_at}
use Prim.Native.String
use text.Mathlib.TextLemmas.{cons-append, nil-append, append_assoc, append-nil}
use sysadmin_assistant.Shared.{
  ℕ, ◌≡◌, ◌≢◌, refl, sym, ap, subst, ◌∙◌, String, Bool, true, false, ◌&&◌, ◌||◌, not, none, some,
  ◌==◌, leb, [], ◌∷◌, Bool-cases, inl, inr, str_eq, str_eq_iff, both_true, All, arith,
}
use sysadmin_assistant.Shared.Text.{is_digit, concat, show, text_length}
use sysadmin_assistant.Shared.Dict.{Dict, lookup}
use sysadmin_assistant.Focus.{
  marker, tag, printed, behind, pid_here, pid_from, or_else, window_pid, parse_line,
}
use sysadmin_assistant.Focus.Number.{all_chars, window_pid-show, all_digits-show, stops}
use sysadmin_assistant.Focus.Search.{
  letter_s, behind-append, behind-common, behind-differs, passes, pid_from-tag, tag-begins,
}

-- A lower-case hexadecimal digit.
abbrev pub is_hex : Char → Bool
is_hex c = is_digit c || (leb b'a' (code c) && leb (code c) b'f')

-- `uuid.uuid4().hex`: 32 hexadecimal digits.
abbrev pub IsToken : String → Type 0
IsToken token = (all_chars is_hex token ≡ true) × (text_length token ≡ 32)

-- What the scripts printed, each line ended.
abbrev pub journal : Dict ℕ → String
journal [] = ""
journal ((token, pid) ∷ lines) = String.◌++◌ (printed token pid) (String.◌++◌ "\n" (journal lines))

module _ (p : Char → Bool) (p-not_s : (c : Char) → p c ≡ true → (code c == 115) ≡ false) where
  passes-all_chars : (s : String) → all_chars p s ≡ true → passes s ≡ true
  unfolding passes
  passes-all_chars String.[] h = refl
  passes-all_chars (String.◌∷◌ c s) h =
      let (first, rest) = both_true (p c) (all_chars p s) h in
      rw (p-not_s c first) (passes-all_chars s rest)

digit-not_s : (c : Char) → is_digit c ≡ true → (code c == 115) ≡ false
unfolding is_digit
digit-not_s c h = ground (arith, h)

hex-not_s : (c : Char) → is_hex c ≡ true → (code c == 115) ≡ false
unfolding is_digit
hex-not_s c h = ground (arith, h)

-- A line, piece by piece.
pieces : String → ℕ → String → String
pieces token pid rest =
    String.◌++◌ " token=" (String.◌++◌ token (String.◌++◌ " pid=" (String.◌++◌ (show pid) rest)))

tag-append :
    (token rest : String)
    → String.◌++◌ (tag token) rest
      ≡ String.◌++◌ marker (String.◌++◌ " token=" (String.◌++◌ token (String.◌++◌ " pid=" rest)))
unfolding tag concat
tag-append token rest =
    append_assoc marker (String.◌++◌ " token=" (String.◌++◌ token (String.◌++◌ " pid=" ""))) rest
    ∙ ap (String.◌++◌ marker) (
        append_assoc " token=" (String.◌++◌ token (String.◌++◌ " pid=" "")) rest
        ∙ ap (String.◌++◌ " token=") (
            append_assoc token (String.◌++◌ " pid=" "") rest
            ∙ ap (String.◌++◌ token)
                (append_assoc " pid=" "" rest ∙ ap (String.◌++◌ " pid=") (nil-append rest))))

printed-append :
    (token : String) (pid : ℕ) (rest : String)
    → String.◌++◌ (printed token pid) rest ≡ String.◌++◌ (tag token) (String.◌++◌ (show pid) rest)
unfolding printed
printed-append token pid rest = append_assoc (tag token) (show pid) rest

found-here : (p s : String) (n : ℕ) → pid_here p s ≡ some n → pid_from p s ≡ some n
unfolding pid_from
found-here p String.[] n h = h
found-here p (String.◌∷◌ c s) n h = ap (λ o. or_else o (pid_from p s)) h

-- The line of the wanted token is found and its id is read.
read-own :
    (token : String) (pid : ℕ) (rest : String)
    → stops rest ≡ true
    → parse_line (String.◌++◌ (printed token pid) rest) token ≡ some pid
unfolding parse_line pid_here
read-own token pid rest h = found-here (tag token) (String.◌++◌ (printed token pid) rest) pid (
    ap (λ s. pid_here (tag token) s) (printed-append token pid rest)
    ∙ ap (λ o. elim o [ none ↦ none | some r ↦ window_pid r ])
        (behind-append (tag token) (String.◌++◌ (show pid) rest))
    ∙ window_pid-show pid rest h)

behind-other :
    (token other rest : String)
    → text_length token ≡ text_length other
    → token ≢ other
    → behind (tag token) (String.◌++◌ (tag other) rest) ≡ none
behind-other token other rest same differ =
    let wanted = String.◌++◌ " token=" (String.◌++◌ token (String.◌++◌ " pid=" "")) in
    ap (λ p. behind p (String.◌++◌ (tag other) rest))
      (sym (append-nil (tag token)) ∙ tag-append token "")
    ∙ ap (behind (String.◌++◌ marker wanted)) (tag-append other rest)
    ∙ behind-common marker wanted
        (String.◌++◌ " token=" (String.◌++◌ other (String.◌++◌ " pid=" rest)))
    ∙ behind-common " token=" (String.◌++◌ token (String.◌++◌ " pid=" ""))
        (String.◌++◌ other (String.◌++◌ " pid=" rest))
    ∙ behind-differs token other (String.◌++◌ " pid=" "") (String.◌++◌ " pid=" rest) same differ

passed-here :
    (p : String) (c : Char) (s : String)
    → behind p (String.◌∷◌ c s) ≡ none
    → pid_from p (String.◌∷◌ c s) ≡ pid_from p s
unfolding pid_from pid_here
passed-here p c s h =
    ap (λ o. or_else (elim o [ none ↦ none | some r ↦ window_pid r ]) (pid_from p s)) h

-- The line of another token is passed by.
pass-other :
    (token other : String) (pid : ℕ) (rest : String)
    → IsToken token
    → IsToken other
    → token ≢ other
    → pid_from (tag token) (String.◌++◌ (printed other pid) rest) ≡ pid_from (tag token) rest
unfolding passes
pass-other token other pid rest wanted found differ =
    let own = String.◌++◌ (show pid) rest in
    let line = String.◌++◌ " token=" (String.◌++◌ other (String.◌++◌ " pid=" own)) in
    let begun = printed-append other pid rest ∙ tag-append other own in
    let cut = cons-append letter_s "ysadmin-focus-probe" line in
    ap (pid_from (tag token)) (begun ∙ cut)
    ∙ passed-here (tag token) letter_s (String.◌++◌ "ysadmin-focus-probe" line) (
        ap (behind (tag token)) (sym cut ∙ sym (tag-append other own))
        ∙ behind-other token other own (wanted.1 ∙ sym found.1) differ)
    ∙ pid_from-tag token "ysadmin-focus-probe" line refl
    ∙ pid_from-tag token " token=" (String.◌++◌ other (String.◌++◌ " pid=" own)) refl
    ∙ pid_from-tag token other (String.◌++◌ " pid=" own)
        (passes-all_chars is_hex hex-not_s other found.0)
    ∙ pid_from-tag token " pid=" own refl
    ∙ pid_from-tag token (show pid) rest
        (passes-all_chars is_digit digit-not_s (show pid) (all_digits-show pid))

parse_line-empty : (token : String) → parse_line "" token ≡ none
unfolding parse_line pid_from pid_here behind
parse_line-empty token = let (q, begins) = tag-begins token in rw begins refl

newline-append :
    (s : String) → (c : Char) × (String.◌++◌ "\n" s ≡ String.◌∷◌ c s) × (is_digit c ≡ false)
unfolding is_digit
newline-append s =
    let c = char_at "\n" 0 in (c, cons-append c "" s ∙ ap (String.◌∷◌ c) (nil-append s), refl)

stops-newline : (s : String) → stops (String.◌++◌ "\n" s) ≡ true
stops-newline s = let (c, begins, other) = newline-append s in rw begins (ap not other)

pass-line :
    (token other : String) (pid : ℕ) (rest : String)
    → IsToken token
    → IsToken other
    → token ≢ other
    → parse_line (String.◌++◌ (printed other pid) (String.◌++◌ "\n" rest)) token
      ≡ parse_line rest token
unfolding parse_line passes
pass-line token other pid rest wanted found differ =
    pass-other token other pid (String.◌++◌ "\n" rest) wanted found differ
    ∙ pid_from-tag token "\n" rest refl

-- In a journal of lines that scripts of the probe printed, each under its own call's token, the id that
-- is read for a call's token is that of the first line under this token, and nothing is read where no
-- line has it.
pub parse_line-journal :
    (token : String) (lines : Dict ℕ)
    → IsToken token
    → All (λ line. IsToken line.0) lines
    → parse_line (journal lines) token ≡ lookup token lines
unfolding lookup
parse_line-journal token [] wanted tokens = parse_line-empty token
parse_line-journal token ((other, pid) ∷ lines) wanted tokens =
    elim (Bool-cases (str_eq other token)) [
      | inl equal ↦ rw equal (
          subst
            (λ t.
              parse_line (String.◌++◌ (printed t pid) (String.◌++◌ "\n" (journal lines))) token
              ≡ some pid)
            (sym ((str_eq_iff other token).0 equal))
            (read-own token pid (String.◌++◌ "\n" (journal lines)) (stops-newline (journal lines))))
      | inr unequal ↦ rw unequal (
          pass-line token other pid (journal lines) wanted tokens.0
            (λ h. grind (arith, unequal, (str_eq_iff other token).1 (sym h)))
          ∙ parse_line-journal token lines wanted tokens.1)
    ]
