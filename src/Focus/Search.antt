-- ===== src/Focus/Search.antt =====
-- Searching the journal for a script's line: where the pattern matches, and what the search passes by.
use Prim.Native.Char.{Char, code}
use Prim.Native.String.{char_at}
use Prim.Native.String
use text.Mathlib.TextLemmas.{cons-append, nil-append}
use text.Mathlib.TextEquality.{Char-path}
use sysadmin_assistant.Shared.{
  ℕ, ◌≡◌, ◌≢◌, refl, ap, ◌∙◌, String, Bool, true, false, ◌&&◌, ◌||◌, not, none, some, ◌==◌, [], ◌∷◌,
  if◌then◌else◌, Bool-cases, inl, inr, both_true, arith,
}
use sysadmin_assistant.Shared.Text.{concat, text_length}
use sysadmin_assistant.Focus.{tag, behind, pid_here, pid_from, or_else, window_pid}

same_code : (c : Char) → (code c == code c) ≡ true
same_code c = ground arith

pub behind-append : (p s : String) → behind p (String.◌++◌ p s) ≡ some s
unfolding behind
behind-append String.[] s = ap some (nil-append s)
behind-append (String.◌∷◌ c p) s =
    ap (behind (String.◌∷◌ c p)) (cons-append c p s)
    ∙ ap (λ b. if b then behind p (String.◌++◌ p s) else none) (same_code c)
    ∙ behind-append p s

pub behind-common : (p s t : String) → behind (String.◌++◌ p s) (String.◌++◌ p t) ≡ behind s t
unfolding behind
behind-common String.[] s t = cc (nil-append s, nil-append t)
behind-common (String.◌∷◌ c p) s t =
    cc (cons-append c p s, cons-append c p t)
    ∙ ap (λ b. if b then behind (String.◌++◌ p s) (String.◌++◌ p t) else none) (same_code c)
    ∙ behind-common p s t

eq_of_test : (a b : ℕ) → (a == b) ≡ true → a ≡ b
eq_of_test a b h = ground arith

-- A text of the same length that is not the wanted one does not match.
pub behind-differs :
    (p t y z : String)
    → text_length p ≡ text_length t
    → p ≢ t
    → behind (String.◌++◌ p y) (String.◌++◌ t z) ≡ none
unfolding behind
behind-differs String.[] String.[] y z same differ = elim (differ refl) [ ]
behind-differs String.[] (String.◌∷◌ d t) y z same differ = ground arith
behind-differs (String.◌∷◌ c p) String.[] y z same differ = ground arith
behind-differs (String.◌∷◌ c p) (String.◌∷◌ d t) y z same differ =
    ap (λ u. behind u (String.◌++◌ (String.◌∷◌ d t) z)) (cons-append c p y)
    ∙ ap (behind (String.◌∷◌ c (String.◌++◌ p y))) (cons-append d t z)
    ∙ elim (Bool-cases (code c == code d)) [
      | inl equal ↦ rw equal (
          behind-differs p t y z (omega (arith, same))
            (λ h. differ (cc (h, Char-path c d (eq_of_test (code c) (code d) equal)))))
      | inr unequal ↦ rw unequal refl
    ]

-- No pattern that begins with the letters s and y matches in the text: after an s stands another
-- letter, inside the text.
unfoldable pub passes_second : String → Bool
passes_second String.[] = false
passes_second (String.◌∷◌ d s) = not (code d == 121)

unfoldable pub passes : String → Bool
unfolding passes_second
passes String.[] = true
passes (String.◌∷◌ c s) = (not (code c == 115) || passes_second s) && passes s

abbrev pub letter_s : Char
letter_s = char_at "s" 0

abbrev letter_y : Char
letter_y = char_at "y" 0

abbrev pub sy : String → String
sy q = String.◌∷◌ letter_s (String.◌∷◌ letter_y q)

pub tag-begins : (token : String) → (q : String) × (tag token ≡ sy q)
unfolding tag concat
tag-begins token =
    let rest = concat (" token=" ∷ token ∷ " pid=" ∷ []) in
    (
      String.◌++◌ "sadmin-focus-probe" rest,
      cons-append letter_s "ysadmin-focus-probe" rest
          ∙ ap (String.◌∷◌ letter_s) (cons-append letter_y "sadmin-focus-probe" rest),
    )

behind-second :
    (q s rest : String)
    → passes_second s ≡ true
    → behind (String.◌∷◌ letter_y q) (String.◌++◌ s rest) ≡ none
unfolding behind passes_second
behind-second q String.[] rest h = ground arith
behind-second q (String.◌∷◌ d s) rest h =
    ap (behind (String.◌∷◌ letter_y q)) (cons-append d s rest) ∙ ground (arith, h)

behind-passes :
    (q : String) (c : Char) (s rest : String)
    → (not (code c == 115) || passes_second s) ≡ true
    → behind (sy q) (String.◌∷◌ c (String.◌++◌ s rest)) ≡ none
unfolding behind
behind-passes q c s rest h = ground (arith, h, behind-second q s rest)

pid_from-passes :
    (q s rest : String)
    → passes s ≡ true
    → pid_from (sy q) (String.◌++◌ s rest) ≡ pid_from (sy q) rest
unfolding pid_from pid_here passes
pid_from-passes q String.[] rest h = ap (pid_from (sy q)) (nil-append rest)
pid_from-passes q (String.◌∷◌ c s) rest h =
    ap (pid_from (sy q)) (cons-append c s rest)
    ∙ ap
        (λ o.
          or_else (elim o [ none ↦ none | some r ↦ window_pid r ])
            (pid_from (sy q) (String.◌++◌ s rest)))
        (behind-passes q c s rest
          (both_true (not (code c == 115) || passes_second s) (passes s) h).0)
    ∙ pid_from-passes q s rest (both_true (not (code c == 115) || passes_second s) (passes s) h).1

-- The search passes by such a text.
pub pid_from-tag :
    (token s rest : String)
    → passes s ≡ true
    → pid_from (tag token) (String.◌++◌ s rest) ≡ pid_from (tag token) rest
pid_from-tag token s rest h =
    let (q, begins) = tag-begins token in rw begins (pid_from-passes q s rest h)
