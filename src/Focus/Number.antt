-- ===== src/Focus/Number.antt =====
-- Reading a printed number gives it back.
use Prim.Native.Char.{Char, code}
use Prim.Native.String.{char_at}
use Prim.Native.String
use text.Mathlib.TextLemmas.{cons-append, nil-append, append_assoc}
use sysadmin_assistant.Shared.{
  ℕ, zero, suc, ◌+◌, ◌-◌, ◌*◌, ◌/◌, ◌%◌, ◌<◌, ◌≡◌, refl, ap, ◌∙◌, String, Bool, true, false, ◌&&◌,
  not, some, ltb, if◌then◌else◌, Bool-cases, ltb→lt, inl, inr, arith,
}
use sysadmin_assistant.Shared.Text.{is_digit, digit, show_loop, show}
use sysadmin_assistant.Shared.Text.Decimal.{code-digit, large_le}
use sysadmin_assistant.Focus.{digits, number, window_pid}

is_digit-digit : (d : ℕ) → d < 10 → is_digit (char_at "0123456789" d) ≡ true
unfolding is_digit
is_digit-digit zero small = refl
is_digit-digit (suc zero) small = refl
is_digit-digit (suc (suc zero)) small = refl
is_digit-digit (suc (suc (suc zero))) small = refl
is_digit-digit (suc (suc (suc (suc zero)))) small = refl
is_digit-digit (suc (suc (suc (suc (suc zero))))) small = refl
is_digit-digit (suc (suc (suc (suc (suc (suc zero)))))) small = refl
is_digit-digit (suc (suc (suc (suc (suc (suc (suc zero))))))) small = refl
is_digit-digit (suc (suc (suc (suc (suc (suc (suc (suc zero)))))))) small = refl
is_digit-digit (suc (suc (suc (suc (suc (suc (suc (suc (suc zero))))))))) small = refl
is_digit-digit (suc (suc (suc (suc (suc (suc (suc (suc (suc (suc d)))))))))) small = ground arith

digit-append :
    (d : ℕ) (s : String) → String.◌++◌ (digit d) s ≡ String.◌∷◌ (char_at "0123456789" d) s
unfolding digit
digit-append d s =
    cons-append (char_at "0123456789" d) "" s
    ∙ ap (String.◌∷◌ (char_at "0123456789" d)) (nil-append s)

digits-digit :
    (d n : ℕ) (s : String) → d < 10 → digits n (String.◌++◌ (digit d) s) ≡ digits (n * 10 + d) s
unfolding digits
digits-digit d n s small =
    ap (digits n) (digit-append d s)
    ∙ ap (λ b. if b then digits (n * 10 + (code (char_at "0123456789" d) - 48)) s else n)
        (is_digit-digit d small)
    ∙ ap (λ v. digits (n * 10 + v) s) (code-digit d small)

digits-show_loop : (fuel n : ℕ) (s : String) → n < fuel → digits 0 (show_loop fuel n s) ≡ digits n s
unfolding show_loop
digits-show_loop zero n s enough = ground arith
digits-show_loop (suc fuel) n s enough = elim (Bool-cases (ltb n 10)) [
  | inl small ↦
      rw small (digits-digit n 0 s (ltb→lt n 10 small) ∙ ap (λ v. digits v s) (omega arith))
  | inr large ↦ rw large (
      digits-show_loop fuel (n / 10) (String.◌++◌ (digit (n % 10)) s)
        (omega (arith, enough, large_le n large))
      ∙ digits-digit (n % 10) (n / 10) s (omega arith)
      ∙ ap (λ v. digits v s) (omega arith))
]

abbrev pub begins_digit : String → Bool
begins_digit String.[] = false
begins_digit (String.◌∷◌ c s) = is_digit c

begins_digit-show_loop :
    (fuel n : ℕ) (s : String) → n < fuel → begins_digit (show_loop fuel n s) ≡ true
unfolding show_loop
begins_digit-show_loop zero n s enough = ground arith
begins_digit-show_loop (suc fuel) n s enough = elim (Bool-cases (ltb n 10)) [
  | inl small ↦ rw small (ap begins_digit (digit-append n s) ∙ is_digit-digit n (ltb→lt n 10 small))
  | inr large ↦ rw large (
      begins_digit-show_loop fuel (n / 10) (String.◌++◌ (digit (n % 10)) s)
        (omega (arith, enough, large_le n large)))
]

show_loop-append :
    (fuel n : ℕ) (s t : String)
    → String.◌++◌ (show_loop fuel n s) t ≡ show_loop fuel n (String.◌++◌ s t)
unfolding show_loop
show_loop-append zero n s t = refl
show_loop-append (suc fuel) n s t = elim (Bool-cases (ltb n 10)) [
  | inl small ↦ rw small (append_assoc (digit n) s t)
  | inr large ↦ rw large (
      show_loop-append fuel (n / 10) (String.◌++◌ (digit (n % 10)) s) t
      ∙ ap (show_loop fuel (n / 10)) (append_assoc (digit (n % 10)) s t))
]

show-append : (n : ℕ) (s : String) → String.◌++◌ (show n) s ≡ show_loop (suc n) n s
unfolding show
show-append n s = show_loop-append (suc n) n "" s ∙ ap (show_loop (suc n) n) (nil-append s)

window_pid-digit : (s : String) → begins_digit s ≡ true → window_pid s ≡ some (digits 0 s)
unfolding window_pid number is_digit
window_pid-digit String.[] h = ground arith
window_pid-digit (String.◌∷◌ c s) h = ground (arith, h)

-- Does a text begin with something else than a digit, or end?
abbrev pub stops : String → Bool
stops String.[] = true
stops (String.◌∷◌ c s) = not (is_digit c)

digits-stops : (n : ℕ) (s : String) → stops s ≡ true → digits n s ≡ n
unfolding digits
digits-stops n String.[] h = refl
digits-stops n (String.◌∷◌ c s) h = ground (arith, h)

-- A printed number is read back where it ends.
pub window_pid-show :
    (n : ℕ) (s : String) → stops s ≡ true → window_pid (String.◌++◌ (show n) s) ≡ some n
window_pid-show n s h =
    ap window_pid (show-append n s)
    ∙ window_pid-digit (show_loop (suc n) n s) (begins_digit-show_loop (suc n) n s (omega arith))
    ∙ ap some (digits-show_loop (suc n) n s (omega arith) ∙ digits-stops n s h)

-- All the characters of the text have the property.
abbrev pub all_chars : (Char → Bool) → String → Bool
all_chars p String.[] = true
all_chars p (String.◌∷◌ c s) = p c && all_chars p s

all_digits-show_loop :
    (fuel n : ℕ) (s : String)
    → all_chars is_digit s ≡ true
    → n < fuel
    → all_chars is_digit (show_loop fuel n s) ≡ true
unfolding show_loop
all_digits-show_loop zero n s h enough = h
all_digits-show_loop (suc fuel) n s h enough = elim (Bool-cases (ltb n 10)) [
  | inl small ↦ rw small (
      ap (all_chars is_digit) (digit-append n s)
      ∙ ap (λ b. b && all_chars is_digit s) (is_digit-digit n (ltb→lt n 10 small))
      ∙ h)
  | inr large ↦ rw large (
      all_digits-show_loop fuel (n / 10) (String.◌++◌ (digit (n % 10)) s)
        (ap (all_chars is_digit) (digit-append (n % 10) s)
          ∙ ap (λ b. b && all_chars is_digit s) (is_digit-digit (n % 10) (omega arith))
          ∙ h)
        (omega (arith, enough, large_le n large)))
]

pub all_digits-show : (n : ℕ) → all_chars is_digit (show n) ≡ true
unfolding show
all_digits-show n = all_digits-show_loop (suc n) n "" refl (omega arith)
