-- ===== src/Shared/Text/Decimal.antt =====
-- Decimal printing is injective: reading the text gives the number back.
use Prim.Native.Nat.{ℕ, zero, suc, ◌+◌, ◌-◌, ◌*◌, ◌/◌, ◌%◌, ◌<◌, ◌≤◌}
use Prim.Native.Char.{code}
use Prim.Native.String.{String, char_at}
use Prim.Native.String
use mathlib.Core.Path.{◌≡◌, refl, sym, ap, ◌∙◌}
use mathlib.Core.Logic.{inl, inr}
use mathlib.Core.Bool.{false}
use native.Mathlib.Omega.{arith}
use text.Mathlib.TextLemmas.{cons-append, nil-append}
use sysadmin_assistant.Shared.Tests.{ltb, if◌then◌else◌, Bool-cases, ltb→lt}
use sysadmin_assistant.Shared.Text.{digit, show_loop, show}

read_from : String → ℕ → ℕ
read_from String.[] n = n
read_from (String.◌∷◌ c s) n = read_from s (n * 10 + (code c - 48))

pub code-digit : (d : ℕ) → d < 10 → code (char_at "0123456789" d) - 48 ≡ d
code-digit zero small = refl
code-digit (suc zero) small = refl
code-digit (suc (suc zero)) small = refl
code-digit (suc (suc (suc zero))) small = refl
code-digit (suc (suc (suc (suc zero)))) small = refl
code-digit (suc (suc (suc (suc (suc zero))))) small = refl
code-digit (suc (suc (suc (suc (suc (suc zero)))))) small = refl
code-digit (suc (suc (suc (suc (suc (suc (suc zero))))))) small = refl
code-digit (suc (suc (suc (suc (suc (suc (suc (suc zero)))))))) small = refl
code-digit (suc (suc (suc (suc (suc (suc (suc (suc (suc zero))))))))) small = refl
code-digit (suc (suc (suc (suc (suc (suc (suc (suc (suc (suc d)))))))))) small = ground arith

read-digit :
    (d : ℕ) (s : String) (n : ℕ)
    → d < 10
    → read_from (String.◌++◌ (digit d) s) n ≡ read_from s (n * 10 + d)
unfolding read_from digit
read-digit d s n small =
    let c = char_at "0123456789" d in
    ap (λ t. read_from t n) (cons-append c "" s ∙ ap (String.◌∷◌ c) (nil-append s))
    ∙ ap (λ v. read_from s (n * 10 + v)) (code-digit d small)

pub large_le : (n : ℕ) → ltb n 10 ≡ false → 10 ≤ n
large_le n large = ground arith

read-show_loop :
    (fuel n : ℕ) (s : String) → n < fuel → read_from (show_loop fuel n s) 0 ≡ read_from s n
unfolding show_loop
read-show_loop zero n s enough = ground arith
read-show_loop (suc fuel) n s enough = elim (Bool-cases (ltb n 10)) [
  | inl small ↦
      ap
        (λ b.
          read_from
            (if b
              then String.◌++◌ (digit n) s
              else show_loop fuel (n / 10) (String.◌++◌ (digit (n % 10)) s))
            0)
        small
      ∙ read-digit n s 0 (ltb→lt n 10 small)
      ∙ ap (read_from s) (omega arith)
  | inr large ↦
      ap
        (λ b.
          read_from
            (if b
              then String.◌++◌ (digit n) s
              else show_loop fuel (n / 10) (String.◌++◌ (digit (n % 10)) s))
            0)
        large
      ∙ read-show_loop fuel (n / 10) (String.◌++◌ (digit (n % 10)) s)
          (omega (arith, enough, large_le n large))
      ∙ read-digit (n % 10) s (n / 10) (omega arith)
      ∙ ap (read_from s) (omega arith)
]

pub show-injective : (m n : ℕ) → show m ≡ show n → m ≡ n
unfolding show read_from
show-injective m n same =
    sym (read-show_loop (suc m) m "" (omega arith))
    ∙ ap (λ s. read_from s 0) same
    ∙ read-show_loop (suc n) n "" (omega arith)
