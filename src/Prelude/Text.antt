-- ===== src/Prelude/Text.antt =====
-- Texts as the source builds them: `fmt.Sprintf` is the concatenation of the format's pieces and
-- of the printed arguments, `%d` is `show_ℕ`, `strings.Join` is `join`.
use Prim.Native.Nat.{ℕ, zero, suc, ◌+◌, ◌-◌, ◌*◌, ◌/◌, ◌%◌, ◌<◌}
use native.Mathlib.Omega.{arith}
use mathlib.Core.Path.{◌≡◌, refl, ap, ◌∙◌, sym}
use mathlib.Core.Logic.{inl, inr}
use Prim.Native.Char.{Char, code}
use Prim.Native.String.{String, ◌++◌ as append}
use mathlib.Core.List.{List, [], ◌∷◌}
use oooi.Prelude.Tests.{Bool-cases, ◌==◌, ◌===◌, if◌then◌else◌}

abbrev pub concat : List String → String
concat [] = ""
concat (s ∷ rest) = append s (concat rest)

-- The character of a digit.
pub digit : ℕ → Char
digit zero = "0"
digit (suc zero) = "1"
digit (suc (suc zero)) = "2"
digit (suc (suc (suc zero))) = "3"
digit (suc (suc (suc (suc zero)))) = "4"
digit (suc (suc (suc (suc (suc zero))))) = "5"
digit (suc (suc (suc (suc (suc (suc zero)))))) = "6"
digit (suc (suc (suc (suc (suc (suc (suc zero))))))) = "7"
digit (suc (suc (suc (suc (suc (suc (suc (suc zero)))))))) = "8"
digit _ = "9"

pub show_digits : ℕ → ℕ → String → String
unfolding digit
show_digits zero n acc = acc
show_digits (suc fuel) n acc =
    let here = String.◌∷◌ (digit (n % 10)) acc in
    let rest = show_digits fuel (n / 10) here in if n / 10 == 0 then here else rest

-- `%d` of a number that is not negative: one round for each digit, so `n + 1` rounds suffice.
unfoldable pub show_ℕ : ℕ → String
unfolding show_digits
show_ℕ n = show_digits (n + 1) n ""

-- The number that a text of digits stands for, behind the digits read so far.
unfoldable pub value : ℕ → String → ℕ
value n String.[] = n
value n (String.◌∷◌ c s) = value (n * 10 + (code c - 48)) s

code-digit : (d : ℕ) → d < 10 → code (digit d) ≡ 48 + d
unfolding digit
code-digit zero h = refl
code-digit (suc zero) h = refl
code-digit (suc (suc zero)) h = refl
code-digit (suc (suc (suc zero))) h = refl
code-digit (suc (suc (suc (suc zero)))) h = refl
code-digit (suc (suc (suc (suc (suc zero))))) h = refl
code-digit (suc (suc (suc (suc (suc (suc zero)))))) h = refl
code-digit (suc (suc (suc (suc (suc (suc (suc zero))))))) h = refl
code-digit (suc (suc (suc (suc (suc (suc (suc (suc zero)))))))) h = refl
code-digit (suc (suc (suc (suc (suc (suc (suc (suc (suc zero))))))))) h = refl
code-digit (suc (suc (suc (suc (suc (suc (suc (suc (suc (suc d)))))))))) h = absurd (omega arith)

value-digit :
    (n d : ℕ) (s : String) → d < 10 → value n (String.◌∷◌ (digit d) s) ≡ value (n * 10 + d) s
unfolding value
value-digit n d s h = ap (λ k. value k s) (omega (arith, code-digit d h))

value-show_digits :
    (fuel n : ℕ) (acc : String) → n < fuel → value 0 (show_digits fuel n acc) ≡ value n acc
unfolding show_digits
value-show_digits zero n acc h = elim h [ ]
value-show_digits (suc fuel) n acc h =
    let here = String.◌∷◌ (digit (n % 10)) acc in
    elim (Bool-cases (n / 10 == 0)) [
      | inl done ↦
          rw done (value-digit 0 (n % 10) acc (omega arith) ∙ ap (λ k. value k acc) (ground arith))
      | inr more ↦ rw more (
          value-show_digits fuel (n / 10) here (ground arith)
          ∙ value-digit (n / 10) (n % 10) acc (omega arith)
          ∙ ap (λ k. value k acc) (omega arith))
    ]

-- A number is read back from its text.
pub value-show_ℕ : (n : ℕ) → value 0 (show_ℕ n) ≡ n
unfolding show_ℕ value
value-show_ℕ n = value-show_digits (n + 1) n "" (omega arith)

-- Different numbers are printed differently.
pub show_ℕ-injective : (m n : ℕ) → show_ℕ m ≡ show_ℕ n → m ≡ n
show_ℕ-injective m n e = sym (value-show_ℕ m) ∙ ap (value 0) e ∙ value-show_ℕ n

-- strings.Join
unfoldable pub join : List String → String → String
join [] sep = ""
join (s ∷ []) sep = s
join (s ∷ t ∷ rest) sep = concat (s ∷ sep ∷ join (t ∷ rest) sep ∷ [])

-- `x` if it is set, and else the default: the source's `if x == "" { x = d }`.
unfoldable pub or_default : String → String → String
or_default x d = if x === "" then d else x

-- The same for a port: `if p == 0 { p = d }`.
unfoldable pub or_port : ℕ → ℕ → ℕ
or_port p d = if p == 0 then d else p
