-- ===== src/Prelude/Numerals.antt =====
-- Decimal numerals are read back, so two numbers with one numeral are equal.
use mathlib.Core.Path.{◌≡◌, refl, sym, ap, ◌∙◌}
use mathlib.Core.Logic.{inl, inr}
use Prim.Native.Nat.{ℕ, zero, suc, ◌+◌, ◌*◌, ◌-◌, ◌<◌, ◌/◌, ◌%◌}
use Prim.Native.String.{String, ◌++◌ as str_append}
use Prim.Native.Char.{code}
use native.Mathlib.Omega.{arith}
use text.Mathlib.TextLemmas.{cons-append, nil-append}
use omni_claw.Prelude.Tests.{ltb, Bool-cases}
use omni_claw.Prelude.Text.{decimal, digits, digit}

-- The number that a text of digits goes on to.
abbrev value : ℕ → String → ℕ
value acc String.[] = acc
value acc (String.◌∷◌ c s) = value (acc * 10 + (code c - b'0')) s

value-append : (acc : ℕ) (s t : String) → value acc (str_append s t) ≡ value (value acc s) t
value-append acc String.[] t = ap (value acc) (nil-append t)
value-append acc (String.◌∷◌ c s) t =
    ap (value acc) (cons-append c s t) ∙ value-append (acc * 10 + (code c - b'0')) s t

value-digit : (acc n : ℕ) → n < 10 → value acc (digit n) ≡ acc * 10 + n
value-digit acc zero h = refl
value-digit acc (suc zero) h = refl
value-digit acc (suc (suc zero)) h = refl
value-digit acc (suc (suc (suc zero))) h = refl
value-digit acc (suc (suc (suc (suc zero)))) h = refl
value-digit acc (suc (suc (suc (suc (suc zero))))) h = refl
value-digit acc (suc (suc (suc (suc (suc (suc zero)))))) h = refl
value-digit acc (suc (suc (suc (suc (suc (suc (suc zero))))))) h = refl
value-digit acc (suc (suc (suc (suc (suc (suc (suc (suc zero)))))))) h = refl
value-digit acc (suc (suc (suc (suc (suc (suc (suc (suc (suc zero))))))))) h = refl
value-digit acc (suc (suc (suc (suc (suc (suc (suc (suc (suc (suc n)))))))))) h = omega arith

value-digits : (fuel n : ℕ) → n < fuel → value 0 (digits fuel n) ≡ n
unfolding digits
value-digits zero n h = omega arith
value-digits (suc fuel) n h = elim (Bool-cases (ltb n 10)) [
  | inl small ↦ rw small (value-digit 0 n (ground (arith, small)) ∙ omega arith)
  | inr big ↦
      let high : n / 10 < fuel = ground (arith, h, big) in
      let rest =
        value-append 0 (digits fuel (n / 10)) (digit (n % 10))
        ∙ ap (λ (a : ℕ). value a (digit (n % 10))) (value-digits fuel (n / 10) high)
        ∙ value-digit (n / 10) (n % 10) (omega arith) in
      rw big (rest ∙ omega arith)
]

pub decimal_inj : (m n : ℕ) → decimal m ≡ decimal n → m ≡ n
unfolding decimal
decimal_inj m n h =
    sym (value-digits (suc m) m (omega arith))
    ∙ ap (value 0) h
    ∙ value-digits (suc n) n (omega arith)
