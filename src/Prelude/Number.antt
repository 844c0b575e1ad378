-- ===== src/Prelude/Number.antt =====
-- Decimal texts of whole numbers, and the signed numbers of Python.
use Prim.Native.Char.{Char}
use Prim.Native.String.{String, [], ◌∷◌, ◌++◌}
use Prim.Native.Nat.{ℕ, zero, suc, ◌+◌, ◌*◌, ◌/◌, ◌%◌, ◌<◌}
use mathlib.Core.Path.{◌≡◌, refl, ◌∙◌}
use mathlib.Core.Logic.{◌↔◌}
use mathlib.Core.Bool.{Bool, true, false}
use mathlib.Core.Option.{Option, none, some}
use native.Mathlib.Omega.{arith}
use snowddl.Prelude.Tests.{◌==◌, Eq, char_eq, nat_eq, ltb, if◌then◌else◌}
use snowddl.Prelude.Text.{all_in, contains_char}

-- `negsuc n` is -(n + 1).
pub data ℤ : Type 0 where
  pos negsuc : ℕ → ℤ

abbrev pub int_beq : ℤ → ℤ → Bool
int_beq (pos a) (pos b) = a == b
int_beq (negsuc a) (negsuc b) = a == b
int_beq _ _ = false

pub int_beq_iff : (a b : ℤ) → (int_beq a b ≡ true) ↔ (a ≡ b)
int_beq_iff (pos a) (pos b) = ground arith
int_beq_iff (negsuc a) (negsuc b) = ground arith
int_beq_iff (pos a) (negsuc b) = ground arith
int_beq_iff (negsuc a) (pos b) = ground arith

instance abbrev pub int_eq : Eq ℤ
int_eq = record { same = int_beq; same_iff = int_beq_iff }

char_at : String → ℕ → Char
char_at [] n = "0"
char_at (c ∷ s) zero = c
char_at (c ∷ s) (suc n) = char_at s n

-- The digit of a number below ten.
unfoldable pub digit : ℕ → Char
unfolding char_at
digit = char_at "0123456789"

index : Char → String → ℕ → Option ℕ
index c [] n = none
index c (d ∷ s) n = if c == d then some n else index c s (n + 1)

unfoldable pub digit_value : Char → Option ℕ
unfolding index
digit_value c = index c "0123456789" 0

show_fuel : ℕ → ℕ → String → String
show_fuel zero n acc = acc
show_fuel (suc f) n acc =
    let acc' = digit (n % 10) ∷ acc in
    let rest = show_fuel f (n / 10) acc' in if ltb n 10 then acc' else rest

-- `str(n)`; as many rounds as the number itself are enough
unfoldable pub show_nat : ℕ → String
unfolding show_fuel digit
show_nat n = show_fuel (suc n) n []

-- `str(n)`, with a sign
unfoldable pub show_int : ℤ → String
show_int (pos n) = show_nat n
show_int (negsuc n) = "-" ++ show_nat (suc n)

read_digits : String → ℕ → Option ℕ
read_digits [] n = some n
read_digits (c ∷ s) n = elim (digit_value c) [ none ↦ none | some k ↦ read_digits s (n * 10 + k) ]

-- `int(s)`, of ASCII digits
unfoldable pub read_nat : String → Option ℕ
unfolding read_digits digit_value
read_nat [] = none
read_nat (c ∷ s) = read_digits (c ∷ s) 0

digit_value-digit : (n : ℕ) → n < 10 → digit_value (digit n) ≡ some n
unfolding digit_value digit
digit_value-digit zero h = refl
digit_value-digit (suc zero) h = refl
digit_value-digit (suc (suc zero)) h = refl
digit_value-digit (suc (suc (suc zero))) h = refl
digit_value-digit (suc (suc (suc (suc zero)))) h = refl
digit_value-digit (suc (suc (suc (suc (suc zero))))) h = refl
digit_value-digit (suc (suc (suc (suc (suc (suc zero)))))) h = refl
digit_value-digit (suc (suc (suc (suc (suc (suc (suc zero))))))) h = refl
digit_value-digit (suc (suc (suc (suc (suc (suc (suc (suc zero)))))))) h = refl
digit_value-digit (suc (suc (suc (suc (suc (suc (suc (suc (suc zero))))))))) h = refl
digit_value-digit (suc (suc (suc (suc (suc (suc (suc (suc (suc (suc n)))))))))) h =
    absurd (omega arith)

read-show_fuel :
    (f n : ℕ) (acc : String) → n < f → read_digits (show_fuel f n acc) 0 ≡ read_digits acc n
unfolding show_fuel read_digits
read-show_fuel zero n acc h = absurd (omega arith)
read-show_fuel (suc f) n acc h =
    ground (arith, digit_value-digit (n % 10), read-show_fuel f (n / 10) (digit (n % 10) ∷ acc))

digit-in : (n : ℕ) → n < 10 → contains_char (digit n) "0123456789" ≡ true
unfolding digit
digit-in zero h = refl
digit-in (suc zero) h = refl
digit-in (suc (suc zero)) h = refl
digit-in (suc (suc (suc zero))) h = refl
digit-in (suc (suc (suc (suc zero)))) h = refl
digit-in (suc (suc (suc (suc (suc zero))))) h = refl
digit-in (suc (suc (suc (suc (suc (suc zero)))))) h = refl
digit-in (suc (suc (suc (suc (suc (suc (suc zero))))))) h = refl
digit-in (suc (suc (suc (suc (suc (suc (suc (suc zero)))))))) h = refl
digit-in (suc (suc (suc (suc (suc (suc (suc (suc (suc zero))))))))) h = refl
digit-in (suc (suc (suc (suc (suc (suc (suc (suc (suc (suc n)))))))))) h = absurd (omega arith)

all_in-show_fuel :
    (f n : ℕ) (acc : String)
    → all_in "0123456789" acc ≡ true
    → all_in "0123456789" (show_fuel f n acc) ≡ true
unfolding show_fuel
all_in-show_fuel zero n acc h = h
all_in-show_fuel (suc f) n acc h =
    ground (arith, digit-in (n % 10), all_in-show_fuel f (n / 10) (digit (n % 10) ∷ acc))

pub all_in-show_nat : (n : ℕ) → all_in "0123456789" (show_nat n) ≡ true
unfolding show_nat
all_in-show_nat n = all_in-show_fuel (suc n) n [] refl

filled : String → Bool
filled [] = false
filled (c ∷ s) = true

filled-show_fuel : (f n : ℕ) (acc : String) → filled acc ≡ true → filled (show_fuel f n acc) ≡ true
unfolding show_fuel filled
filled-show_fuel zero n acc h = h
filled-show_fuel (suc f) n acc h =
    ground (arith, filled-show_fuel f (n / 10) (digit (n % 10) ∷ acc))

read-filled : (s : String) → filled s ≡ true → read_nat s ≡ read_digits s 0
unfolding filled read_nat
read-filled [] h = cc
read-filled (c ∷ s) h = refl

-- Reading undoes printing.
pub read_nat-show_nat : (n : ℕ) → read_nat (show_nat n) ≡ some n
unfolding show_nat
read_nat-show_nat n =
    read-filled (show_fuel (suc n) n [])
      (unfold show_fuel filled in ground (arith, filled-show_fuel n (n / 10) (digit (n % 10) ∷ [])))
    ∙ read-show_fuel (suc n) n [] (omega arith)
    ∙ (unfold read_digits in refl)
