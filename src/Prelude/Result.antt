-- ===== src/Prelude/Result.antt =====
-- Python's exceptions, as a result. The messages are left out.
use mathlib.Core.Path.{◌≡◌, refl, ap}
use mathlib.Core.Bool.{Bool, true, false}
use mathlib.Core.List.{List, [], ◌∷◌}

-- The classes of exceptions that the code raises or tells apart.
pub data Exception : Type 0 where
  value_error key_error type_error : Exception
  execute_error unsupported_error revision_refused_error : Exception

pub data Result {ℓ} (A : Type ℓ) : Type ℓ where
  return : A → Result A
  raise : Exception → Result A

infixl 5 ◌>>=◌ ◌>>◌
abbrev pub ◌>>=◌ {ℓ κ} : {A : Type ℓ} {B : Type κ} → Result A → (A → Result B) → Result B
return a >>= f = f a
raise e >>= f = raise e

abbrev pub ◌>>◌ {ℓ} : {B : Type ℓ} → Result (Unit {0}) → Result B → Result B
m >> k = m >>= λ _. k

-- `if not test: raise e`
abbrev pub require : Bool → Exception → Result (Unit {0})
require true e = return tt
require false e = raise e

-- `[f(x) for x in xs]`
unfoldable pub traverse {ℓ κ} :
    {A : Type ℓ} {B : Type κ} → (A → Result B) → List A → Result (List B)
traverse f [] = return []
traverse f (x ∷ xs) = do y ← f x; ys ← traverse f xs; return (y ∷ ys)

pub >>=-eq-return {ℓ κ} :
    {A : Type ℓ} {B : Type κ} (m : Result A) (f : A → Result B) {b : B}
    → (m >>= f) ≡ return b
    → (a : A) × (m ≡ return a) × (f a ≡ return b)
>>=-eq-return (return a) f h = (a, refl, h)
>>=-eq-return (raise e) f h = cc

value_or {ℓ} : {A : Type ℓ} → A → Result A → A
value_or a (return b) = b
value_or a (raise e) = a

pub return-injective {ℓ} : {A : Type ℓ} {a b : A} → return a ≡ return b → a ≡ b
unfolding value_or
return-injective {a = a} h = ap (value_or a) h
