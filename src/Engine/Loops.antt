-- ===== src/Engine/Loops.antt =====
-- Loops whose body never raises.
use snowddl.Prelude.{List, [], ◌∷◌, ◌++◌, ◌≡◌, refl, ◌∙◌, ap, sym}
use snowddl.Prelude.Result
use snowddl.Prelude.Result.{Result, return, raise}
use snowddl.Engine.State.{Engine, Action, for_each, and_then, ◌>>=◌}

module _ {ℓ} {A : Type ℓ} (f : A → Action (Unit {0})) where
  pub for_each-cons :
      (x : A) (xs : List A) (e : Engine)
      → (f x e).0 ≡ return tt
      → for_each (x ∷ xs) f e ≡ for_each xs f (f x e).1
  unfolding for_each
  for_each-cons x xs e h = rw h

  module _ (returns : (x : A) (e : Engine) → (f x e).0 ≡ return tt) where
    pub for_each-returns : (xs : List A) (e : Engine) → (for_each xs f e).0 ≡ return tt
    for_each-returns [] e = unfold for_each in refl
    for_each-returns (x ∷ xs) e =
        rw (for_each-cons x xs e (returns x e)) (for_each-returns xs (f x e).1)

    pub for_each-append :
        (xs ys : List A) (e : Engine) → for_each (xs ++ ys) f e ≡ for_each ys f (for_each xs f e).1
    for_each-append [] ys e = unfold for_each in refl
    for_each-append (x ∷ xs) ys e =
        for_each-cons x (xs ++ ys) e (returns x e)
        ∙ for_each-append xs ys (f x e).1
        ∙ ap (λ (r : Result (Unit {0}) × Engine). for_each ys f r.1)
            (sym (for_each-cons x xs e (returns x e)))

-- After a step that returns comes the next one, with the value.
pub bind-return :
    {A B : Type 0} (m : Action A) (f : A → Action B) (e : Engine) {a : A}
    → (m e).0 ≡ return a
    → (m >>= f) e ≡ f a (m e).1
bind-return {B = B} m f e h = ap (λ r. and_then r f (m e).1) h

-- The result of a step whose continuation's result does not depend on the state.
pub bind-result :
    {A B : Type 0} (m : Action A) (f : A → Action B) (g : A → Result B) (e : Engine)
    → ((a : A) (e' : Engine) → (f a e').0 ≡ g a)
    → ((m >>= f) e).0 ≡ Result.◌>>=◌ (m e).0 g
bind-result {A} {B} m f g e h = go (m e)
  where
    go : (r : Result A × Engine) → (and_then r.0 f r.1).0 ≡ Result.◌>>=◌ r.0 g
    go (return a, e') = h a e'
    go (raise x, e') = refl
