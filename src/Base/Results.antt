-- ===== src/Base/Results.antt =====
-- `?` on `Result<T, E>`, a sum with the error on the left.
use mathlib.Core.Path.{◌≡◌, refl}
use mathlib.Core.Logic.{◌⊎◌, inl, inr}
use native.Mathlib.Omega.{arith}

infixl 5 ◌>>=◌
abbrev pub ◌>>=◌ : {E : Type 0} {A : Type 0} {B : Type 0} → E ⊎ A → (A → E ⊎ B) → E ⊎ B
inl e >>= f = inl e
inr a >>= f = f a

-- A chain that succeeds has succeeded at its first step.
pub >>=_inv :
    {E : Type 0} {A : Type 0} {B : Type 0} (o : E ⊎ A) (f : A → E ⊎ B) (b : B)
    → (o >>= f) ≡ inr b
    → (a : A) × (o ≡ inr a) × (f a ≡ inr b)
>>=_inv (inl e) f b h = absurd (ground arith)
>>=_inv (inr a) f b h = (a, refl, h)

-- The same, for a goal that goes on with the rest of the chain.
pub >>=_elim {κ} :
    {E : Type 0} {A : Type 0} {B : Type 0} {R : Type κ} (o : E ⊎ A) (f : A → E ⊎ B) (b : B)
    → (o >>= f) ≡ inr b
    → ((a : A) → o ≡ inr a → f a ≡ inr b → R)
    → R
>>=_elim (inl e) f b h then = absurd (ground arith)
>>=_elim (inr a) f b h then = then a refl h
