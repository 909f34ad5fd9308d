-- ===== src/Base/Options.antt =====
-- `?` on `Option<T>`.
use mathlib.Core.Path.{◌≡◌, refl}
use mathlib.Core.Option.{Option, none, some}
use native.Mathlib.Omega.{arith}

infixl 5 ◌>>=◌
abbrev pub ◌>>=◌ : {A : Type 0} {B : Type 0} → Option A → (A → Option B) → Option B
none >>= f = none
some a >>= f = f a

-- To use that a chain succeeded: its first step did, and so did the rest.
pub >>=_elim {κ} :
    {A : Type 0} {B : Type 0} {R : Type κ} (o : Option A) (f : A → Option B) (b : B)
    → (o >>= f) ≡ some b
    → ((a : A) → o ≡ some a → f a ≡ some b → R)
    → R
>>=_elim none f b h then = absurd (ground arith)
>>=_elim (some a) f b h then = then a refl h
