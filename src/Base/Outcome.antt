-- ===== src/Base/Outcome.antt =====
-- What a run of kernel code ends in.
use mathlib.Core.Path.{◌≡◌, refl}
use mathlib.Core.Option.{Option, none, some}

-- `panic` is `Kernel::panic`, which halts; `fault` is undefined behaviour, such as an access out of
-- an array or through a null pointer; `hang` says that a loop ran out of its fuel.
pub data Outcome {ℓ} (A : Type ℓ) : Type ℓ where
  ok : A → Outcome A
  panic fault hang : Outcome A

infixl 5 ◌>>=◌
abbrev pub ◌>>=◌ {ℓ κ} : {A : Type ℓ} {B : Type κ} → Outcome A → (A → Outcome B) → Outcome B
ok a >>= f = f a
panic >>= f = panic
fault >>= f = fault
hang >>= f = hang

-- A loop's result, where `none` stands for no result.
abbrev pub or_hang {ℓ} : {A : Type ℓ} → Option A → Outcome A
or_hang none = hang
or_hang (some a) = ok a

pub >>=_assoc {ℓ κ ι} :
    {A : Type ℓ} {B : Type κ} {C : Type ι} (m : Outcome A) (f : A → Outcome B) (g : B → Outcome C)
    → ((m >>= f) >>= g) ≡ (m >>= λ a. f a >>= g)
>>=_assoc (ok a) f g = refl
>>=_assoc panic f g = refl
>>=_assoc fault f g = refl
>>=_assoc hang f g = refl
