-- ===== src/Runtime/Outcome.antt =====
-- How a runtime call of src/rt.rs ends, and what it asks of the operating system.
use glm.Prelude.{ℕ, Bool, ◌≡◌, refl}

-- `aborted` is `std::process::abort`, `panicked` a panic, and `fault` a read or write through a
-- null or dangling pointer or past the end of a buffer, where the source has undefined behaviour.
-- `out_of_fuel` is the end of the fuel of the model.
pub data Outcome {ℓ} (A : Type ℓ) : Type ℓ where
  ok : A → Outcome A
  aborted panicked fault out_of_fuel : Outcome A

infixl 5 ◌>>=◌
abbrev pub ◌>>=◌ {ℓ κ} : {A : Type ℓ} {B : Type κ} → Outcome A → (A → Outcome B) → Outcome B
ok a >>= f = f a
aborted >>= f = aborted
panicked >>= f = panicked
fault >>= f = fault
out_of_fuel >>= f = out_of_fuel

-- The answers of the allocator and of the kernel to a request of so many bytes, and the setting of
-- the environment variable GLM_VM that `vm_enabled` reads.
pub record Os : Type 0 where
  pub alloc_zeroed : ℕ → Bool
  pub realloc : ℕ → Bool
  pub mmap : ℕ → Bool
  pub mprotect : ℕ → Bool
  pub mremap : ℕ → Bool
  pub vm : Bool

-- A chain of two calls that succeeds, as its two calls.
pub record Ran {ℓ κ} {A : Type ℓ} {B : Type κ} (m : Outcome A) (f : A → Outcome B) (b : B)
    : Type (ℓ ⊔ κ) where
  pub value : A
  pub first : m ≡ ok value
  pub second : f value ≡ ok b

pub ran {ℓ κ} :
    {A : Type ℓ} {B : Type κ} {b : B} (f : A → Outcome B) (m : Outcome A)
    → (m >>= f) ≡ ok b
    → Ran m f b
ran f (ok a) h = record { value = a; first = refl; second = h }
ran f aborted h = cc
ran f panicked h = cc
ran f fault h = cc
ran f out_of_fuel h = cc
