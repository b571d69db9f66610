-- ===== src/Prelude/Arrays.antt =====
-- A C array as a function of its index, and the write `a[i] = v`.
use Prim.Native.Nat.{ℕ}
use mathlib.Core.Path.{◌≡◌, fun_ext}
use mathlib.Core.Logic.{◌≢◌}
use native.Mathlib.Decide.{ℕ_discrete}
use native.Mathlib.Omega.{arith}
use rsj.Prelude.Tests.{◌==◌, if◌then◌else◌}

abbrev pub write {ℓ} : {A : Type ℓ} → (ℕ → A) → ℕ → A → ℕ → A
write a i v j = if j == i then v else a j

module _ {ℓ} {A : Type ℓ} where
  pub write_self : (a : ℕ → A) (i : ℕ) (v : A) → write a i v i ≡ v
  write_self a i v = ground arith

  pub write_ne : (a : ℕ → A) (i j : ℕ) (v : A) → j ≢ i → write a i v j ≡ a j
  write_ne a i j v h = ground arith

  pub write_twice : (a : ℕ → A) (i : ℕ) (v w : A) → write (write a i v) i w ≡ write a i w
  write_twice a i v w = fun_ext λ j. ground arith

-- What holds of every entry and of the written one.
pub write_all {ℓ κ} :
    {A : Type ℓ} (Q : ℕ → A → Type κ) (a : ℕ → A) (i : ℕ) (v : A)
    → Q i v
    → ((j : ℕ) → Q j (a j))
    → (j : ℕ) → Q j (write a i v j)
write_all Q a i v h all j = elim (ℕ_discrete j i) [
  | yes e ↦ rw (e, write_self a i v) h
  | no ne ↦ rw (write_ne a i j v ne) (all j)
]
