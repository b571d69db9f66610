-- ===== src/Startup/Count.antt =====
-- How many of the first entries of an array have a property, given as 1 or 0.
use rsj.Prelude.{ℕ, zero, suc, ◌+◌, ◌≤◌, ◌<◌, ◌≡◌, refl, sym, write, write_self, write_ne, arith}
use native.Mathlib.Decide.{ℕ_discrete}

-- An entry is replaced by one of the same value.
pub same_at :
    {A X : Type 0} (f : A → X) (a : ℕ → A) (i : ℕ) (v : A)
    → f v ≡ f (a i)
    → (j : ℕ) → f (write a i v j) ≡ f (a j)
same_at f a i v e j = elim (ℕ_discrete j i) [
  | yes q ↦ rw (q, write_self a i v) e
  | no ne ↦ rw (write_ne a i j v ne) refl
]

module _ {A : Type 0} (f : A → ℕ) where
  abbrev pub count : ℕ → (ℕ → A) → ℕ
  count zero a = 0
  count (suc n) a = f (a n) + count n a

  pub count_same_at :
      (n i : ℕ) (a : ℕ → A) (v : A) → f v ≡ f (a i) → count n (write a i v) ≡ count n a
  count_same_at zero i a v e = refl
  count_same_at (suc n) i a v e = rw (same_at f a i v e n, count_same_at n i a v e) refl

  count_same : (n i : ℕ) (a : ℕ → A) (v : A) → n ≤ i → count n (write a i v) ≡ count n a
  count_same zero i a v le = refl
  count_same (suc n) i a v le =
      rw (write_ne a i n v (omega (arith, le)), count_same n i a v (omega (arith, le))) refl

  pub count-write :
      (n i : ℕ) (a : ℕ → A) (v : A) → i < n → count n (write a i v) + f (a i) ≡ count n a + f v
  count-write zero i a v lt = absurd (omega (arith, lt))
  count-write (suc n) i a v lt = elim (ℕ_discrete i n) [
    | yes e ↦ rw (e, write_self a n v, count_same n n a v (omega arith)) (omega arith)
    | no ne ↦
        rw (write_ne a i n v (λ q. ne (sym q)))
          (omega (arith, count-write n i a v (omega (arith, ne, lt))))
  ]

  pub count_at_most : ((x : A) → f x ≤ 1) → (n : ℕ) (a : ℕ → A) → count n a ≤ n
  count_at_most b zero a = omega arith
  count_at_most b (suc n) a = omega (arith, b (a n), count_at_most b n a)

  -- All of them have it.
  pub count_full : ((x : A) → f x ≤ 1) → (n i : ℕ) (a : ℕ → A) → count n a ≡ n → i < n → f (a i) ≡ 1
  count_full b zero i a e lt = absurd (omega (arith, lt))
  count_full b (suc n) i a e lt = elim (ℕ_discrete i n) [
    | yes q ↦ rw q (omega (arith, b (a n), count_at_most b n a, e))
    | no ne ↦
        count_full b n i a (omega (arith, b (a n), count_at_most b n a, e)) (omega (arith, ne, lt))
  ]
