-- ===== src/Threads/Places.antt =====
-- Which places of the histories of its instrument an update has (worker.h), over all updates that the
-- producer sends.
use rsj.Prelude.{
  ℕ, zero, suc, ◌+◌, ◌%◌, ◌^◌, ◌≡◌, ◌≢◌, ap, ◌==◌, ==-self, if◌then◌else◌, write, write_self,
  write_ne, arith,
}
use native.Mathlib.Decide.{ℕ_discrete}
use rsj.Structures.{specific_history_size}
use rsj.Helpers.{prev_index_spec}
use rsj.Producer.{Update}

module _ (feed : ℕ → Update) where
  -- How many of the first `n` updates are of instrument `i`.
  unfoldable pub earlier : ℕ → ℕ → ℕ
  earlier i zero = 0
  earlier i (suc n) = (if i == (feed n).instrument then 1 else 0) + earlier i n

  -- The place of the latest of them.
  abbrev pub last_place : ℕ → ℕ → ℕ
  last_place i n = prev_index_spec (earlier i n % specific_history_size)

  pub earlier-own :
      (n : ℕ) → earlier (feed n).instrument (suc n) ≡ earlier (feed n).instrument n + 1
  unfolding earlier
  earlier-own n = rw (==-self (feed n).instrument) (omega arith)

  pub earlier-other : (i n : ℕ) → i ≢ (feed n).instrument → earlier i (suc n) ≡ earlier i n
  unfolding earlier
  earlier-other i n ne = ground (arith, ne)

  -- The counters of the instruments after a call of `Update`.
  pub earlier-count :
      (n : ℕ) (c : ℕ → ℕ)
      → ((i : ℕ) → c i ≡ earlier i n % 2 ^ 32)
      → (i : ℕ)
      → write c (feed n).instrument ((c (feed n).instrument + 1) % 2 ^ 32) i
        ≡ earlier i (n + 1) % 2 ^ 32
  earlier-count n c h i =
      let next : suc n ≡ n + 1 = omega arith in
      rw (← next) (elim (ℕ_discrete i (feed n).instrument) [
        | yes q ↦
            rw (q, write_self c (feed n).instrument _)
              (omega (arith, h (feed n).instrument, earlier-own n))
        | no ne ↦ rw (write_ne c (feed n).instrument i _ ne, earlier-other i n ne) (h i)
      ])

  pub last_place-own :
      (n s : ℕ)
      → s ≡ earlier (feed n).instrument n % specific_history_size
      → last_place (feed n).instrument (suc n) ≡ s
  unfolding prev_index_spec
  last_place-own n s e = omega (arith, e, earlier-own n)

  pub last_place-other : (i n : ℕ) → i ≢ (feed n).instrument → last_place i (suc n) ≡ last_place i n
  last_place-other i n ne =
      ap (λ k. prev_index_spec (k % specific_history_size)) (earlier-other i n ne)
