-- ===== src/Threads/Sums.antt =====
-- The sums and the values of fp in every interleaving (worker.cc), against those of the market.
use rsj.Prelude.{
  ℕ, suc, ◌%◌, ◌<◌, ◌≡◌, refl, sym, ◌∙◌, ap, Option, none, some, List, [], ◌∷◌, ◌++◌, write,
  write_self, write_twice, write_ne, arith,
}
use native.Mathlib.Decide.{ℕ_discrete}
use rsj.Prelude.Int.{ℤ}
use rsj.Structures.{RsjDataIn, specific_history_size}
use rsj.Helpers.{prev_index, prev_index_spec, prev_index_spec-ne}
use rsj.Platform.{Platform}
use rsj.Context.{Context}
use rsj.Worker.{ratio, result, last_fp, store_fp, store_sum}
use rsj.Producer.{Update, placed}
use rsj.Turns.Defs.{place}
use rsj.Turns.Local.{prev-place}
use rsj.Threads.Places.{earlier, last_place, last_place-own, last_place-other}
use rsj.Threads.Defs.{store_result}
use rsj.Threads.Links.{Ensures}
use rsj.Threads.Verdicts.{verdict}
use rsj.Threads.Totals.{new_fp, new_total, share, market_after, market_after-Adds}
use rsj.Threads.Told.{told}

prev-place-suc : (n : ℕ) → prev_index (place (suc n)) ≡ place n
prev-place-suc n = prev-place (suc n) ∙ omega arith

module _ (P : Platform) (feed : ℕ → Update) where
  open P.doubles use {Double, sub, add}

  -- The sum after `k` updates, at the place of the last of them, and the values of fp, each at the place of
  -- its instrument's last update.
  pub record Sums (k : ℕ) (c : Context P) : Type 0 where
    pub total : c.sum_history (prev_index (place k)) ≡ (market_after P feed k).total
    pub fp : (i : ℕ) → c.fp_i_history i (last_place feed i k) ≡ (market_after P feed k).fp i

  pub same-Sums :
      {k : ℕ} {c c' : Context P}
      → Sums k c
      → c'.sum_history ≡ c.sum_history
      → c'.fp_i_history ≡ c.fp_i_history
      → Sums k c'
  same-Sums h s f = record { total = rw s h.total; fp = λ i. rw f (h.fp i) }

  -- The result of update `n`.
  abbrev pub answer : ℕ → ℤ × Double
  answer n =
      let m = market_after P feed n in
      let u = feed n in (u.seq_num, share P (sub m.total (m.fp u.instrument)) (verdict P feed n))

  -- What the consumer is told when a sum is stored, and what it was told before.
  abbrev pub Answered : ℕ → RsjDataIn → Option Double → Context P → Context P → Type 0
  Answered n d x c c' =
      (fresh : List (ℤ × Double)) × (c'.results ≡ fresh ++ c.results)
      × (fresh ++ told P d x ≡ answer n ∷ [])

  module _ (n s : ℕ) (c : Context P)
      (at : s ≡ earlier feed (feed n).instrument n % specific_history_size)
      (fits : s < specific_history_size) (h : Sums n c) where
    abbrev i : ℕ
    i = (feed n).instrument

    abbrev before : Double
    before = (market_after P feed n).fp i

    fp_before : c.fp_i_history i (prev_index_spec s) ≡ before
    fp_before = ap (λ k. c.fp_i_history i (prev_index_spec k)) at ∙ h.fp i

    -- The sum without the instrument's part.
    rest_before :
        sub (c.sum_history (prev_index (place n))) (c.fp_i_history i (prev_index_spec s))
        ≡ sub (market_after P feed n).total before
    rest_before =
        ap (λ z. sub z (c.fp_i_history i (prev_index_spec s))) h.total ∙ ap (sub _) fp_before

    stored_fp :
        (x : Option Double)
        → x ≡ verdict P feed n
        → (j : ℕ)
        → write c.fp_i_history i
            (write (c.fp_i_history i) s (new_fp P x))
            j
            (last_place feed j (suc n))
          ≡ (market_after P feed (suc n)).fp j
    stored_fp x e j = rw ((market_after-Adds P feed n).fp) (elim (ℕ_discrete j i) [
      | yes q ↦
          rw
            (
              q,
              write_self c.fp_i_history i _,
              last_place-own feed n s at,
              write_self (c.fp_i_history i) s _,
              write_self (market_after P feed n).fp i _,
            )
            (ap (new_fp P) e)
      | no ne ↦
          rw
            (
              write_ne c.fp_i_history i j _ ne,
              last_place-other feed j n ne,
              write_ne (market_after P feed n).fp i j _ ne,
            )
            (h.fp j)
    ])

    stored_total :
        (x : Option Double) (v : Double)
        → x ≡ verdict P feed n
        → v ≡ new_total P (sub (market_after P feed n).total before) x
        → write c.sum_history (place n) v (prev_index (place (suc n)))
          ≡ (market_after P feed (suc n)).total
    stored_total x v e q =
        rw (prev-place-suc n, write_self c.sum_history (place n) v)
          (q ∙ ap (new_total P _) e ∙ sym (market_after-Adds P feed n).total)

    pub store_result-Sums :
        (x : Option Double)
        → verdict P feed n ≡ x
        → Ensures
            (store_result P (placed (feed n) (place n) s) x c)
            (λ _ c'. Sums (suc n) c' × Answered n (placed (feed n) (place n) s) x c c')
    unfolding store_result last_fp store_fp store_sum result
    store_result-Sums none e = (
      record {
        total = stored_total none _ (sym e) (
            ap (λ f. sub (c.sum_history (prev_index (place n))) (f (prev_index_spec s)))
              (write_self c.fp_i_history i _)
            ∙ ap (sub _)
                (write_ne (c.fp_i_history i) s (prev_index_spec s) _ (prev_index_spec-ne s fits))
            ∙ rest_before);
        fp = stored_fp none (sym e);
      },
      ([], refl, ap (λ y. ((feed n).seq_num, y) ∷ []) (ap (share P _) (sym e))),
    )
    store_result-Sums (some v) e =
        let rest =
          sub (c.sum_history (prev_index (place n))) (c.fp_i_history i (prev_index_spec s)) in
        (
          record {
            total =
                ap (λ f. f (prev_index (place (suc n))))
                  (write_twice c.sum_history (place n) (add rest v) (add rest v))
                ∙ stored_total (some v) (add rest v) (sym e) (ap (λ z. add z v) rest_before);
            fp = stored_fp (some v) (sym e);
          },
          (
            ((feed n).seq_num, ratio P v (add rest v)) ∷ [],
            refl,
            ap (λ z. ((feed n).seq_num, share P z (some v)) ∷ []) rest_before
                ∙ ap
                    (λ y.
                      ((feed n).seq_num, share P (sub (market_after P feed n).total before) y) ∷ [])
                    (sym e),
          ),
        )
