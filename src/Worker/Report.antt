-- ===== src/Worker/Report.antt =====
-- `history_shift` and `compute_return_fp_i`, when it is the update's turn: each ends, gives the result
-- that the market gives, and keeps the sum and the instrument's part of it.
use rsj.Prelude.{◌<◌, ◌≡◌, ap, true, ◌∷◌, write, write_self, write_ne, write_twice}
use rsj.Prelude.Int.{ℤ, ◌+ℤ◌}
use rsj.Structures.{RsjDataIn, specific_history_size}
use rsj.Helpers.{prev_index, prev_index_spec, prev_index_spec-ne}
use rsj.Platform.{Platform}
use rsj.Context.{Context, done, ◌>>=◌}
use rsj.Worker.{history_shift, compute_return_fp_i, compute_fp_i, ratio, is_int}
use rsj.Worker.Insert.{turned}

module _ (P : Platform) where
  open P.doubles use {Double, decimal, of_int, add, sub, div}
  open P.sync use {is_set}

  -- The state when the result `fp` is stored with the sum `sum`.
  unfoldable pub stored : RsjDataIn → Double → Double → Context P → Context P
  stored d fp sum c =
      let i = d.instrument in
      record c {
        order_sum = turned P c.order_sum d.order_index;
        fp_i_history = write c.fp_i_history i (write (c.fp_i_history i) d.specific_index fp);
        sum_history = write c.sum_history d.order_index sum;
      }

  -- The sum before the update, without the instrument's part.
  abbrev pub rest_of_sum : RsjDataIn → Context P → Double
  rest_of_sum d c =
      sub (c.sum_history (prev_index d.order_index))
        (c.fp_i_history d.instrument (prev_index_spec d.specific_index))

  abbrev pub new_fp : ℤ → ℤ → ℤ → Double
  new_fp volbid volask pricebid =
      compute_fp_i P (div (of_int volbid) (of_int (volbid +ℤ volask))) pricebid

  module _ (d : RsjDataIn) (c : Context P)
      (turn : is_set (c.order_sum (prev_index d.order_index)) ≡ true) where
    pub history_shift_ends :
        d.specific_index < specific_history_size
        → history_shift P d c ≡ done tt (stored d (decimal 0 0) (rest_of_sum d c) c)
    unfolding history_shift stored
    history_shift_ends h =
        rw (turn, ◌>>=◌)
          (rw (
            write_self c.fp_i_history d.instrument _,
            write_ne (c.fp_i_history d.instrument) d.specific_index _ _
                (prev_index_spec-ne d.specific_index h),
          ))

    pub compute_return_fp_i_ends :
        (volbid volask pricebid : ℤ)
        → is_int (volbid +ℤ volask) ≡ true
        → let fp = new_fp volbid volask pricebid in
          let sum = add (rest_of_sum d c) fp in
          compute_return_fp_i P d volbid volask pricebid c
          ≡ done tt
              (record (stored d fp sum c) { results = (d.seq_num, ratio P fp sum) ∷ c.results })
    unfolding compute_return_fp_i stored
    compute_return_fp_i_ends volbid volask pricebid h =
        let fp = new_fp volbid volask pricebid in
        let sum = add (rest_of_sum d c) fp in
        rw h (
          rw (turn, ◌>>=◌)
            (ap
              (λ sums. done tt (record (stored d fp sum c) {
                sum_history = sums;
                results = (d.seq_num, ratio P fp sum) ∷ c.results;
              }))
              (write_twice c.sum_history d.order_index sum sum)))
