-- ===== src/Worker/Waits.antt =====
-- A pass out of its turn: `worker_start`'s body does not end before both flags of the place before are
-- set.
use rsj.Prelude.{
  ℕ, ◌<◌, ◌≡◌, ◌≢◌, refl, sym, ◌∙◌, ap, Bool, true, false, ◌&&◌, ◌⊎◌, inl, inr, write, write_ne,
  Bool-cases, ltb, arith,
}
use rsj.Prelude.Int.{eqb_ℤ, ◌+ℤ◌}
use rsj.Structures.{RsjDataIn, instrument_count, history_size, specific_history_size}
use rsj.Helpers.{prev_index, next_index, prev_index-ne-next}
use rsj.Platform.{Platform}
use rsj.Context.{Context, Outcome, done, spins, fault, ◌>>=◌}
use rsj.Worker.{
  insert_data, report_update, handle_update, history_shift, compute_return_fp_i, side_buying,
  is_int, not_enough,
}
use rsj.Worker.Insert.{bought, sold, insert_data_buy, insert_data_sell}

-- An outcome that is no end.
abbrev pub Stuck : {S A : Type 0} → Outcome S A → Type 0
Stuck o = (o ≡ spins) ⊎ (o ≡ fault)

pub Stuck-done : {S A : Type 0} (o : Outcome S A) (a : A) (s : S) → Stuck o → o ≢ done a s
Stuck-done o a s (inl e) h = absurd (cc)
Stuck-done o a s (inr e) h = absurd (cc)

pub and-true : (a b : Bool) → (a && b) ≡ true → (a ≡ true) × (b ≡ true)
and-true true b h = (refl, h)
and-true false b h = absurd (cc)

and-false : (a b : Bool) → (a && b) ≡ false → (a ≡ false) ⊎ ((a ≡ true) × (b ≡ false))
and-false true b h = inr (refl, h)
and-false false b h = inl refl

module _ (P : Platform) (d : RsjDataIn) where
  open P.sync use {is_set, unset}

  insert_data_waits :
      (c : Context P)
      → is_set (c.order (prev_index d.order_index)) ≡ false
      → insert_data P d c ≡ spins
  unfolding insert_data
  insert_data_waits c h = elim (Bool-cases (eqb_ℤ d.side side_buying)) [
    | inl e ↦ rw e (rw (h, ◌>>=◌))
    | inr e ↦ rw e (rw (h, ◌>>=◌))
  ]

  -- The insertion leaves the flags of the sums alone.
  insert_data_sums :
      (c : Context P)
      → is_set (c.order (prev_index d.order_index)) ≡ true
      → (c' : Context P) × (insert_data P d c ≡ done tt c') × (c'.order_sum ≡ c.order_sum)
  unfolding bought sold
  insert_data_sums c h = elim (Bool-cases (eqb_ℤ d.side side_buying)) [
    | inl e ↦ (bought P d c, insert_data_buy P d c h e, refl)
    | inr e ↦ (sold P d c, insert_data_sell P d c h e, refl)
  ]

  pub report_update_waits :
      (c : Context P)
      → is_set (c.order_sum (prev_index d.order_index)) ≡ false
      → Stuck (report_update P d c)
  unfolding report_update history_shift compute_return_fp_i
  report_update_waits c h =
      let bid = (c.bids d.instrument).history d.specific_index in
      let volask = (c.asks d.instrument).history d.specific_index in
      elim (Bool-cases (not_enough volask bid.vol_bid bid.price_bid)) [
        | inl e ↦ inl (rw e (rw (h, ◌>>=◌)))
        | inr e ↦ elim (Bool-cases (is_int (bid.vol_bid +ℤ volask))) [
          | inl f ↦ inl (rw e (rw f (rw (h, ◌>>=◌))))
          | inr f ↦ inr (rw e (rw f refl))
        ]
      ]

  -- The state when the flags of the next place have been taken back.
  abbrev pub taken_back : Context P → Context P
  taken_back c =
      let n = next_index d.order_index in
      record c {
        order = write c.order n (unset (c.order n));
        order_sum = write c.order_sum n (unset (c.order_sum n));
      }

  -- Whether the indices of the update are in the bounds of their arrays.
  abbrev pub in_bounds : Bool
  in_bounds =
      ltb d.instrument instrument_count
      && (ltb d.order_index history_size && ltb d.specific_index specific_history_size)

  in_range : in_bounds ≡ true → d.order_index < history_size
  in_range h =
      let b = (and-true (ltb d.instrument instrument_count) _ h).1 in
      let o = (and-true (ltb d.order_index history_size) _ b).0 in ground arith

  handle_update_faults : (c : Context P) → in_bounds ≡ false → handle_update P d c ≡ fault
  unfolding handle_update
  handle_update_faults c h = elim (and-false (ltb d.instrument instrument_count) _ h) [
    | inl e ↦ rw e refl
    | inr (e, f) ↦ rw e (rw f refl)
  ]

  pub handle_update-in_bounds :
      (c : Context P)
      → in_bounds ≡ true
      → handle_update P d c ≡ (insert_data P d >>= λ _. report_update P d) (taken_back c)
  unfolding handle_update
  handle_update-in_bounds c h =
      let (a, b) = and-true (ltb d.instrument instrument_count) _ h in rw a (rw b refl)

  pub kept_flag :
      (f : ℕ → P.sync.Flag)
      → in_bounds ≡ true
      → is_set (
          write f
            (next_index d.order_index)
            (unset (f (next_index d.order_index)))
            (prev_index d.order_index))
        ≡ is_set (f (prev_index d.order_index))
  kept_flag f h = ap is_set (
      write_ne f (next_index d.order_index) (prev_index d.order_index) _
        (prev_index-ne-next d.order_index (in_range h)))

  -- A pass that ends had its turn, twice: the update's indices are in the bounds of their arrays, and
  -- both flags of the place before were set.
  pub handle_update_in_turn :
      (c c' : Context P)
      → handle_update P d c ≡ done tt c'
      → (in_bounds ≡ true)
        × (is_set (c.order (prev_index d.order_index)) ≡ true)
        × (is_set (c.order_sum (prev_index d.order_index)) ≡ true)
  handle_update_in_turn c c' h = elim (Bool-cases in_bounds) [
    | inr e ↦ absurd (Stuck-done _ _ _ (inr (handle_update_faults c e)) h)
    | inl e ↦ elim (Bool-cases (is_set (c.order (prev_index d.order_index)))) [
      | inr f ↦ absurd (
          Stuck-done _ _ _
            (inl (
              handle_update-in_bounds c e
              ∙ rw (insert_data_waits (taken_back c) (kept_flag c.order e ∙ f), ◌>>=◌) refl))
            h)
      | inl f ↦
          let (c2, ends, sums) = insert_data_sums (taken_back c) (kept_flag c.order e ∙ f) in
          elim (Bool-cases (is_set (c.order_sum (prev_index d.order_index)))) [
            | inl g ↦ (e, f, g)
            | inr g ↦ absurd (
                Stuck-done _ _ _
                  (report_update_waits c2 (
                    ap (λ o. is_set (o (prev_index d.order_index))) sums
                    ∙ kept_flag c.order_sum e
                    ∙ g))
                  (sym (handle_update-in_bounds c e ∙ rw (ends, ◌>>=◌) refl) ∙ h))
          ]
    ]
  ]
