-- ===== src/Worker/Race.antt =====
-- insert_data copies the other side's history after it has handed over the turn: what that means for the
-- next update of the instrument.
use rsj.Prelude.{ℕ, ◌<◌, ◌≡◌, ◌≢◌, refl, ◌∙◌, ap, true, false, write, write_self, write_ne, arith}
use rsj.Prelude.Int.{ℤ, pos, eqb_ℤ, ltb_ℤ}
use rsj.Structures.{LookupAsk, history_size}
use rsj.Helpers.{next_index, prev_index_spec, index_inverse}
use rsj.Table.{asks_update}
use rsj.Platform.{Platform}
use rsj.Worker.{copy_ask}

next_index-ne : (index : ℕ) → index < history_size → next_index index ≢ index
unfolding next_index
next_index-ne index h = omega arith

module _ (P : Platform) (asks : LookupAsk P.rb.Table) (s : ℕ) (vol_ask price_ask : ℤ) where
  -- An ask that is not removed and is worse than the best one leaves the entry of its place at that of
  -- the place before.
  worse_ask :
      (a : LookupAsk P.rb.Table)
      → a.price_ask ≡ asks.price_ask
      → s < history_size
      → eqb_ℤ vol_ask (pos 0) ≡ false
      → ltb_ℤ asks.price_ask price_ask ≡ true
      → (asks_update P.rb a (next_index s) vol_ask price_ask).history
        ≡ write a.history (next_index s) (a.history s)
  unfolding asks_update
  worse_ask a same h some_volume worse =
      rw some_volume (rw same (rw worse (rw ((index_inverse s h).0) refl)))

  -- A bid at place `s` and then an ask at the next place, which is not removed and is worse than the best
  -- one. If the ask is inserted after the bid's worker has copied the asks' history, the ask's entry is
  -- that of the place before the bid's; if it is inserted before that copy, it is the entry that the
  -- bid's place had from an earlier round.
  pub copy_ask_race :
      s < history_size
      → eqb_ℤ vol_ask (pos 0) ≡ false
      → ltb_ℤ asks.price_ask price_ask ≡ true
      → ((asks_update P.rb (copy_ask P asks s) (next_index s) vol_ask price_ask).history
            (next_index s)
          ≡ asks.history (prev_index_spec s))
        × ((copy_ask P (asks_update P.rb asks (next_index s) vol_ask price_ask) s).history
              (next_index s)
            ≡ asks.history s)
  unfolding copy_ask
  copy_ask_race h some_volume worse =
      let n = next_index s in
      (
        ap (λ f. f n) (worse_ask (copy_ask P asks s) refl h some_volume worse)
            ∙ write_self (copy_ask P asks s).history n _
            ∙ write_self asks.history s _,
        write_ne (asks_update P.rb asks n vol_ask price_ask).history s n _ (next_index-ne s h)
            ∙ ap (λ f. f n) (worse_ask asks refl h some_volume worse)
            ∙ write_self asks.history n _,
      )
