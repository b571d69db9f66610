-- ===== src/Refinement/Errors.antt =====
-- An update of an instrument that does not exist (worker.h, worker.cc).
use rsj.Prelude.{
  ◌≡◌, refl, Bool, true, false, not, ◌&&◌, List, [], ◌∷◌, All, inl, inr, Bool-cases, ltb, ◌<◌,
  arith,
}
use rsj.Prelude.Int.{eqb_ℤ}
use rsj.Structures.{instrument_count}
use rsj.OrderBook.Best.{IsBid, IsAsk}
use rsj.Table.{pair_of}
use rsj.Platform.{Platform}
use rsj.Context.{Context, Outcome, done, fault, ◌>>=◌}
use rsj.Worker.{side_buying}
use rsj.Producer.{Update, update_c_style}
use rsj.Init.{initialize_c_style}
use rsj.Market.{Market, trade, opening}
use rsj.Refinement.{Tracks}
use rsj.Refinement.Run.{one_update, process, one_update-Tracks}
use rsj.Refinement.Start.{initialize-Tracks}

-- The price and the volume of an update are within the bounds of its side.
pub record IsOffer (u : Update) : Type 0 where
  pub bid : eqb_ℤ u.side side_buying ≡ true → IsBid (pair_of u.volume u.price)
  pub ask : eqb_ℤ u.side side_buying ≡ false → IsAsk (pair_of u.volume u.price)

abbrev pub is_fault : {S A : Type 0} → Outcome S A → Bool
is_fault fault = true
is_fault o = false

abbrev pub is_done : {S A : Type 0} → Outcome S A → Bool
is_done (done a s) = true
is_done o = false

-- All instruments exist.
abbrev pub known : List Update → Bool
known [] = true
known (u ∷ us) = ltb u.instrument instrument_count && known us

module _ (P : Platform) where
  unknown_faults :
      (u : Update) (c : Context P)
      → ltb u.instrument instrument_count ≡ false
      → one_update P u c ≡ fault
  unfolding one_update update_c_style
  unknown_faults u c e = rw (e, ◌>>=◌) refl

  process_from :
      (us : List Update) (m : Market P) (c : Context P)
      → All IsOffer us
      → Tracks P m c
      → (is_done (process P us c) ≡ known us) × (is_fault (process P us c) ≡ not (known us))
  unfolding process
  process_from [] m c v t = (refl, refl)
  process_from (u ∷ us) m c v t = elim (Bool-cases (ltb u.instrument instrument_count)) [
    | inl e ↦
        let lt : u.instrument < instrument_count = ground arith in
        let (c1, runs, t1) =
          one_update-Tracks P u m c (record { instrument = lt; bid = v.0.bid; ask = v.0.ask }) t in
        rw e (rw (runs, ◌>>=◌) (process_from us (trade P u m) c1 v.1 t1))
    | inr e ↦ rw e (rw (unknown_faults u c e, ◌>>=◌) (refl, refl))
  ]

  -- From the initial state, updates with prices and volumes within the bounds, each sent and handled in
  -- turn, are processed to the end if the instruments of all of them exist, and end in an undefined
  -- access if one does not.
  pub unknown_instrument :
      (us : List Update)
      → All IsOffer us
      → (is_done (process P us (initialize_c_style P)) ≡ known us)
        × (is_fault (process P us (initialize_c_style P)) ≡ not (known us))
  unknown_instrument us v =
      process_from us (opening P) (initialize_c_style P) v (initialize-Tracks P)
