-- ===== src/Threads/Totals.antt =====
-- The market after the first updates, and what the next update adds to it, by the value of fp that the
-- books give.
use rsj.Prelude.{
  ℕ, zero, suc, ◌≡◌, refl, ◌∙◌, ap, Option, none, some, ◌∷◌, write, inl, inr, Bool-cases,
}
use rsj.Prelude.Int.{eqb_ℤ}
use rsj.OrderBook.{best_bid, best_ask}
use rsj.Platform.{Platform}
use rsj.Worker.{side_buying, not_enough, ratio}
use rsj.Producer.{Update}
use rsj.Market.{Market, opening, set_books, report, trade}
use rsj.Threads.Order.{books_after}
use rsj.Threads.Verdicts.{fp_of, verdict}

module _ (P : Platform) where
  open P.doubles use {Double, decimal, add, sub}

  -- The new value of fp, the new sum and the reported share, from the sum of the other instruments.
  abbrev pub new_fp : Option Double → Double
  new_fp none = decimal 0 0
  new_fp (some v) = v

  abbrev pub new_total : Double → Option Double → Double
  new_total rest none = rest
  new_total rest (some v) = add rest v

  abbrev pub share : Double → Option Double → Double
  share rest none = decimal 0 0
  share rest (some v) = ratio P v (add rest v)

  -- What a report changes.
  pub record Adds (u : Update) (x : Option Double) (m m' : Market P) : Type 0 where
    pub fp : m'.fp ≡ write m.fp u.instrument (new_fp x)
    pub total : m'.total ≡ new_total (sub m.total (m.fp u.instrument)) x
    pub results : m'.results ≡ (u.seq_num, share (sub m.total (m.fp u.instrument)) x) ∷ m.results

  report-Adds :
      (u : Update) (m : Market P)
      → Adds u
          (fp_of P (best_bid (m.bids u.instrument)) (best_ask (m.asks u.instrument)).vol_bid)
          m
          (report P u m)
  unfolding report fp_of
  report-Adds u m =
      let bid = best_bid (m.bids u.instrument) in
      elim (Bool-cases
        (not_enough (best_ask (m.asks u.instrument)).vol_bid bid.vol_bid bid.price_bid)) [
          | inl e ↦ rw e (record { fp = refl; total = refl; results = refl })
          | inr e ↦ rw e (record { fp = refl; total = refl; results = refl })
        ]

  Adds-from :
      {u : Update} {x y : Option Double} {m k m' : Market P}
      → Adds u x m m'
      → x ≡ y
      → (m.fp ≡ k.fp) × (m.total ≡ k.total) × (m.results ≡ k.results)
      → Adds u y k m'
  Adds-from h s (f, t, r) = record {
    fp = rw (← f, ← s) h.fp;
    total = rw (← t, ← f, ← s) h.total;
    results = rw (← r, ← t, ← f, ← s) h.results;
  }

  -- Two markets with the same books.
  abbrev SameBooks : Market P → Market P → Type 0
  SameBooks m b = (m.bids ≡ b.bids) × (m.asks ≡ b.asks)

  report-SameBooks : (u : Update) (m : Market P) → SameBooks (report P u m) m
  unfolding report
  report-SameBooks u m =
      let bid = best_bid (m.bids u.instrument) in
      elim (Bool-cases
        (not_enough (best_ask (m.asks u.instrument)).vol_bid bid.vol_bid bid.price_bid)) [
          | inl e ↦ rw e (refl, refl)
          | inr e ↦ rw e (refl, refl)
        ]

  module _ (feed : ℕ → Update) where
    unfoldable pub market_after : ℕ → Market P
    market_after zero = opening P
    market_after (suc n) = trade P (feed n) (market_after n)

    set_books-SameBooks :
        (u : Update) (m b : Market P)
        → SameBooks m b
        → SameBooks (set_books P u m) (set_books P u b)
    unfolding set_books
    set_books-SameBooks u m b (e, f) = elim (Bool-cases (eqb_ℤ u.side side_buying)) [
      | inl buy ↦ rw buy (rw e refl, f)
      | inr sell ↦ rw sell (e, rw f refl)
    ]

    books_of_market : (n : ℕ) → SameBooks (market_after n) (books_after P feed n)
    unfolding market_after books_after trade
    books_of_market zero = (refl, refl)
    books_of_market (suc n) =
        let (e, f) = set_books-SameBooks (feed n) _ _ (books_of_market n) in
        let (b, a) = report-SameBooks (feed n) (set_books P (feed n) (market_after n)) in
        (b ∙ e, a ∙ f)

    -- Inserting leaves fp, the sum and the results alone.
    set_books-fp :
        (u : Update) (m : Market P)
        → ((set_books P u m).fp ≡ m.fp)
          × ((set_books P u m).total ≡ m.total)
          × ((set_books P u m).results ≡ m.results)
    unfolding set_books
    set_books-fp u m = elim (Bool-cases (eqb_ℤ u.side side_buying)) [
      | inl buy ↦ rw buy (refl, refl, refl)
      | inr sell ↦ rw sell (refl, refl, refl)
    ]

    -- What update `n` adds.
    pub market_after-Adds :
        (n : ℕ) → Adds (feed n) (verdict P feed n) (market_after n) (market_after (suc n))
    unfolding market_after books_after trade
    market_after-Adds n =
        let u = feed n in
        let m = set_books P u (market_after n) in
        let (b, a) = set_books-SameBooks u _ _ (books_of_market n) in
        let (f, t, r) = set_books-fp u (market_after n) in
        let x = report-Adds u m in
        let same : fp_of P (best_bid (m.bids u.instrument)) (best_ask (m.asks u.instrument)).vol_bid
            ≡ verdict P feed n =
          ap (λ z. fp_of P (best_bid (z u.instrument)) (best_ask (m.asks u.instrument)).vol_bid) b
          ∙ ap
              (λ z.
                fp_of P (best_bid ((set_books P u (books_after P feed n)).bids u.instrument))
                  (best_ask (z u.instrument)).vol_bid)
              a in
        Adds-from x same (f, t, r)
