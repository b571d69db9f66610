-- ===== src/Threads/Lags.antt =====
-- Where the histories are up to date while workers have books inserted and not yet copied, for updates
-- of which no two neighbours are of the same instrument.
use rsj.Prelude.{
  ℕ, suc, ◌%◌, ◌≡◌, ◌≢◌, refl, ap, Bool, true, false, not, ◌&&◌, ◌||◌, Option, none, some, ◌==◌,
  ==-self, if◌then◌else◌, inl, inr, Bool-cases, arith,
}
use native.Mathlib.Decide.{ℕ_discrete}
use rsj.Prelude.Int.{eqb_ℤ}
use rsj.Structures.{specific_history_size}
use rsj.Helpers.{prev_index_spec}
use rsj.Worker.{side_buying}
use rsj.Producer.{Update}
use rsj.Threads.Places.{earlier, last_place, last_place-own, last_place-other}
use rsj.Threads.Histories.{MovesOn}

==-ne : (a b : ℕ) → a ≢ b → (a == b) ≡ false
==-ne a b ne = ground (arith, ne)

||-comm : (a b : Bool) → (a || b) ≡ (b || a)
||-comm true true = refl
||-comm true false = refl
||-comm false true = refl
||-comm false false = refl

module _ (feed : ℕ → Update) where
  -- No two neighbours are of the same instrument.
  abbrev pub Alternates : Type 0
  Alternates = (n : ℕ) → (feed n).instrument ≢ (feed (suc n)).instrument

  abbrev pub buys : ℕ → Bool
  buys n = eqb_ℤ (feed n).side side_buying

  -- Whether the history of the bids, or of the asks, of instrument `i` is still to be copied after an
  -- update that a worker has inserted.
  abbrev pub lags_bid : Option ℕ → ℕ → Bool
  lags_bid none i = false
  lags_bid (some n) i = (i == (feed n).instrument) && not (buys n)

  abbrev pub lags_ask : Option ℕ → ℕ → Bool
  lags_ask none i = false
  lags_ask (some n) i = (i == (feed n).instrument) && buys n

  -- The place of the latest update, or the one before.
  abbrev pub behind : ℕ → Bool → ℕ
  behind s lag = if lag then prev_index_spec s else s

  -- Where the histories are up to date after `k` updates, with the updates of `p` and `q` to be copied.
  abbrev pub bid_place : ℕ → Option ℕ → Option ℕ → ℕ → ℕ
  bid_place k p q i = behind (last_place feed i k) (lags_bid p i || lags_bid q i)

  abbrev pub ask_place : ℕ → Option ℕ → Option ℕ → ℕ → ℕ
  ask_place k p q i = behind (last_place feed i k) (lags_ask p i || lags_ask q i)

  pub bid_place-swap : (k : ℕ) (p q : Option ℕ) (i : ℕ) → bid_place k q p i ≡ bid_place k p q i
  bid_place-swap k p q i = ap (behind (last_place feed i k)) (||-comm (lags_bid q i) (lags_bid p i))

  pub ask_place-swap : (k : ℕ) (p q : Option ℕ) (i : ℕ) → ask_place k q p i ≡ ask_place k p q i
  ask_place-swap k p q i = ap (behind (last_place feed i k)) (||-comm (lags_ask q i) (lags_ask p i))

  -- The update of `q` is of another instrument than the `n`-th.
  abbrev pub Elsewhere : ℕ → Option ℕ → Type 0
  Elsewhere n none = Unit
  Elsewhere n (some m) = (feed n).instrument ≢ (feed m).instrument

  no_bid_lag : (n : ℕ) (q : Option ℕ) → Elsewhere n q → lags_bid q (feed n).instrument ≡ false
  no_bid_lag n none h = refl
  no_bid_lag n (some m) h = rw (==-ne _ _ h) refl

  no_ask_lag : (n : ℕ) (q : Option ℕ) → Elsewhere n q → lags_ask q (feed n).instrument ≡ false
  no_ask_lag n none h = refl
  no_ask_lag n (some m) h = rw (==-ne _ _ h) refl

  module _ (n s : ℕ) (q : Option ℕ)
      (at : s ≡ earlier feed (feed n).instrument n % specific_history_size)
      (far : Elsewhere n q) where
    last_before : last_place feed (feed n).instrument n ≡ prev_index_spec s
    last_before = rw at refl

    inserted_bid :
        buys n ≡ true
        → MovesOn (bid_place n none q) (bid_place (suc n) (some n) q) (feed n).instrument s
    inserted_bid buy = record {
      from = rw (no_bid_lag n q far) last_before;
      to = rw (no_bid_lag n q far, ==-self (feed n).instrument, buy) (last_place-own feed n s at);
      others = λ j ne. rw (==-ne j _ ne, last_place-other feed j n ne) refl;
    }

    asks_stay : buys n ≡ true → (j : ℕ) → ask_place (suc n) (some n) q j ≡ ask_place n none q j
    asks_stay buy j = elim (ℕ_discrete j (feed n).instrument) [
      | yes e ↦
          rw
            (
              e,
              no_ask_lag n q far,
              ==-self (feed n).instrument,
              buy,
              last_place-own feed n s at,
              last_before,
            )
            refl
      | no ne ↦ rw (==-ne j _ ne, last_place-other feed j n ne) refl
    ]

    inserted_ask :
        buys n ≡ false
        → MovesOn (ask_place n none q) (ask_place (suc n) (some n) q) (feed n).instrument s
    inserted_ask sell = record {
      from = rw (no_ask_lag n q far) last_before;
      to = rw (no_ask_lag n q far, ==-self (feed n).instrument, sell) (last_place-own feed n s at);
      others = λ j ne. rw (==-ne j _ ne, last_place-other feed j n ne) refl;
    }

    bids_stay : buys n ≡ false → (j : ℕ) → bid_place (suc n) (some n) q j ≡ bid_place n none q j
    bids_stay sell j = elim (ℕ_discrete j (feed n).instrument) [
      | yes e ↦
          rw
            (
              e,
              no_bid_lag n q far,
              ==-self (feed n).instrument,
              sell,
              last_place-own feed n s at,
              last_before,
            )
            refl
      | no ne ↦ rw (==-ne j _ ne, last_place-other feed j n ne) refl
    ]

    -- An insertion of update `n`.
    pub insertion_buys :
        buys n ≡ true
        → MovesOn (bid_place n none q) (bid_place (suc n) (some n) q) (feed n).instrument s
          × ((j : ℕ) → ask_place (suc n) (some n) q j ≡ ask_place n none q j)
    insertion_buys buy = (inserted_bid buy, asks_stay buy)

    pub insertion_sells :
        buys n ≡ false
        → MovesOn (ask_place n none q) (ask_place (suc n) (some n) q) (feed n).instrument s
          × ((j : ℕ) → bid_place (suc n) (some n) q j ≡ bid_place n none q j)
    insertion_sells sell = (inserted_ask sell, bids_stay sell)

  -- The copy after update `n`, when `k` updates are inserted.
  module _ (n s k : ℕ) (q : Option ℕ) (at : last_place feed (feed n).instrument k ≡ s)
      (far : Elsewhere n q) where
    pub copy_buys :
        buys n ≡ true
        → MovesOn (ask_place k (some n) q) (ask_place k none q) (feed n).instrument s
          × ((j : ℕ) → bid_place k none q j ≡ bid_place k (some n) q j)
    copy_buys buy = (
      record {
        from = rw (no_ask_lag n q far, ==-self (feed n).instrument, buy, at) refl;
        to = rw (no_ask_lag n q far) at;
        others = λ j ne. rw (==-ne j _ ne) refl;
      },
      λ j. elim (Bool-cases (j == (feed n).instrument)) [
        | inl e ↦ rw (e, buy) refl
        | inr e ↦ rw e refl
      ],
    )

    pub copy_sells :
        buys n ≡ false
        → MovesOn (bid_place k (some n) q) (bid_place k none q) (feed n).instrument s
          × ((j : ℕ) → ask_place k none q j ≡ ask_place k (some n) q j)
    copy_sells sell = (
      record {
        from = rw (no_bid_lag n q far, ==-self (feed n).instrument, sell, at) refl;
        to = rw (no_bid_lag n q far) at;
        others = λ j ne. rw (==-ne j _ ne) refl;
      },
      λ j. elim (Bool-cases (j == (feed n).instrument)) [
        | inl e ↦ rw (e, sell) refl
        | inr e ↦ rw e refl
      ],
    )

    -- After the copy both histories are up to date at the place of update `n`.
    pub copied_places :
        (bid_place k none q (feed n).instrument ≡ s) × (ask_place k none q (feed n).instrument ≡ s)
    copied_places = (rw (no_bid_lag n q far) at, rw (no_ask_lag n q far) at)
