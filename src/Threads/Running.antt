-- ===== src/Threads/Running.antt =====
-- The loop of the workers goes on as long as `running` is set (worker.cc).
use rsj.Prelude.{
  ℕ, ◌≡◌, refl, Bool, true, false, some, none, inl, inr, Bool-cases, Option-cases, ltb,
}
use rsj.Prelude.Int.{pos, eqb_ℤ}
use rsj.Structures.{instrument_count}
use rsj.Platform.{Platform}
use rsj.Context.{Context, done}
use rsj.Worker.{
  sync_set_order, sync_unset_order, sync_set_order_sum, sync_unset_order_sum, result, store_fp,
  store_sum,
}
use rsj.Producer.{Update, numbered, update_c_style, enqueue}
use rsj.Threads.Defs.{
  Step, Stage, testing, polling, updating, copying, reading, storing, finished, World, store_result,
  advance, produce, Threads, produces, stops, left_moves, right_moves, Reach, here, later,
  destructor_c_style,
}
use rsj.Threads.Links.{Ensures}
use rsj.Threads.Cases.{Outcomes, advance-cases}
use rsj.Threads.Runs.{Ensures-done}

abbrev pub IsLive : {Double : Type 0} → Stage Double → Type 0
IsLive finished = ⊥
IsLive _ = Unit

abbrev is_testing : {Double : Type 0} → Stage Double → Bool
is_testing testing = true
is_testing p = false

module _ (P : Platform) where
  open P.doubles use {Double}

  abbrev pub IsRunning : Context P → Type 0
  IsRunning c = eqb_ℤ c.running (pos 0) ≡ false

  -- `running` and what was sent are as before, and a worker in the loop has stayed in it.
  abbrev pub SameRun : World P → Stage Double → Stage Double → World P → Type 0
  SameRun w p p' w' =
      (w'.context.running ≡ w.context.running)
      × (w'.sent ≡ w.sent)
      × (IsLive p → IsRunning w.context → IsLive p')

  runs_each : (p : Stage Double) (w : World P) → is_testing p ≡ false → Outcomes P p w (SameRun w p)
  unfolding advance sync_set_order sync_unset_order sync_set_order_sum sync_unset_order_sum result
      store_result store_fp store_sum
  runs_each testing w t = absurd (cc)
  runs_each polling w t = λ d r. (refl, refl, λ l i. tt)
  runs_each (updating n d) w t = (λ b. (refl, refl, λ l i. tt), λ a. (refl, refl, λ l i. tt))
  runs_each (copying n d) w t = (λ b. (refl, refl, λ l i. tt), λ a. (refl, refl, λ l i. tt))
  runs_each (reading n d) w t = ((refl, refl, λ l i. tt), λ x. (refl, refl, λ l i. tt))
  runs_each (storing n d none) w t = (refl, refl, λ l i. tt)
  runs_each (storing n d (some fp)) w t = (refl, refl, λ l i. tt)
  runs_each finished w t = (refl, refl, λ l i. l)
  runs_each p w t = (refl, refl, λ l i. tt)

  pub advance-SameRun : (p : Stage Double) (w : World P) → Ensures (advance P p w) (SameRun w p)
  unfolding advance
  advance-SameRun testing w = elim (Bool-cases (eqb_ℤ w.context.running (pos 0))) [
    | inl e ↦ rw (e, Ensures) (refl, refl, λ l i. absurd (cc))
    | inr e ↦ rw (e, Ensures) (refl, refl, λ l i. tt)
  ]
  advance-SameRun p w = advance-cases P p w (SameRun w p) (runs_each p w refl)

  module _ (feed : ℕ → Update) where
    produce-running :
        (w : World P) → Ensures (produce P feed w) (λ _ w'. w'.context.running ≡ w.context.running)
    unfolding produce update_c_style enqueue numbered
    produce-running w =
        let u = feed w.sent in
        elim (Bool-cases (ltb u.instrument instrument_count)) [
          | inl a ↦
              elim (Option-cases (P.ring.enqueue_spmc w.context.buffer (numbered P u w.context))) [
                | inl e ↦ rw (a, Ensures) (rw (e, Ensures) tt)
                | inr (r, e) ↦ rw (a, Ensures) (rw (e, Ensures) refl)
              ]
          | inr a ↦ rw (a, Ensures) tt
        ]

    -- Until `running` is reset, both workers are in the loop.
    pub Reach-IsLive :
        (t : Threads P feed)
        → Reach P feed t
        → IsRunning t.world.context
        → IsLive t.left × IsLive t.right
    unfolding destructor_c_style
    Reach-IsLive t here i = (tt, tt)
    Reach-IsLive t (later {t = s} r (produces e)) i =
        let same =
          Ensures-done (λ _ w. w.context.running ≡ s.world.context.running) e
            (produce-running s.world) in
        Reach-IsLive s r (rw same at i)
    Reach-IsLive t (later {t = s} r (stops e)) i =
        absurd (let reset = Ensures-done (λ _ c. eqb_ℤ c.running (pos 0) ≡ true) e refl in cc)
    Reach-IsLive t (later {t = s} r (left_moves e)) i =
        let (same, _, live) =
          Ensures-done (SameRun s.world s.left) e (advance-SameRun s.left s.world) in
        let k : IsRunning s.world.context = rw same at i in
        let (a, b) = Reach-IsLive s r k in (live a k, b)
    Reach-IsLive t (later {t = s} r (right_moves e)) i =
        let (same, _, live) =
          Ensures-done (SameRun s.world s.right) e (advance-SameRun s.right s.world) in
        let k : IsRunning s.world.context = rw same at i in
        let (a, b) = Reach-IsLive s r k in (a, live b k)

    -- A step of one of the workers.
    pub data Works (t : Threads P feed) : Threads P feed → Type 0 where
      left_works :
          {p : Stage Double} {w : World P}
          → advance P t.left t.world ≡ done p w
          → Works t (record { world = w; left = p; right = t.right })
      right_works :
          {p : Stage Double} {w : World P}
          → advance P t.right t.world ≡ done p w
          → Works t (record { world = w; left = t.left; right = p })

    pub step_of : {t u : Threads P feed} → Works t u → Step P feed t u
    step_of (left_works e) = left_moves e
    step_of (right_works e) = right_moves e
