-- ===== src/Server/Goroutines/Turns.antt =====
-- Interleavings by evaluation: the goroutines start and act in a given order.
use always_cache.Base.{ℕ, zero, suc, List, [], ◌∷◌, ◌++◌, Option, none, some, ◌≡◌, refl, ap}
use always_cache.Base.Tests.{◌>>=◌}
use mathlib.Core.List.{foldl}
use always_cache.Go.Time.{Time}
use always_cache.Go.Http.{Request}
use always_cache.Server.State.{AlwaysCache}
use always_cache.Server.Goroutines.{Prog, stop, crash, act}
use always_cache.Server.Goroutines.Schedule.{
  System, acted, serve, task, round, everything, tick, action, Interleaving, here, then,
}

-- What happens next: a goroutine starts, the clock moves, or goroutine `i` acts.
pub data Turn : Type 0 where
  request : Request → Turn
  waiting : ℕ → Turn
  updating : Turn
  updating_all : Turn
  at_time : Time → Turn
  goes : ℕ → Turn

-- An element of a list, between those before it and those after it.
record Picked {A : Type 0} (xs : List A) : Type 0 where
  before : List A
  after : List A
  one : A
  among : xs ≡ before ++ one ∷ after

further : {A : Type 0} (x : A) {xs : List A} → Picked xs → Picked (x ∷ xs)
further x p = record {
  before = x ∷ p.before;
  after = p.after;
  one = p.one;
  among = ap (λ ys. x ∷ ys) p.among;
}

pick : {A : Type 0} → ℕ → (xs : List A) → Option (Picked xs)
unfolding further
pick i [] = none
pick zero (x ∷ xs) = some (record { before = []; after = xs; one = x; among = refl })
pick (suc i) (x ∷ xs) = do p ← pick i xs; some (further x p)

module _ {S : Type 0} (a : AlwaysCache S) where
  pub record Run (s : System S) : Type 0 where
    pub last : System S
    pub steps : Interleaving a s last

  goes_on :
      {s : System S} (r : Run s) (p : Picked r.last.running) (q : Prog S)
      → p.one.program ≡ q
      → Run s
  goes_on r p stop e = r
  goes_on r p crash e = r
  goes_on r p (act f k) e = record {
    last = acted r.last p.before p.after p.one f k;
    steps = then _ r.last _ r.steps (action r.last p.before p.after p.one f k p.among e);
  }

  turn : {s : System S} → Run s → Turn → Run s
  unfolding pick goes_on
  turn r (request req) = record { last = _; steps = then _ r.last _ r.steps (serve r.last req) }
  turn r (waiting i) = elim (pick i r.last.world.tasks) [
    | none ↦ r
    | some p ↦ record {
      last = _;
      steps = then _ r.last _ r.steps (task r.last p.before p.after p.one p.among);
    }
  ]
  turn r updating = record { last = _; steps = then _ r.last _ r.steps (round r.last) }
  turn r updating_all = record { last = _; steps = then _ r.last _ r.steps (everything r.last) }
  turn r (at_time now) = record { last = _; steps = then _ r.last _ r.steps (tick r.last now) }
  turn r (goes i) = elim (pick i r.last.running) [
    | none ↦ r
    | some p ↦ goes_on r p p.one.program refl
  ]

  -- A turn that cannot be taken changes nothing.
  unfoldable pub take_turns : (s : System S) → List Turn → Run s
  unfolding turn
  take_turns s turns = foldl turn (record { last = s; steps = here s }) turns
