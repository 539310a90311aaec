-- ===== src/Server/Goroutines/Heads.antt =====
-- How many response heads a program sends, whatever others do between its actions.
use always_cache.Base.{
  ℕ, ◌+◌, Bool, true, false, Option, none, some, if◌then◌else◌, ◌≡◌, refl, arith,
}
use always_cache.Go.Panic.{Call, returns, panics}
use always_cache.Server.State.{World, M}
use always_cache.Server.Total.{heads}
use always_cache.Server.Counts.{Counts, Quiet}
use always_cache.Server.Goroutines.{Prog, stop, crash, act, K, pure, left, rest, atom}

-- The program sends `n` heads to its client until it stops, unless it panics before.
abbrev pub Sends : {S : Type 0} → ℕ → Prog S → Type 0
Sends n stop = n ≡ 0
Sends n crash = Unit {0}
Sends {S} n (act f k) =
    (w : World S)
    → (now : ℕ) × (later : ℕ) × (now + later ≡ n)
      × (heads (f w).client.sent ≡ heads w.client.sent + now)
      × Sends later (k w)

-- The part of a program sends so many heads that `u` are sent from it on, and `t` after it.
pub record Adds {S A : Type 0} (u t : ℕ) (k : K S A) : Type 0 where
  pub add : (c : A → Prog S) → ((x : A) → Sends t (c x)) → Sends u (k c)

module _ {S : Type 0} where
  -- An action whose heads depend on its result.
  after_action :
      {A : Type 0} (n : A → ℕ) (c : A → Prog S) (t : ℕ) (r : A → ℕ) (w : World S)
      (answer : Call (A × World S))
      → ((x : A) (w' : World S)
          → answer ≡ returns (x, w')
          → heads w'.client.sent ≡ heads w.client.sent + n x)
      → ((x : A) → n x + r x ≡ t)
      → ((x : A) → Sends (r x) (c x))
      → (now : ℕ) × (later : ℕ) × (now + later ≡ t)
        × (heads (left w answer).client.sent ≡ heads w.client.sent + now)
        × Sends later (rest c answer)
  after_action n c t r w panics h sum sends = (0, t, omega arith, omega arith, tt)
  after_action n c t r w (returns (x, w')) h sum sends = (n x, r x, sum x, h x w' refl, sends x)

  pub atom-Sends :
      {A : Type 0} {n : A → ℕ} {m : M S A} (c : A → Prog S) (t : ℕ) (r : A → ℕ)
      → Counts n m
      → ((x : A) → n x + r x ≡ t)
      → ((x : A) → Sends (r x) (c x))
      → Sends t (atom m c)
  unfolding atom
  atom-Sends {n} {m} c t r counts sum sends w =
      after_action n c t r w (m w) (λ x w' e. counts.count w w' x e) sum sends

  pub atom-Adds : {A : Type 0} {t : ℕ} {m : M S A} → Quiet m → Adds t t (atom m)
  atom-Adds {t} quiet = record {
    add = λ c sends. atom-Sends c t (λ _. t) quiet (λ x. omega arith) sends;
  }

  pub pure-Adds : {A : Type 0} {t : ℕ} (x : A) → Adds {S = S} t t (pure x)
  pure-Adds x = record { add = λ c sends. sends x }

  pub bind-Adds :
      {A B : Type 0} {u s t : ℕ} {k : K S A} {f : A → K S B}
      → Adds u s k
      → ((x : A) → Adds s t (f x))
      → Adds u t (λ c. k (λ x. f x c))
  bind-Adds first others = record { add = λ c sends. first.add _ (λ x. (others x).add c sends) }

  pub cond-Adds :
      {A : Type 0} {u t : ℕ} {k l : K S A}
      → (b : Bool) → Adds u t k
      → Adds u t l
      → Adds u t (if b then k else l)
  cond-Adds true p q = p
  cond-Adds false p q = q

  pub option-Adds :
      {A B : Type 0} {u t : ℕ} {k : K S B} {f : A → K S B}
      → (o : Option A) → Adds u t k
      → ((x : A) → Adds u t (f x))
      → Adds {S = S} {A = B} u t (elim o [ none ↦ k | some x ↦ f x ])
  option-Adds none p q = p
  option-Adds (some x) p q = q x
