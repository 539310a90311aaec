-- ===== src/Server/State.antt =====
-- The proxy's state (the type AlwaysCache and what its goroutines share), and the actions on it.
use always_cache.Base.{ℕ, zero, suc, length, Bool, List, [], ◌∷◌, ◌++◌, ◌≡◌, refl}
use always_cache.Base.Int.{pos}
use always_cache.Go.Time.{Time, Duration}
use always_cache.Go.Http.{Platform, Request}
use always_cache.Go.Panic.{Call, returns, panics}
use always_cache.CacheUpdate.{CacheUpdate}
use always_cache.Key.{CacheKeyer}
use always_cache.Provider.{CacheProvider}
use always_cache.Tee.{Client, ResponseSaver, Act}

-- What does not change while the proxy runs. `origin` is the reverse proxy with the origin behind
-- it: what it writes for its n-th request. `updates` tells whether updateTimeout is not 0.
pub record AlwaysCache (S : Type 0) : Type 0 where
  pub platform : Platform
  pub cache : CacheProvider S
  pub keyer : CacheKeyer
  pub modify_response : Request → Request
  pub origin : ℕ → Request → List Act
  pub updates : Bool
  pub update_timeout : Duration

-- A goroutine that has not run yet. One that saveUpdates leaves behind has not its own delay and path,
-- but the number of the loop variable that it shares with the loop.
pub data Task : Type 0 where
  update_response : ResponseSaver → Request → Task
  update_later : ℕ → Task

-- The clock stands still during one action, but for its sleeps. `client` is the writer of the
-- request that is being served. `variables` has the variable of each loop of saveUpdates: in Go 1.19, the
-- version of go.mod, a loop has one variable for all its rounds.
pub record World (S : Type 0) : Type 0 where
  pub store : S
  pub now : Time
  pub calls : ℕ
  pub client : Client
  pub tasks : List Task
  pub variables : List CacheUpdate

abbrev pub M : Type 0 → Type 0 → Type 0
M S A = World S → Call (A × World S)

abbrev pub continue : {S A B : Type 0} → Call (A × World S) → (A → M S B) → Call (B × World S)
continue panics f = panics
continue (returns (a, w)) f = f a w

infixl 5 ◌>>=◌ ◌>>◌
unfoldable pub ◌>>=◌ : {S A B : Type 0} → M S A → (A → M S B) → M S B
◌>>=◌ m f w = continue (m w) f

abbrev pub ◌>>◌ : {S A B : Type 0} → M S A → M S B → M S B
m >> k = m >>= λ _. k

unfoldable pub pure : {S A : Type 0} → A → M S A
pure a w = returns (a, w)

abbrev pub called : {S A : Type 0} → World S → Call A → Call (A × World S)
called w panics = panics
called w (returns a) = returns (a, w)

-- A call that does not touch the state.
unfoldable pub lift : {S A : Type 0} → Call A → M S A
lift c w = called w c

unfoldable pub gets : {S A : Type 0} → (World S → A) → M S A
gets f w = returns (f w, w)

unfoldable pub modify : {S : Type 0} → (World S → World S) → M S (Unit {0})
modify f w = returns (tt, f w)

unfoldable pub spawn : {S : Type 0} → Task → M S (Unit {0})
unfolding modify
spawn t = modify (λ w. record w { tasks = w.tasks ++ t ∷ [] })

-- A new loop variable, and its number.
unfoldable pub declare : {S : Type 0} → CacheUpdate → M S ℕ
declare update w = returns (length w.variables, record w { variables = w.variables ++ update ∷ [] })

-- The loop variable has the given value from now on.
unfoldable pub set_at : ℕ → CacheUpdate → List CacheUpdate → List CacheUpdate
set_at n update [] = []
set_at zero update (old ∷ others) = update ∷ others
set_at (suc n) update (old ∷ others) = old ∷ set_at n update others

unfoldable pub assign : {S : Type 0} → ℕ → CacheUpdate → M S (Unit {0})
unfolding modify set_at
assign n update = modify (λ w. record w { variables = set_at n update w.variables })

-- What the loop variable holds. Every number that is used is one of a variable.
unfoldable pub value_at : ℕ → List CacheUpdate → CacheUpdate
value_at n [] = record { path = []; delay = pos 0 }
value_at zero (update ∷ others) = update
value_at (suc n) (update ∷ others) = value_at n others

unfoldable pub variable : {S : Type 0} → ℕ → M S CacheUpdate
unfolding gets value_at
variable n = gets (λ w. value_at n w.variables)

continue-eq-returns :
    {S A B : Type 0} (c : Call (A × World S)) (f : A → M S B) (w' : World S) (b : B)
    → continue c f ≡ returns (b, w')
    → (a : A) × (v : World S) × (c ≡ returns (a, v)) × (f a v ≡ returns (b, w'))
continue-eq-returns panics f w' b e = cc
continue-eq-returns (returns (a, v)) f w' b e = (a, v, refl, e)

-- Inversion of a bind that returns.
pub >>=-eq-returns :
    {S A B : Type 0} (m : M S A) (f : A → M S B) (w w' : World S) (b : B)
    → (m >>= f) w ≡ returns (b, w')
    → (a : A) × (v : World S) × (m w ≡ returns (a, v)) × (f a v ≡ returns (b, w'))
unfolding ◌>>=◌
>>=-eq-returns m f w w' b e = continue-eq-returns (m w) f w' b e

-- Inversion of a call that does not touch the state.
pub lift->>=-eq-returns :
    {S A B : Type 0} (c : Call A) (f : A → M S B) (w w' : World S) (b : B)
    → (lift c >>= f) w ≡ returns (b, w')
    → (a : A) × (c ≡ returns a) × (f a w ≡ returns (b, w'))
unfolding ◌>>=◌ lift
lift->>=-eq-returns panics f w w' b e = cc
lift->>=-eq-returns (returns a) f w w' b e = (a, refl, e)

pub returns_injective :
    {S A : Type 0} {x y : A} {w v : World S}
    → ◌≡◌ {A = Call (A × World S)} (returns (x, w)) (returns (y, v))
    → (y ≡ x) × (v ≡ w)
returns_injective e = (cc, cc)
