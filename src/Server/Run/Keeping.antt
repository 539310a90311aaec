-- ===== src/Server/Run/Keeping.antt =====
-- The rules for a property of the proxy's state that its actions keep, and that every operation
-- keeps what the actions keep.
pub mod Updates
pub mod Answers
use always_cache.Base.{
  ℕ, ◌+◌, Bool, true, false, not, List, [], ◌∷◌, ◌++◌, Option, none, some, ◌⊎◌, inl, inr,
  if◌then◌else◌, ◌≡◌, refl, sym, ap,
}
use always_cache.Go.Strings.{Str}
use always_cache.Go.Time.{Time}
use always_cache.Go.Http.{Request, Response}
use always_cache.Go.Panic.{Call, returns, panics}
use always_cache.Rfc9111.Entry.{Result, ok, err, must_not_store_checked}
use always_cache.Tee.{Client, ResponseSaver, new_silent_saver, run}
use always_cache.CacheUpdate.{CacheUpdate}
use always_cache.Server.Asked.{IsFor}
use always_cache.Server.State.{
  AlwaysCache, Task, update_response, update_later, World, M, returns_injective, ◌>>=◌, ◌>>◌, pure,
  lift, gets, modify, spawn, >>=-eq-returns,
}
use always_cache.Server.Store.{
  saved_response, ask_origin, cache_entry, put_entry, write_cache, save_request,
}

-- A saver that has got nothing yet.
abbrev pub IsNew : ResponseSaver → Type 0
IsNew rw = (rw.buffer ≡ []) × (rw.header ≡ []) × (rw.status ≡ 0) × (rw.wrote_headers ≡ false)

-- A property of the state that the actions keep; `Fair` holds of a saver with an answer, for each
-- request that the answer is for.
pub record Invariant {S : Type 0} (a : AlwaysCache S) (I : World S → Type 0)
    (Fair : ResponseSaver → Request → Type 0) : Type 0 where
  pub ask :
      (w : World S) (rw : ResponseSaver) (req : Request)
      → IsNew rw
      → I w
      → I (record w { calls = w.calls + 1 })
        × ((r : Request)
            → IsFor a.platform req r
            → Fair (run a.platform rw (a.origin w.calls req)) r)
  pub put :
      (w : World S) (rw : ResponseSaver) (r : Request)
      → Fair rw r
      → must_not_store_checked (saved_response rw r) ≡ ok false
      → I w
      → I (record w { store = (a.cache.put_ce w.store (cache_entry a w.now rw r)).0 })
  pub purged :
      (w : World S) (store' : S) (key : Str)
      → a.cache.purge w.store key ≡ returns store'
      → I w
      → I (record w { store = store' })
  pub spawned :
      (w : World S) (rw : ResponseSaver) (r : Request)
      → Fair rw r
      → I w
      → I (record w { tasks = w.tasks ++ update_response rw r ∷ [] })
  pub delayed :
      (w : World S) (n : ℕ) → I w → I (record w { tasks = w.tasks ++ update_later n ∷ [] })
  pub assigned :
      (w : World S) (variables : List CacheUpdate) → I w → I (record w { variables = variables })
  pub time : (w : World S) (now : Time) → I w → I (record w { now = now })

-- From a state with `I`, a program leaves a state with `I` and a result with `P`.
pub record Ensures {S A : Type 0} (I : World S → Type 0) (P : A → Type 0) (m : M S A) : Type 0 where
  pub after : (w w' : World S) (x : A) → I w → m w ≡ returns (x, w') → I w' × P x

abbrev pub Keeps : {S A : Type 0} → (World S → Type 0) → M S A → Type 0
Keeps I m = Ensures I (λ _. Unit {0}) m

-- The property does not depend on the client's writer.
abbrev pub IsWritable : {S : Type 0} → (World S → Type 0) → Type 0
IsWritable {S} I = (w : World S) (client : Client) → I w → I (record w { client = client })

-- The saver has an answer for every request that the origin was asked for.
abbrev pub IsFairFor :
    {S : Type 0}
    → AlwaysCache S
    → (ResponseSaver → Request → Type 0)
    → Request
    → ResponseSaver
    → Type 0
IsFairFor a Fair asked saver = (r : Request) → IsFor a.platform asked r → Fair saver r

panics_never : {A : Type 0} {x : A} → panics ≡ returns x → ⊥
panics_never e = cc

module _ {S : Type 0} {I : World S → Type 0} where
  pub pure-Keeps : {A : Type 0} {P : A → Type 0} → (x : A) → P x → Ensures I P (pure x)
  unfolding pure
  pure-Keeps x p = record {
    after = λ w w' y i e. let (same, kept) = returns_injective e in (rw kept i, rw same p);
  }

  pub gets-Keeps : {A : Type 0} → (f : World S → A) → Keeps I (gets f)
  unfolding gets
  gets-Keeps f = record {
    after = λ w w' y i e. let (same, kept) = returns_injective e in (rw kept i, tt);
  }

  -- A call that does not touch the state gives its result.
  pub lift-Ensures : {A : Type 0} → (c : Call A) → Ensures I (λ x. c ≡ returns x) (lift c)
  unfolding lift
  lift-Ensures panics = record { after = λ w w' y i e. absurd (panics_never e) }
  lift-Ensures (returns c) = record {
    after = λ w w' y i e.
        let (same, kept) = returns_injective e in (rw kept i, ap (λ x. returns x) (sym same));
  }

  pub lift-Keeps : {A : Type 0} → (c : Call A) → Keeps I (lift c)
  lift-Keeps c = record { after = λ w w' y i e. (((lift-Ensures c).after w w' y i e).0, tt) }

  pub modify-Keeps : (f : World S → World S) → ((w : World S) → I w → I (f w)) → Keeps I (modify f)
  unfolding modify
  modify-Keeps f keep = record {
    after = λ w w' y i e. let (same, kept) = returns_injective e in (rw kept (keep w i), tt);
  }

  pub bind-Keeps :
      {A B : Type 0} {P : A → Type 0} {Q : B → Type 0} {m : M S A} {f : A → M S B}
      → Ensures I P m
      → ((x : A) → P x → Ensures I Q (f x))
      → Ensures I Q (m >>= f)
  bind-Keeps {m} {f} first rest = record {
    after = λ w w' y i e.
        let (x, v, e₁, e₂) = >>=-eq-returns m f w w' y e in
        let (i', p) = first.after w v x i e₁ in (rest x p).after v w' y i' e₂;
  }

  pub cond-Keeps :
      {A : Type 0} {P : A → Type 0} {m n : M S A}
      → (b : Bool) → Ensures I P m
      → Ensures I P n
      → Ensures I P (if b then m else n)
  cond-Keeps true p q = p
  cond-Keeps false p q = q

  pub option-Keeps :
      {A B : Type 0} {P : B → Type 0} {n : M S B} {f : A → M S B}
      → (o : Option A) → Ensures I P n
      → ((x : A) → Ensures I P (f x))
      → Ensures I P (elim o [ none ↦ n | some x ↦ f x ])
  option-Keeps none p q = p
  option-Keeps (some x) p q = q x

module _ {S : Type 0} {a : AlwaysCache S} {I : World S → Type 0}
    {Fair : ResponseSaver → Request → Type 0} (inv : Invariant a I Fair) where
  pub ask-Keeps :
      (rw : ResponseSaver) (req : Request)
      → IsNew rw
      → Ensures I (IsFairFor a Fair req) (ask_origin a rw req)
  unfolding ask_origin
  ask-Keeps saver req new = record {
    after = λ w w' x i e.
        let (same, kept) = returns_injective e in
        let (i', fair) = inv.ask w saver req new i in (rw kept i', rw same fair);
  }

  stored-Keeps :
      (saver : ResponseSaver) (r : Request) (w w' : World S) (x : Bool × Bool)
      → Fair saver r
      → I w
      → (answer : Result Bool) → must_not_store_checked (saved_response saver r) ≡ answer
      → write_cache a saver r w ≡ returns (x, w')
      → I w'
  unfolding write_cache put_entry
  stored-Keeps saver r w w' x fair i (ok true) stored e =
      rw (returns_injective (rw (stored, write_cache) at e)).1 i
  stored-Keeps saver r w w' x fair i (ok false) stored e =
      rw (returns_injective (rw (stored, write_cache) at e)).1 (inv.put w saver r fair stored i)
  stored-Keeps saver r w w' x fair i (err y z) stored e =
      rw (returns_injective (rw (stored, write_cache) at e)).1 i

  pub write_cache-Keeps :
      (saver : ResponseSaver) (r : Request) → Fair saver r → Keeps I (write_cache a saver r)
  write_cache-Keeps saver r fair = record {
    after = λ w w' x i e. (stored-Keeps saver r w w' x fair i _ refl e, tt);
  }
