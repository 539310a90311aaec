-- ===== src/Server/Counts.antt =====
-- The response heads that an operation sends to the client, if it returns.
use always_cache.Base.{
  ℕ, ◌+◌, Bool, true, false, Option, none, some, if◌then◌else◌, ◌≡◌, refl, sym, arith, ◌∙◌,
}
use always_cache.Go.Strings.{Str}
use always_cache.Go.Time.{Duration}
use always_cache.Go.Http.{Request, Response}
use always_cache.Go.Panic.{Call, returns, panics}
use always_cache.Rfc9111.Entry.{must_not_reuse_checked}
use always_cache.Rfc9211.{is_empty_reason}
use always_cache.Provider.{CacheEntry}
use always_cache.Server.State.{
  AlwaysCache, World, M, ◌>>=◌, pure, lift, gets, modify, >>=-eq-returns,
}
use always_cache.Server.Total.{heads, Total}
use always_cache.Server.Updater.{purge, has, sleep, invalidate_uri, purge_unless}
use always_cache.Server.Handler.{follow, reuse_or_validate}
use always_cache.Server.Handler.Answers.{IsResponse, reuse-Total}

pub record Counts {S A : Type 0} (n : A → ℕ) (m : M S A) : Type 0 where
  pub count :
      (w w' : World S) (x : A)
      → m w ≡ returns (x, w')
      → heads w'.client.sent ≡ heads w.client.sent + n x

abbrev pub Quiet : {S A : Type 0} → M S A → Type 0
Quiet m = Counts (λ _. 0) m

same_result :
    {S A : Type 0} (n : A → ℕ) (w v w' : World S) (x y : A)
    → ◌≡◌ {A = Call (A × World S)} (returns (x, v)) (returns (y, w'))
    → heads v.client.sent ≡ heads w.client.sent + n x
    → heads w'.client.sent ≡ heads w.client.sent + n y
same_result n w v w' x y e h = cc

module _ {S : Type 0} where
  pub Total-Counts :
      {A : Type 0} {P : A → Type 0} {n : A → ℕ} {m : M S A} → Total P n m → Counts n m
  Total-Counts {n} {m} total = record {
    count =
        λ w w' y e. let (x, v, e', _, h) = total.run w in same_result n w v w' x y (sym e' ∙ e) h;
  }

  pub gets-Counts : {A : Type 0} (f : World S → A) → Quiet (gets f)
  unfolding gets
  gets-Counts f = record { count = λ w w' x e. ground arith }

  called_lem :
      {A : Type 0} (c : Call A) (w w' : World S) (x : A)
      → lift c w ≡ returns (x, w')
      → heads w'.client.sent ≡ heads w.client.sent + 0
  unfolding lift
  called_lem panics w w' x e = cc
  called_lem (returns y) w w' x e = ground arith

  pub lift-Counts : {A : Type 0} (c : Call A) → Quiet (lift {S = S} c)
  lift-Counts c = record { count = called_lem c }

  pub modify-Counts :
      (f : World S → World S)
      → ((w : World S) → heads (f w).client.sent ≡ heads w.client.sent)
      → Quiet (modify f)
  unfolding modify
  modify-Counts f h = record { count = λ w w' x e. ground (arith, h w) }

  pub bind-Counts :
      {A B : Type 0} {n : B → ℕ} {m : M S A} {f : A → M S B}
      → Quiet m
      → ((x : A) → Counts n (f x))
      → Counts n (m >>= f)
  bind-Counts {m} {f} first others = record {
    count = λ w w' y e.
        let (x, v, e₁, e₂) = >>=-eq-returns m f w w' y e in
        omega (arith, first.count w v x e₁, (others x).count v w' y e₂);
  }

module _ {S : Type 0} (a : AlwaysCache S) where
  pub purge-Counts : (key : Str) → Quiet (purge a key)
  unfolding purge
  purge-Counts key =
      bind-Counts (gets-Counts _)
        λ w. bind-Counts (lift-Counts _) λ store'. modify-Counts _ (λ v. refl)

  pub has-Counts : (key : Str) → Quiet (has a key)
  unfolding has
  has-Counts key = bind-Counts (gets-Counts _) λ w. lift-Counts _

  pub sleep-Counts : (d : Duration) → Quiet (sleep a d)
  unfolding sleep
  sleep-Counts d = modify-Counts _ (λ w. refl)

  pub invalidate_uri-Counts : (req : Option Request) → Quiet (invalidate_uri a req)
  unfolding invalidate_uri pure
  invalidate_uri-Counts none = record { count = λ w w' x e. ground arith }
  invalidate_uri-Counts (some req) = purge-Counts _

  pub purge_unless-Counts : (key : Str) (result : Bool × Bool) → Quiet (purge_unless a key result)
  unfolding purge_unless pure
  purge_unless-Counts key (cached, true) = purge-Counts key
  purge_unless-Counts key (false, false) = purge-Counts key
  purge_unless-Counts key (true, false) = record { count = λ w w' x e. ground arith }

  module _ (origin : (n : ℕ) (req : Request) → IsResponse (a.origin n req)) where
    judged-Counts :
        (r : Request) (ce : CacheEntry) (w : World S) (found : Option Response)
        → Counts
            (λ reason. if is_empty_reason reason then 1 else 0)
            (lift (must_not_reuse_checked a.platform w.now r found ce.requested_at ce.received_at)
              >>= follow a r ce found)
    judged-Counts r ce w none =
        unfold must_not_reuse_checked in
        unfold ◌>>=◌ in unfold lift in record { count = λ u w' x e. cc }
    judged-Counts r ce w (some res) =
        bind-Counts (lift-Counts _) λ answer. Total-Counts (reuse-Total a origin r ce res answer)

    -- A stored response that is tried sends one head if the trial ends with no forward reason.
    pub reuse_or_validate-Counts :
        (r : Request) (ce : CacheEntry)
        → Counts (λ reason. if is_empty_reason reason then 1 else 0) (reuse_or_validate a r ce)
    unfolding reuse_or_validate
    reuse_or_validate-Counts r ce =
        bind-Counts (gets-Counts _)
          λ w. bind-Counts (lift-Counts _) λ found. judged-Counts r ce w found
