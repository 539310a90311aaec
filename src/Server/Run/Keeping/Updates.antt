-- ===== src/Server/Run/Keeping/Updates.antt =====
-- updater.go: its operations keep what the actions keep.
use always_cache.Base.{Option, none, some, Bool, not, ◌||◌}
use always_cache.Go.Strings.{Str}
use always_cache.Go.Time.{Duration}
use always_cache.Go.Http.{Request}
use always_cache.Key.{get_key_prefix}
use always_cache.Tee.{ResponseSaver}
use always_cache.Server.State.{
  AlwaysCache, World, ◌>>=◌, gets, modify, lift->>=-eq-returns, returns_injective,
}
use always_cache.Server.Updater.{purge, has, sleep, invalidate_uri, purge_unless}
use always_cache.Server.Run.Keeping.{
  Invariant, Keeps, pure-Keeps, gets-Keeps, lift-Keeps, modify-Keeps, bind-Keeps, cond-Keeps,
}

module _ {S : Type 0} {a : AlwaysCache S} {I : World S → Type 0}
    {Fair : ResponseSaver → Request → Type 0} (inv : Invariant a I Fair) where
  purge-Keeps : (key : Str) → Keeps I (purge a key)
  unfolding purge modify gets ◌>>=◌
  purge-Keeps key = record {
    after = λ w w' x i e.
        let (store', done, rest) =
          lift->>=-eq-returns (a.cache.purge w.store key)
            (λ store'. modify (λ v. record v { store = store' })) w w' x e in
        let (same, kept) = returns_injective rest in (rw kept (inv.purged w store' key done i), tt);
  }

  pub has-Keeps : (key : Str) → Keeps I (has a key)
  unfolding has
  has-Keeps key = bind-Keeps (gets-Keeps _) λ w _. lift-Keeps _

  pub sleep-Keeps : (d : Duration) → Keeps I (sleep a d)
  unfolding sleep
  sleep-Keeps d = modify-Keeps _ (λ w i. inv.time w _ i)

  pub invalidate_uri-Keeps : (found : Option Request) → Keeps I (invalidate_uri a found)
  unfolding invalidate_uri
  invalidate_uri-Keeps none = pure-Keeps tt tt
  invalidate_uri-Keeps (some req) = purge-Keeps (get_key_prefix a.keyer req)

  pub purge_unless-Keeps : (key : Str) (result : Bool × Bool) → Keeps I (purge_unless a key result)
  unfolding purge_unless
  purge_unless-Keeps key result =
      cond-Keeps (result.1 || not result.0) (purge-Keeps key) (pure-Keeps tt tt)
