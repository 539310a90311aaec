-- ===== src/Server/Goroutines/Given.antt =====
-- What the clients have got while goroutines run at the same time.
use always_cache.Base.{Option, none, some, In, ◌≡◌}
use always_cache.Go.Http.{Request}
use always_cache.Provider.{CacheEntry, ProviderLaws}
use always_cache.Tee.{Client}
use always_cache.Server.State.{AlwaysCache}
use always_cache.Server.Run.{fresh_client}
use always_cache.Server.Run.Sound.{IsSound}
use always_cache.Server.Run.Given.{IsGiven}
use always_cache.Server.Goroutines.Giving.{Gives}
use always_cache.Server.Goroutines.Schedule.{Goroutine, System}

module _ {S : Type 0} (a : AlwaysCache S) where
  -- A client has got what its request may be given, a goroutine without a request has sent nothing.
  abbrev pub IsOwed : Option Request → Client → Type 0
  IsOwed none c = c ≡ fresh_client
  IsOwed (some r) c = IsGiven a (a.modify_response r) c

module _ {S : Type 0} (a : AlwaysCache S) {Holds : S → CacheEntry → Type 0}
    (laws : ProviderLaws a.cache Holds) where
  abbrev IsGiving : Goroutine S → Type 0
  IsGiving g = Gives (IsSound a Holds) (IsOwed a g.request) g.client g.program

  -- The shared state is sound, and every goroutine that runs gives its client what it may.
  AreGiving : System S → Type 0
  AreGiving s = IsSound a Holds s.world × ((g : Goroutine S) → In g s.running → IsGiving g)
