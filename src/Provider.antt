-- ===== src/Provider.antt =====
-- cache/cache-provider.go, the interface CacheProvider and the type CacheEntry. The state of a
-- provider is a parameter; a method returns the new state, and `true` for an error.
use always_cache.Base.{Bool, List, In, ◌≡◌, ◌≢◌, ◌⊎◌}
use always_cache.Go.Strings.{Str}
use always_cache.Go.Time.{Time}
use always_cache.Go.Panic.{Call, returns}

pub record CacheEntry : Type 0 where
  pub key : Str
  pub expires : Time
  pub requested_at : Time
  pub received_at : Time
  pub bytes : Str

-- The results of Get and Oldest.
pub record Got : Type 0 where
  pub bytes : Str
  pub found : Bool
  pub failed : Bool

pub record Oldest : Type 0 where
  pub key : Str
  pub expires : Time
  pub failed : Bool

pub record CacheProvider (S : Type 0) : Type 0 where
  pub all_keys : S → Str → List Str
  pub all : S → Str → List CacheEntry × Bool
  pub get : S → Time → Str → Got
  pub put : S → Str → Time → Str → S × Bool
  pub put_ce : S → CacheEntry → S × Bool
  pub oldest : S → Str → Oldest
  pub purge : S → Str → Call S
  pub has : S → Str → Call Bool

-- What the interface promises, for a relation that tells which entries a state holds: Put adds one
-- entry at most, Purge takes the entries of a key away, and All gives entries that are held.
pub record ProviderLaws {S : Type 0} (p : CacheProvider S) (Holds : S → CacheEntry → Type 0)
    : Type 0 where
  pub put_ce_holds :
      (s : S) (ce e : CacheEntry)
      → Holds (p.put_ce s ce).0 e
      → Holds s e ⊎ ((e.key ≡ ce.key) × (e.bytes ≡ ce.bytes))
  pub purge_holds :
      (s s' : S) (key : Str) (e : CacheEntry)
      → p.purge s key ≡ returns s'
      → Holds s' e
      → Holds s e × (e.key ≢ key)
  pub all_holds : (s : S) (prefix : Str) (e : CacheEntry) → In e (p.all s prefix).0 → Holds s e
