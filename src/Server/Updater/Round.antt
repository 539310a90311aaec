-- ===== src/Server/Updater/Round.antt =====
-- updater.go, updateCache: what a round of its loop does.
use always_cache.Base.{
  [], ◌⊎◌, inl, inr, ◌≡◌, ◌≢◌, refl, arith, Bool-cases, Bool, false, true, not, ◌&&◌,
}
use always_cache.Base.Int.{◌≤ℤ◌, ltb_ℤ}
use always_cache.Go.Strings.{codes, is_empty}
use always_cache.Go.Time.{sub, add}
use always_cache.Go.Panic.{returns}
use always_cache.Key.{method_prefix}
use always_cache.Provider.{CacheEntry, Oldest, ProviderLaws}
use always_cache.Server.State.{AlwaysCache, World, ◌>>=◌, gets, modify}
use always_cache.Server.Total.{heads}
use always_cache.Server.Updater.{update_cache_round, sleep}
use always_cache.Server.Updater.All.{IsRead}
use always_cache.Server.Updater.Entry.{IsPurgeable, IsRefreshed, update_entry-IsRefreshed}

module _ {S : Type 0} (a : AlwaysCache S) where
  abbrev pub oldest : World S → Oldest
  oldest w = a.cache.oldest w.store (method_prefix a.keyer (codes "GET"))

  -- Oldest has no error and gives a key, whose entry expires within the time of one round.
  abbrev pub IsDue : World S → Type 0
  IsDue w =
      ((oldest w).failed ≡ false)
      × ((oldest w).key ≢ [])
      × (sub (oldest w).expires w.now ≤ℤ a.update_timeout)

  -- What the round tests.
  due : World S → Bool
  due w =
      not (oldest w).failed
      && not (is_empty (oldest w).key)
      && not (ltb_ℤ a.update_timeout (sub (oldest w).expires w.now))

  due_iff : (w : World S) → (due w ≡ true → IsDue w) × (due w ≡ false → ¬ IsDue w)
  unfolding due
  due_iff w = (λ e. (ground arith, ground arith, ground arith), λ e h. ground arith)

  module _ {Holds : S → CacheEntry → Type 0} (laws : ProviderLaws a.cache Holds) where
    -- If the key that Oldest gives for GET requests can be read without a panic, and Purge does not
    -- panic for it, a round of updateCache returns, and sends no response head to a client. If Oldest
    -- has no error and gives a key whose entry expires within the update timeout, then PutCE has just
    -- stored, without an error, a whole answer of the origin to the request that is read from the
    -- key, which MustNotStore lets through, under the key of that request with the lines for the
    -- answer's Vary field, or no entry is left under the key that Oldest gave, if the cache provider
    -- keeps the interface's promises. Where that request's key is another one, the old entry may
    -- stay. If no entry is due, the round has slept for the update timeout and done nothing else.
    pub update_cache_round-IsRefreshed :
        (w : World S)
        → IsRead a laws (oldest w).key
        → IsPurgeable a (oldest w).key
        → (w' : World S) × (update_cache_round a w ≡ returns (tt, w'))
          × (heads w'.client.sent ≡ heads w.client.sent)
          × ((IsDue w × IsRefreshed a laws (oldest w).key w')
              ⊎ (¬ IsDue w × (w' ≡ record w { now = add w.now a.update_timeout })))
    unfolding update_cache_round gets ◌>>=◌ due
    update_cache_round-IsRefreshed w (found, known) purge = elim (Bool-cases (due w)) [
      | inl ripe ↦
          let (w', e, silent, refreshed) =
            update_entry-IsRefreshed a laws (oldest w).key found w known purge in
          (w', rw ripe e, silent, inl ((due_iff w).0 ripe, refreshed))
      | inr later ↦ (
        record w { now = add w.now a.update_timeout },
        unfold sleep modify in rw later refl,
        refl,
        inr ((due_iff w).1 later, refl),
      )
    ]
