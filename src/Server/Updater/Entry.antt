-- ===== src/Server/Updater/Entry.antt =====
-- updater.go, updateEntry: a new answer is stored, or the entry is taken out.
use always_cache.Base.{
  ◌+◌, arith, Bool, true, false, not, ◌||◌, ◌⊎◌, inl, inr, ◌≡◌, ◌≢◌, refl, sym, ◌∙◌, ap, Bool-cases,
  if◌then◌else◌,
}
use always_cache.Base.Int.{pos}
use always_cache.Go.Strings.{Str}
use always_cache.Go.Time.{nanos}
use always_cache.Go.Http.{Request}
use always_cache.Go.Panic.{Call, returns}
use always_cache.Rfc9111.Entry.{Result, ok, err, must_not_store_checked}
use always_cache.Tee.{ResponseSaver, new_silent_saver, run}
use always_cache.Key.{KeyError, get_request_from_key, get_key_prefix, add_vary_keys}
use always_cache.Provider.{CacheEntry, ProviderLaws}
use always_cache.Server.State.{
  AlwaysCache, World, M, ◌>>=◌, ◌>>◌, pure, lift, gets, modify, >>=-eq-returns, lift->>=-eq-returns,
  returns_injective,
}
use always_cache.Server.Store.{
  saved_response, cache_entry, put_entry, write_cache, ask_origin, save_request,
}
use always_cache.Server.Total.{heads, Silent, pure-Total, modify-Total, lift-Total, then-Total}
use always_cache.Server.Silent.{save_request-Total}
use always_cache.Server.Updater.{sleep, purge, purge_unless, save_twice, update_entry}
use always_cache.Server.Updater.Laws.{purge_lem}

not_stored :
    {S : Type 0} {w w' : World S} {failed : Bool}
    → ◌≡◌ {A = Call ((Bool × Bool) × World S)}
        (returns ((false, failed), w))
        (returns ((true, false), w'))
    → ⊥
not_stored e = cc

module _ {S : Type 0} (a : AlwaysCache S) where
  -- The last action was that PutCE stored, without an error, an entry with an answer of the origin to
  -- this request that MustNotStore lets through, under the key of the request with the lines for
  -- the answer's Vary field.
  abbrev pub IsStoredBy : Request → World S → Type 0
  IsStoredBy req w' =
      (v : World S) × (saver : ResponseSaver) × (e : CacheEntry) × (saver
        ≡ run a.platform (new_silent_saver v.now) (a.origin v.calls req))
      × (must_not_store_checked (saved_response saver req) ≡ ok false)
      × (e.key ≡ add_vary_keys (get_key_prefix a.keyer req) req saver.header)
      × (e.bytes ≡ saver.buffer)
      × (a.cache.put_ce v.store e ≡ (w'.store, false))

  put_done :
      (w w' : World S) (e : CacheEntry)
      → put_entry a e w ≡ returns ((true, false), w')
      → a.cache.put_ce w.store e ≡ (w'.store, false)
  unfolding put_entry
  put_done w w' e done =
      let failed : (a.cache.put_ce w.store e).1 ≡ false = ground arith in
      let stored : (a.cache.put_ce w.store e).0 ≡ w'.store = ground arith in
      λ i. (stored i, failed i)

  written-IsStoredBy :
      (req : Request) (v w' : World S) (answer : Result Bool) (saver : ResponseSaver)
      → saver ≡ run a.platform (new_silent_saver v.now) (a.origin v.calls req)
      → must_not_store_checked (saved_response saver req) ≡ answer
      → write_cache a saver req (record v { calls = v.calls + 1 }) ≡ returns ((true, false), w')
      → IsStoredBy req w'
  unfolding cache_entry write_cache
  written-IsStoredBy req v w' (err y z) saver from allowed done =
      absurd (not_stored (rw (allowed, write_cache) at done))
  written-IsStoredBy req v w' (ok true) saver from allowed done =
      absurd (not_stored (rw (allowed, write_cache) at done))
  written-IsStoredBy req v w' (ok false) saver from allowed done =
      let e = cache_entry a v.now saver req in
      (
        v,
        saver,
        e,
        from,
        allowed,
        refl,
        refl,
        put_done (record v { calls = v.calls + 1 }) w' e (rw (allowed, write_cache) at done),
      )

  saved-IsStoredBy :
      (req : Request) (v w' : World S)
      → save_request a req v ≡ returns ((true, false), w')
      → IsStoredBy req w'
  unfolding save_request ask_origin gets ◌>>=◌
  saved-IsStoredBy req v w' done =
      written-IsStoredBy req v w' _ (run a.platform (new_silent_saver v.now) (a.origin v.calls req))
        refl refl done

  save_twice-IsStoredBy :
      (req : Request) (w w' : World S)
      → save_twice a req w ≡ returns ((true, false), w')
      → IsStoredBy req w'
  unfolding save_twice pure
  save_twice-IsStoredBy req w w' e =
      let (first, v, saved, rest) = >>=-eq-returns (save_request a req) _ w w' (true, false) e in
      elim (Bool-cases (not first.0 || first.1)) [
        | inl again ↦
            let (u, x, slept, second) =
              >>=-eq-returns (sleep a (pos nanos)) (λ _. save_request a req) v w' (true, false)
                (rw again at rest) in
            saved-IsStoredBy req x w' second
        | inr fine ↦ saved-IsStoredBy req w w' (saved ∙ rw fine at rest)
      ]

  -- Purge does not panic for the key.
  abbrev pub IsPurgeable : Str → Type 0
  IsPurgeable key = (s : S) → (s' : S) × (a.cache.purge s key ≡ returns s')

  purge-Total : (key : Str) → IsPurgeable key → Silent (purge a key)
  unfolding purge ◌>>=◌ gets lift modify
  purge-Total key purges = record {
    run = λ w.
        let (s', e) = purges w.store in (tt, record w { store = s' }, rw e refl, tt, omega arith);
  }

  again-Total :
      (req : Request) (first : Bool × Bool) (again : Bool)
      → Silent (if again then (sleep a (pos nanos) >> save_request a req) else pure first)
  unfolding sleep
  again-Total req first true =
      then-Total (modify-Total _ 0 (λ w. omega arith)) λ _ _. save_request-Total a req
  again-Total req first false = pure-Total first tt

  save_twice-Total : (req : Request) → Silent (save_twice a req)
  unfolding save_twice
  save_twice-Total req = then-Total (save_request-Total a req) λ first _. again-Total req first _

  purge_unless-Total :
      (key : Str) (result : Bool × Bool) → IsPurgeable key → Silent (purge_unless a key result)
  unfolding purge_unless
  purge_unless-Total key (cached, true) purges = purge-Total key purges
  purge_unless-Total key (true, false) purges = pure-Total tt tt
  purge_unless-Total key (false, false) purges = purge-Total key purges

  -- The attempt for the key that was found.
  abbrev attempt : KeyError ⊎ Request → M S (Bool × Bool)
  attempt found = elim found [ inl e ↦ pure (false, true) | inr req ↦ save_twice a req ]

  attempt-Total : (found : KeyError ⊎ Request) → Silent (attempt found)
  attempt-Total (inl x) = pure-Total (false, true) tt
  attempt-Total (inr req) = save_twice-Total req

  update_entry-Total :
      (key : Str) (found : KeyError ⊎ Request)
      → get_request_from_key a.platform a.keyer key ≡ returns found
      → IsPurgeable key
      → Silent (update_entry a key)
  unfolding update_entry
  update_entry-Total key found known purges =
      then-Total (lift-Total {P = λ _. Unit {0}} _ found known tt)
        λ x _. then-Total (attempt-Total x) λ result _. purge_unless-Total key result purges

  kept-IsStoredBy :
      (found : KeyError ⊎ Request) (result : Bool × Bool) (w v w' : World S)
      → (result.1 || not result.0) ≡ false
      → attempt found w ≡ returns (result, v)
      → v ≡ w'
      → (req : Request) × (found ≡ inr req) × IsStoredBy req w'
  unfolding pure
  kept-IsStoredBy (inl x) (true, false) w v w' kept tried e = cc
  kept-IsStoredBy (inr req) (true, false) w v w' kept tried e =
      (req, refl, save_twice-IsStoredBy req w w' (rw e at tried))
  kept-IsStoredBy found (true, true) w v w' kept tried e = cc
  kept-IsStoredBy found (false, true) w v w' kept tried e = cc
  kept-IsStoredBy found (false, false) w v w' kept tried e = cc

  module _ {Holds : S → CacheEntry → Type 0} (laws : ProviderLaws a.cache Holds) where
    -- An answer to the request of the key has been stored, or no entry has the key.
    abbrev pub IsRefreshed : Str → World S → Type 0
    IsRefreshed key w' =
        ((req : Request) × (get_request_from_key a.platform a.keyer key ≡ returns (inr req))
          × IsStoredBy req w')
        ⊎ ((e : CacheEntry) → Holds w'.store e → e.key ≢ key)

    refreshed :
        (key : Str) (w w' : World S) → update_entry a key w ≡ returns (tt, w') → IsRefreshed key w'
    unfolding update_entry purge_unless pure
    refreshed key w w' done =
        let (found, known, rest) =
          lift->>=-eq-returns (get_request_from_key a.platform a.keyer key)
            (λ found. attempt found >>= purge_unless a key) w w' tt done in
        let (result, v, tried, last) =
          >>=-eq-returns (attempt found) (purge_unless a key) w w' tt rest in
        elim (Bool-cases (result.1 || not result.0)) [
          | inl gone ↦ inr (λ e held. (purge_lem a laws key v w' (rw gone at last) e held).1)
          | inr kept ↦
              let same_world = (returns_injective (rw kept at last)).1 in
              let (req, same, stored) =
                kept-IsStoredBy found result w v w' kept tried (sym same_world) in
              inl (req, known ∙ ap (λ (x : KeyError ⊎ Request). returns x) same, stored)
        ]

    -- If the key can be read without a panic, and Purge does not panic for it, updateEntry returns,
    -- sends no response head to a client, and has refreshed the key.
    pub update_entry-IsRefreshed :
        (key : Str) (found : KeyError ⊎ Request) (w : World S)
        → get_request_from_key a.platform a.keyer key ≡ returns found
        → IsPurgeable key
        → (w' : World S) × (update_entry a key w ≡ returns (tt, w'))
          × (heads w'.client.sent ≡ heads w.client.sent)
          × IsRefreshed key w'
    update_entry-IsRefreshed key found w known purges =
        let (x, w', e, _, silent) = (update_entry-Total key found known purges).run w in
        (w', e, omega (arith, silent), refreshed key w w' e)
