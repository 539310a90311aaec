-- ===== src/Server/Run/Sound.antt =====
-- What the cache holds while the proxy runs, for a provider that keeps the interface's promises.
use always_cache.Base.{
  ℕ, false, List, [], ◌∷◌, ◌++◌, In, In-append, In-append_left, In-append_right, inl, inr, ◌≡◌,
  refl,
}
use always_cache.Go.Http.{Request}
use always_cache.Rfc9111.Entry.{ok, must_not_store_checked}
use always_cache.Key.{get_key_prefix, add_vary_keys}
use always_cache.Provider.{CacheEntry, ProviderLaws}
use always_cache.Tee.{ResponseSaver, run}
use always_cache.Server.State.{AlwaysCache, Task, update_response, update_later, World}
use always_cache.Server.Store.{saved_response, cache_entry}
use always_cache.Server.Run.{}
use always_cache.Server.Run.Keeping.{Invariant, IsNew}
use always_cache.Server.Asked.{IsFor}
use always_cache.Server.Goroutines
use always_cache.Server.Goroutines.Alone.{}
use always_cache.Server.Goroutines.Guards.{Guarded, run_task-Guards}

module _ {S : Type 0} (a : AlwaysCache S) where
  -- The saver has one whole answer of the origin for the request, and nothing else.
  abbrev pub IsAnswer : ResponseSaver → Request → Type 0
  IsAnswer rw r =
      (saver : ResponseSaver) × (n : ℕ) × (asked : Request) × IsNew saver
      × IsFor a.platform asked r
      × (rw ≡ run a.platform saver (a.origin n asked))

  -- The entry is an answer of the origin for a request, which MustNotStore lets through, under the key
  -- of this very request with its fields that the answer's Vary field names.
  abbrev pub IsStored : CacheEntry → Type 0
  IsStored e =
      (rw : ResponseSaver) × (r : Request) × IsAnswer rw r
      × (must_not_store_checked (saved_response rw r) ≡ ok false)
      × (e.key ≡ add_vary_keys (get_key_prefix a.keyer r) r rw.header)
      × (e.bytes ≡ rw.buffer)

  abbrev pub IsFair : Task → Type 0
  IsFair (update_response rw r) = IsAnswer rw r
  IsFair (update_later n) = Unit {0}

  -- All that the cache holds is stored rightly, and the waiting tasks have whole answers.
  abbrev pub IsSound : (S → CacheEntry → Type 0) → World S → Type 0
  IsSound Holds w =
      ((e : CacheEntry) → Holds w.store e → IsStored e) × ((t : Task) → In t w.tasks → IsFair t)

IsFair-after :
    {S : Type 0} (a : AlwaysCache S) (ts : List Task) (t u : Task)
    → ((v : Task) → In v ts → IsFair a v)
    → IsFair a t
    → In u (ts ++ t ∷ [])
    → IsFair a u
IsFair-after a ts t u before new h = elim (In-append u ts (t ∷ []) h) [
  | inl old ↦ before u old
  | inr (inl same) ↦ rw same new
  | inr (inr nothing) ↦ absurd nothing
]

-- A task with a whole answer keeps what the actions keep.
pub run_fair-Guards :
    {S : Type 0} {a : AlwaysCache S} {I : World S → Type 0} (inv : Invariant a I (IsAnswer a))
    (t : Task)
    → IsFair a t
    → Guarded I (Goroutines.run_task a t)
run_fair-Guards inv (update_response rw r) fair = run_task-Guards inv (update_response rw r) fair
run_fair-Guards inv (update_later n) fair = run_task-Guards inv (update_later n) tt

module _ {S : Type 0} (a : AlwaysCache S) {Holds : S → CacheEntry → Type 0}
    (laws : ProviderLaws a.cache Holds) where
  pub IsSound-Invariant : Invariant a (IsSound a Holds) (IsAnswer a)
  unfolding cache_entry
  IsSound-Invariant = record {
    ask = λ w rw req new i. (i, λ r asked. (rw, w.calls, req, new, asked, refl));
    put = λ w rw r fair allowed i. (
      λ e held. elim (laws.put_ce_holds w.store (cache_entry a w.now rw r) e held) [
        | inl old ↦ i.0 e old
        | inr (key, bytes) ↦ (rw, r, fair, allowed, key, bytes)
      ],
      i.1,
    );
    purged = λ w store' key done i.
        (λ e held. i.0 e (laws.purge_holds w.store store' key e done held).0, i.1);
    spawned =
        λ w rw r fair i. (i.0, λ t h. IsFair-after a w.tasks (update_response rw r) t i.1 fair h);
    delayed = λ w n i. (i.0, λ t h. IsFair-after a w.tasks (update_later n) t i.1 tt h);
    assigned = λ w variables i. i;
    time = λ w now i. i;
  }

  -- A task that is taken out is fair, and so are the others.
  pub taken-IsSound :
      (w : World S) (before after : List Task) (t : Task)
      → w.tasks ≡ before ++ t ∷ after
      → IsSound a Holds w
      → IsFair a t × IsSound a Holds (record w { tasks = before ++ after })
  taken-IsSound w before after t among i =
      let fair : (u : Task) → In u (before ++ t ∷ after) → IsFair a u = λ u h. i.1 u (rw among h) in
      let rest : (u : Task) → In u (before ++ after) → IsFair a u = λ u h.
        elim (In-append u before after h) [
          | inl left ↦ fair u (In-append_left u before (t ∷ after) left)
          | inr right ↦ fair u (In-append_right u before (t ∷ after) (inr right))
        ] in
      (fair t (In-append_right t before (t ∷ after) (inl refl)), (i.0, rest))
