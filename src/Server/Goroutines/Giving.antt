-- ===== src/Server/Goroutines/Giving.antt =====
-- What the goroutine of a request gives to its client, whatever others do between its actions.
use always_cache.Base.{
  true, false, List, [], ◌∷◌, In, inl, inr, ◌⊎◌, if◌then◌else◌, ◌≡◌, refl, ap, ◌∙◌,
}
use always_cache.Go.Http.{Request}
use always_cache.Go.Panic.{Call, returns, panics}
use always_cache.Provider.{CacheEntry, ProviderLaws}
use always_cache.Rfc9211.{FwdReason, is_empty_reason, uri_miss, new_cache_status, set_forward}
use always_cache.Tee.{Client, ResponseSaver}
use always_cache.Server.State.{AlwaysCache, World, M, gets, modify, returns_injective}
use always_cache.Server.Store.{get_responses_for_uri}
use always_cache.Server.Handler
use always_cache.Server.Handler.{ask_client, with_cache_status}
use always_cache.Server.Run.{fresh_client}
use always_cache.Server.Run.Keeping.{Invariant, modify-Keeps}
use always_cache.Server.Run.Keeping.Answers.{ask_client-Keeps, reuse-Keeps}
use always_cache.Server.Run.Sound.{IsSound, IsSound-Invariant, IsAnswer, IsStored}
use always_cache.Server.Run.Served.{listed}
use always_cache.Server.Run.Given.{IsGiven, nothing, by_origin, forwarding}
use always_cache.Server.Run.Given.Trials.{ask_client-eq-returns, reuse_or_validate-IsGiven}
use always_cache.Server.Goroutines.{
  Prog, stop, crash, act, K, pure, left, rest, atom, store_answer, proxy, try_entries, serve_http,
}
use always_cache.Server.Goroutines.Guards.{Safe, store_answer-Guards}

-- The property, and what the client has got.
abbrev pub Settled : {S : Type 0} → (World S → Type 0) → Client → World S → Type 0
Settled I c w = I w × (w.client ≡ c)

module _ {S : Type 0} (I : World S → Type 0) (Q : Client → Type 0) where
  -- While the others keep the property `I` of the shared state, so does the program, and its client
  -- has always got what `Q` allows.
  abbrev pub Gives : Client → Prog S → Type 0
  Gives c stop = Q c
  Gives c crash = Q c
  Gives c (act f k) =
      Q c × ((w : World S) → I w → w.client ≡ c → I (f w) × Gives (f w).client (k w))

  pub Gives-allowed : (c : Client) (p : Prog S) → Gives c p → Q c
  Gives-allowed c stop given = given
  Gives-allowed c crash given = given
  Gives-allowed c (act f k) given = given.0

  -- A program that keeps what its client has got.
  pub Settled-Gives : (c : Client) (p : Prog S) → Q c → Safe (Settled I c) p → Gives c p
  Settled-Gives c stop given safe = given
  Settled-Gives c crash given safe = given
  Settled-Gives c (act f k) given safe = (
    given,
    λ w i same.
        let ((kept, still), others) = safe w (i, same) in
        (kept, rw still (Settled-Gives c (k w) given others)),
  )

  returned_Gives :
      {A : Type 0} (c : A → Prog S) (w : World S) (answer : Call (A × World S))
      → I w
      → Q w.client
      → ((w' : World S) (x : A) → answer ≡ returns (x, w') → I w' × Gives w'.client (c x))
      → I (left w answer) × Gives (left w answer).client (rest c answer)
  returned_Gives c w panics i given go = (i, given)
  returned_Gives c w (returns (x, w')) i given go = go w' x refl

  pub atom-Gives :
      {A : Type 0} (m : M S A) (c : A → Prog S) (client : Client)
      → Q client
      → ((w w' : World S) (x : A)
          → I w
          → w.client ≡ client
          → m w ≡ returns (x, w')
          → I w' × Gives w'.client (c x))
      → Gives client (atom m c)
  unfolding atom
  atom-Gives m c client given go =
      (given, λ w i same. returned_Gives c w (m w) i (rw same given) (λ w' x e. go w w' x i same e))

module _ {S : Type 0} {a : AlwaysCache S} {I : World S → Type 0}
    {Fair : ResponseSaver → Request → Type 0} (inv : Invariant a I Fair) where
  -- The actions that keep the shared state do not touch the client.
  pub Settled-Invariant : (c : Client) → Invariant a (Settled I c) Fair
  Settled-Invariant c = record {
    ask = λ w rw req new i. let (kept, fair) = inv.ask w rw req new i.0 in ((kept, i.1), fair);
    put = λ w rw r fair allowed i. (inv.put w rw r fair allowed i.0, i.1);
    purged = λ w store' key done i. (inv.purged w store' key done i.0, i.1);
    spawned = λ w rw r fair i. (inv.spawned w rw r fair i.0, i.1);
    delayed = λ w n i. (inv.delayed w n i.0, i.1);
    assigned = λ w variables i. (inv.assigned w variables i.0, i.1);
    time = λ w now i. (inv.time w now i.0, i.1);
  }

module _ {S : Type 0} (a : AlwaysCache S) {Holds : S → CacheEntry → Type 0}
    (laws : ProviderLaws a.cache Holds) (r : Request) where
  abbrev Allows : Client → Prog S → Type 0
  Allows = Gives (IsSound a Holds) (IsGiven a r)

  sound : Invariant a (IsSound a Holds) (IsAnswer a)
  sound = IsSound-Invariant a laws

  store_answer-Allows :
      (saver : ResponseSaver) (c : Client)
      → IsAnswer a saver r
      → IsGiven a r c
      → Allows c (store_answer a saver r (λ x. stop))
  store_answer-Allows saver c fair given =
      Settled-Gives (IsSound a Holds) (IsGiven a r) c _ given (
        (store_answer-Guards (Settled-Invariant sound c) saver r fair).guard (λ x. stop)
          (λ x p. tt))

  asked-Allows :
      Allows forwarding (atom (ask_client a 0 r) (λ saver. store_answer a saver r (λ x. stop)))
  asked-Allows = atom-Gives _ _ _ _ forwarding (nothing refl) λ w w' saver i new e.
      let (kept, fair) =
        (ask_client-Keeps sound (λ v client holds. holds) 0 r).after w w' saver i e in
      let (same, given, time) = ask_client-eq-returns a 0 r w w' saver e in
      (
        kept,
        store_answer-Allows saver w'.client (fair r (inl refl)) (by_origin w (rw new at given)),
      )

  client_forwarding :
      (w w' : World S) (x : Unit {0})
      → w.client ≡ fresh_client
      → modify (with_cache_status (set_forward uri_miss new_cache_status)) w ≡ returns (x, w')
      → w'.client ≡ forwarding
  unfolding modify
  client_forwarding w w' x new e =
      ap (λ (v : World S). v.client) (returns_injective e).1 ∙ rw new refl

  proxy-Allows : Allows fresh_client (proxy a r (λ x. stop))
  unfolding proxy
  proxy-Allows = atom-Gives _ _ _ _ fresh_client (nothing refl) λ w w' x i new e.
      let (kept, _) =
        (modify-Keeps {I = IsSound a Holds} (with_cache_status _) (λ v j. j)).after w w' x i e in
      (kept, rw (client_forwarding w w' x new e) asked-Allows)

  after_trial :
      (k : K S (Unit {0})) (c : Client) (reason : FwdReason)
      → Allows fresh_client (k (λ x. stop))
      → ((is_empty_reason reason ≡ true) × IsGiven a r c)
        ⊎ ((is_empty_reason reason ≡ false) × (c ≡ fresh_client))
      → Allows c ((if is_empty_reason reason then pure tt else k) (λ x. stop))
  after_trial k c reason others (inl (answered, given)) = rw answered given
  after_trial k c reason others (inr (missed, new)) = rw (missed, new) others

  tried :
      (ce : CacheEntry) (w w' : World S) (reason : FwdReason)
      → w.client ≡ fresh_client
      → IsStored a ce
      → Handler.reuse_or_validate a r ce w ≡ returns (reason, w')
      → ((is_empty_reason reason ≡ true) × IsGiven a r w'.client)
        ⊎ ((is_empty_reason reason ≡ false) × (w'.client ≡ fresh_client))
  tried ce w w' reason new right e =
      elim (reuse_or_validate-IsGiven a r ce w w' reason new right e) [
        | inl done ↦ inl done
        | inr (missed, same) ↦ inr (missed, ap (λ (v : World S). v.client) same ∙ new)
      ]

  try_entries-Allows :
      (entries : List CacheEntry)
      → ((ce : CacheEntry) → In ce entries → IsStored a ce)
      → Allows fresh_client (try_entries a r entries (λ x. stop))
  unfolding try_entries
  try_entries-Allows [] right = proxy-Allows
  try_entries-Allows (ce ∷ entries) right =
      let others = try_entries-Allows entries (λ e h. right e (inr h)) in
      atom-Gives _ _ _ _ fresh_client (nothing refl) λ w w' reason i new e.
        let (kept, _) = (reuse-Keeps sound (λ v client holds. holds) r ce).after w w' reason i e in
        (
          kept,
          after_trial _ w'.client reason others (tried ce w w' reason new (right ce (inl refl)) e),
        )

module _ {S : Type 0} (a : AlwaysCache S) {Holds : S → CacheEntry → Type 0}
    (laws : ProviderLaws a.cache Holds) (r : Request) where
  -- A new request gets only what it may be given.
  pub serve_http-Gives :
      Gives
        (IsSound a Holds)
        (IsGiven a (a.modify_response r))
        fresh_client
        (serve_http a r (λ x. stop))
  unfolding serve_http gets
  serve_http-Gives = atom-Gives _ _ _ _ fresh_client (nothing refl) λ w w' entries i new e.
      let (same, kept) = returns_injective e in
      let right : (ce : CacheEntry)
          → In ce (get_responses_for_uri a w (a.modify_response r))
          → IsStored a ce =
        λ ce h. i.0 ce (laws.all_holds w.store _ ce (listed a w (a.modify_response r) ce h)) in
      (rw kept i, rw (kept, new, same) (try_entries-Allows a laws (a.modify_response r) _ right))
