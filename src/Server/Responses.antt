-- ===== src/Server/Responses.antt =====
-- always-cache.go: getResponses, which reads the entries with the serializer.
use always_cache.Base.{
  Bool, true, false, List, [], ◌∷◌, ◌++◌, Option, none, some, ◌≡◌, refl, In, inl, inr,
  if◌then◌else◌,
}
use always_cache.Go.Http.{Request}
use always_cache.Go.Panic.{Call, returns, panics, ◌>>=◌, Call-cases}
use always_cache.Key.{get_key_prefix}
use always_cache.Provider.{CacheEntry}
use always_cache.Serializer.{Wire, TimedResponse, bytes_to_stored_response, delim}
use always_cache.Serializer.Delimiter.{Omits}
use always_cache.Serializer.Errors.{bytes_to_stored_response-eq-panics}
use always_cache.Server.State.{AlwaysCache, World}

abbrev append_read : List TimedResponse → Option TimedResponse → List TimedResponse
append_read responses none = responses
append_read responses (some res) = responses ++ res ∷ []

module _ (wire : Wire) where
  -- The loop: an entry that is read with an error is left out.
  unfoldable pub read_entries : List TimedResponse → List CacheEntry → Call (List TimedResponse)
  read_entries responses [] = returns responses
  read_entries responses (e ∷ entries) = bytes_to_stored_response wire e.bytes >>= λ read.
      read_entries (append_read responses read) entries

  -- The responses, and `true` for an error.
  unfoldable pub get_responses :
      {S : Type 0} → AlwaysCache S → World S → Request → Call (List TimedResponse × Bool)
  unfolding read_entries
  get_responses a w r =
      let (entries, failed) = a.cache.all w.store (get_key_prefix a.keyer r) in
      if failed
      then returns ([], true)
      else read_entries [] entries >>= λ responses. returns (responses, false)

  read_entries-eq-panics :
      (responses : List TimedResponse) (entries : List CacheEntry) (e : CacheEntry)
      → In e entries
      → Omits delim e.bytes
      → read_entries responses entries ≡ panics
  unfolding read_entries
  read_entries-eq-panics responses [] e h omits = absurd h
  read_entries-eq-panics responses (f ∷ entries) e (inl here) omits =
      rw (← here, bytes_to_stored_response-eq-panics wire e.bytes omits) refl
  read_entries-eq-panics responses (f ∷ entries) e (inr later) omits =
      elim (Call-cases (bytes_to_stored_response wire f.bytes)) [
        | inl panicked ↦ rw panicked refl
        | inr (read, e') ↦
            rw e' (read_entries-eq-panics (append_read responses read) entries e later omits)
      ]

  -- If the cache lists, without an error, an entry whose bytes have no delimiter among those of the
  -- request, getResponses panics, wherever the entry stands.
  get_responses-eq-panics :
      {S : Type 0} (a : AlwaysCache S) (w : World S) (r : Request) (e : CacheEntry)
      → (a.cache.all w.store (get_key_prefix a.keyer r)).1 ≡ false
      → In e (a.cache.all w.store (get_key_prefix a.keyer r)).0
      → Omits delim e.bytes
      → get_responses a w r ≡ panics
  unfolding get_responses
  get_responses-eq-panics a w r e listed among omits =
      rw (listed, read_entries-eq-panics [] _ e among omits) refl
