-- ===== src/Server/Handler/Answering.antt =====
-- Every safe request is answered once.
use always_cache.Base.{
  ℕ, ◌+◌, Bool, true, false, List, [], ◌∷◌, if◌then◌else◌, ◌≡◌, refl, arith, All,
}
use always_cache.Go.Strings.{Str}
use always_cache.Go.Http.{Request, Response}
use always_cache.Go.Panic.{returns}
use always_cache.CacheUpdate.{get_cache_updates}
use always_cache.Rfc9111.Reuse.{unsafe_request}
use always_cache.Rfc9111.Invalidation.Laws.{get_invalidate_uris_safe}
use always_cache.Rfc9211.{is_empty_reason}
use always_cache.Provider.{CacheEntry}
use always_cache.Tee.{ResponseSaver}
use always_cache.Server.State.{AlwaysCache, update_response, World, ◌>>=◌, pure, gets, spawn}
use always_cache.Server.Store.{get_responses_for_uri}
use always_cache.Server.Updater.{
  revalidate_uris, invalidate_uris, save_updates, update_if_needed, update_response_and_locations,
}
use always_cache.Server.Handler.{store_answer, is_redirect, proxy, try_entries, serve_http}
use always_cache.Server.Silent.{write_cache-Total, spawn-Total}
use always_cache.Server.Total.{
  heads, Total, Silent, pure-Total, lift-Total, modify-Total, bind-Total, then-Total, weaken-Total,
}
use always_cache.Server.Handler.Answers.{
  IsResponse, IsReadable, ask_client-Total, reuse_or_validate-Total,
}

module _ {S : Type 0} (a : AlwaysCache S)
    (origin : (n : ℕ) (req : Request) → IsResponse (a.origin n req)) where
  invalidated-Total :
      (updates : Bool) (uris : List Str)
      → uris ≡ []
      → Silent (if updates then revalidate_uris a uris else invalidate_uris a uris)
  unfolding revalidate_uris invalidate_uris
  invalidated-Total true uris e = rw e (pure-Total tt tt)
  invalidated-Total false uris e = rw e (pure-Total tt tt)

  unasked :
      (r : Request) (res : Response)
      → unsafe_request r ≡ false
      → get_cache_updates a.platform r r.url res ≡ []
  unfolding get_cache_updates
  unasked r res safe = rw safe

  update_if_needed-Total :
      (r : Request) (res : Response) → unsafe_request r ≡ false → Silent (update_if_needed a r res)
  unfolding update_if_needed
  update_if_needed-Total r res safe =
      then-Total
        (lift-Total {P = λ uris. uris ≡ []} _ _
          (get_invalidate_uris_safe a.platform r res (rw safe)) refl)
        λ uris none_left.
          then-Total (invalidated-Total a.updates uris none_left)
            λ _ _. rw (unasked r res safe) (unfold save_updates in pure-Total tt tt)

  kept-Total :
      (redirect : Bool) (saver : ResponseSaver) (r : Request)
      → unsafe_request r ≡ false
      → Silent (
          if redirect
          then update_response_and_locations a saver r
          else spawn (update_response saver r))
  unfolding update_response_and_locations
  kept-Total true saver r safe =
      then-Total (write_cache-Total a saver r) λ _ _. update_if_needed-Total r _ safe
  kept-Total false saver r safe = spawn-Total (update_response saver r)

  proxy-Total :
      (r : Request) → unsafe_request r ≡ false → Total (λ _. Unit {0}) (λ _. 1) (proxy a r)
  unfolding proxy store_answer
  proxy-Total r safe = then-Total (modify-Total _ 0 (λ w. omega arith)) λ _ _.
      bind-Total (ask_client-Total a origin 0 r)
        (λ saver final.
          weaken-Total (kept-Total (is_redirect saver.status) saver r safe) (λ _ _. (final, refl)))
        (λ saver _ final. (tt, ground arith))

  ended-Total :
      (answered : Bool) (r : Request) (entries : List CacheEntry)
      → Total (λ _. Unit {0}) (λ _. 1) (try_entries a r entries)
      → Total
          (λ _. Unit {0})
          (λ _. if answered then 0 else 1)
          (if answered then pure tt else try_entries a r entries)
  ended-Total true r entries others = pure-Total tt tt
  ended-Total false r entries others = others

  try_entries-Total :
      (r : Request) (entries : List CacheEntry)
      → unsafe_request r ≡ false
      → All (IsReadable a) entries
      → Total (λ _. Unit {0}) (λ _. 1) (try_entries a r entries)
  unfolding try_entries
  try_entries-Total r [] safe readable = proxy-Total r safe
  try_entries-Total r (ce ∷ entries) safe (read, readable) =
      let others = try_entries-Total r entries safe readable in
      bind-Total (reuse_or_validate-Total a origin r ce read)
        (λ reason _. ended-Total (is_empty_reason reason) r entries others)
        (λ reason _ _. (tt, ground arith))

  -- A safe request, as the request modifier leaves it, is answered without a panic: if the origin
  -- answers every request with some fields, one status other than 0 and a body, and every entry
  -- that the cache lists for the request can be read, then ServeHTTP returns, and the client has
  -- got exactly one response head.
  pub serve_http-heads :
      (client : Request) (w : World S)
      → unsafe_request (a.modify_response client) ≡ false
      → All (IsReadable a) (get_responses_for_uri a w (a.modify_response client))
      → (w' : World S) × (serve_http a client w ≡ returns (tt, w'))
        × (heads w'.client.sent ≡ heads w.client.sent + 1)
  unfolding serve_http ◌>>=◌ gets
  serve_http-heads client w safe readable =
      let (x, w', e, _, h) =
        (try_entries-Total (a.modify_response client)
            (get_responses_for_uri a w (a.modify_response client)) safe readable).run
          w in
      (w', e, h)
