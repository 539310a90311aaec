-- ===== src/Server/Handler/Expiring.antt =====
-- always-cache.go: how long an entry answers requests.
use always_cache.Base.{none, some, ◌≡◌}
use always_cache.Base.Int.{◌≤ℤ◌, ◌<ℤ◌}
use always_cache.Go.Time.{Time}
use always_cache.Go.Http.{Request, Response}
use always_cache.Go.Panic.{returns}
use always_cache.Rfc9211.{empty}
use always_cache.Rfc9111.Entry.{ok, must_not_reuse_checked}
use always_cache.Rfc9111.Entry.Laws.{must_not_reuse_checked-eq-ok_iff}
use always_cache.Rfc9111.Freshness.{freshness_lifetime}
use always_cache.Rfc9111.Freshness.Laws.{
  FitsAge, is_fresh-eq-true_iff, is_fresh-get_expiration, get_expiration_cong,
}
use always_cache.Tee.{ResponseSaver}
use always_cache.Server.State.{AlwaysCache}
use always_cache.Server.Store.{saved_response, cache_entry}

module _ {S : Type 0} (a : AlwaysCache S) where
  -- MustNotReuse lets the response of an entry that writeCache has made be reused at once only before
  -- the time at which the entry expires, if the response is read back with its fields, its lifetime
  -- does not depend on the clock, the clock has not gone back, and no difference and no sum of its
  -- age leaves the range of a duration.
  pub must_not_reuse_checked-cache_entry :
      (client r : Request) (saver : ResponseSaver) (stored : Response) (received now : Time)
      → stored.header ≡ saver.header
      → received ≤ℤ now
      → freshness_lifetime a.platform now stored ≡ freshness_lifetime a.platform received stored
      → FitsAge a.platform now stored received saver.created_at
      → must_not_reuse_checked a.platform now client
          (some stored)
          (cache_entry a received saver r).requested_at
          (cache_entry a received saver r).received_at
        ≡ returns (ok (empty, none))
      → now <ℤ (cache_entry a received saver r).expires
  unfolding cache_entry
  must_not_reuse_checked-cache_entry client r saver stored received now fields later lasts fits e =
      let (original, _, _, _, _, _, reusable) =
        (must_not_reuse_checked-eq-ok_iff a.platform now client stored saver.created_at received).0
          e in
      let before =
        is_fresh-get_expiration a.platform now stored received saver.created_at later lasts fits (
          (is_fresh-eq-true_iff a.platform now stored received saver.created_at).1
            reusable.fresh) in
      let same = get_expiration_cong a.platform received (saved_response saver r) stored fields in
      rw same at before
