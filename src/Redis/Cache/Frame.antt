-- ===== src/Redis/Cache/Frame.antt =====
-- What `invalidateCache('auctions:active:*')` of server/src/shared/redis/redis.service.ts leaves alone.
use bid_battle.Platform.Redis.{RedisKey, key_eq, IsCached}
use bid_battle.Platform.Effects.{Platform, advance, Outcome, request, World}
use bid_battle.Prelude.{false, ℕ, All, ◌≡◌, refl, arith, zero, suc, List, [], ◌∷◌}
use bid_battle.Redis.Cache.{invalidate_cache, scan_loop, del_all}

-- From one world to the next, nothing but the store has changed, and not the key `j` of it.
pub record Keeps {P : Platform} (j : RedisKey) (w w' : World P) : Type 0 where
  pub rows_kept : w'.rows ≡ w.rows
  pub jobs_kept : w'.jobs ≡ w.jobs
  pub sent_kept : w'.sent ≡ w.sent
  pub now_kept : w'.now ≡ w.now
  pub key_kept : P.redis.get j w'.store ≡ P.redis.get j w.store

key_eq_cached : (j k : RedisKey) → (IsCached j → ⊥) → IsCached k → key_eq k j ≡ false
key_eq_cached (RedisKey.cached t) k n h = absurd (n tt)
key_eq_cached j (RedisKey.cached t) n h = ground arith
key_eq_cached _ k n h = ground arith

module _ (P : Platform) (j : RedisKey) (apart : IsCached j → ⊥) where
  get-del_all :
      (ks : List RedisKey) (s : P.redis.Store)
      → All IsCached ks
      → P.redis.get j (del_all P ks s) ≡ P.redis.get j s
  unfolding del_all
  get-del_all [] s h = refl
  get-del_all (k ∷ ks) s h = ground (
    arith,
    get-del_all ks (P.redis.del k s) h.1,
    P.redis.get-del j k s,
    key_eq_cached j k apart h.0,
  )

  scan_loop-Keeps :
      (n cursor : ℕ) (w : World P) → Keeps j w (scan_loop P n cursor "auctions:active:*" w).1
  unfolding scan_loop request
  scan_loop-Keeps zero cursor w = ground arith
  scan_loop-Keeps (suc n) cursor w =
      let page = P.redis.scan cursor "auctions:active:*" w.store in
      let swept : World P = record (advance (advance w)) { store = del_all P page.1 w.store } in
      ground (
        arith,
        get-del_all page.1 w.store (P.redis.scan_lists cursor w.store),
        scan_loop-Keeps n page.0 (advance w),
        scan_loop-Keeps n page.0 swept,
      )

  pub invalidate_cache-Keeps :
      (w : World P) → Keeps j w (invalidate_cache P "auctions:active:*" w).1
  unfolding invalidate_cache
  invalidate_cache-Keeps w = ground (arith, scan_loop-Keeps (P.redis.rounds w.store) 0 w)

pub invalidate_cache_ok :
    (P : Platform) (w : World P) → (invalidate_cache P "auctions:active:*" w).0 ≡ Outcome.ok tt
unfolding invalidate_cache
invalidate_cache_ok P w = ground arith

scan_loop_healthy :
    (P : Platform) (n cursor : ℕ) (w : World P)
    → w.faults ≡ []
    → (scan_loop P n cursor "auctions:active:*" w).1.faults ≡ []
unfolding scan_loop request
scan_loop_healthy P zero cursor w f = ground arith
scan_loop_healthy P (suc n) cursor w f =
    let page = P.redis.scan cursor "auctions:active:*" w.store in
    let swept : World P = record (advance (advance w)) { store = del_all P page.1 w.store } in
    ground (arith, scan_loop_healthy P n page.0 (advance w), scan_loop_healthy P n page.0 swept)

-- Where no request fails, none has failed afterwards.
pub invalidate_cache_healthy :
    (P : Platform) (w : World P)
    → w.faults ≡ []
    → (invalidate_cache P "auctions:active:*" w).1.faults ≡ []
unfolding invalidate_cache
invalidate_cache_healthy P w f = ground (arith, scan_loop_healthy P (P.redis.rounds w.store) 0 w)
