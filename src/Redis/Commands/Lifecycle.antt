-- ===== src/Redis/Commands/Lifecycle.antt =====
-- Runs of the requests of server/src/shared/redis/redis.service.ts, of any number of clients, and of
-- time, over the keys of the auctions.
use bid_battle.Prelude.{◌++◌, [], ◌∷◌, List, some, ℕ, ◌<◌, ◌≡◌, ◌⊎◌, true, false, Option}
use bid_battle.Platform.Redis.{RedisServer, RedisKey, is_missing}
use bid_battle.Redis.Commands.Readings.{Reading, is_reading, Within-safe_ttl, Within-safe_ttl}
use bid_battle.Redis.Script.{bid_script}
use bid_battle.Redis.Commands.{
  safe_ttl, rollback_commands, initialize_commands, extend_commands, restore_commands,
  cleanup_commands,
}

module _ (R : RedisServer) where
  open R use {
    Store, get, ttl, exists, exists_lem, set_nx_lem, get-set_ex, ttl-set_ex, get-set_keep,
    ttl-set_keep, get-del, ttl-del, get-expire, ttl-expire, ttl-elapse, get-elapse, elapse,
  }

  -- What the requests of the service, and time, do to the store and to the rollbacks that are under
  -- way: any number of clients and servers in any order. Each request, a pipeline too, takes effect
  -- as a whole. A start finds the auction already active or without the keys of an earlier one; a
  -- rollback has a price to restore; and what gives an auction's active key a life of its own, a
  -- start, an extension or a restoration, does not come between the two requests of a rollback of
  -- the same auction.
  pub data StoreStep (s : Store) (rs : List Reading) : Store → List Reading → Type 0 where
    elapses : (d : ℕ) → StoreStep s rs (elapse d s) rs
    initializes :
        (b price d owner : ℕ)
        → 0 < d
        → (exists (RedisKey.auction_active b) s ≡ true)
          ⊎ ((exists (RedisKey.auction_price b) s ≡ false)
              × (exists (RedisKey.auction_owner b) s ≡ false))
        → is_reading b rs ≡ false
        → StoreStep s rs (initialize_commands R b price d owner s).1 rs
    extends :
        (b d : ℕ) → 0 < d → is_reading b rs ≡ false → StoreStep s rs (extend_commands R b d s) rs
    restores :
        (b price d owner : ℕ) (bidder : Option ℕ)
        → 0 < d
        → is_reading b rs ≡ false
        → StoreStep s rs (restore_commands R b price d owner bidder s) rs
    cleans : (b : ℕ) → StoreStep s rs (cleanup_commands R b s) rs
    bids :
        (b amount user increment : ℕ) → StoreStep s rs (bid_script R b amount user increment s).1 rs
    reads_life :
        (b : ℕ)
        → is_missing (ttl (RedisKey.auction_price b) s) ≡ false
        → StoreStep s rs s (record { auction = b; life = ttl (RedisKey.auction_price b) s } ∷ rs)
    writes_back :
        (r : Reading) (before after : List Reading) (price : ℕ) (bidder : Option ℕ)
        → rs ≡ before ++ r ∷ after
        → StoreStep s rs
            (rollback_commands R r.auction (some price) bidder (safe_ttl r.life) s)
            (before ++ after)

  pub data StoreReach (s : Store) : Store → List Reading → Type 0 where
    here : StoreReach s s []
    next :
        {t u : Store} {rs qs : List Reading}
        → StoreReach s t rs
        → StoreStep t rs u qs
        → StoreReach s u qs
