-- ===== src/Redis/Commands/Results.antt =====
-- What an auction's keys read after each command batch of
-- server/src/shared/redis/redis.service.ts.
use bid_battle.Platform.Redis.{Ttl, RedisKey, RedisServer}
use bid_battle.Prelude.{
  ◌+◌, is_some, if◌then◌else◌, ◌≢◌, false, none, some, true, Option, ℕ, ◌≡◌, arith, ◌<◌,
}
use bid_battle.Redis.Commands.{initialize_commands, cleanup_commands, restore_commands}

module _ (R : RedisServer) (auction : ℕ) (s : R.Store) where
  open R use {get, ttl, exists, exists_lem, set_nx_lem, get-set_ex, ttl-set_ex, get-del}

  -- A fresh start writes the flag, the starting price and the owner.
  pub initialize_fresh :
      (price duration owner : ℕ)
      → 0 < duration
      → exists (RedisKey.auction_active auction) s ≡ false
      → get (RedisKey.auction_price auction) s ≡ none
      → get (RedisKey.auction_owner auction) s ≡ none
      → let t = (initialize_commands R auction price duration owner s).1 in
        (get (RedisKey.auction_active auction) t ≡ some 1)
        × (get (RedisKey.auction_price auction) t ≡ some price)
        × (get (RedisKey.auction_owner auction) t ≡ some owner)
        × (ttl (RedisKey.auction_active auction) t ≡ Ttl.seconds duration)
        × (ttl (RedisKey.auction_price auction) t ≡ Ttl.seconds (duration + 3600))
  unfolding initialize_commands
  initialize_fresh price duration owner h a p o =
      grind (arith, set_nx_lem, exists_lem, get-set_ex, ttl-set_ex)

  -- A start leaves the highest bidder alone.
  pub initialize-get_bidder :
      (price duration owner : ℕ)
      → 0 < duration
      → get
          (RedisKey.auction_bidder auction)
          (initialize_commands R auction price duration owner s).1
        ≡ get (RedisKey.auction_bidder auction) s
  unfolding initialize_commands
  initialize-get_bidder price duration owner h = grind (arith, set_nx_lem, exists_lem, get-set_ex)

  -- A start while the active key exists keeps the price, the owner and every remaining time.
  pub initialize_again :
      (price duration owner : ℕ)
      → 0 < duration
      → exists (RedisKey.auction_active auction) s ≡ true
      → get (RedisKey.auction_price auction) s ≢ none
      → get (RedisKey.auction_owner auction) s ≢ none
      → (initialize_commands R auction price duration owner s).1 ≡ s
  unfolding initialize_commands
  initialize_again price duration owner h a p o = grind (arith, set_nx_lem, exists_lem)

  -- A cleanup removes the auction's four values.
  pub cleanup_removes :
      let t = cleanup_commands R auction s in
      (get (RedisKey.auction_active auction) t ≡ none)
      × (get (RedisKey.auction_price auction) t ≡ none)
      × (get (RedisKey.auction_bidder auction) t ≡ none)
      × (get (RedisKey.auction_owner auction) t ≡ none)
  unfolding cleanup_commands
  cleanup_removes = grind (arith, get-del)

  -- A restore writes the price and the owner, and the highest bidder where there is one.
  pub restore_writes :
      (price duration owner : ℕ) (bidder : Option ℕ)
      → 0 < duration
      → let t = restore_commands R auction price duration owner bidder s in
        (get (RedisKey.auction_active auction) t ≡ some 1)
        × (get (RedisKey.auction_price auction) t ≡ some price)
        × (get (RedisKey.auction_owner auction) t ≡ some owner)
        × (get (RedisKey.auction_bidder auction) t
            ≡ (if is_some bidder then bidder else get (RedisKey.auction_bidder auction) s))
  unfolding restore_commands
  restore_writes price duration owner bidder h = grind (arith, get-set_ex)
