-- ===== src/Redis/Commands.antt =====
-- The command batches of server/src/shared/redis/redis.service.ts, in the order in which each
-- method queues them. A batch is one request.
pub mod Undo
pub mod Readings
pub mod Live
pub mod Lifecycle
pub mod Results
use bid_battle.Prelude.{ℕ, suc, ◌+◌, Bool, Option, none, some}
use bid_battle.Platform.Redis.{RedisServer, RedisKey, Ttl}

-- SOCKET_AUCTION_TTL of redis.constants.ts
abbrev pub socket_auction_ttl : ℕ
socket_auction_ttl = 86400

-- `remainingTtl > 0 ? remainingTtl : 3600`, on a reply that is not -2
unfoldable pub safe_ttl : Ttl → ℕ
safe_ttl (Ttl.seconds (suc n)) = suc n
safe_ttl _ = 3600

module _ (R : RedisServer) where
  open R use {Store, set_ex, set_nx, del, expire}

  -- The reply of the first SET is what `initializeAuction` looks at.
  unfoldable pub initialize_commands : ℕ → ℕ → ℕ → ℕ → Store → Bool × Store
  initialize_commands auction starting_price duration owner s =
      let (fresh, s₁) = set_nx (RedisKey.auction_active auction) 1 duration s in
      let (_, s₂) = set_nx (RedisKey.auction_price auction) starting_price (duration + 3600) s₁ in
      let (_, s₃) = set_nx (RedisKey.auction_owner auction) owner (duration + 3600) s₂ in
      (fresh, s₃)

  unfoldable pub extend_commands : ℕ → ℕ → Store → Store
  extend_commands auction duration s = expire (RedisKey.auction_bidder auction) (duration + 3600) (
      expire (RedisKey.auction_owner auction) (duration + 3600) (
        expire (RedisKey.auction_active auction) duration
          (expire (RedisKey.auction_price auction) (duration + 3600) s)))

  abbrev restore_bidder : ℕ → Option ℕ → ℕ → Store → Store
  restore_bidder auction none ttl s = s
  restore_bidder auction (some u) ttl s = set_ex (RedisKey.auction_bidder auction) u ttl s

  unfoldable pub restore_commands : ℕ → ℕ → ℕ → ℕ → Option ℕ → Store → Store
  restore_commands auction price duration owner bidder s =
      restore_bidder auction bidder (duration + 3600) (
        set_ex (RedisKey.auction_owner auction) owner (duration + 3600) (
          set_ex (RedisKey.auction_active auction) 1 duration
            (set_ex (RedisKey.auction_price auction) price (duration + 3600) s)))

  unfoldable pub cleanup_commands : ℕ → Store → Store
  cleanup_commands auction s = del (RedisKey.auction_participants auction) (
      del (RedisKey.auction_owner auction) (
        del (RedisKey.auction_active auction)
          (del (RedisKey.auction_bidder auction) (del (RedisKey.auction_price auction) s))))

  -- SET with EX for a value that is there, DEL for null
  abbrev put_back : RedisKey → Option ℕ → ℕ → Store → Store
  put_back k none ttl s = del k s
  put_back k (some v) ttl s = set_ex k v ttl s

  unfoldable pub rollback_commands : ℕ → Option ℕ → Option ℕ → ℕ → Store → Store
  rollback_commands auction price bidder ttl s =
      put_back (RedisKey.auction_bidder auction) bidder ttl
        (put_back (RedisKey.auction_price auction) price ttl s)
