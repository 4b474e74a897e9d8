-- ===== src/Redis/Commands/Live.antt =====
-- The lifetimes that the commands of server/src/shared/redis/redis.service.ts give an auction's keys.
use bid_battle.Prelude.{
  inr, inl, some, ◌≢◌, ℕ, ◌<◌, ◌≡◌, ◌⊎◌, true, false, Option, arith, is_some, not,
}
use bid_battle.Platform.Redis.{RedisServer, RedisKey, Ttl, is_missing}
use bid_battle.Redis.Commands.Readings.{Within}
use bid_battle.Redis.Script.{bid_script}
use bid_battle.Redis.Script.Acceptance.{bid_script_accepts, bid_script_writes, bid_script_rejects}
use bid_battle.Redis.Commands.{
  safe_ttl, rollback_commands, initialize_commands, extend_commands, restore_commands,
  cleanup_commands,
}

pub safe_ttl_positive : (t : Ttl) → 0 < safe_ttl t
unfolding safe_ttl
safe_ttl_positive Ttl.missing = omega arith
safe_ttl_positive Ttl.persistent = omega arith
safe_ttl_positive (Ttl.seconds n) = grind arith

module _ (R : RedisServer) where
  open R use {
    Store, get, ttl, exists, exists_lem, set_nx_lem, get-set_ex, ttl-set_ex, get-set_keep,
    ttl-set_keep, get-del, ttl-del, get-expire, ttl-expire, ttl-elapse, get-elapse, elapse,
  }

  -- While the auction's active key is there, so are its price and its owner, for as long.
  pub record IsLive (a : ℕ) (s : Store) : Type 0 where
    pub price_within : Within (ttl (RedisKey.auction_active a) s) (ttl (RedisKey.auction_price a) s)
    pub owner_within : Within (ttl (RedisKey.auction_active a) s) (ttl (RedisKey.auction_owner a) s)
    pub active_held :
        is_some (get (RedisKey.auction_active a) s)
        ≡ not (is_missing (ttl (RedisKey.auction_active a) s))
    pub price_held :
        is_some (get (RedisKey.auction_price a) s)
        ≡ not (is_missing (ttl (RedisKey.auction_price a) s))
    pub owner_held :
        is_some (get (RedisKey.auction_owner a) s)
        ≡ not (is_missing (ttl (RedisKey.auction_owner a) s))

  module _ (a b : ℕ) (s : Store) (live : IsLive a s) where
    pub elapse-IsLive : (d : ℕ) → IsLive a (elapse d s)
    elapse-IsLive d = record {
      price_within = simp ttl-elapse (ground (arith, live.price_within));
      owner_within = simp ttl-elapse (ground (arith, live.owner_within));
      active_held = simp (ttl-elapse, get-elapse) (ground (arith, live.active_held));
      price_held = simp (ttl-elapse, get-elapse) (ground (arith, live.price_held));
      owner_held = simp (ttl-elapse, get-elapse) (ground (arith, live.owner_held));
    }

    pub cleanup-IsLive : IsLive a (cleanup_commands R b s)
    unfolding cleanup_commands
    cleanup-IsLive = grind (arith, ttl-del, get-del)

    pub extend-IsLive : (d : ℕ) → 0 < d → IsLive a (extend_commands R b d s)
    unfolding extend_commands
    extend-IsLive d h = grind (arith, ttl-expire, get-expire)

    pub restore-IsLive :
        (price d owner : ℕ) (bidder : Option ℕ)
        → 0 < d
        → IsLive a (restore_commands R b price d owner bidder s)
    unfolding restore_commands
    restore-IsLive price d owner bidder h = grind (arith, ttl-set_ex, get-set_ex)

    pub initialize-IsLive :
        (price d owner : ℕ)
        → 0 < d
        → (exists (RedisKey.auction_active b) s ≡ true)
          ⊎ ((exists (RedisKey.auction_price b) s ≡ false)
              × (exists (RedisKey.auction_owner b) s ≡ false))
        → IsLive a (initialize_commands R b price d owner s).1
    unfolding initialize_commands
    initialize-IsLive price d owner h e =
        grind (arith, ttl-set_ex, get-set_ex, set_nx_lem, exists_lem)

    pub bid-IsLive :
        (amount user increment : ℕ)
        → ((bid_script R b amount user increment s).0.0 ≡ 1)
          ⊎ ((bid_script R b amount user increment s).0.0 ≢ 1)
        → IsLive a (bid_script R b amount user increment s).1
    bid-IsLive amount user increment (inl taken) =
        let taken_from = (bid_script_accepts R b amount user increment s).0 taken in
        let writes = bid_script_writes R b amount user increment s taken in
        grind (arith, writes.0, writes.1, taken_from.is_open, exists_lem)
    bid-IsLive amount user increment (inr not_taken) =
        rw ((bid_script_rejects R b amount user increment s not_taken).0) live

    pub rollback-IsLive :
        (price : ℕ) (bidder : Option ℕ) (life : Ttl)
        → (b ≡ a → Within (ttl (RedisKey.auction_active a) s) (Ttl.seconds (safe_ttl life)))
        → IsLive a (rollback_commands R b (some price) bidder (safe_ttl life) s)
    unfolding rollback_commands
    rollback-IsLive price bidder life h =
        let long = safe_ttl_positive life in grind (arith, ttl-set_ex, get-set_ex, ttl-del, get-del)
