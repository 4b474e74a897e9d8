-- ===== src/Redis/Commands/Undo.antt =====
-- `rollbackBid` of server/src/shared/redis/redis.service.ts against the bids that came before it.
use bid_battle.Prelude.{ℕ, zero, suc, ◌<◌, ◌≡◌, Option, none, some, arith, if◌then◌else◌}
use bid_battle.Platform.Redis.{RedisServer, RedisKey, key_eq, Ttl}
use bid_battle.Redis.Script.{bid_script}
use bid_battle.Redis.Script.Acceptance.{bid_script_writes}
use bid_battle.Redis.Commands.{safe_ttl, rollback_commands, put_back}

safe_ttl-pos : (t : Ttl) → 0 < safe_ttl t
unfolding safe_ttl
safe_ttl-pos (Ttl.seconds zero) = omega arith
safe_ttl-pos (Ttl.seconds (suc n)) = omega arith
safe_ttl-pos _ = omega arith

module _ (R : RedisServer) where
  open R use {Store, get, ttl, get-set_ex, get-del}

  get-put_back :
      (j k : RedisKey) (o : Option ℕ) (n : ℕ) (s : Store)
      → 0 < n
      → get j (put_back R k o n s) ≡ (if key_eq k j then o else get j s)
  get-put_back j k none n s h = get-del j k s
  get-put_back j k (some v) n s h = get-set_ex j k v n s h

  -- After a rollback the price and the highest bidder are the ones handed over, and every other
  -- string key is as it was.
  pub get-rollback :
      (j : RedisKey) (auction : ℕ) (price bidder : Option ℕ) (t : Ttl) (s : Store)
      → get j (rollback_commands R auction price bidder (safe_ttl t) s) ≡ (
          if key_eq (RedisKey.auction_bidder auction) j
          then bidder
          else if key_eq (RedisKey.auction_price auction) j
          then price
          else get j s)
  unfolding rollback_commands
  get-rollback j auction price bidder t s = simp (get-put_back, safe_ttl-pos)

  module _ (auction : ℕ) (s : Store) where
    -- Rolling an accepted bid back with the snapshot of its reply restores every string key.
    pub rollback-bid_script :
        (amount user increment : ℕ) (t : Ttl)
        → (bid_script R auction amount user increment s).0.0 ≡ 1
        → let (reply, s') = bid_script R auction amount user increment s in
          (j : RedisKey)
          → get j (rollback_commands R auction reply.1 reply.2 (safe_ttl t) s') ≡ get j s
    rollback-bid_script amount user increment t h j =
        let facts = bid_script_writes R auction amount user increment s h in
        rw (get-rollback j auction _ _ t _) (ground (arith, facts.0 j, facts.2, facts.3))

    -- When a second user's bid is accepted between a bid and its rollback, the rollback wipes the
    -- second bid out: price and highest bidder are again those from before the first bid.
    pub rollback_wipes_later_bid :
        (amount user increment amount' user' increment' : ℕ) (t : Ttl)
        → let (reply, s') = bid_script R auction amount user increment s in
          let (reply', s'') = bid_script R auction amount' user' increment' s' in
          reply.0 ≡ 1
          → reply'.0 ≡ 1
          → let s''' = rollback_commands R auction reply.1 reply.2 (safe_ttl t) s'' in
            (get (RedisKey.auction_price auction) s'' ≡ some amount')
            × (get (RedisKey.auction_bidder auction) s'' ≡ some user')
            × (get (RedisKey.auction_price auction) s''' ≡ get (RedisKey.auction_price auction) s)
            × (get (RedisKey.auction_bidder auction) s''' ≡ get (RedisKey.auction_bidder auction) s)
    rollback_wipes_later_bid amount user increment amount' user' increment' t h h' =
        let s' = (bid_script R auction amount user increment s).1 in
        let first = bid_script_writes R auction amount user increment s h in
        let second = bid_script_writes R auction amount' user' increment' s' h' in
        (
          ground (arith, second.0 (RedisKey.auction_price auction)),
          ground (arith, second.0 (RedisKey.auction_bidder auction)),
          rw (get-rollback (RedisKey.auction_price auction) auction _ _ t _)
              (ground (arith, first.2)),
          rw (get-rollback (RedisKey.auction_bidder auction) auction _ _ t _)
              (ground (arith, first.3)),
        )
