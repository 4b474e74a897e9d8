-- ===== src/Redis/Script/Acceptance.antt =====
-- When BID_SCRIPT of server/src/shared/redis/redis.service.ts takes a bid, and what it writes.
use bid_battle.Prelude.{
  ℕ, ◌+◌, ◌≤◌, ◌≡◌, ◌≢◌, ◌↔◌, true, Option, none, some, get_or, arith, if◌then◌else◌, same_number,
}
use bid_battle.Platform.Redis.{RedisServer, RedisKey, key_eq, kept}
use bid_battle.Redis.Script.{bid_script}

pub same_number_iff : (o : Option ℕ) (u : ℕ) → same_number o (some u) ≡ true → o ≡ some u
same_number_iff none u h = cc
same_number_iff (some v) u h = ground arith

module _ (R : RedisServer) where
  open R use {Store, get, ttl, exists, get-set_keep, ttl-set_keep}

  -- What the script looks for before it writes.
  pub record IsAcceptable (auction amount user increment : ℕ) (s : Store) : Type 0 where
    pub is_open : exists (RedisKey.auction_active auction) s ≡ true
    pub not_leading : get (RedisKey.auction_bidder auction) s ≢ some user
    pub enough : get_or (get (RedisKey.auction_price auction) s) 0 + increment ≤ amount

  module _ (auction amount user increment : ℕ) (s : Store) where
    -- The script answers 1 exactly when the auction's active key exists, the user is not the
    -- recorded highest bidder, and the amount reaches the recorded price (0 without one) plus the
    -- increment.
    pub bid_script_accepts :
        ((bid_script R auction amount user increment s).0.0 ≡ 1)
        ↔ IsAcceptable auction amount user increment s
    unfolding bid_script
    bid_script_accepts = (
      λ h. ground arith,
      λ h. ground (arith, same_number_iff (get (RedisKey.auction_bidder auction) s) user),
    )

    -- An accepted bid makes its amount the price and its user the highest bidder, keeps every other
    -- string key, changes no time to live (a key that it creates has none), and answers with the price
    -- and the bidder that it replaced.
    pub bid_script_writes :
        (bid_script R auction amount user increment s).0.0 ≡ 1
        → let (reply, t) = bid_script R auction amount user increment s in
          ((j : RedisKey)
            → get j t ≡ (
                if key_eq (RedisKey.auction_bidder auction) j
                then some user
                else if key_eq (RedisKey.auction_price auction) j
                then some amount
                else get j s))
          × ((j : RedisKey)
              → ttl j t ≡ (
                  if key_eq (RedisKey.auction_bidder auction) j
                  then kept (ttl j s)
                  else if key_eq (RedisKey.auction_price auction) j
                  then kept (ttl j s)
                  else ttl j s))
          × (reply.1 ≡ get (RedisKey.auction_price auction) s)
          × (reply.2 ≡ get (RedisKey.auction_bidder auction) s)
    unfolding bid_script
    bid_script_writes h = (
      λ j. grind (arith, get-set_keep),
      λ j. grind (arith, ttl-set_keep),
      ground arith,
      ground arith,
    )

    -- A bid that is not accepted leaves the store as it was, and the second element says why: 2 for
    -- an inactive auction, else 3 for a user who already leads, else 4 for an amount that is too
    -- low.
    pub bid_script_rejects :
        (bid_script R auction amount user increment s).0.0 ≢ 1
        → let (reply, t) = bid_script R auction amount user increment s in
          (t ≡ s)
          × (reply.1
              ≡ some (
                  if exists (RedisKey.auction_active auction) s
                  then (if same_number (get (RedisKey.auction_bidder auction) s) (some user)
                      then 3
                      else 4)
                  else 2))
    unfolding bid_script
    bid_script_rejects h = (ground arith, ground arith)
