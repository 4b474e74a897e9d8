-- ===== src/Redis/Script.antt =====
-- The Lua text BID_SCRIPT of server/src/shared/redis/redis.service.ts. Redis runs a script as one
-- step. Prices and ids are non-negative integers, so `tonumber` and `tostring` are exact.
pub mod Acceptance
pub mod Ladder
pub mod Refinement
use bid_battle.Prelude.{ℕ, ◌+◌, Option, none, some, ltb, if◌then◌else◌, not, get_or, same_number}
use bid_battle.Platform.Redis.{RedisServer, RedisKey}

-- The three-element reply; `none` is Lua's `false`, which arrives as null.
abbrev pub ScriptReply : Type 0
ScriptReply = ℕ × Option ℕ × Option ℕ

module _ (R : RedisServer) where
  open R use {Store, get, exists, set_keep}

  unfoldable pub bid_script : ℕ → ℕ → ℕ → ℕ → Store → ScriptReply × Store
  bid_script auction new_amount user_id min_increment s =
      let current_price_str = get (RedisKey.auction_price auction) s in
      let current_bidder_str = get (RedisKey.auction_bidder auction) s in
      let current_price = get_or current_price_str 0 in
      if not (exists (RedisKey.auction_active auction) s)
      then ((0, some 2, none), s)
      else if same_number current_bidder_str (some user_id)
      then ((0, some 3, none), s)
      else if ltb new_amount (current_price + min_increment)
      then ((0, some 4, none), s)
      else (
        (1, current_price_str, current_bidder_str),
        set_keep (RedisKey.auction_bidder auction) user_id
            (set_keep (RedisKey.auction_price auction) new_amount s),
      )
