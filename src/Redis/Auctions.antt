-- ===== src/Redis/Auctions.antt =====
-- The auction methods of `RedisService`. Each catches the failure of its request: a reader answers
-- its default, a writer returns as if it had succeeded.
pub mod Replies
use bid_battle.Prelude.{ℕ, Bool, true, false, Option, none, List, [], ◌∷◌, map, ◌==◌, if◌then◌else◌}
use bid_battle.Platform.Redis.{RedisKey, Ttl}
use bid_battle.Platform.Effects.{
  Platform, Eff, pure, try_catch, ◌>>=◌, ask_redis, tell_redis, change_redis,
}
use bid_battle.Redis.Script.{bid_script, ScriptReply}
use bid_battle.Redis.Commands.{
  safe_ttl, initialize_commands, extend_commands, restore_commands, cleanup_commands,
  rollback_commands,
}

pub record BidAtomicSnapshot : Type 0 where
  pub previous_price : Option ℕ
  pub previous_bidder_id : Option ℕ

-- `{ success: true, data }`, or `{ success: false, rejectionCode? }`
pub data ResultPlateBidAtomic : Type 0 where
  success : BidAtomicSnapshot → ResultPlateBidAtomic
  failure : Option ℕ → ResultPlateBidAtomic

unfoldable pub read_reply : ScriptReply → ResultPlateBidAtomic
read_reply (accepted, raw_price, raw_bidder) =
    if accepted == 1
    then ResultPlateBidAtomic.success
        (record { previous_price = raw_price; previous_bidder_id = raw_bidder })
    else ResultPlateBidAtomic.failure raw_price

abbrev pub keep_active : List ℕ → List Bool → List ℕ
keep_active (i ∷ is) (true ∷ rs) = i ∷ keep_active is rs
keep_active (i ∷ is) (false ∷ rs) = keep_active is rs
keep_active _ _ = []

module _ (P : Platform) where
  open P.redis use {Store, get, ttl, exists}

  unfoldable pub get_live_price : ℕ → Eff P (Option ℕ)
  get_live_price auction =
      try_catch (ask_redis (get (RedisKey.auction_price auction))) (λ _. pure none)

  unfoldable pub is_auction_active : ℕ → Eff P Bool
  is_auction_active auction =
      try_catch (ask_redis (exists (RedisKey.auction_active auction))) (λ _. pure false)

  -- the ids for which the pipeline's EXISTS answers 1
  unfoldable pub are_auctions_active : List ℕ → Eff P (List ℕ)
  are_auctions_active [] = pure []
  are_auctions_active (i ∷ is) =
      try_catch
        (do
          results ← ask_redis λ s. map (λ j. exists (RedisKey.auction_active j) s) (i ∷ is)
          pure (keep_active (i ∷ is) results))
        (λ _. pure [])

  unfoldable pub initialize_auction : ℕ → ℕ → ℕ → ℕ → Eff P (Unit {0})
  initialize_auction auction starting_price duration owner =
      try_catch
        (do
          fresh ← tell_redis (initialize_commands P.redis auction starting_price duration owner)
          pure tt)
        (λ _. pure tt)

  unfoldable pub extend_auction_time : ℕ → ℕ → Eff P (Unit {0})
  extend_auction_time auction duration =
      try_catch (change_redis (extend_commands P.redis auction duration)) (λ _. pure tt)

  unfoldable pub restore_auction : ℕ → ℕ → ℕ → ℕ → Option ℕ → Eff P (Unit {0})
  restore_auction auction price duration owner bidder =
      try_catch (change_redis (restore_commands P.redis auction price duration owner bidder))
        (λ _. pure tt)

  unfoldable pub get_auction_owner : ℕ → Eff P (Option ℕ)
  get_auction_owner auction =
      try_catch (ask_redis (get (RedisKey.auction_owner auction))) (λ _. pure none)

  unfoldable pub cleanup_auction : ℕ → Eff P (Unit {0})
  cleanup_auction auction =
      try_catch (change_redis (cleanup_commands P.redis auction)) (λ _. pure tt)

  unfoldable pub get_highest_bidder_id : ℕ → Eff P (Option ℕ)
  get_highest_bidder_id auction =
      try_catch (ask_redis (get (RedisKey.auction_bidder auction))) (λ _. pure none)

  unfoldable pub place_bid_atomic_with_snapshot : ℕ → ℕ → ℕ → ℕ → Eff P ResultPlateBidAtomic
  place_bid_atomic_with_snapshot auction user new_amount min_increment =
      try_catch
        (do
          result ← tell_redis (bid_script P.redis auction new_amount user min_increment)
          pure (read_reply result))
        (λ _. pure (ResultPlateBidAtomic.failure none))

  abbrev roll_back_within : Ttl → ℕ → Option ℕ → Option ℕ → Eff P (Unit {0})
  roll_back_within Ttl.missing auction price bidder = pure tt
  roll_back_within t auction price bidder =
      change_redis (rollback_commands P.redis auction price bidder (safe_ttl t))

  unfoldable pub rollback_bid : ℕ → Option ℕ → Option ℕ → Eff P (Unit {0})
  rollback_bid auction previous_price previous_bidder =
      try_catch
        (do
          remaining ← ask_redis (ttl (RedisKey.auction_price auction))
          roll_back_within remaining auction previous_price previous_bidder)
        (λ _. pure tt)
