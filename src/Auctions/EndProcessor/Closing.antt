-- ===== src/Auctions/EndProcessor/Closing.antt =====
-- The branches of the end job of server/src/modules/auctions/auctions-end.processor.ts.
use bid_battle.Redis.Cache.Frame.{invalidate_cache_ok, invalidate_cache-Keeps}
use bid_battle.Redis.Cache.{invalidate_cache}
use bid_battle.Redis.Commands.Results.{cleanup_removes}
use bid_battle.Redis.Auctions.Replies.{
  cleanup_auction_lem, get_highest_bidder_id_lem, get_live_price_lem,
}
use bid_battle.Redis.Commands.{cleanup_commands}
use bid_battle.Entities.{is_ended, Auction}
use bid_battle.Platform.Redis.{IsCached, RedisKey}
use bid_battle.Platform.Effects.{advance, Emission, Outcome, later_faults, request, World, Platform}
use bid_battle.Prelude.{
  refl, get_or, zero, suc, false, suc, List, none, some, Option, ℕ, ◌≡◌, arith, ◌<◌, ◌∷◌, [],
}
use bid_battle.Auctions.EndProcessor.{finalize, process_end, end_with, finish, notify_auction_end}

module _ (P : Platform) (id : ℕ) (w : World P) where
  open P.database use {find_auction}

  -- A job for an auction that has no price in Redis, or the price 0, changes nothing and sends
  -- nothing, whatever requests fail.
  pub process_end_skips :
      get_or (P.redis.get (RedisKey.auction_price id) w.store) 0 ≡ 0
      → process_end P id w ≡ (Outcome.ok tt, advance w)
  unfolding process_end
  process_end_skips e = ground (arith, get_live_price_lem P id w)

  -- The world when the row is ENDED and the auction's keys are gone.
  abbrev closed : ℕ → World P
  closed price = record w {
    rows =
        P.database.update_auction id
          (finalize price (P.redis.get (RedisKey.auction_bidder id) w.store) w.now) w.rows;
    store = cleanup_commands P.redis id w.store;
    faults = later_faults (later_faults (later_faults (later_faults (later_faults w.faults))));
  }

  -- The private message to the winner, and the public one to the room, newest first.
  abbrev pub announced : ℕ → Option ℕ → List Emission → List Emission
  announced price none sent = Emission.auction_ended id (some price) ∷ sent
  announced price (some zero) sent = Emission.auction_ended id (some price) ∷ sent
  announced price (some (suc u)) sent =
      Emission.auction_won (suc u) id (some price) ∷ Emission.auction_ended id (some price) ∷ sent

  module _ (price : ℕ) (held : P.redis.get (RedisKey.auction_price id) w.store ≡ some price)
      (priced : 0 < price) (f : w.faults ≡ []) where
    end_closes :
        (a : Auction)
        → find_auction id w.rows ≡ some a
        → is_ended a.status ≡ false
        → process_end P id w
          ≡ notify_auction_end P id
              (P.redis.get (RedisKey.auction_bidder id) w.store)
              (some price)
              (invalidate_cache P "auctions:active:*" (closed price)).1
    unfolding process_end end_with finish request
    end_closes a found running = ground (
      arith,
      get_live_price_lem P id w,
      get_highest_bidder_id_lem P id (advance w),
      cleanup_auction_lem P id
          (record (advance (advance (advance (advance w)))) { rows = (closed price).rows }),
      invalidate_cache_ok P (closed price),
    )

    -- When every request succeeds and the row is not ENDED yet, the row becomes ENDED with the price
    -- and the highest bidder that Redis held; the auction's price, bidder, active flag and owner are
    -- gone from Redis; and the room is told the price and the winner, if there is one, that he won.
    pub process_end_closes :
        (a : Auction)
        → find_auction id w.rows ≡ some a
        → is_ended a.status ≡ false
        → let winner = P.redis.get (RedisKey.auction_bidder id) w.store in
          let (r, w') = process_end P id w in
          (r ≡ Outcome.ok tt)
          × (find_auction id w'.rows ≡ some (finalize price winner w.now a))
          × (P.redis.get (RedisKey.auction_price id) w'.store ≡ none)
          × (P.redis.get (RedisKey.auction_bidder id) w'.store ≡ none)
          × (P.redis.get (RedisKey.auction_active id) w'.store ≡ none)
          × (P.redis.get (RedisKey.auction_owner id) w'.store ≡ none)
          × (w'.sent ≡ announced price winner w.sent)
    unfolding notify_auction_end
    process_end_closes a found running =
        let gone = cleanup_removes P.redis id w.store in
        let keeps =
          λ (j : RedisKey) (n : IsCached j → ⊥). invalidate_cache-Keeps P j n (closed price) in
        rw (end_closes a found running) (
          ground arith,
          ground (
            arith,
            found,
            keeps (RedisKey.auction_price id) (λ h. h),
            P.database.find-update id id
                (finalize price (P.redis.get (RedisKey.auction_bidder id) w.store) w.now) w.rows
                (λ b. refl),
          ),
          ground (arith, gone, keeps (RedisKey.auction_price id) (λ h. h)),
          ground (arith, gone, keeps (RedisKey.auction_bidder id) (λ h. h)),
          ground (arith, gone, keeps (RedisKey.auction_active id) (λ h. h)),
          ground (arith, gone, keeps (RedisKey.auction_owner id) (λ h. h)),
          ground (arith, keeps (RedisKey.auction_price id) (λ h. h)),
        )

-- Running the job a second time changes no table and no key and sends nothing more, when every
-- request of both runs succeeds.
pub process_end_twice :
    (P : Platform) (id : ℕ) (w : World P) (a : Auction)
    → w.faults ≡ []
    → P.database.find_auction id w.rows ≡ some a
    → is_ended a.status ≡ false
    → let once = (process_end P id w).1 in
      let (r, twice) = process_end P id once in
      (r ≡ Outcome.ok tt)
      × (twice.rows ≡ once.rows)
      × (twice.sent ≡ once.sent)
      × (twice.store ≡ once.store)
process_end_twice P id w a f found running = go _ refl
  where
    go :
        (price : Option ℕ)
        → P.redis.get (RedisKey.auction_price id) w.store ≡ price
        → let once = (process_end P id w).1 in
          let (r, twice) = process_end P id once in
          (r ≡ Outcome.ok tt)
          × (twice.rows ≡ once.rows)
          × (twice.sent ≡ once.sent)
          × (twice.store ≡ once.store)
    go none e = ground (arith, process_end_skips P id w, process_end_skips P id (advance w))
    go (some zero) e = ground (arith, process_end_skips P id w, process_end_skips P id (advance w))
    go (some (suc p)) e =
        let closes = process_end_closes P id w (suc p) e (omega arith) f a found running in
        ground (arith, closes.2, process_end_skips P id (process_end P id w).1)
