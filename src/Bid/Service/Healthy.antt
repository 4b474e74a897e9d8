-- ===== src/Bid/Service/Healthy.antt =====
-- `placeBid` of server/src/modules/bid/bid.service.ts while every request succeeds.
use bid_battle.Platform.Redis.{RedisKey}
use bid_battle.Redis.Auctions.Replies.{
  is_auction_active_lem, get_auction_owner_lem, place_bid_atomic_lem, get_live_price_lem,
}
use bid_battle.Redis.Script.Acceptance.{bid_script_rejects}
use bid_battle.Redis.Auctions.{read_reply}
use bid_battle.Bid.Service.Acceptance.{increment_for}
use bid_battle.Redis.Script.{bid_script}
use bid_battle.Platform.Effects.{advance, request, World, Platform}
use bid_battle.Prelude.{refl, inr, Bool-cases, inl, ◌⊎◌, Option, [], ℕ, ◌≡◌, arith}
use bid_battle.Bid.Service.{
  is_too_low, check_bid, attempt_bid, place_bid, submit_bid, answer_rejection, save_bid, settle_bid,
  BidConfig,
}

module _ (P : Platform) (config : BidConfig) (auction user amount : ℕ) where
  -- Nothing has changed in Redis or the tables.
  abbrev pub IsUnmoved : World P → World P → Type 0
  IsUnmoved w w' = (w'.store ≡ w.store) × (w'.rows ≡ w.rows)

  -- The script took the bid at the increment for some reading of the price, and it is a row.
  abbrev pub IsTaken : World P → World P → Type 0
  IsTaken w w' =
      (price : Option ℕ) × ((bid_script P.redis auction amount user (increment_for config price)
          w.store).0.0
        ≡ 1)
      × (w'.store ≡ (bid_script P.redis auction amount user (increment_for config price) w.store).1)
      × (w'.rows ≡ P.database.insert_bid auction user amount w.rows)

  -- What neither Redis nor the tables hold.
  pub record IsSteady (w w' : World P) : Type 0 where
    pub healthy : w'.faults ≡ []
    pub jobs_kept : w'.jobs ≡ w.jobs
    pub now_kept : w'.now ≡ w.now

  settle_bid_healthy :
      (w : World P) (inc : ℕ)
      → w.faults ≡ []
      → let (reply, s) = bid_script P.redis auction amount user inc w.store in
        let w' = (settle_bid P auction user amount (read_reply reply) (record w { store = s })).1 in
        IsSteady w w'
        × (((reply.0 ≡ 1)
              × (w'.store ≡ s)
              × (w'.rows ≡ P.database.insert_bid auction user amount w.rows))
            ⊎ IsUnmoved w w')
  unfolding settle_bid save_bid answer_rejection read_reply request
  settle_bid_healthy w inc f =
      let s = (bid_script P.redis auction amount user inc w.store).1 in
      ground (
        arith,
        bid_script_rejects P.redis auction amount user inc w.store,
        get_live_price_lem P auction (record w { store = s }),
      )

  submit_bid_healthy :
      (w : World P) (price : Option ℕ)
      → w.faults ≡ []
      → let w' = (submit_bid P config auction user amount price w).1 in
        IsSteady w w' × (IsTaken w w' ⊎ IsUnmoved w w')
  unfolding submit_bid
  submit_bid_healthy w price f =
      let inc = increment_for config price in
      let sent = place_bid_atomic_lem P auction w user amount inc in
      let settled = settle_bid_healthy (advance w) inc (ground arith) in
      elim (Bool-cases (is_too_low P config amount price)) [
        | inl low ↦ (ground (arith, low), inr (ground (arith, low)))
        | inr enough ↦ (
          ground (arith, enough, sent, settled),
          elim settled.1 [
            | inl taken ↦ inl (
              price,
              ground (arith, taken),
              ground (arith, enough, sent, taken),
              ground (arith, enough, sent, taken),
            )
            | inr same ↦ inr (ground (arith, enough, sent, same))
          ],
        )
      ]

  module _ (w : World P) (f : w.faults ≡ []) where
    abbrev price_read : Option ℕ
    price_read = P.redis.get (RedisKey.auction_price auction) w.store

    -- The world when the three readings are back.
    abbrev read : World P
    read = advance (advance (advance w))

    place_bid_world :
        let w' = (place_bid P config auction user amount w).1 in
        (w' ≡ w) ⊎ (w' ≡ read) ⊎ (w' ≡ (submit_bid P config auction user amount price_read read).1)
    unfolding place_bid attempt_bid check_bid
    place_bid_world = ground (
      arith,
      get_auction_owner_lem P auction w,
      is_auction_active_lem P auction (advance w),
      get_live_price_lem P auction (advance (advance w)),
    )

    pub place_bid_healthy :
        let w' = (place_bid P config auction user amount w).1 in
        IsSteady w w' × (IsTaken w w' ⊎ IsUnmoved w w')
    place_bid_healthy =
        let submitted = submit_bid_healthy read price_read (ground arith) in
        elim place_bid_world [
          | inl same ↦ rw same (ground arith, inr (refl, refl))
          | inr rest ↦ elim rest [
            | inl same ↦ rw same (ground arith, inr (refl, refl))
            | inr same ↦ rw same (ground (arith, submitted), submitted.1)
          ]
        ]
