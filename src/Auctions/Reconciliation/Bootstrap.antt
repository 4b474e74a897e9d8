-- ===== src/Auctions/Reconciliation/Bootstrap.antt =====
-- `onApplicationBootstrap` of server/src/modules/auctions/auctions-start.processor.ts over one page of
-- rows.
use bid_battle.Auctions.Reconciliation.Restoring.{
  reconcile_all_restores, take_all, IsRestored, Others,
}
use bid_battle.Entities.{Auction}
use bid_battle.Redis.Auctions.{keep_active, are_auctions_active}
use bid_battle.Platform.Redis.{RedisKey}
use bid_battle.Platform.Effects.{advance, Outcome, World, request, Platform}
use bid_battle.Auctions.Reconciliation.{
  reconciliation_batch_size, on_application_bootstrap, reconcile_pages, reconcile_all, top_bid,
  bidder_of, orphans, reconcile_batch,
}
use bid_battle.Prelude.{
  suc, ◌≤◌, ◌+◌, ◌<◌, refl, ap, map, ◌≢◌, ◌++◌, ◌∷◌, Option, [], length, none, List, ℕ, ◌≡◌, arith,
}

orphans_all : (batch : List Auction) → orphans [] batch ≡ batch
unfolding orphans
orphans_all [] = refl
orphans_all (a ∷ more) = ap (λ rest. a ∷ rest) (orphans_all more)

length_split : (before after : List Auction) (a : Auction) → length (before ++ a ∷ after) ≢ 0
length_split [] after a h = absurd (omega arith)
length_split (b ∷ before) after a h = absurd (omega arith)

module _ (P : Platform) where
  open P.redis use {get, exists}

  none_known :
      (s : P.redis.Store) (ids : List ℕ)
      → ((j : RedisKey) → get j s ≡ none)
      → keep_active ids (map (λ j. exists (RedisKey.auction_active j) s) ids) ≡ []
  none_known s [] empty = refl
  none_known s (i ∷ ids) empty = ground (
    arith,
    P.redis.exists_lem (RedisKey.auction_active i) s,
    empty (RedisKey.auction_active i),
    none_known s ids empty,
  )

  none_active :
      (w : World P) (i : ℕ) (ids : List ℕ)
      → ((j : RedisKey) → get j w.store ≡ none)
      → w.faults ≡ []
      → are_auctions_active P (i ∷ ids) w ≡ (Outcome.ok [], advance w)
  unfolding are_auctions_active request
  none_active w i ids empty f = ground (arith, none_known w.store (i ∷ ids) empty)

  -- The bidder that a batch restores for an auction.
  abbrev best_bidder : World P → ℕ → Option ℕ
  best_bidder w i = bidder_of (top_bid (P.database.bids_of i w.rows))

  batch_all :
      (now : ℕ) (b : Auction) (bs : List Auction) (w : World P)
      → ((j : RedisKey) → get j w.store ≡ none)
      → w.faults ≡ []
      → reconcile_batch P now (b ∷ bs) w
        ≡ reconcile_all P now (best_bidder w) (b ∷ bs) (advance (advance w))
  unfolding reconcile_batch request
  batch_all now b bs w empty f =
      ground (arith, none_active w b.id (map (λ a. a.id) bs) empty f, orphans_all (b ∷ bs))

  batch_restores :
      (now : ℕ) (before after : List Auction) (a : Auction) (w : World P)
      → Others a.id before
      → Others a.id after
      → now + 1000 ≤ a.end_time
      → w.faults ≡ []
      → ((j : RedisKey) → get j w.store ≡ none)
      → IsRestored P a (best_bidder w a.id) (reconcile_batch P now (before ++ a ∷ after) w).1
  batch_restores now [] after a w elsewhere elsewhere' ahead f empty =
      rw (batch_all now a after w empty f) (
        reconcile_all_restores P now (best_bidder w) [] after a (advance (advance w)) elsewhere
          elsewhere' ahead (ground arith) (empty (RedisKey.auction_bidder a.id)))
  batch_restores now (b ∷ before) after a w elsewhere elsewhere' ahead f empty =
      rw (batch_all now b (before ++ a ∷ after) w empty f) (
        reconcile_all_restores P now (best_bidder w) (b ∷ before) after a (advance (advance w))
          elsewhere elsewhere' ahead (ground arith) (empty (RedisKey.auction_bidder a.id)))

  page_lem :
      (n : ℕ) (w : World P)
      → w.faults ≡ []
      → length (P.database.active_auctions w.rows) ≢ 0
      → length (P.database.active_auctions w.rows) < reconciliation_batch_size
      → reconcile_pages P (suc n) 0 w
        ≡ reconcile_batch P w.now (P.database.active_auctions w.rows) (advance w)
  unfolding reconcile_pages request
  page_lem n w f some_rows few =
      let all =
        take_all reconciliation_batch_size (P.database.active_auctions w.rows) (omega arith) in
      ground (arith, all, f)

  -- When Redis is empty, fewer than a page of rows are ACTIVE, and every request succeeds, a server
  -- that starts brings back each ACTIVE auction whose id no other row has and that has a second or more
  -- left: its flag, its owner, the price of its row, the user of its best bid, and its end job.
  pub on_application_bootstrap_restores :
      (rounds : ℕ) (before after : List Auction) (a : Auction) (w : World P)
      → P.database.active_auctions w.rows ≡ before ++ a ∷ after
      → length (before ++ a ∷ after) < reconciliation_batch_size
      → Others a.id before
      → Others a.id after
      → w.now + 1000 ≤ a.end_time
      → w.faults ≡ []
      → ((j : RedisKey) → get j w.store ≡ none)
      → IsRestored P a
          (bidder_of (top_bid (P.database.bids_of a.id w.rows)))
          (on_application_bootstrap P (suc rounds) w).1
  unfolding on_application_bootstrap
  on_application_bootstrap_restores rounds before after a w listed few elsewhere elsewhere' ahead f
        empty =
      let restored =
        batch_restores w.now before after a (advance w) elsewhere elsewhere' ahead (ground arith)
          empty in
      let page = page_lem rounds w f (rw listed (length_split before after a)) (rw listed few) in
      ground (arith, restored, page, listed)
