-- ===== src/Auctions/Service/Creation.antt =====
-- `createAuction` of server/src/modules/auctions/auctions.service.ts.
use bid_battle.Platform.Images.{numbered}
use bid_battle.Platform.Queue.{JobId}
use bid_battle.Entities.{AuctionStatus, Auction}
use bid_battle.Auctions.Scheduler.{delay_until, schedule_auction_start}
use bid_battle.Platform.Effects.{transaction_throws, Exception, Outcome, request, World, Platform}
use bid_battle.Prelude.{
  ◌++◌, ◌==◌, refl, String, Option, get_or, get_elem?, none, some, ℕ, ◌≡◌, ◌≢◌, arith,
}
use bid_battle.Auctions.Service.{
  save_and_schedule, CreateAuction, create_auction, create_with_image,
}

module _ (P : Platform) (dto : CreateAuction) (owner : ℕ) (w : World P) where
  -- What a successful creation has left behind.
  pub record IsCreated (saved : Auction) (w' : World P) : Type 0 where
    pub row : P.database.find_auction saved.id w'.rows ≡ some saved
    pub was_free : P.database.find_auction saved.id w.rows ≡ none
    pub is_waiting : saved.status ≡ AuctionStatus.pending
    pub at_start : saved.current_price ≡ dto.starting_price
    pub owned : saved.owner_id ≡ owner
    pub picture :
        get_elem? dto.image_urls (get_or dto.primary_image_index 0) ≡ some saved.main_image_url
    pub pictures :
        P.database.image_table.images_of saved.id w'.rows
        ≡ P.database.image_table.images_of saved.id w.rows
          ++ numbered
              (P.database.image_table.next_image_id w.rows)
              saved.id
              0
              (λ i. i == get_or dto.primary_image_index 0)
              dto.image_urls
    pub queued : P.queue.get_job (JobId.start_job saved.id) w'.jobs ≢ none

  -- When `createAuction` succeeds, there is a new PENDING row at its starting price under an id that
  -- was free, its main picture is the one at the primary index, its pictures are saved with it, and a job to
  -- start it is queued.
  pub create_auction_ok :
      {saved : Auction} {w' : World P}
      → create_auction P dto owner w ≡ (Outcome.ok saved, w')
      → IsCreated saved w'
  unfolding create_auction create_with_image save_and_schedule schedule_auction_start request
  create_auction_ok {saved} {w'} h = ground (
    arith,
    P.database.find_next_auction_id w.rows,
    P.database.find-save saved.id saved w.rows,
    P.database.image_table.find-insert_images saved.id saved.id 0
        (λ i. i == get_or dto.primary_image_index 0) dto.image_urls
        (P.database.save_auction saved w.rows),
    P.database.image_table.images-insert saved.id saved.id 0
        (λ i. i == get_or dto.primary_image_index 0) dto.image_urls
        (P.database.save_auction saved w.rows),
    P.database.image_table.images-save saved.id saved w.rows,
    P.database.image_table.next_image-save saved w.rows,
    P.queue.get-add (JobId.start_job saved.id) (JobId.start_job saved.id)
        (delay_until (get_or dto.start_time w.now) w.now) w.jobs,
  )

  -- When it throws, for a bad index or because the row or the job was refused, the tables are as
  -- before.
  pub create_auction_throws :
      {e : Exception} {w' : World P}
      → create_auction P dto owner w ≡ (Outcome.throws e, w')
      → w'.rows ≡ w.rows
  unfolding create_auction create_with_image
  create_auction_throws {e} {w'} h =
      go (get_elem? dto.image_urls (get_or dto.primary_image_index 0)) refl h
    where
      go :
          (o : Option String)
          → get_elem? dto.image_urls (get_or dto.primary_image_index 0) ≡ o
          → create_auction P dto owner w ≡ (Outcome.throws e, w')
          → w'.rows ≡ w.rows
      go none eq k = ground arith
      go (some primary) eq k =
          transaction_throws (save_and_schedule P dto primary (get_or dto.start_time w.now) owner) w
            {e = e} {w' = w'} (ground arith)
