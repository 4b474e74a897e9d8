-- ===== src/Tests/Requests.antt =====
-- The theorems on the requests of an auction's owner.
use bid_battle.Platform.Effects.{request}
use bid_battle.Auctions.Service.{
  check_end_time, write_update, extend_row, check_no_bids, apply_update, reschedule_end,
  invalidate_auctions_cache,
}
use bid_battle.Auctions.Scheduler.{cancel_auction_end, schedule_auction_end}
use bid_battle.Redis.Auctions.{extend_auction_time}
use bid_battle.Redis.Cache.{invalidate_cache, scan_loop}
use bid_battle.Auctions.Service.{create_with_image, save_and_schedule}
use bid_battle.Platform.Effects.{request}
use bid_battle.Auctions.Scheduler.{schedule_auction_start}
use bid_battle.Auctions.Service.{create_with_image, save_and_schedule}
use bid_battle.Platform.Effects.{request}
use bid_battle.Auctions.Scheduler.{schedule_auction_start}
use bid_battle.Platform.Effects.{request}
use bid_battle.Platform.Effects.{request}
use bid_battle.Auctions.Service.{
  cancel_row, check_no_bids, finish_cancel, clean_up_canceled, invalidate_auctions_cache,
  invalidate_price_cache,
}
use bid_battle.Auctions.Scheduler.{cancel_auction_end}
use bid_battle.Redis.Auctions.{cleanup_auction}
use bid_battle.Redis.Cache.{invalidate_cache, scan_loop, delete_cache}
use bid_battle.Platform.Queue.{JobId}
use bid_battle.Auctions.EndProcessor.{finalize, process_end}
use bid_battle.Auctions.Service.Extension.{update_auction_ok, IsUpdated}
use bid_battle.Auctions.Service.Creation.{create_auction_ok, IsCreated}
use bid_battle.Tests.Worlds.{lamp, running}
use bid_battle.Auctions.Service.Cancellation.{
  cancel_then_end, cancel_auction_ok, canceled, IsCancelable,
}
use bid_battle.Auctions.Service.{
  CreateAuction, UpdateAuction, cancel_auction, create_auction, update_auction,
}
use bid_battle.Platform.Effects.{Exception, Fault, Outcome, World}
use bid_battle.Entities.{AuctionCategory, AuctionStatus, Auction}
use bid_battle.Prelude.{arith, refl, ◌∷◌, ◌≢◌, [], none, some, ◌≡◌}
use bid_battle.Tests.Fixture.{memory_database, memory_queue, memory}

abbrev row : Auction
row = lamp AuctionStatus.active

abbrev cancel_world : World memory
cancel_world = (cancel_auction memory 7 1 (running [])).1

cancels : cancel_auction memory 7 1 (running []) ≡ (Outcome.ok (canceled row), cancel_world)
unfolding cancel_auction request cancel_row check_no_bids finish_cancel clean_up_canceled
    cancel_auction_end cleanup_auction invalidate_auctions_cache invalidate_cache scan_loop
    invalidate_price_cache delete_cache
cancels = refl

cancel_auction_ok_example :
    IsCancelable memory 7 row (running [])
    × (row.owner_id ≡ 1)
    × (canceled row ≡ canceled row)
    × (cancel_world.rows ≡ memory_database.save_auction (canceled row) (running []).rows)
cancel_auction_ok_example =
    cancel_auction_ok memory 7 1 (running []) row {saved = canceled row} {w' = cancel_world} refl
      cancels

abbrev stranger_world : World memory
stranger_world = (cancel_auction memory 7 2 (running [])).1

stranger_throws : cancel_auction memory 7 2 (running []) ≡ (
  Outcome.throws (Exception.forbidden "error.auction.cancel_forbidden_not_owner"),
  stranger_world,
)
unfolding cancel_auction request
stranger_throws = refl

abbrev stuck_queue : World memory
stuck_queue = running (none ∷ none ∷ none ∷ none ∷ none ∷ some Fault.refused ∷ [])

end_job_queued : memory_queue.get_job (JobId.end_job 7) stuck_queue.jobs ≢ none
end_job_queued = ground arith

cancel_then_end_example :
    let (r, w') = cancel_auction memory 7 1 stuck_queue in
    let (r', w'') = process_end memory 7 w' in
    (r ≡ Outcome.throws Exception.request_failed)
    × (memory_database.find_auction 7 w'.rows ≡ some (canceled row))
    × (memory_database.find_auction 7 w''.rows ≡ some (finalize 100 none 1000 (canceled row)))
cancel_then_end_example =
    cancel_then_end memory 7 1 100 stuck_queue row refl refl refl refl end_job_queued refl
      (omega arith) refl

abbrev new_lamp : CreateAuction
new_lamp = record {
  title = "Lamp";
  description = "A brass lamp";
  starting_price = 50;
  start_time = none;
  end_time = 900000;
  category = none;
  image_urls = "front.png" ∷ "back.png" ∷ [];
  primary_image_index = some 1;
}

abbrev created_row : Auction
created_row = record {
  id = 8;
  title = "Lamp";
  description = "A brass lamp";
  main_image_url = "back.png";
  starting_price = 50;
  current_price = 50;
  start_time = 1000;
  end_time = 900000;
  started_at = none;
  ended_at = none;
  status = AuctionStatus.pending;
  category = some AuctionCategory.other;
  owner_id = 1;
  winner_id = none;
}

abbrev created_world : World memory
created_world = (create_auction memory new_lamp 1 (running [])).1

creates : create_auction memory new_lamp 1 (running []) ≡ (Outcome.ok created_row, created_world)
unfolding create_auction create_with_image save_and_schedule request schedule_auction_start
creates = refl

create_auction_ok_example : IsCreated memory new_lamp 1 (running []) created_row created_world
create_auction_ok_example =
    create_auction_ok memory new_lamp 1 (running []) {saved = created_row} {w' = created_world}
      creates

abbrev unscheduled_world : World memory
unscheduled_world = (create_auction memory new_lamp 1 (running (none ∷ some Fault.refused ∷ []))).1

create_throws :
    create_auction memory new_lamp 1 (running (none ∷ some Fault.refused ∷ []))
    ≡ (Outcome.throws Exception.request_failed, unscheduled_world)
unfolding create_auction create_with_image save_and_schedule request schedule_auction_start
create_throws = refl

abbrev longer : UpdateAuction
longer = record {
  title = some "Tall lamp";
  description = none;
  category = none;
  end_time = some 900000;
}

abbrev extended_row : Auction
extended_row = record row { title = "Tall lamp"; end_time = 900000 }

abbrev extended_world : World memory
extended_world = (update_auction memory 7 longer 1 (running [])).1

extends : update_auction memory 7 longer 1 (running []) ≡ (Outcome.ok extended_row, extended_world)
unfolding update_auction request check_end_time write_update extend_row check_no_bids apply_update
    reschedule_end cancel_auction_end schedule_auction_end extend_auction_time
    invalidate_auctions_cache invalidate_cache scan_loop
extends = refl

update_auction_ok_example : IsUpdated memory 7 longer 1 row extended_row (running []) extended_world
update_auction_ok_example =
    update_auction_ok memory 7 longer 1 row (running []) {u = extended_row} {w' = extended_world}
      refl extends
