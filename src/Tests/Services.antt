-- ===== src/Tests/Services.antt =====
-- The definitions at concrete inputs: mails, pictures, lists, profiles and the answers to exceptions.
use bid_battle.Auctions.Service.Pictures.Atomic.{update_auction_images_atomic}
use bid_battle.Platform.Effects.{Exception, Fault, request}
use bid_battle.Auctions.Service.Pictures.{replace_images, write_images, flag_kept}
use bid_battle.Auctions.Service.{invalidate_auctions_cache}
use bid_battle.Redis.Cache.{invalidate_cache, scan_loop}
use bid_battle.Users.Profile.{
  find_one_by, find_or_create_by_user_id, find_by_user_id, create_default_preferences,
  save_preferences,
}
use bid_battle.Platform.Effects.{request}
use bid_battle.Auctions.EndProcessor.Notifications.{notify_auction_winner}
use bid_battle.Mail.{send_auction_winner_email}
use bid_battle.Entities.{AuctionCategory, AuctionImage, AuctionStatus}
use bid_battle.Tests.Accounts.{letters}
use bid_battle.Tests.Fixture.{memory_queue, memory}
use bid_battle.Tests.Worlds.{running, waiting, lamp}
use bid_battle.Auctions.Service.Pictures.{update_auction_images}
use bid_battle.Auctions.EndProcessor.Notifications.{send_end_notification_emails}
use bid_battle.Platform.Effects.{pure, Eff, World}
use bid_battle.Auctions.Listing.{
  SortOrder, AuctionSortBy, AuctionFilters, ListLibrary, build_auctions_cache_key, page_of_active,
}
use bid_battle.FileUpload.{clean_url, after_prefix, slashes}
use bid_battle.Auth.Strategies.{ProfileEmail, primary_email}
use bid_battle.Core.HttpExceptionFilter.{Message, Thrown, problem_of, catch_exception}
use bid_battle.Prelude.{
  [], refl, ◌==◌, Bool, Option, false, if◌then◌else◌, map, none, some, true, ◌∷◌, ◌≡◌, List, String,
  ℕ,
}

abbrev as_contained : String → String → Bool
as_contained t part = false

abbrev untranslated : String → Option ℕ → Option String
untranslated key args = none

duplicate_is_conflict :
    catch_exception as_contained untranslated (Thrown.query_failed (some 1062) none) ≡ record {
      status_code = 409;
      error = "error.Conflict";
      message = Message.one "error.database_unique_constraint";
    }
unfolding catch_exception problem_of
duplicate_is_conflict = refl

abbrev first_email : ProfileEmail
first_email = record { value = "a@example.org"; primary = false; verified = true }

abbrev main_email : ProfileEmail
main_email = record { value = "b@example.org"; primary = true; verified = true }

github_takes_primary : primary_email (first_email ∷ main_email ∷ []) ≡ some main_email
github_takes_primary = refl

folder_cut : clean_url "uploads" "/uploads/2026/a.png" ≡ "2026/a.png"
unfolding slashes after_prefix
folder_cut = refl

slashes_turned : clean_url "uploads" ".\\2026\\a.png" ≡ "2026/a.png"
unfolding slashes after_prefix
slashes_turned = refl

abbrev plain_lists : ListLibrary
plain_lists = record {
  show = λ n. if n == 1 then "1" else "10";
  trim = λ t. t;
  encode = λ t. t;
  meets = λ title t. false;
  sorted = λ by order rows. rows;
  by_amount = λ rows. rows;
}

abbrev any_auction : AuctionFilters
any_auction = record {
  search = none;
  category = none;
  min_price = none;
  max_price = none;
  sort_by = some AuctionSortBy.created_at;
  sort_order = some SortOrder.descending;
}

key_of_defaults : build_auctions_cache_key plain_lists 1 10 any_auction ≡ "auctions:active:1:10"
unfolding build_auctions_cache_key
key_of_defaults = refl

key_of_cheap_art :
    build_auctions_cache_key plain_lists 1 10
      (record any_auction { category = some AuctionCategory.art; max_price = some 10 })
    ≡ "auctions:active:1:10:cat=art:max=10"
unfolding build_auctions_cache_key
key_of_cheap_art = refl

abbrev dear_only : AuctionFilters
dear_only = record any_auction { min_price = some 200 }

dear_left_out : page_of_active plain_lists 0 10 dear_only (lamp AuctionStatus.active ∷ []) ≡ ([], 0)
unfolding page_of_active
dear_left_out = refl

-- User 2 wins the lamp of user 1, who has no account left: one mail goes out.
abbrev told : World memory
told =
    (send_end_notification_emails memory letters (lamp AuctionStatus.ended) 7 110 (some 2)
      (running [])).1

winner_told : map (λ m. m.to) (memory_queue.mails told.jobs) ≡ "ann@example.org" ∷ []
unfolding send_end_notification_emails find_one_by request find_or_create_by_user_id find_by_user_id
    create_default_preferences save_preferences notify_auction_winner send_auction_winner_email
winner_told = refl

-- The second of two pictures is dropped, and the first becomes the primary one.
abbrev picture : ℕ → String → Bool → AuctionImage
picture id url primary = record { id = id; image_url = url; is_primary = primary; auction_id = 7 }

abbrev two_pictures : World memory
two_pictures = record (waiting []) {
  rows = record (waiting []).rows {
    images = picture 1 "a.png" false ∷ picture 2 "b.png" true ∷ [];
  };
}

abbrev no_upload : List ℕ → Eff memory (List String)
no_upload files = pure []

abbrev no_delete : List String → Eff memory (Unit {0})
no_delete paths = pure tt

abbrev one_picture : World memory
one_picture =
    (update_auction_images memory no_upload no_delete (λ url. url) 7 1 [] ("a.png" ∷ []) none
      two_pictures).1

picture_kept : one_picture.rows.images ≡ picture 1 "a.png" true ∷ []
unfolding update_auction_images request replace_images write_images flag_kept
    invalidate_auctions_cache invalidate_cache scan_loop
picture_kept = refl

-- the fifth request, which saves the auction, is refused
abbrev picture_refused : World memory
picture_refused = record two_pictures {
  faults = none ∷ none ∷ none ∷ none ∷ some Fault.refused ∷ [];
}

abbrev after_refusal : World memory
after_refusal =
    (update_auction_images memory no_upload no_delete (λ url. url) 7 1 [] ("a.png" ∷ []) none
      picture_refused).1

update_auction_images_atomic_example : after_refusal.rows ≡ picture_refused.rows
unfolding update_auction_images request replace_images write_images flag_kept
    invalidate_auctions_cache invalidate_cache scan_loop
update_auction_images_atomic_example =
    update_auction_images_atomic memory no_upload no_delete (λ url. url) (λ files w. refl)
      (λ urls w. refl) 7 1 [] ("a.png" ∷ []) none picture_refused after_refusal
      (Exception.bad_request "error.auction.update_images_failed") refl
