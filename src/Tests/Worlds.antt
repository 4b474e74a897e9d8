-- ===== src/Tests/Worlds.antt =====
-- The worlds of the examples: user 1 sells under auction 7.
use bid_battle.Platform.Accounts.{Accounts}
use bid_battle.Platform.Sockets.{Client}
use bid_battle.Prelude.{true, ℕ, Option, none, some, List, [], ◌∷◌}
use bid_battle.Entities.{User, Auction, AuctionCategory, AuctionStatus}
use bid_battle.Platform.Effects.{Fault, World}
use bid_battle.Platform.Queue.{JobId}
use bid_battle.Platform.Redis.{RedisKey, Ttl}
use bid_battle.Bid.Service.{BidConfig}
use bid_battle.Tests.Fixture.{Queues, Memory, blank, memory}

abbrev pub five_percent : BidConfig
five_percent = record { min_increment_percent = 5; min_increment_absolute = 1000 }

abbrev live_number : RedisKey → ℕ
live_number (RedisKey.auction_price _) = 100
live_number _ = 1

abbrev live_life : RedisKey → Ttl
live_life (RedisKey.auction_active _) = Ttl.seconds 600
live_life (RedisKey.auction_price _) = Ttl.seconds 4200
live_life (RedisKey.auction_owner _) = Ttl.seconds 4200
live_life _ = Ttl.missing

-- Every auction runs at price 100, and nobody has bid.
abbrev pub live_store : Memory
live_store = record blank { number = live_number; life = live_life }

abbrev pub lamp : AuctionStatus → Auction
lamp status = record {
  id = 7;
  title = "Lamp";
  description = "A brass lamp";
  main_image_url = "lamp.png";
  starting_price = 100;
  current_price = 100;
  start_time = 1000;
  end_time = 601000;
  started_at = none;
  ended_at = none;
  status = status;
  category = some AuctionCategory.art;
  owner_id = 1;
  winner_id = none;
}

abbrev no_job : Queues
no_job = record { delay = λ _. none; mails = [] }

abbrev end_delay : JobId → Option ℕ
end_delay (JobId.end_job _) = some 600000
end_delay _ = none

abbrev end_queued : Queues
end_queued = record { delay = end_delay; mails = [] }

abbrev pub bidder : User
bidder = record {
  id = 2;
  email = "ann@example.org";
  password = some "hash of old";
  first_name = "Ann";
  last_name = "Lee";
  avatar = none;
  is_email_verified = true;
  last_login_at = none;
  password_changed_at = none;
  deleted_at = none;
}

abbrev pub members : Accounts
members = record {
  users = bidder ∷ [];
  tokens = [];
  social_accounts = [];
  preferences = [];
  next_user_id = 3;
  next_token_id = 1;
  next_social_id = 1;
}

-- The socket 5 of user 2, in the room of auction 7.
abbrev pub visitor : Client
visitor = record {
  id = 5;
  authorization = some ("Bearer" ∷ "token" ∷ []);
  user = some (record { sub = 2; email = "ann@example.org"; iat = some 1 });
  auction_id = some 7;
  rooms = [];
  connected = true;
}

abbrev pub running : List (Option Fault) → World memory
running faults = record {
  store = live_store;
  rows = record {
    auctions = lamp AuctionStatus.active ∷ [];
    bids = [];
    images = [];
    accounts = members;
  };
  jobs = end_queued;
  now = 1000;
  sent = [];
  client = visitor;
  faults = faults;
}

abbrev pub waiting : List (Option Fault) → World memory
waiting faults = record {
  store = blank;
  rows = record {
    auctions = lamp AuctionStatus.pending ∷ [];
    bids = [];
    images = [];
    accounts = members;
  };
  jobs = no_job;
  now = 1000;
  sent = [];
  client = visitor;
  faults = faults;
}
