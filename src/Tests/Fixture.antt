-- ===== src/Tests/Fixture.antt =====
-- A Redis, a database and a queue in memory that meet the laws of Platform.
mod Images
use bid_battle.Tests.Fixture.Images.{
  images-set_primary_lem, images-delete_lem, images-insert_lem, free_image_id, image_rows,
}
use bid_battle.Platform.Images.{has_id, numbered}
use bid_battle.Platform.Effects.{Platform}
use bid_battle.Platform.Queue.{Mail, job_eq, JobId, JobQueue}
use bid_battle.Platform.Database.{Database}
use bid_battle.Entities.{AuctionImage, is_active, Auction, Bid}
use bid_battle.Prelude.{delete_where, update_where}
use bid_battle.Platform.Accounts.{Accounts, find_user_where, without_password}
use mathlib.Core.Option
use text.Mathlib.TextPositions.{eq_refl as str_eq_refl}
use text.Mathlib.Text.{◌==◌ as str_eq}
use bid_battle.Prelude.{
  not, Bool, ◌++◌, ◌+◌, max, suc, true, is_some, ◌==◌, ◌∷◌, ◌≤◌, ℕ, String, ◌≡◌, refl, false,
  Option, none, some, List, [], arith, if◌then◌else◌,
}
use bid_battle.Platform.Redis.{
  RedisServer, aged, drop_field, put_field, renewed, RedisKey, Ttl, key_eq, is_missing, kept,
}

pub record Memory : Type 0 where
  pub number : RedisKey → ℕ
  pub life : RedisKey → Ttl
  pub entry : String → Option String
  pub fields : RedisKey → List (ℕ × ℕ)

abbrev pub blank : Memory
blank = record { number = λ _. 0; life = λ _. Ttl.missing; entry = λ _. none; fields = λ _. [] }

abbrev read : RedisKey → Memory → Option ℕ
read j s = if is_missing (s.life j) then none else some (s.number j)

abbrev write : RedisKey → ℕ → Ttl → Memory → Memory
write k v t s = record s {
  number = λ j. if key_eq k j then v else s.number j;
  life = λ j. if key_eq k j then t else s.life j;
}

abbrev forget : RedisKey → Memory → Memory
forget k s = record {
  number = s.number;
  life = λ j. if key_eq k j then Ttl.missing else s.life j;
  entry = λ j. if key_eq k (RedisKey.cached j) then none else s.entry j;
  fields = λ j. if key_eq k j then [] else s.fields j;
}

pub read-write :
    (j k : RedisKey) (v : ℕ) (t : Ttl) (s : Memory)
    → is_missing t ≡ false
    → read j (write k v t s) ≡ (if key_eq k j then some v else read j s)
read-write j k v t s h = ground arith

abbrev keep : RedisKey → ℕ → Memory → Memory
keep k v s = record s {
  number = λ j. if key_eq k j then v else s.number j;
  life = λ j. if key_eq k j then kept (s.life j) else s.life j;
}

pub kept_there : (t : Ttl) → is_missing (kept t) ≡ false
kept_there Ttl.missing = refl
kept_there _ = refl

pub read-keep :
    (j k : RedisKey) (v : ℕ) (s : Memory)
    → read j (keep k v s) ≡ (if key_eq k j then some v else read j s)
read-keep j k v s = ground (arith, kept_there (s.life j))

pub read-forget :
    (j k : RedisKey) (s : Memory) → read j (forget k s) ≡ (if key_eq k j then none else read j s)
read-forget j k s = ground arith

abbrev renew : RedisKey → ℕ → Memory → Memory
renew k n s = record s { life = λ j. if key_eq k j then renewed n (s.life j) else s.life j }

pub read-renew : (j k : RedisKey) (n : ℕ) (s : Memory) → read j (renew k n s) ≡ read j s
read-renew j k n s = ground arith

abbrev age : ℕ → Memory → Memory
age d s = record {
  number = s.number;
  life = λ j. aged d (s.life j);
  entry = s.entry;
  fields = s.fields;
}

pub read-age :
    (j : RedisKey) (d : ℕ) (s : Memory)
    → read j (age d s) ≡ (if is_missing (aged d (s.life j)) then none else read j s)
read-age j d s = ground arith

pub read_missing : (j : RedisKey) (s : Memory) → s.life j ≡ Ttl.missing → read j s ≡ none
read_missing j s h = ground arith

abbrev put_text : String → String → Memory → Memory
put_text k v s = record s { entry = λ j. if str_eq k j then some v else s.entry j }

abbrev put_hash : RedisKey → ℕ → ℕ → Memory → Memory
put_hash k f v s = record s {
  fields = λ j. if key_eq k j then put_field f v (s.fields j) else s.fields j;
}

abbrev drop_hash : RedisKey → ℕ → Memory → Memory
drop_hash k f s = record s {
  fields = λ j. if key_eq k j then drop_field f (s.fields j) else s.fields j;
}

abbrev pub memory_redis : RedisServer
memory_redis = record {
  Store = Memory;
  get = read;
  get_text = λ j s. s.entry j;
  ttl = λ j s. s.life j;
  hash = λ j s. s.fields j;
  set_ex = λ k v n s. write k v (Ttl.seconds n) s;
  set_keep = keep;
  del = forget;
  expire = renew;
  exists = λ k s. is_some (read k s);
  set_nx =
      λ k v n s. if is_some (read k s) then (false, s) else (true, write k v (Ttl.seconds n) s);
  set_text = λ k v n s. put_text k v s;
  hset = put_hash;
  hdel = drop_hash;
  scan = λ c p s. (0, []);
  rounds = λ s. 1;
  scan_lists = λ c s. tt;
  elapse = age;
  exists_lem = λ k s. refl;
  set_nx_lem = λ k v n s. refl;
  get-set_ex = λ j k v n s h. read-write j k v (Ttl.seconds n) s refl;
  ttl-set_ex = λ j k v n s h. refl;
  get-set_keep = read-keep;
  ttl-set_keep = λ j k v s. refl;
  get-del = read-forget;
  ttl-del = λ j k s. refl;
  get_text-set_text = λ j k v n s h. refl;
  get_text-del = λ j k s. refl;
  hash-hset = λ j k f v s. refl;
  hash-hdel = λ j k f s. refl;
  get-hset = λ j k f v s h. refl;
  get-hdel = λ j k f s. refl;
  hash-del = λ j k s. refl;
  hash-set_ex = λ j k v n s h. refl;
  get-expire = λ j k n s h. read-renew j k n s;
  ttl-expire = λ j k n s h. refl;
  get_missing = read_missing;
  ttl-elapse = λ j d s. refl;
  get-elapse = read-age;
}

-- The rows of the tables, newest first.
pub record Tables : Type 0 where
  pub auctions : List Auction
  pub bids : List Bid
  pub images : List AuctionImage
  pub accounts : Accounts

abbrev find_row : ℕ → List Auction → Option Auction
find_row j [] = none
find_row j (a ∷ rest) = if a.id == j then some a else find_row j rest

abbrev update_rows : ℕ → (Auction → Auction) → List Auction → List Auction
update_rows i f [] = []
update_rows i f (a ∷ rest) = (if a.id == i then f a else a) ∷ update_rows i f rest

abbrev active_rows : List Auction → List Auction
active_rows [] = []
active_rows (a ∷ rest) = if is_active a.status then a ∷ active_rows rest else active_rows rest

abbrev free_id : List Auction → ℕ
free_id [] = 1
free_id (a ∷ rest) = max (a.id + 1) (free_id rest)

abbrev rows_of : ℕ → List Bid → List Bid
rows_of j [] = []
rows_of j (b ∷ rest) = if b.auction_id == j then b ∷ rows_of j rest else rows_of j rest

abbrev count : List Bid → ℕ
count [] = 1
count (b ∷ rest) = suc (count rest)

pub find_row_id : (j : ℕ) (r : List Auction) (a : Auction) → find_row j r ≡ some a → a.id ≡ j
find_row_id j [] a h = cc
find_row_id j (b ∷ rest) a h = ground (arith, find_row_id j rest a)

pub find_row_free : (j : ℕ) (r : List Auction) → free_id r ≤ j → find_row j r ≡ none
find_row_free j [] h = refl
find_row_free j (a ∷ rest) h = ground (arith, find_row_free j rest)

pub find_row-update :
    (j i : ℕ) (f : Auction → Auction) (r : List Auction)
    → ((a : Auction) → (f a).id ≡ a.id)
    → find_row j (update_rows i f r)
      ≡ (if i == j then Option.map f (find_row j r) else find_row j r)
find_row-update j i f [] h = ground arith
find_row-update j i f (a ∷ rest) h = ground (arith, h a, find_row-update j i f rest h)

pub rows_of_lem :
    (j a u m : ℕ) (r : List Bid)
    → rows_of j (record { id = count r; amount = m; auction_id = a; user_id = u } ∷ r) ≡ (
        if a == j
        then record { id = count r; amount = m; auction_id = a; user_id = u } ∷ rows_of j r
        else rows_of j r)
rows_of_lem j a u m r = refl

abbrev pub memory_database : Database
memory_database = record {
  Rows = Tables;
  find_auction = λ j r. find_row j r.auctions;
  find_user = λ j r. Option.map without_password (find_user_where (λ u. u.id == j) r.accounts);
  image_table = record {
    images_of = λ j r. image_rows j r.images;
    next_image_id = λ r. free_image_id r.images;
    insert_images = λ a i p urls r. record r {
      images = r.images ++ numbered (free_image_id r.images) a i p urls;
    };
    delete_images = λ ids r. record r { images = delete_where (λ m. has_id ids m.id) r.images };
    set_primary = λ i b r. record r {
      images = update_where (λ m. m.id == i) (λ m. record m { is_primary = b }) r.images;
    };
    images-insert = λ j a i p urls r. images-insert_lem j a i p urls r.images;
    images-delete = λ j ids r. images-delete_lem j ids r.images;
    images-set_primary = λ j i b r. images-set_primary_lem j i b r.images;
    find-insert_images = λ j a i p urls r. refl;
    images-save = λ j a r. refl;
    next_image-save = λ a r. refl;
  };
  account_tables = record {
    accounts = λ r. r.accounts;
    put_accounts = λ t r. record r { accounts = t };
    same_text = str_eq;
    same_text_refl = str_eq_refl;
    accounts-put = λ t r. refl;
    find_user_lem = λ j r. refl;
  };
  save_auction = λ a r. record r { auctions = a ∷ r.auctions };
  update_auction = λ i f r. record r { auctions = update_rows i f r.auctions };
  bids_of = λ j r. rows_of j r.bids;
  next_bid_id = λ r. count r.bids;
  insert_bid = λ a u m r. record r {
    bids = record { id = count r.bids; amount = m; auction_id = a; user_id = u } ∷ r.bids;
  };
  roll_back = λ before after. before;
  active_auctions = λ r. active_rows r.auctions;
  next_auction_id = λ r. free_id r.auctions;
  find_next_auction_id = λ r. find_row_free (free_id r.auctions) r.auctions (omega arith);
  find_id = λ j r. find_row_id j r.auctions;
  find-save = λ j a r. refl;
  find-update = λ j i f r. find_row-update j i f r.auctions;
  find-insert_bid = λ j a u m r. refl;
  bids_of-insert_bid = λ j a u m r. rows_of_lem j a u m r.bids;
  bids_of-save = λ j a r. refl;
  bids_of-update = λ j i f r. refl;
  roll_back_lem = λ before after. refl;
}

-- The delays of the jobs, and the mails.
pub record Queues : Type 0 where
  pub delay : JobId → Option ℕ
  pub mails : List Mail

abbrev add_to : JobId → ℕ → Queues → Queues
add_to k d q = record q {
  delay = λ j. if job_eq k j then some (elim (q.delay j) [ some e ↦ e | none ↦ d ]) else q.delay j;
}

abbrev pub memory_queue : JobQueue
memory_queue = record {
  Jobs = Queues;
  get_job = λ j q. q.delay j;
  add_job = add_to;
  remove_job = λ k q. record q { delay = λ j. if job_eq k j then none else q.delay j };
  get-add = λ j k d q. refl;
  get-remove = λ j k q. refl;
  mails = λ q. q.mails;
  add_mail = λ m q. record q { mails = m ∷ q.mails };
  mails-add = λ m q. refl;
}

abbrev pub memory : Platform
memory = record { redis = memory_redis; database = memory_database; queue = memory_queue }
