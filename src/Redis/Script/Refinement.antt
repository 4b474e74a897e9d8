-- ===== src/Redis/Script/Refinement.antt =====
-- BID_SCRIPT of server/src/shared/redis/redis.service.ts as an English auction: what a bidder has to
-- know of the store.
use bid_battle.Redis.Script.Acceptance.{bid_script_rejects, bid_script_writes}
use bid_battle.Redis.Script.{bid_script}
use bid_battle.Platform.Redis.{RedisKey, RedisServer}
use bid_battle.Redis.Script.Ladder.{Offer, run_bids}
use bid_battle.Prelude.{
  refl, inr, ==_iff, ◌+◌, inl, leb, Bool-cases, same_number, [], get_or, not, ◌==◌, Option, some,
  ◌&&◌, ◌∷◌, Bool, List, if◌then◌else◌, ℕ, ◌≡◌, arith,
}

-- An auction as its bidders see it.
pub record Book : Type 0 where
  pub is_open : Bool
  pub price : ℕ
  pub leader : Option ℕ

abbrev pub is_welcome : Offer → Book → Bool
is_welcome o k =
    k.is_open && (not (same_number k.leader (some o.user)) && leb (k.price + o.increment) o.amount)

-- An offer is taken if the auction is open, its user does not lead, and it beats the price by its
-- increment; it then leads.
abbrev pub take_offer : Offer → Book → Book
take_offer o k = if is_welcome o k then record k { price = o.amount; leader = some o.user } else k

-- The offers that are taken one after the other, and the book at the end.
pub take_offers : List Offer → Book → List Offer × Book
take_offers [] k = ([], k)
take_offers (o ∷ os) k =
    let (taken, k') = take_offers os (take_offer o k) in
    (if is_welcome o k then o ∷ taken else taken, k')

module _ (R : RedisServer) (auction : ℕ) where
  open R use {Store, get, exists, exists_lem}

  abbrev pub book : Store → Book
  book s = record {
    is_open = exists (RedisKey.auction_active auction) s;
    price = get_or (get (RedisKey.auction_price auction) s) 0;
    leader = get (RedisKey.auction_bidder auction) s;
  }

  bid_script-is_welcome :
      (o : Offer) (s : Store)
      → ((bid_script R auction o.amount o.user o.increment s).0.0 == 1) ≡ is_welcome o (book s)
  unfolding bid_script
  bid_script-is_welcome o s = ground arith

  bid_script-take_offer :
      (o : Offer) (s : Store)
      → book (bid_script R auction o.amount o.user o.increment s).1 ≡ take_offer o (book s)
  bid_script-take_offer o s =
      let t = (bid_script R auction o.amount o.user o.increment s).1 in
      let active = RedisKey.auction_active auction in
      let welcome = bid_script-is_welcome o s in
      elim (Bool-cases ((bid_script R auction o.amount o.user o.increment s).0.0 == 1)) [
        | inl taken ↦
            let accepted = (==_iff _ 1).0 taken in
            let written = (bid_script_writes R auction o.amount o.user o.increment s accepted).0 in
            ground (
              arith,
              taken,
              welcome,
              exists_lem active s,
              exists_lem active t,
              written active,
              written (RedisKey.auction_price auction),
              written (RedisKey.auction_bidder auction),
            )
        | inr refused ↦
            let same =
              (bid_script_rejects R auction o.amount o.user o.increment s (λ e. ground arith)).0 in
            ground (arith, refused, welcome, same)
      ]

  -- To its bidders, a run of the script over any sequence of bids is the English auction: the same
  -- offers are taken, and the store shows the same book at the end.
  pub run_bids-take_offers :
      (os : List Offer) (s : Store)
      → let (taken, t) = run_bids R auction os s in
        let (taken', k) = take_offers os (book s) in (taken ≡ taken') × (book t ≡ k)
  unfolding run_bids take_offers
  run_bids-take_offers [] s = (refl, refl)
  run_bids-take_offers (o ∷ os) s =
      let t = (bid_script R auction o.amount o.user o.increment s).1 in
      ground
        (arith, bid_script-is_welcome o s, bid_script-take_offer o s, run_bids-take_offers os t)
