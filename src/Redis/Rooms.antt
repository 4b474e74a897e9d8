-- ===== src/Redis/Rooms.antt =====
-- The socket methods of `RedisService`. The writers log the failure of their request and throw it
-- on; the readers answer a default.
use bid_battle.Prelude.{
  ℕ, Bool, false, Option, none, List, [], ◌∷◌, map, length, ◌==◌, ◌||◌, if◌then◌else◌,
}
use bid_battle.Platform.Redis.{RedisKey}
use bid_battle.Platform.Effects.{Platform, Eff, pure, throw, try_catch, ask_redis, change_redis}
use bid_battle.Redis.Commands.{socket_auction_ttl}

abbrev pub contains : ℕ → List ℕ → Bool
contains a [] = false
contains a (x ∷ xs) = a == x || contains a xs

-- `new Set(values)`, its members in the order of their last occurrence
abbrev pub distinct : List ℕ → List ℕ
distinct [] = []
distinct (x ∷ xs) = if contains x xs then distinct xs else x ∷ distinct xs

module _ (P : Platform) where
  open P.redis use {get, hash, set_ex, del, hset, hdel}

  unfoldable pub remove_user_from_auction_room : ℕ → ℕ → Eff P (Unit {0})
  remove_user_from_auction_room auction socket =
      try_catch (change_redis (hdel (RedisKey.auction_participants auction) socket)) throw

  unfoldable pub get_auction_participants_count : ℕ → Eff P ℕ
  get_auction_participants_count auction =
      try_catch (ask_redis λ s. length (hash (RedisKey.auction_participants auction) s))
        (λ _. pure 0)

  unfoldable pub get_unique_participants_count : ℕ → Eff P ℕ
  get_unique_participants_count auction =
      try_catch
        (ask_redis
          λ s. length (distinct (map (λ e. e.1) (hash (RedisKey.auction_participants auction) s))))
        (λ _. pure 0)

  unfoldable pub get_socket_auction : ℕ → ℕ → Eff P (Option ℕ)
  get_socket_auction user socket =
      try_catch (ask_redis (get (RedisKey.user_socket_auction user socket))) (λ _. pure none)

  unfoldable pub delete_socket_auction : ℕ → ℕ → Eff P (Unit {0})
  delete_socket_auction user socket =
      try_catch (change_redis (del (RedisKey.user_socket_auction user socket))) throw

  unfoldable pub add_user_to_auction_room : ℕ → ℕ → ℕ → Eff P (Unit {0})
  add_user_to_auction_room auction socket user =
      try_catch (change_redis (hset (RedisKey.auction_participants auction) socket user)) throw

  unfoldable pub set_socket_auction : ℕ → ℕ → ℕ → Eff P (Unit {0})
  set_socket_auction user socket auction =
      try_catch
        (change_redis
          (set_ex (RedisKey.user_socket_auction user socket) auction socket_auction_ttl))
        throw
