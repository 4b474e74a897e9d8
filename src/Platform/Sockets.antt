-- ===== src/Platform/Sockets.antt =====
-- The socket whose event is handled: modules/auth/interfaces/auth-socket.interface.ts and
-- auth-jwt.interface.ts of server/src, and the rooms of Socket.IO.
use text.Mathlib.Text.{◌==◌ as str_eq}
use bid_battle.Prelude.{
  ℕ, String, Bool, false, Option, none, some, List, [], ◌∷◌, ◌==◌, if◌then◌else◌,
}

pub data Room : Type 0 where
  auction_room user_room : ℕ → Room

-- IAuthJwt: who a token names and when it was issued, in seconds
pub record AuthJwt : Type 0 where
  pub sub : ℕ
  pub email : String
  pub iat : Option ℕ

-- `client`, with the fields of `client.data`
pub record Client : Type 0 where
  pub id : ℕ
  -- the words of the handshake's authorization header, as `split(' ')` gives them
  pub authorization : Option (List String)
  pub user : Option AuthJwt
  pub auction_id : Option ℕ
  pub rooms : List Room
  pub connected : Bool

abbrev pub room_eq : Room → Room → Bool
room_eq (Room.auction_room a) (Room.auction_room b) = a == b
room_eq (Room.user_room a) (Room.user_room b) = a == b
room_eq _ _ = false

abbrev pub without : Room → List Room → List Room
without r [] = []
without r (q ∷ qs) = if room_eq r q then without r qs else q ∷ without r qs

-- `extractTokenFromHandshake`; an empty token counts as none, as its callers test `!token`
unfoldable pub extract_token : Option (List String) → Option String
extract_token (some (kind ∷ token ∷ more)) =
    if str_eq kind "Bearer" then (if str_eq token "" then none else some token) else none
extract_token _ = none
