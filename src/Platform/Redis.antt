-- ===== src/Platform/Redis.antt =====
-- The Redis server. A key is one of the templates of `RedisKey` in
-- server/src/shared/redis/redis.service.ts, or the text of a cache entry.
use bid_battle.Prelude.{
  All, ℕ, ◌<◌, String, ◌≡◌, Bool, true, false, Option, none, some, List, [], ◌∷◌, ◌==◌,
  if◌then◌else◌, is_some, ◌&&◌, ltb, ◌-◌,
}
use text.Mathlib.Text.{◌==◌ as str_eq}

pub data RedisKey : Type 0 where
  auction_active auction_bidder auction_owner auction_participants auction_price : ℕ → RedisKey
  user_socket_auction : ℕ → ℕ → RedisKey
  cached : String → RedisKey

abbrev pub key_eq : RedisKey → RedisKey → Bool
key_eq (RedisKey.auction_active a) (RedisKey.auction_active b) = a == b
key_eq (RedisKey.auction_bidder a) (RedisKey.auction_bidder b) = a == b
key_eq (RedisKey.auction_owner a) (RedisKey.auction_owner b) = a == b
key_eq (RedisKey.auction_participants a) (RedisKey.auction_participants b) = a == b
key_eq (RedisKey.auction_price a) (RedisKey.auction_price b) = a == b
key_eq (RedisKey.user_socket_auction u s) (RedisKey.user_socket_auction v t) = u == v && s == t
key_eq (RedisKey.cached s) (RedisKey.cached t) = str_eq s t
key_eq _ _ = false

abbrev pub IsCached : RedisKey → Type 0
IsCached (RedisKey.cached _) = Unit {0}
IsCached _ = ⊥

-- The replies of TTL: -2, -1, and the seconds left.
pub data Ttl : Type 0 where
  missing persistent : Ttl
  seconds : ℕ → Ttl

-- What SET with KEEPTTL leaves of the old reply.
abbrev pub kept : Ttl → Ttl
kept Ttl.missing = Ttl.persistent
kept t = t

-- What EXPIRE with a positive argument makes of it.
abbrev pub renewed : ℕ → Ttl → Ttl
renewed n Ttl.missing = Ttl.missing
renewed n _ = Ttl.seconds n

-- The reply after `d` more seconds.
abbrev pub aged : ℕ → Ttl → Ttl
aged d (Ttl.seconds n) = if ltb d n then Ttl.seconds (n - d) else Ttl.missing
aged d t = t

abbrev pub is_missing : Ttl → Bool
is_missing Ttl.missing = true
is_missing _ = false

-- A hash as its fields with their values, each field once: a new field stands last.
abbrev pub put_field : ℕ → ℕ → List (ℕ × ℕ) → List (ℕ × ℕ)
put_field f v [] = (f, v) ∷ []
put_field f v ((g, u) ∷ h) = if f == g then (f, v) ∷ h else (g, u) ∷ put_field f v h

abbrev pub drop_field : ℕ → List (ℕ × ℕ) → List (ℕ × ℕ)
drop_field f [] = []
drop_field f ((g, u) ∷ h) = if f == g then h else (g, u) ∷ drop_field f h

pub record RedisServer : Type 1 where
  pub Store : Type 0
  -- The number whose decimal text an auction's or a socket's key holds; the text of a cache entry.
  pub get : RedisKey → Store → Option ℕ
  pub get_text : String → Store → Option String
  pub ttl : RedisKey → Store → Ttl
  pub hash : RedisKey → Store → List (ℕ × ℕ)
  -- SET key value EX n, SET key value KEEPTTL, DEL key, EXPIRE key n, HSET key field value, HDEL
  pub set_ex : RedisKey → ℕ → ℕ → Store → Store
  pub set_keep : RedisKey → ℕ → Store → Store
  pub del : RedisKey → Store → Store
  pub expire : RedisKey → ℕ → Store → Store
  pub exists : RedisKey → Store → Bool
  -- SET key value EX n NX, with whether it was carried out
  pub set_nx : RedisKey → ℕ → ℕ → Store → Bool × Store
  pub set_text : String → String → ℕ → Store → Store
  pub hset : RedisKey → ℕ → ℕ → Store → Store
  pub hdel : RedisKey → ℕ → Store → Store
  -- SCAN from a cursor, with MATCH: the next cursor and the keys found. A full iteration that starts
  -- at cursor 0 is back at 0 within `rounds` calls.
  pub scan : ℕ → String → Store → ℕ × List RedisKey
  pub rounds : Store → ℕ
  -- only cache entries have a text of the form auctions:active:*
  pub scan_lists : (cursor : ℕ) (s : Store) → All IsCached (scan cursor "auctions:active:*" s).1
  -- the store `d` seconds later, when no command came
  pub elapse : ℕ → Store → Store
  pub exists_lem : (k : RedisKey) (s : Store) → exists k s ≡ is_some (get k s)
  pub set_nx_lem :
      (k : RedisKey) (v n : ℕ) (s : Store)
      → set_nx k v n s ≡ (if exists k s then (false, s) else (true, set_ex k v n s))
  pub get-set_ex :
      (j k : RedisKey) (v n : ℕ) (s : Store)
      → 0 < n
      → get j (set_ex k v n s) ≡ (if key_eq k j then some v else get j s)
  pub ttl-set_ex :
      (j k : RedisKey) (v n : ℕ) (s : Store)
      → 0 < n
      → ttl j (set_ex k v n s) ≡ (if key_eq k j then Ttl.seconds n else ttl j s)
  pub get-set_keep :
      (j k : RedisKey) (v : ℕ) (s : Store)
      → get j (set_keep k v s) ≡ (if key_eq k j then some v else get j s)
  pub ttl-set_keep :
      (j k : RedisKey) (v : ℕ) (s : Store)
      → ttl j (set_keep k v s) ≡ (if key_eq k j then kept (ttl j s) else ttl j s)
  pub get-del :
      (j k : RedisKey) (s : Store) → get j (del k s) ≡ (if key_eq k j then none else get j s)
  pub ttl-del :
      (j k : RedisKey) (s : Store) → ttl j (del k s) ≡ (if key_eq k j then Ttl.missing else ttl j s)
  pub get_text-set_text :
      (j k v : String) (n : ℕ) (s : Store)
      → 0 < n
      → get_text j (set_text k v n s) ≡ (if str_eq k j then some v else get_text j s)
  pub get_text-del :
      (j : String) (k : RedisKey) (s : Store)
      → get_text j (del k s) ≡ (if key_eq k (RedisKey.cached j) then none else get_text j s)
  pub hash-hset :
      (j k : RedisKey) (f v : ℕ) (s : Store)
      → hash j (hset k f v s) ≡ (if key_eq k j then put_field f v (hash j s) else hash j s)
  pub hash-hdel :
      (j k : RedisKey) (f : ℕ) (s : Store)
      → hash j (hdel k f s) ≡ (if key_eq k j then drop_field f (hash j s) else hash j s)
  pub get-hset :
      (j k : RedisKey) (f v : ℕ) (s : Store) → key_eq k j ≡ false → get j (hset k f v s) ≡ get j s
  pub get-hdel : (j k : RedisKey) (f : ℕ) (s : Store) → get j (hdel k f s) ≡ get j s
  pub hash-del :
      (j k : RedisKey) (s : Store) → hash j (del k s) ≡ (if key_eq k j then [] else hash j s)
  pub hash-set_ex :
      (j k : RedisKey) (v n : ℕ) (s : Store)
      → key_eq k j ≡ false
      → hash j (set_ex k v n s) ≡ hash j s
  pub get-expire : (j k : RedisKey) (n : ℕ) (s : Store) → 0 < n → get j (expire k n s) ≡ get j s
  pub ttl-expire :
      (j k : RedisKey) (n : ℕ) (s : Store)
      → 0 < n
      → ttl j (expire k n s) ≡ (if key_eq k j then renewed n (ttl j s) else ttl j s)
  pub get_missing : (j : RedisKey) (s : Store) → ttl j s ≡ Ttl.missing → get j s ≡ none
  pub ttl-elapse : (j : RedisKey) (d : ℕ) (s : Store) → ttl j (elapse d s) ≡ aged d (ttl j s)
  pub get-elapse :
      (j : RedisKey) (d : ℕ) (s : Store)
      → get j (elapse d s) ≡ (if is_missing (aged d (ttl j s)) then none else get j s)
