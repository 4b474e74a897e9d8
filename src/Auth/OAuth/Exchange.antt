-- ===== src/Auth/OAuth/Exchange.antt =====
-- How often an exchange code is good: `exchangeOAuthCode` of server/src/modules/auth/auth.service.ts.
use bid_battle.Platform.Redis.{RedisKey}
use bid_battle.Redis.Cache.{delete_cache, get_cache}
use bid_battle.Auth.OAuth.{exchange_key, exchange_oauth_code}
use bid_battle.Prelude.{arith, some, ◌∷◌, [], none, ◌≡◌, Option, String}
use bid_battle.Platform.Effects.{Fault, Outcome, World, request, Exception, Platform}
use text.Mathlib.TextPositions.{eq_refl as str_eq_refl}

module _ (P : Platform) {T : Type 0} (parse : String → Option T) (code : String) (x : T) where
  abbrev invalid_code : Exception
  invalid_code = Exception.unauthorized "auth.errors.oauth_code_invalid_or_expired"

  -- When every request succeeds, a code that was exchanged is refused after it.
  pub exchange_oauth_code_once :
      (w : World P) {w' : World P}
      → exchange_oauth_code P parse code w ≡ (Outcome.ok x, w')
      → w.faults ≡ []
      → (exchange_oauth_code P parse code w').0 ≡ Outcome.throws invalid_code
  unfolding exchange_oauth_code get_cache delete_cache request
  exchange_oauth_code_once w {w'} h f =
      let gone =
        P.redis.get_text-del (exchange_key code) (RedisKey.cached (exchange_key code)) w.store in
      ground (arith, gone, str_eq_refl (exchange_key code), f)

  -- When Redis refuses the deletion, and nothing else fails, the code is good a second time.
  pub exchange_oauth_code_twice :
      (w : World P) {w' : World P}
      → exchange_oauth_code P parse code w ≡ (Outcome.ok x, w')
      → w.faults ≡ none ∷ some Fault.refused ∷ []
      → (exchange_oauth_code P parse code w').0 ≡ Outcome.ok x
  unfolding exchange_oauth_code get_cache delete_cache request
  exchange_oauth_code_twice w {w'} h f = ground (arith, f)
