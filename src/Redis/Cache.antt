-- ===== src/Redis/Cache.antt =====
-- The cache methods of `RedisService`. `parse` and `stringify` stand for JSON.parse (`none`: it
-- throws) and JSON.stringify.
pub mod Frame
use bid_battle.Prelude.{
  ℕ, suc, zero, String, Bool, Option, none, some, List, [], ◌∷◌, ◌==◌, if◌then◌else◌, false, true,
}
use text.Mathlib.Text.{◌==◌ as str_eq}
use bid_battle.Platform.Redis.{RedisKey}
use bid_battle.Platform.Effects.{
  Platform, Eff, Exception, pure, throw, try_catch, ◌>>=◌, ◌>>◌, when, ask_redis, change_redis,
}

abbrev some_found : List RedisKey → Bool
some_found [] = false
some_found _ = true

module _ (P : Platform) where
  open P.redis use {Store, get_text, set_text, del, scan, rounds}

  -- `data ? JSON.parse(data) : null`: the empty text counts as absent
  abbrev parse_entry : {T : Type 0} → (String → Option T) → Option String → Eff P (Option T)
  parse_entry parse none = pure none
  parse_entry parse (some t) =
      if str_eq t ""
      then pure none
      else elim (parse t) [ none ↦ throw Exception.request_failed | some x ↦ pure (some x) ]

  unfoldable pub get_cache : {T : Type 0} → (String → Option T) → String → Eff P (Option T)
  get_cache parse key =
      try_catch (do found ← ask_redis (get_text key); parse_entry parse found) (λ _. pure none)

  unfoldable pub set_cache : {T : Type 0} → (T → String) → String → T → ℕ → Eff P (Unit {0})
  set_cache stringify key value ttl_seconds =
      try_catch (change_redis (set_text key (stringify value) ttl_seconds)) (λ _. pure tt)

  unfoldable pub delete_cache : RedisKey → Eff P (Unit {0})
  delete_cache key = try_catch (change_redis (del key)) (λ _. pure tt)

  unfoldable pub del_all : List RedisKey → Store → Store
  del_all [] s = s
  del_all (k ∷ ks) s = del_all ks (del k s)

  -- the do-while loop over SCAN; the number bounds its rounds
  unfoldable pub scan_loop : ℕ → ℕ → String → Eff P (Unit {0})
  scan_loop zero cursor pattern = pure tt
  scan_loop (suc n) cursor pattern = do
    page ← ask_redis (scan cursor pattern)
    when (some_found page.1) (change_redis (del_all page.1))
    let rest = scan_loop n page.0 pattern
    if page.0 == 0 then pure tt else rest

  unfoldable pub invalidate_cache : String → Eff P (Unit {0})
  invalidate_cache pattern w = try_catch (scan_loop (rounds w.store) 0 pattern) (λ _. pure tt) w
