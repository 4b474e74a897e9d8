-- ===== src/Core/RateLimit.antt =====
-- `setupRateLimit` of server/src/core/gateways/base.gateway.ts: the packets of one socket, by the
-- milliseconds at which they arrive.
use bid_battle.Prelude.{
  inr, inl, Bool-cases, ℕ, ◌+◌, ◌≤◌, ◌<◌, ◌≡◌, Bool, true, false, List, [], ◌∷◌, arith, refl,
  length, leb, ltb, if◌then◌else◌,
}

-- `configService.socket`
pub record SocketConfig : Type 0 where
  pub window_ms : ℕ
  pub max_events : ℕ

-- `eventTimestamps.filter((timestamp) => timestamp > now - windowMs)`
unfoldable pub recent : ℕ → ℕ → List ℕ → List ℕ
recent window now [] = []
recent window now (t ∷ ts) =
    if ltb now (t + window) then t ∷ recent window now ts else recent window now ts

abbrev pub push : ℕ → List ℕ → List ℕ
push now [] = now ∷ []
push now (t ∷ ts) = t ∷ push now ts

-- Whether a packet passes, and the time stamps that are kept.
unfoldable pub admit : SocketConfig → ℕ → List ℕ → Bool × List ℕ
admit config now stamps =
    let kept = recent config.window_ms now stamps in
    if leb config.max_events (length kept) then (false, kept) else (true, push now kept)

-- The arrivals that passed, oldest first, after more packets than those of `passed`.
pub pass : SocketConfig → List ℕ → List ℕ → List ℕ → List ℕ
pass config [] stamps passed = passed
pass config (now ∷ more) stamps passed =
    let (ok, stamps') = admit config now stamps in
    pass config more stamps' (if ok then push now passed else passed)

-- Each arrival is no earlier than the one before.
abbrev pub InOrder : ℕ → List ℕ → Type 0
InOrder last [] = Unit {0}
InOrder last (now ∷ more) = (last ≤ now) × InOrder now more

abbrev pub last_of : ℕ → List ℕ → ℕ
last_of last [] = last
last_of last (now ∷ more) = last_of now more

recent-recent :
    (window last now : ℕ) (ts : List ℕ)
    → last ≤ now
    → recent window now (recent window last ts) ≡ recent window now ts
unfolding recent
recent-recent window last now [] h = refl
recent-recent window last now (t ∷ ts) h = ground (arith, recent-recent window last now ts h)

recent-push :
    (window now : ℕ) (ts : List ℕ)
    → 0 < window
    → recent window now (push now ts) ≡ push now (recent window now ts)
unfolding recent
recent-push window now [] h = ground arith
recent-push window now (t ∷ ts) h = ground (arith, recent-push window now ts h)

length-push : (now : ℕ) (ts : List ℕ) → length (push now ts) ≡ 1 + length ts
length-push now [] = refl
length-push now (t ∷ ts) = ground (arith, length-push now ts)

length-recent : (window now : ℕ) (ts : List ℕ) → length (recent window now ts) ≤ length ts
unfolding recent
length-recent window now [] = omega arith
length-recent window now (t ∷ ts) = ground (arith, length-recent window now ts)

module _ (config : SocketConfig) (positive : 0 < config.window_ms) where
  pass_bounded :
      (times : List ℕ) (last : ℕ) (stamps passed : List ℕ)
      → InOrder last times
      → stamps ≡ recent config.window_ms last passed
      → length stamps ≤ config.max_events
      → length (recent config.window_ms (last_of last times) (pass config times stamps passed))
        ≤ config.max_events
  unfolding pass admit
  pass_bounded [] last stamps passed order same few = ground (arith, same)
  pass_bounded (now ∷ more) last stamps passed order same few =
      let kept = recent config.window_ms now stamps in
      let whole : kept ≡ recent config.window_ms now passed =
        ground (arith, same, recent-recent config.window_ms last now passed order.0) in
      elim (Bool-cases (leb config.max_events (length kept))) [
        | inl full ↦ rw full (
            pass_bounded more now kept passed order.1 whole
              (ground (arith, length-recent config.window_ms now stamps)))
        | inr free ↦ rw free (
            pass_bounded more now (push now kept) (push now passed) order.1
              (ground (arith, recent-push config.window_ms now passed positive, whole))
              (ground (arith, length-push now kept)))
      ]

  -- Of packets that arrive in order, no more than the maximum pass in the window that ends with the
  -- last of them, provided that the window is not empty.
  pub pass_within_limit :
      (first : ℕ) (times : List ℕ)
      → InOrder first times
      → length (recent config.window_ms (last_of first times) (pass config times [] []))
        ≤ config.max_events
  unfolding recent
  pass_within_limit first times order = pass_bounded times first [] [] order refl (omega arith)
