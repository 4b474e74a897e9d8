-- ===== src/Bid/Increment.antt =====
-- `calcMinIncrement` of server/src/modules/bid/bid.constants.ts. Prices are whole numbers, which
-- request validation sees to; the absolute minimum and the result, which may have a fraction, are in
-- hundredths. The percent is a whole number: the product is then exact in a double, and its hundredth
-- is never rounded onto an integer, so `Math.ceil` is the exact ceiling.
use bid_battle.Prelude.{ℕ, ◌+◌, ◌*◌, ◌/◌, ◌≤◌, ◌<◌, ◌≡◌, max, ◌==◌, if◌then◌else◌, arith}

unfoldable pub calc_min_increment : ℕ → ℕ → ℕ → ℕ
calc_min_increment current_price percent min_absolute =
    if current_price == 0
    then min_absolute
    else max (100 * ((current_price * percent + 99) / 100)) min_absolute

-- The least whole number that is at least so many hundredths. A whole amount reaches a whole price
-- plus an increment exactly if it reaches the price plus this.
unfoldable pub whole_increment : ℕ → ℕ
whole_increment hundredths = (hundredths + 99) / 100

-- For a whole percent, the increment is the larger of the absolute minimum and the least whole number
-- that is at least the percentage of the price; so it is at least both. The minimum may have a
-- fraction: it and the increment are in hundredths.
pub calc_min_increment_least :
    (price percent absolute : ℕ)
    → let inc = calc_min_increment price percent absolute in
      (absolute ≤ inc)
      × (price * percent ≤ inc)
      × ((k : ℕ) × (inc ≡ max (100 * k) absolute)
          × (price * percent ≤ 100 * k)
          × ((n : ℕ) → price * percent ≤ 100 * n → k ≤ n))
unfolding calc_min_increment
calc_min_increment_least price percent absolute = (
  ground arith,
  ground arith,
  ((price * percent + 99) / 100, ground arith, omega arith, λ n h. omega (arith, h)),
)

-- A whole amount is below a whole price plus an increment in hundredths exactly if it is below the
-- price plus the whole increment.
pub whole_increment_exact :
    (amount price hundredths : ℕ)
    → ((amount < price + whole_increment hundredths) → 100 * amount < 100 * price + hundredths)
      × ((100 * amount < 100 * price + hundredths) → amount < price + whole_increment hundredths)
unfolding whole_increment
whole_increment_exact amount price hundredths = (λ h. omega (arith, h), λ h. omega (arith, h))

-- A positive minimum makes a positive increment.
pub whole_increment_positive :
    (price percent absolute : ℕ)
    → 0 < absolute
    → 0 < whole_increment (calc_min_increment price percent absolute)
unfolding whole_increment
whole_increment_positive price percent absolute positive =
    let least = calc_min_increment_least price percent absolute in omega (arith, least.0, positive)

-- A higher price never asks for a lower increment.
pub calc_min_increment_mono :
    (p q percent absolute : ℕ)
    → p ≤ q
    → calc_min_increment p percent absolute ≤ calc_min_increment q percent absolute
unfolding calc_min_increment
calc_min_increment_mono p q percent absolute h = grind arith
