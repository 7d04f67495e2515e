-- ===== src/Common/Types.antt =====
-- common/types.hpp: scaled prices, sides and the empty-book sentinels. A price is a signed 64-bit
-- number; a quantity, a participant or an order id is only compared and counted.
use order_matching_engine.Base.{ℕ, ◌-◌, ◌^◌, ◌≡◌, refl}
use order_matching_engine.Base.Int.{ℤ, pos, negsuc}

abbrev pub Price : Type 0
Price = ℤ

pub data Side : Type 0 where
  buy sell : Side

abbrev pub price_scale : ℕ
price_scale = 10000

unfoldable pub opposite : Side → Side
opposite buy = sell
opposite sell = buy

-- INT64_MIN and INT64_MAX.
abbrev pub bid_empty : Price
bid_empty = negsuc (2 ^ 63 - 1)

abbrev pub ask_empty : Price
ask_empty = pos (2 ^ 63 - 1)

unfoldable pub empty_sentinel : Side → Price
empty_sentinel buy = bid_empty
empty_sentinel sell = ask_empty

pub opposite-opposite : (s : Side) → opposite (opposite s) ≡ s
unfolding opposite
opposite-opposite buy = refl
opposite-opposite sell = refl
