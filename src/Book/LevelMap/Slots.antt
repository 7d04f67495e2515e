-- ===== src/Book/LevelMap/Slots.antt =====
-- The grid of prices of a side: the slot of a price, and the price of a slot.
use native.Mathlib.Nat.{mul-div_cancel, div-mul-le_self, le_trans, mul-le-mul_right}
use order_matching_engine.Base.{ℕ, ◌+◌, ◌*◌, ◌/◌, ◌≡◌, ap, ◌≢◌, ◌<◌, ◌≤◌, true, arith, length}
use order_matching_engine.Base.Int.{
  pos, pos_part, neg_part, ◌-ℤ◌, ◌<ℤ◌, ◌≤ℤ◌, add_sub_pos, parts_apart, +ℤ_parts, -ℤ_parts,
}
use order_matching_engine.Common.Types.{
  Price, Side, buy, sell, bid_empty, ask_empty, empty_sentinel,
}
use order_matching_engine.Book.LevelMap.{LevelMap, slot_price, in_range, index}

abbrev pub price_of : LevelMap → ℕ → Price
price_of m i = slot_price m.min_price m.tick i

-- The bounds of the configuration: a positive tick, and prices away from the two sentinels.
pub record IsGrid (m : LevelMap) : Type 0 where
  pub tick_pos : 0 < m.tick
  pub above_sentinel : bid_empty <ℤ m.min_price
  pub below_sentinel : m.max_price <ℤ ask_empty
  pub ordered : m.min_price ≤ℤ m.max_price
  pub slots : length m.levels ≡ pos_part (m.max_price -ℤ m.min_price) / m.tick + 1

pub index-price_of : (m : LevelMap) (i : ℕ) → 0 < m.tick → index m (price_of m i) ≡ i
unfolding index slot_price
index-price_of m i h = rw (add_sub_pos m.min_price (i * m.tick)) (mul-div_cancel i h)

slot_offset-le :
    {m : LevelMap}
    → IsGrid m
    → (i : ℕ) → i < length m.levels
    → i * m.tick ≤ pos_part (m.max_price -ℤ m.min_price)
slot_offset-le {m} g i h =
    let d = pos_part (m.max_price -ℤ m.min_price) in
    let below : i ≤ d / m.tick = omega (arith, g.slots) in
    le_trans (mul-le-mul_right m.tick below) (div-mul-le_self d m.tick)

pub price_of-le_max :
    {m : LevelMap} → IsGrid m → (i : ℕ) → i < length m.levels → price_of m i ≤ℤ m.max_price
unfolding slot_price
price_of-le_max {m} g i h = omega (
  arith,
  +ℤ_parts m.min_price (pos (i * m.tick)),
  -ℤ_parts m.max_price m.min_price,
  slot_offset-le g i h,
  g.ordered,
  parts_apart (m.max_price -ℤ m.min_price),
)

pub price_of-ge_min : (m : LevelMap) (i : ℕ) → m.min_price ≤ℤ price_of m i
unfolding slot_price
price_of-ge_min m i = omega (arith, +ℤ_parts m.min_price (pos (i * m.tick)))

pub price_of-in_range :
    {m : LevelMap} → IsGrid m → (i : ℕ) → i < length m.levels → in_range m (price_of m i) ≡ true
unfolding in_range
price_of-in_range {m} g i h = ground (arith, price_of-le_max g i h, price_of-ge_min m i)

pub price_of-ne_sentinel :
    {m : LevelMap}
    → IsGrid m
    → (i : ℕ) → i < length m.levels
    → (s : Side) → price_of m i ≢ empty_sentinel s
unfolding empty_sentinel
price_of-ne_sentinel {m} g i h buy e =
    omega (arith, price_of-ge_min m i, g.above_sentinel, ap pos_part e, ap neg_part e)
price_of-ne_sentinel {m} g i h sell e =
    omega (arith, price_of-le_max g i h, g.below_sentinel, ap pos_part e, ap neg_part e)

mul_lt : (t i j : ℕ) → 0 < t → i < j → i * t < j * t
mul_lt t i j h less = grind arith

pub price_of-mono : (m : LevelMap) (i j : ℕ) → 0 < m.tick → i < j → price_of m i <ℤ price_of m j
unfolding slot_price
price_of-mono m i j h less = omega (
  arith,
  +ℤ_parts m.min_price (pos (i * m.tick)),
  +ℤ_parts m.min_price (pos (j * m.tick)),
  mul_lt m.tick i j h less,
)
