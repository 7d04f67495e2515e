-- ===== src/Book/LevelMap.antt =====
-- book/level_map.hpp: the levels of one side by slot, and the best price of that side. The search
-- for the next occupied level stands here as a scan of the slots.
pub mod Slots
pub mod Scan
pub mod Best
pub mod Valid
pub mod Add
pub mod Init
use order_matching_engine.Base.{
  ℕ, zero, suc, ◌+◌, ◌-◌, ◌*◌, ◌/◌, List, [], ◌∷◌, Bool, true, false, not, ◌&&◌, Option, none, some,
  if◌then◌else◌, get_elem?, set, length, elim_option,
}
use order_matching_engine.Base.Int.{ℤ, pos, pos_part, ◌+ℤ◌, ◌-ℤ◌, leb_ℤ, ltb_ℤ, eqb_ℤ}
use order_matching_engine.Common.Types.{Price, Side, buy, sell, empty_sentinel}
use order_matching_engine.Engine.Order.{Order, BookConfig}
use order_matching_engine.Engine.PriceLevel.{PriceLevel, enqueue, is_empty}
use order_matching_engine.Engine.PriceLevel

pub record LevelMap : Type 0 where
  pub side : Side
  pub min_price : Price
  pub max_price : Price
  pub tick : ℕ
  pub levels : List PriceLevel
  pub best : Price

-- The price of slot `i`.
unfoldable pub slot_price : Price → ℕ → ℕ → Price
slot_price min_price tick i = min_price +ℤ pos (i * tick)

-- The levels of the slots from `i` on.
unfoldable pub init_levels : Price → ℕ → ℕ → ℕ → List PriceLevel
init_levels min_price tick i zero = []
init_levels min_price tick i (suc n) =
    PriceLevel.init (slot_price min_price tick i) ∷ init_levels min_price tick (i + 1) n

unfoldable pub init : Side → Price → Price → ℕ → LevelMap
init side min_price max_price tick = record {
  side = side;
  min_price = min_price;
  max_price = max_price;
  tick = tick;
  levels = init_levels min_price tick 0 (pos_part (max_price -ℤ min_price) / tick + 1);
  best = empty_sentinel side;
}

unfoldable pub in_range : LevelMap → Price → Bool
in_range m p = leb_ℤ m.min_price p && leb_ℤ p m.max_price

unfoldable pub has_best : LevelMap → Bool
has_best m = not (eqb_ℤ m.best (empty_sentinel m.side))

-- Read and written only at prices in range, where the difference is not negative.
unfoldable pub index : LevelMap → Price → ℕ
index m p = pos_part (p -ℤ m.min_price) / m.tick

unfoldable pub level_at : LevelMap → Price → Option PriceLevel
level_at m p = if in_range m p then get_elem? m.levels (index m p) else none

unfoldable pub put_level : LevelMap → Price → PriceLevel → LevelMap
put_level m p l = record m { levels = set m.levels (index m p) l }

unfoldable pub better_price : Side → Price → Price → Bool
better_price buy a b = ltb_ℤ b a
better_price sell a b = ltb_ℤ a b

unfoldable pub is_better : LevelMap → Price → Price → Bool
unfolding better_price
is_better m a b = better_price m.side a b

unfoldable pub occupied : List PriceLevel → ℕ → Bool
occupied levels i = elim_option (get_elem? levels i) false (λ l. not (is_empty l))

-- The highest occupied slot below `i`.
unfoldable pub occupied_below : List PriceLevel → ℕ → Option ℕ
occupied_below levels zero = none
occupied_below levels (suc i) =
    let rest = occupied_below levels i in if occupied levels i then some i else rest

-- The lowest occupied slot from `i` on, of the next `n`.
unfoldable pub occupied_from : List PriceLevel → ℕ → ℕ → Option ℕ
occupied_from levels i zero = none
occupied_from levels i (suc n) =
    let rest = occupied_from levels (i + 1) n in if occupied levels i then some i else rest

unfoldable pub occupied_above : List PriceLevel → ℕ → Option ℕ
occupied_above levels i = occupied_from levels (i + 1) (length levels - (i + 1))

-- Toward worse prices.
unfoldable pub search : Side → List PriceLevel → ℕ → Option ℕ
search buy levels i = occupied_below levels i
search sell levels i = occupied_above levels i

unfoldable pub price_found : LevelMap → Option ℕ → Price
price_found m found =
    elim_option found (empty_sentinel m.side)
      λ i. elim_option (get_elem? m.levels i) (empty_sentinel m.side) (λ l. l.price)

unfoldable pub next_occupied : LevelMap → Price → Price
next_occupied m from = price_found m (search m.side m.levels (index m from))

unfoldable pub on_level_emptied : LevelMap → Price → LevelMap
on_level_emptied m p = if eqb_ℤ p m.best then record m { best = next_occupied m p } else m

-- The slot is in range for the callers; out of it nothing is written.
unfoldable pub add_order : LevelMap → Order → LevelMap
add_order m o = elim_option (get_elem? m.levels (index m o.price)) m λ l.
    let m' = put_level m o.price (enqueue l o) in
    if is_better m o.price m.best then record m' { best = o.price } else m'
