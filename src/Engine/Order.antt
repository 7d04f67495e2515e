-- ===== src/Engine/Order.antt =====
-- engine/order.hpp, engine/trade.hpp and the plain types of engine/order_book.hpp.
use order_matching_engine.Base.{ℕ, ◌+◌, List, [], ◌∷◌, ◌++◌, Bool, true, false, ltb, if◌then◌else◌}
use order_matching_engine.Base.Int.{ℤ, pos}
use order_matching_engine.Common.Types.{Price, Side, buy}

-- An order that rests. Its links `next`, `prev` and `level` are its place in the queue of a level.
-- What rests has a positive quantity, so that quantities are natural numbers here.
pub record Order : Type 0 where
  pub remaining : ℕ
  pub participant : ℕ
  pub price : Price
  pub id : ℕ
  pub side : Side
  pub quantity : ℕ
  pub seq : ℕ

pub data OrderType : Type 0 where
  limit market ioc fok : OrderType

unfoldable pub is_market : OrderType → Bool
is_market market = true
is_market _ = false

unfoldable pub is_fok : OrderType → Bool
is_fok fok = true
is_fok _ = false

pub data StpPolicy : Type 0 where
  cancel_aggressor cancel_passive cancel_both : StpPolicy

pub record BookConfig : Type 0 where
  pub min_price : Price
  pub max_price : Price
  pub tick : ℕ
  pub max_orders : ℕ
  pub stp : StpPolicy

-- The quantity of a submitted order has yet to be checked, so it is signed.
pub record NewOrder : Type 0 where
  pub id : ℕ
  pub price : Price
  pub quantity : ℤ
  pub participant : ℕ
  pub side : Side
  pub kind : OrderType

pub data SubmitStatus : Type 0 where
  ok rejected_price_out_of_range rejected_invalid_quantity : SubmitStatus
  rejected_duplicate_id rejected_pool_exhausted rejected_unknown_order : SubmitStatus
  rejected_market_into_empty_book rejected_fok_unfillable : SubmitStatus
  cancelled_by_self_trade_prevention cancelled_residual : SubmitStatus

pub record Trade : Type 0 where
  pub id : ℕ
  pub aggressor_id : ℕ
  pub passive_id : ℕ
  pub price : Price
  pub quantity : ℕ
  pub aggressor_side : Side

-- A caller's fixed buffer: `slots` are the elements written so far, `count` the pushes, which goes
-- past `capacity` on overflow.
pub record Buffer (A : Type 0) : Type 0 where
  pub slots : List A
  pub capacity : ℕ
  pub count : ℕ

module _ {A : Type 0} where
  unfoldable pub push : Buffer A → A → Buffer A
  push b x = record b {
    slots = if ltb b.count b.capacity then b.slots ++ (x ∷ []) else b.slots;
    count = b.count + 1;
  }

  unfoldable pub overflowed : Buffer A → Bool
  overflowed b = ltb b.capacity b.count

  unfoldable pub clear : Buffer A → Buffer A
  clear b = record b { slots = []; count = 0 }

abbrev pub TradeBuffer : Type 0
TradeBuffer = Buffer Trade

pub record StpVictim : Type 0 where
  pub id : ℕ
  pub price : Price
  pub quantity : ℕ
  pub remaining : ℕ
  pub participant : ℕ
  pub seq : ℕ
  pub side : Side

abbrev pub StpVictimBuffer : Type 0
StpVictimBuffer = Buffer StpVictim

pub record OrderResult : Type 0 where
  pub status : SubmitStatus
  pub filled : ℕ
  pub remaining : ℕ
  pub rested : Bool
  pub price : Price
  pub quantity : ℤ
  pub participant : ℕ
  pub seq : ℕ
  pub side : Side

-- `OrderResult{}`.
abbrev pub no_result : OrderResult
no_result = record {
  status = ok;
  filled = 0;
  remaining = 0;
  rested = false;
  price = pos 0;
  quantity = pos 0;
  participant = 0;
  seq = 0;
  side = buy;
}
