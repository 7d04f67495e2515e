-- ===== src/Engine/PriceLevel.antt =====
-- engine/price_level.hpp: one price level. Its intrusive list is the list of its orders, the head
-- the earliest arrival.
pub mod Counted
use order_matching_engine.Base.{
  ℕ, ◌+◌, ◌-◌, List, [], ◌∷◌, ◌++◌, Bool, true, false, ◌==◌, if◌then◌else◌, Option, none, some, ◌≡◌,
  arith,
}
use order_matching_engine.Common.Types.{Price}
use order_matching_engine.Engine.Order.{Order}

pub record PriceLevel : Type 0 where
  pub price : Price
  pub queue : List Order
  pub total_qty : ℕ
  pub count : ℕ

unfoldable pub init : Price → PriceLevel
init p = record { price = p; queue = []; total_qty = 0; count = 0 }

unfoldable pub enqueue : PriceLevel → Order → PriceLevel
enqueue l o = record l {
  queue = l.queue ++ (o ∷ []);
  total_qty = l.total_qty + o.remaining;
  count = l.count + 1;
}

-- The queue without the order of an id, as its links are joined over it.
unfoldable pub remove : ℕ → List Order → List Order
remove id [] = []
remove id (o ∷ os) = if o.id == id then os else o ∷ remove id os

pub remove-head : (o : Order) (os : List Order) → remove o.id (o ∷ os) ≡ os
unfolding remove
remove-head o os = ground arith

unfoldable pub unlink : PriceLevel → Order → PriceLevel
unlink l o = record l {
  queue = remove o.id l.queue;
  total_qty = l.total_qty - o.remaining;
  count = l.count - 1;
}

unfoldable pub reduce_quantity : PriceLevel → ℕ → PriceLevel
reduce_quantity l by = record l { total_qty = l.total_qty - by }

unfoldable pub is_empty : PriceLevel → Bool
is_empty l = elim l.queue [ [] ↦ true | _ ∷ _ ↦ false ]

unfoldable pub find : ℕ → List Order → Option Order
find id [] = none
find id (o ∷ os) = if o.id == id then some o else find id os
