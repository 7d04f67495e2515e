-- ===== src/Ipc/Command.antt =====
-- ipc/command.hpp: a command on its way to the engine.
use order_matching_engine.Base.{ℕ}
use order_matching_engine.Base.Int.{ℤ}
use order_matching_engine.Common.Types.{Price, Side}
use order_matching_engine.Engine.Order.{NewOrder, OrderType}

pub data CommandKind : Type 0 where
  new cancel replace : CommandKind

pub record Command : Type 0 where
  pub id : ℕ
  pub new_id : ℕ
  pub price : Price
  pub quantity : ℤ
  pub participant : ℕ
  pub kind : CommandKind
  pub side : Side
  pub order_type : OrderType

unfoldable pub to_new_order : Command → NewOrder
to_new_order c = record {
  id = c.id;
  price = c.price;
  quantity = c.quantity;
  participant = c.participant;
  side = c.side;
  kind = c.order_type;
}
