-- ===== src/Ipc/OutboundEvent.antt =====
-- ipc/outbound_event.hpp: what the matching thread tells. An event is the member that its kind names,
-- with the number of the command that it comes from.
use order_matching_engine.Base.{ℕ}
use order_matching_engine.Base.Int.{ℤ}
use order_matching_engine.Common.Types.{Price, Side}
use order_matching_engine.Engine.Order.{SubmitStatus, Trade}

pub data UpdateAction : Type 0 where
  rested cancelled rejected replaced : UpdateAction

pub record OrderUpdate : Type 0 where
  pub order_id : ℕ
  pub price : Price
  pub quantity : ℤ
  pub remaining : ℕ
  pub participant : ℕ
  pub seq : ℕ

pub data Payload : Type 0 where
  trade : Trade → Payload
  status_change : ℕ → SubmitStatus → Payload
  order_update : UpdateAction → Side → OrderUpdate → SubmitStatus → Payload

pub record OutboundEvent : Type 0 where
  pub payload : Payload
  pub global_seq : ℕ

unfoldable pub trade_event : Trade → ℕ → OutboundEvent
trade_event t n = record { payload = trade t; global_seq = n }

unfoldable pub status_event : ℕ → SubmitStatus → ℕ → OutboundEvent
status_event id s n = record { payload = status_change id s; global_seq = n }

unfoldable pub order_update_event :
    UpdateAction → Side → OrderUpdate → ℕ → SubmitStatus → OutboundEvent
order_update_event a side u n s = record { payload = order_update a side u s; global_seq = n }
