-- ===== src/Gateway/Router.antt =====
-- gateway/gateway.hpp: the router of a shard, from the events of its matching thread to frames for the
-- sessions. A post is a frame handed to the thread of the sessions; `alive` tells whether the weak pointer
-- to a session still has one.
pub mod Addressed
use order_matching_engine.Base.{
  ℕ, ◌+◌, List, [], ◌∷◌, ◌++◌, Bool, true, false, not, Option, none, some, ◌==◌, if◌then◌else◌,
  elim_option,
}
use order_matching_engine.Base.Int.{ℤ, pos}
use order_matching_engine.Common.Types.{Price}
use order_matching_engine.Engine.Order.{SubmitStatus, ok, Trade}
use order_matching_engine.Ipc.OutboundEvent.{
  OutboundEvent, Payload, trade, status_change, order_update,
}
use order_matching_engine.Protocol.Wire.{to_i64}
use order_matching_engine.Protocol.Messages.{
  ExecType, exec_code, fill, new_ack, RejectReason, reason_code, engine_reject,
}
use order_matching_engine.Protocol.Encoder.{encode_exec_report, encode_reject}
use order_matching_engine.Gateway.Server.{Route, ShardCtx, drop_route}

pub record Post : Type 0 where
  pub session : ℕ
  pub frame : List ℕ

unfoldable pub find_route : ℕ → List Route → Option Route
find_route id [] = none
find_route id (r ∷ rs) = if r.order_id == id then some r else find_route id rs

module _ {J : Type 0} (alive : ℕ → Bool) where
  unfoldable pub dropped : ShardCtx J → ShardCtx J × List Post
  dropped s = (record s { dropped_routes = s.dropped_routes + 1 }, [])

  unfoldable pub route_exec_report :
      ShardCtx J → ℕ → ExecType → ℕ → ℕ → Price → ℕ → ℕ → ShardCtx J × List Post
  unfolding dropped
  route_exec_report s id type exec_qty leaves_qty price trade_id seq =
      elim_option (find_route id s.routes) (dropped s) (λ r.
        if not (alive r.session) then dropped s else (
          s,
          record {
            session = r.session;
            frame = encode_exec_report (record {
              order_id = to_i64 id;
              exec_type = exec_code type;
              exec_qty = pos exec_qty;
              leaves_qty = pos leaves_qty;
              trade_price = price;
              trade_id = pos trade_id;
              global_seq = pos seq;
            });
          }
              ∷ [],
        ))

  unfoldable pub route_reject : ShardCtx J → ℕ → RejectReason → ℕ → ShardCtx J × List Post
  unfolding dropped
  route_reject s id reason seq = elim_option (find_route id s.routes) (dropped s) (λ r.
      let t : ShardCtx J = record s { routes = drop_route id s.routes } in
      if not (alive r.session) then dropped t else (
        t,
        record {
          session = r.session;
          frame =
              encode_reject (record {
                order_id = to_i64 id;
                reason = reason_code reason;
                global_seq = pos seq;
              });
        }
            ∷ [],
      ))

  -- Every rejection of the engine is the same to the client.
  unfoldable pub route_status : ShardCtx J → ℕ → SubmitStatus → ℕ → ShardCtx J × List Post
  unfolding route_exec_report route_reject
  route_status s id ok seq = route_exec_report s id new_ack 0 0 (pos 0) 0 seq
  route_status s id _ seq = route_reject s id engine_reject seq

  -- A fill goes to both of its sides.
  unfoldable pub route_trade : ShardCtx J → Trade → ℕ → ShardCtx J × List Post
  unfolding route_exec_report
  route_trade s t seq =
      let first = route_exec_report s t.aggressor_id fill t.quantity 0 t.price t.id seq in
      let second = route_exec_report first.0 t.passive_id fill t.quantity 0 t.price t.id seq in
      (second.0, first.1 ++ second.1)

  unfoldable pub route_payload : ShardCtx J → Payload → ℕ → ShardCtx J × List Post
  unfolding route_trade route_status
  route_payload s (trade t) seq = route_trade s t seq
  route_payload s (status_change id status) seq = route_status s id status seq
  route_payload s (order_update a side u status) seq = (s, [])

  unfoldable pub route_one : ShardCtx J → OutboundEvent → ShardCtx J × List Post
  unfolding route_payload
  route_one s e = route_payload s e.payload e.global_seq
