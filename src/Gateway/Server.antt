-- ===== src/Gateway/Server.antt =====
-- gateway/gateway.hpp: what the sessions share, a shard for each instrument with its table of routes.
-- A session is known by its number, and `J` is the journal of a shard (sequencer/sequencer.hpp).
use order_matching_engine.Base.{
  ℕ, ◌+◌, List, [], ◌∷◌, Option, none, some, ◌==◌, if◌then◌else◌, elim_option, get_elem?, set,
}
use order_matching_engine.Base.Int.{ℤ, pos}
use order_matching_engine.Gateway.Auth.{AuthHandler}
use order_matching_engine.Sequencer.Submit.{Sequencer}

-- An entry of `routes`: whom the reports of an order go to.
pub record Route : Type 0 where
  pub order_id : ℕ
  pub session : ℕ
  pub client_seq_num : ℕ

pub record ShardCtx (J : Type 0) : Type 0 where
  pub instrument_id : ℕ
  pub sequencer : Sequencer J
  pub routes : List Route
  pub dropped_routes : ℕ

pub record GatewayServer (J : Type 0) : Type 0 where
  pub auth : AuthHandler
  pub shards : List (ShardCtx J)

-- `routes.erase(id)`.
unfoldable pub drop_route : ℕ → List Route → List Route
drop_route id [] = []
drop_route id (r ∷ rs) = if r.order_id == id then drop_route id rs else r ∷ drop_route id rs

module _ {J : Type 0} where
  unfoldable pub index_from : ℕ → List (ShardCtx J) → ℕ → Option ℕ
  index_from i [] id = none
  index_from i (s ∷ ss) id = if s.instrument_id == id then some i else index_from (i + 1) ss id

  -- `none` stands for -1.
  unfoldable pub shard_index_for : GatewayServer J → ℕ → Option ℕ
  shard_index_for v id = index_from 0 v.shards id

  unfoldable pub login_ack_seq : GatewayServer J → ℤ
  login_ack_seq v = elim_option (get_elem? v.shards 0) (pos 0) (λ s. pos s.sequencer.seq)

  -- The indices come from `shard_index_for`, so that there is a shard at them.
  unfoldable pub at_shard : GatewayServer J → ℕ → (ShardCtx J → ShardCtx J) → GatewayServer J
  at_shard v i f =
      elim_option (get_elem? v.shards i) v (λ s. record v { shards = set v.shards i (f s) })

  unfoldable pub register_route : GatewayServer J → ℕ → ℕ → ℕ → ℕ → GatewayServer J
  register_route v i id session n = at_shard v i (λ s. record s {
    routes =
        record { order_id = id; session = session; client_seq_num = n } ∷ drop_route id s.routes;
  })

  unfoldable pub erase_route : GatewayServer J → ℕ → ℕ → GatewayServer J
  erase_route v i id = at_shard v i (λ s. record s { routes = drop_route id s.routes })
