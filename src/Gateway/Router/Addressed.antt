-- ===== src/Gateway/Router/Addressed.antt =====
-- Whom the router tells what, and that nothing goes by uncounted.
use order_matching_engine.Base.{
  ℕ, ◌+◌, ◌≡◌, refl, subst, List, [], ◌∷◌, ◌++◌, Bool, true, some, arith, Bool-cases, Option-cases,
  ◌⊎◌, none, false, inl, inr,
}
use order_matching_engine.Base.Int.{pos}
use order_matching_engine.Common.Types.{Price}
use order_matching_engine.Engine.Order.{
  SubmitStatus, ok, rejected_price_out_of_range, rejected_invalid_quantity, rejected_duplicate_id,
  rejected_pool_exhausted, rejected_unknown_order, rejected_market_into_empty_book,
  rejected_fok_unfillable, cancelled_by_self_trade_prevention, cancelled_residual, Trade,
}
use order_matching_engine.Ipc.OutboundEvent.{
  OutboundEvent, Payload, trade, status_change, order_update,
}
use order_matching_engine.Protocol.Messages.{
  ExecType, exec_code, fill, new_ack, reason_code, engine_reject,
}
use order_matching_engine.Protocol.Wire.{to_i64}
use order_matching_engine.Protocol.Encoder.{encode_exec_report, encode_reject}
use order_matching_engine.Gateway.Server.{Route, ShardCtx}
use order_matching_engine.Gateway.Router.{
  Post, find_route, dropped, route_exec_report, route_reject, route_status, route_trade,
  route_payload, route_one,
}

-- A report, for the owner of an order.
pub record Report : Type 0 where
  pub order_id : ℕ
  pub frame : List ℕ

-- One side of a trade, filled.
abbrev pub fill_report : Trade → ℕ → ℕ → Report
fill_report t seq id = record {
  order_id = id;
  frame = encode_exec_report (record {
    order_id = to_i64 id;
    exec_type = exec_code fill;
    exec_qty = pos t.quantity;
    leaves_qty = pos 0;
    trade_price = t.price;
    trade_id = pos t.id;
    global_seq = pos seq;
  });
}

abbrev pub ack_report : ℕ → ℕ → Report
ack_report seq id = record {
  order_id = id;
  frame = encode_exec_report (record {
    order_id = to_i64 id;
    exec_type = exec_code new_ack;
    exec_qty = pos 0;
    leaves_qty = pos 0;
    trade_price = pos 0;
    trade_id = pos 0;
    global_seq = pos seq;
  });
}

abbrev pub reject_report : ℕ → ℕ → Report
reject_report seq id = record {
  order_id = id;
  frame =
      encode_reject
        (record { order_id = to_i64 id; reason = reason_code engine_reject; global_seq = pos seq });
}

abbrev pub status_report : SubmitStatus → ℕ → ℕ → Report
status_report ok seq id = ack_report seq id
status_report _ seq id = reject_report seq id

-- The reports that an event calls for.
abbrev pub reports : Payload → ℕ → List Report
reports (trade t) seq = fill_report t seq t.aggressor_id ∷ fill_report t seq t.passive_id ∷ []
reports (status_change id s) seq = status_report s seq id ∷ []
reports (order_update a side u s) seq = []

-- Nobody is there to be told of the order.
abbrev pub NoOwner : (ℕ → Bool) → List Route → ℕ → Type 0
NoOwner alive routes id =
    (find_route id routes ≡ none)
    ⊎ ((r : Route) × (find_route id routes ≡ some r) × (alive r.session ≡ false))

-- Each of the reports, in their order, with its frame to the session that the route of its order names
-- and that is alive; only those without such a session are lost.
pub data Sent (alive : ℕ → Bool) (routes : List Route) : List Report → List Post → ℕ → Type 0 where
  all_sent : Sent alive routes [] [] 0
  sent :
      (x : Report) (xs : List Report) (r : Route) (ps : List Post) (lost : ℕ)
      → find_route x.order_id routes ≡ some r
      → alive r.session ≡ true
      → Sent alive routes xs ps lost
      → Sent alive routes (x ∷ xs) (record { session = r.session; frame = x.frame } ∷ ps) lost
  lost_one :
      (x : Report) (xs : List Report) (ps : List Post) (lost : ℕ)
      → NoOwner alive routes x.order_id
      → Sent alive routes xs ps lost
      → Sent alive routes (x ∷ xs) ps (lost + 1)

Sent-append :
    (alive : ℕ → Bool) (rs : List Route) (xs ys : List Report) (ps qs : List Post) (m n : ℕ)
    → Sent alive rs xs ps m
    → Sent alive rs ys qs n
    → Sent alive rs (xs ++ ys) (ps ++ qs) (m + n)
Sent-append alive rs _ ys _ qs _ n all_sent b = subst (Sent alive rs ys qs) (omega arith) b
Sent-append alive rs _ ys _ qs _ n (sent x xs r ps lost e f a) b =
    sent x (xs ++ ys) r (ps ++ qs) (lost + n) e f (Sent-append alive rs xs ys ps qs lost n a b)
Sent-append alive rs _ ys _ qs _ n (lost_one x xs ps lost h a) b =
    subst (Sent alive rs (x ∷ (xs ++ ys)) (ps ++ qs)) {x = lost + n + 1} (omega arith)
      (lost_one x (xs ++ ys) (ps ++ qs) (lost + n) h (Sent-append alive rs xs ys ps qs lost n a b))

-- The router has sent or counted the reports.
pub record Routed {J : Type 0} (alive : ℕ → Bool) (s : ShardCtx J) (xs : List Report)
    (w : ShardCtx J × List Post) : Type 0 where
  pub lost : ℕ
  pub sends : Sent alive s.routes xs w.1 lost
  pub counted : w.0.dropped_routes ≡ s.dropped_routes + lost

abbrev exec_report_of : ℕ → ExecType → ℕ → ℕ → Price → ℕ → ℕ → Report
exec_report_of id type n l p t q = record {
  order_id = id;
  frame = encode_exec_report (record {
    order_id = to_i64 id;
    exec_type = exec_code type;
    exec_qty = pos n;
    leaves_qty = pos l;
    trade_price = p;
    trade_id = pos t;
    global_seq = pos q;
  });
}

module _ {J : Type 0} (alive : ℕ → Bool) where
  dropped-Routed :
      (s t : ShardCtx J) (x : Report)
      → t.dropped_routes ≡ s.dropped_routes
      → NoOwner alive s.routes x.order_id
      → Routed alive s (x ∷ []) (dropped alive t)
  unfolding dropped
  dropped-Routed s t x e h = record {
    lost = 0 + 1;
    sends = lost_one x [] [] 0 h all_sent;
    counted = omega (arith, e);
  }

  route_exec_report-Routed :
      (s : ShardCtx J) (id : ℕ) (type : ExecType) (n l : ℕ) (p : Price) (t q : ℕ)
      → Routed alive s
          (exec_report_of id type n l p t q ∷ [])
          (route_exec_report alive s id type n l p t q)
        × ((route_exec_report alive s id type n l p t q).0.routes ≡ s.routes)
  unfolding route_exec_report dropped
  route_exec_report-Routed s id type n l p t q =
      let x : Report = exec_report_of id type n l p t q in
      elim (Option-cases (find_route id s.routes)) [
        | inl e ↦ simp e (dropped-Routed s s x refl (inl e), refl)
        | inr (r, e) ↦ elim (Bool-cases (alive r.session)) [
          | inl f ↦
              simp (e, f)
                (
                  record { lost = 0; sends = sent x [] r [] 0 e f all_sent; counted = omega arith },
                  refl,
                )
          | inr f ↦ simp (e, f) (dropped-Routed s s x refl (inr (r, e, f)), refl)
        ]
      ]

  route_reject-Routed :
      (s : ShardCtx J) (id q : ℕ)
      → Routed alive s (reject_report q id ∷ []) (route_reject alive s id engine_reject q)
  unfolding route_reject dropped
  route_reject-Routed s id q = elim (Option-cases (find_route id s.routes)) [
    | inl e ↦ simp e (dropped-Routed s s (reject_report q id) refl (inl e))
    | inr (r, e) ↦ elim (Bool-cases (alive r.session)) [
      | inl f ↦
          simp (e, f)
            (record {
              lost = 0;
              sends = sent (reject_report q id) [] r [] 0 e f all_sent;
              counted = omega arith;
            })
      | inr f ↦ simp (e, f) (dropped-Routed s _ (reject_report q id) refl (inr (r, e, f)))
    ]
  ]

  route_trade-Routed :
      (s : ShardCtx J) (t : Trade) (q : ℕ)
      → Routed alive s (reports (trade t) q) (route_trade alive s t q)
  unfolding route_trade
  route_trade-Routed s t q =
      let x : Report = fill_report t q t.aggressor_id in
      let y : Report = fill_report t q t.passive_id in
      let first = route_exec_report alive s t.aggressor_id fill t.quantity 0 t.price t.id q in
      let a = route_exec_report-Routed s t.aggressor_id fill t.quantity 0 t.price t.id q in
      let second = route_exec_report alive first.0 t.passive_id fill t.quantity 0 t.price t.id q in
      let b = (route_exec_report-Routed first.0 t.passive_id fill t.quantity 0 t.price t.id q).0 in
      record {
        lost = a.0.lost + b.lost;
        sends =
            Sent-append alive s.routes (x ∷ []) (y ∷ []) first.1 second.1 a.0.lost b.lost a.0.sends
              (subst (λ rs. Sent alive rs (y ∷ []) second.1 b.lost) a.1 b.sends);
        counted = omega (arith, a.0.counted, b.counted);
      }

  route_status-Routed :
      (s : ShardCtx J) (id : ℕ) (x : SubmitStatus) (q : ℕ)
      → Routed alive s (status_report x q id ∷ []) (route_status alive s id x q)
  unfolding route_status
  route_status-Routed s id ok q = (route_exec_report-Routed s id new_ack 0 0 (pos 0) 0 q).0
  route_status-Routed s id rejected_price_out_of_range q = route_reject-Routed s id q
  route_status-Routed s id rejected_invalid_quantity q = route_reject-Routed s id q
  route_status-Routed s id rejected_duplicate_id q = route_reject-Routed s id q
  route_status-Routed s id rejected_pool_exhausted q = route_reject-Routed s id q
  route_status-Routed s id rejected_unknown_order q = route_reject-Routed s id q
  route_status-Routed s id rejected_market_into_empty_book q = route_reject-Routed s id q
  route_status-Routed s id rejected_fok_unfillable q = route_reject-Routed s id q
  route_status-Routed s id cancelled_by_self_trade_prevention q = route_reject-Routed s id q
  route_status-Routed s id cancelled_residual q = route_reject-Routed s id q

  route_payload-Routed :
      (s : ShardCtx J) (x : Payload) (q : ℕ)
      → Routed alive s (reports x q) (route_payload alive s x q)
  unfolding route_payload
  route_payload-Routed s (trade t) q = route_trade-Routed s t q
  route_payload-Routed s (status_change id x) q = route_status-Routed s id x q
  route_payload-Routed s (order_update a side u x) q = record {
    lost = 0;
    sends = all_sent;
    counted = omega arith;
  }

  -- For every event the router sends one report for each of the orders that the event is for, in
  -- their order: the frame of a fill for both sides of a trade, of an acknowledgement for the
  -- status Ok, of a rejection by the engine for any other status, none for an update; it goes to
  -- the session that the order's route names, and only where there is no route or its session is
  -- gone, it is counted as dropped instead; nothing else is sent.
  pub route_one-Routed :
      (s : ShardCtx J) (e : OutboundEvent)
      → Routed alive s (reports e.payload e.global_seq) (route_one alive s e)
  unfolding route_one
  route_one-Routed s e = route_payload-Routed s e.payload e.global_seq
