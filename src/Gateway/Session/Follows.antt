-- ===== src/Gateway/Session/Follows.antt =====
-- How a session and its server move on.
use order_matching_engine.Base.{
  ℕ, ◌+◌, ◌≤◌, ◌≡◌, ◌⊎◌, inl, inr, refl, ◌∙◌, get_elem?, sum_by, sum_by-set, arith, Option-cases,
}
use order_matching_engine.Gateway.Server.{
  ShardCtx, GatewayServer, at_shard, register_route, erase_route,
}
use order_matching_engine.Gateway.Session.{closing}
use order_matching_engine.Gateway.Session.Handlers.{Conn}
use order_matching_engine.Gateway.Session.Same.{Same, or_closing, pend}

module _ {J : Type 0} where
  -- How many commands the shards have put in sequence.
  abbrev pub total : GatewayServer J → ℕ
  total v = sum_by (λ s. s.sequencer.seq) v.shards

  abbrev pub weight : Conn J → ℕ
  weight c = total c.server + pend c.session.pending

  -- The participant stays, the state stays or is the end, and as many sequence numbers are taken at
  -- least as there are more commands in sequence or held back.
  pub record Counts (c d : Conn J) : Type 0 where
    pub participant : d.session.participant_id ≡ c.session.participant_id
    pub state : (d.session.state ≡ c.session.state) ⊎ (d.session.state ≡ closing)
    pub later : c.session.last_client_seq ≤ d.session.last_client_seq
    pub once : weight d + c.session.last_client_seq ≤ weight c + d.session.last_client_seq

  -- A step that reads nothing of what the decoder holds.
  pub record Follows (c d : Conn J) : Type 0 where
    pub counts : Counts c d
    pub decoder : d.session.decoder ≡ c.session.decoder

  pub Counts-refl : (c : Conn J) → Counts c c
  Counts-refl c = record {
    participant = refl;
    state = inl refl;
    later = omega arith;
    once = omega arith;
  }

  pub Follows-refl : (c : Conn J) → Follows c c
  Follows-refl c = record { counts = Counts-refl c; decoder = refl }

  pub Counts-trans : {a b c : Conn J} → Counts a b → Counts b c → Counts a c
  Counts-trans f g = record {
    participant = g.participant ∙ f.participant;
    state = or_closing f.state g.state;
    later = omega (arith, f.later, g.later);
    once = omega (arith, f.once, g.once);
  }

  pub Follows-trans : {a b c : Conn J} → Follows a b → Follows b c → Follows a c
  Follows-trans f g = record {
    counts = Counts-trans f.counts g.counts;
    decoder = g.decoder ∙ f.decoder;
  }

  -- A step of the session alone, or one with a step of the server that adds nothing.
  pub Same-Follows :
      {c d : Conn J} → Same c.session d.session → total d.server ≡ total c.server → Follows c d
  Same-Follows a n = record {
    counts = record {
      participant = a.participant;
      state = a.state;
      later = omega (arith, a.last);
      once = omega (arith, a.last, a.held, n);
    };
    decoder = a.decoder;
  }

  total-at_shard :
      (v : GatewayServer J) (i : ℕ) (f : ShardCtx J → ShardCtx J)
      → ((s : ShardCtx J) → (f s).sequencer.seq ≡ s.sequencer.seq)
      → total (at_shard v i f) ≡ total v
  unfolding at_shard
  total-at_shard v i f keeps = elim (Option-cases (get_elem? v.shards i)) [
    | inl e ↦ simp e refl
    | inr (s, e) ↦
        simp e (omega (arith, sum_by-set (λ s. s.sequencer.seq) v.shards i s (f s) e, keeps s))
  ]

  pub total-register_route :
      (v : GatewayServer J) (i id me n : ℕ) → total (register_route v i id me n) ≡ total v
  unfolding register_route
  total-register_route v i id me n = total-at_shard v i _ (λ s. refl)

  pub total-erase_route : (v : GatewayServer J) (i id : ℕ) → total (erase_route v i id) ≡ total v
  unfolding erase_route
  total-erase_route v i id = total-at_shard v i _ (λ s. refl)
