-- ===== src/Runtime/MatchingThread/Told.antt =====
-- What the dispatch of a command publishes.
use order_matching_engine.Base.{
  ℕ, ◌≡◌, refl, sym, ap, ◌∙◌, List, [], ◌∷◌, ◌++◌, append_assoc, append-nil, map, map-append, Bool,
  true, false, some, if◌then◌else◌, elim_option, Bool-cases, inl, inr,
}
use order_matching_engine.Common.Types.{Side}
use order_matching_engine.Engine.Order.{NewOrder, Trade, StpVictim, OrderResult, ok, no_result}
use order_matching_engine.Engine.OrderBook.{Submitted, submit_ex, cancel, replace}
use order_matching_engine.Ipc.Command.{Command, to_new_order}
use order_matching_engine.Ipc.OutboundEvent.{
  OutboundEvent, Payload, UpdateAction, trade, status_change, order_update, trade_event,
  status_event, order_update_event,
}
use order_matching_engine.Recovery.{fresh_order}
use order_matching_engine.Runtime.MatchingThread.{
  MatchingThread, trade_buffer, victim_buffer, publish_outbound, publish_trades,
  publish_stp_victims, victim_list, victim_update, update_of, emit_order_update, publish_fills,
  is_ok, rejected_before_dispatch, dispatch_new, dispatch_cancel, dispatch_replace,
}

abbrev pub event : ℕ → Payload → OutboundEvent
event n p = record { payload = p; global_seq = n }

-- Payloads as events with the number `n`.
abbrev pub stamped : ℕ → List Payload → List OutboundEvent
stamped n ps = map (event n) ps

-- A step that publishes the payloads under the number of the command, and nothing else.
pub record Told (t u : MatchingThread) (ps : List Payload) : Type 0 where
  pub book : u.book ≡ t.book
  pub same : u.dispatch_seq ≡ t.dispatch_seq
  pub published : u.out ≡ t.out ++ stamped t.dispatch_seq ps

Told-refl : (t : MatchingThread) → Told t t []
Told-refl t = record { book = refl; same = refl; published = sym (append-nil t.out) }

Told-trans :
    {t u w : MatchingThread} {ps qs : List Payload}
    → Told t u ps
    → Told u w qs
    → Told t w (ps ++ qs)
Told-trans {t} {u} {w} {ps} {qs} a b = record {
  book = b.book ∙ a.book;
  same = b.same ∙ a.same;
  published =
      b.published
      ∙ ap (λ l. l ++ stamped u.dispatch_seq qs) a.published
      ∙ ap (λ n. (t.out ++ stamped t.dispatch_seq ps) ++ stamped n qs) a.same
      ∙ append_assoc t.out (stamped t.dispatch_seq ps) (stamped t.dispatch_seq qs)
      ∙ ap (λ l. t.out ++ l) (sym (map-append (event t.dispatch_seq) ps qs));
}

publish_outbound-Told :
    (t : MatchingThread) (p : Payload) (n : ℕ)
    → n ≡ t.dispatch_seq
    → Told t (publish_outbound t (record { payload = p; global_seq = n })) (p ∷ [])
unfolding publish_outbound
publish_outbound-Told t p n e = record {
  book = refl;
  same = refl;
  published = ap (λ k. t.out ++ (event k p ∷ [])) e;
}

-- An order that self-trade prevention took out.
abbrev pub gone : StpVictim → Payload
gone v = order_update UpdateAction.cancelled v.side (victim_update v) ok

-- The trades and the orders taken out, in the order of their buffers.
abbrev pub fills : Submitted → List Payload
fills s = map trade s.trades.slots ++ map gone (victim_list s.victims)

-- Where the order ended: at rest in the book, or not.
abbrev pub outcome : ℕ → Side → OrderResult → Payload
outcome id side r =
    if r.rested
    then order_update UpdateAction.rested r.side (update_of id r) ok
    else order_update UpdateAction.rejected side (update_of id r) r.status

publish_trades-Told :
    (t : MatchingThread) (xs : List Trade) → Told t (publish_trades t xs) (map trade xs)
unfolding publish_trades trade_event
publish_trades-Told t [] = Told-refl t
publish_trades-Told t (x ∷ xs) =
    Told-trans {ps = trade x ∷ []} (publish_outbound-Told t (trade x) t.dispatch_seq refl)
      (publish_trades-Told _ xs)

publish_stp_victims-Told :
    (t : MatchingThread) (vs : List StpVictim) → Told t (publish_stp_victims t vs) (map gone vs)
unfolding publish_stp_victims order_update_event
publish_stp_victims-Told t [] = Told-refl t
publish_stp_victims-Told t (v ∷ vs) =
    Told-trans {ps = gone v ∷ []} (publish_outbound-Told t (gone v) t.dispatch_seq refl)
      (publish_stp_victims-Told _ vs)

publish_fills-Told : (t : MatchingThread) (s : Submitted) → Told t (publish_fills t s) (fills s)
unfolding publish_fills
publish_fills-Told t s =
    Told-trans (publish_trades-Told t s.trades.slots)
      (publish_stp_victims-Told _ (victim_list s.victims))

emit_order_update-Told :
    (t : MatchingThread) (id : ℕ) (side : Side) (r : OrderResult)
    → Told t (emit_order_update t id side r) (outcome id side r ∷ [])
unfolding emit_order_update order_update_event
emit_order_update-Told t id side r = elim (Bool-cases r.rested) [
  | inl e ↦ simp e (publish_outbound-Told t _ t.dispatch_seq refl)
  | inr e ↦ simp e (publish_outbound-Told t _ t.dispatch_seq refl)
]

if_no-Told :
    (b : Bool) (t u : MatchingThread) (ps : List Payload)
    → Told t u ps
    → Told t (if b then t else u) (if b then [] else ps)
if_no-Told true t u ps d = Told-refl t
if_no-Told false t u ps d = d

if_yes-Told :
    (b : Bool) (t u : MatchingThread) (ps : List Payload)
    → Told t u ps
    → Told t (if b then u else t) (if b then ps else [])
if_yes-Told true t u ps d = d
if_yes-Told false t u ps d = Told-refl t

-- What is to be told of a submission.
abbrev pub news_of_new : Submitted → Command → List Payload
news_of_new s c =
    fills s
    ++ ((if is_ok s.result.status then [] else status_change c.id s.result.status ∷ [])
        ++ (outcome c.id c.side s.result ∷ []))

abbrev pub news_of_cancel : OrderResult → Command → List Payload
news_of_cancel r c =
    status_change c.id r.status
    ∷ (if is_ok r.status
        then order_update UpdateAction.cancelled r.side (update_of c.id r) ok ∷ []
        else [])

-- `old` is the order that the replacement took out.
abbrev pub news_of_replace : Submitted → OrderResult → Command → List Payload
news_of_replace s old c =
    let before : Bool = rejected_before_dispatch s.result.status in
    (if before
      then []
      else order_update UpdateAction.cancelled old.side (update_of c.id old) ok ∷ [])
    ++ (fills s
        ++ ((status_change c.new_id s.result.status ∷ [])
            ++ (if before then [] else outcome c.new_id c.side s.result ∷ [])))

pub dispatch_new-Told :
    (t : MatchingThread) (c : Command)
    → (let s : Submitted = submit_ex t.book (to_new_order c) trade_buffer (some victim_buffer) in
        Told (record t { book = s.book }) (dispatch_new t c) (news_of_new s c))
unfolding dispatch_new status_event
dispatch_new-Told t c =
    let s : Submitted = submit_ex t.book (to_new_order c) trade_buffer (some victim_buffer) in
    let u : MatchingThread = publish_fills (record t { book = s.book }) s in
    let w : MatchingThread =
      publish_outbound u
        (record { payload = status_change c.id s.result.status; global_seq = u.dispatch_seq }) in
    let v : MatchingThread = if is_ok s.result.status then u else w in
    Told-trans {u = u} (publish_fills-Told (record t { book = s.book }) s) (
      Told-trans {u = v}
        (if_no-Told (is_ok s.result.status) u w _
          (publish_outbound-Told u (status_change c.id s.result.status) u.dispatch_seq refl))
        (emit_order_update-Told v c.id c.side s.result))

pub dispatch_cancel-Told :
    (t : MatchingThread) (c : Command)
    → Told
        (record t { book = (cancel t.book c.id).0 })
        (dispatch_cancel t c)
        (news_of_cancel (cancel t.book c.id).1 c)
unfolding dispatch_cancel status_event order_update_event
dispatch_cancel-Told t c =
    let r = cancel t.book c.id in
    let s : MatchingThread = record t { book = r.0 } in
    let told = publish_outbound-Told s (status_change c.id r.1.status) t.dispatch_seq refl in
    Told-trans {ps = status_change c.id r.1.status ∷ []} told (
      if_yes-Told (is_ok r.1.status) _ _ _ (
        publish_outbound-Told _
          (order_update UpdateAction.cancelled r.1.side (update_of c.id r.1) ok) t.dispatch_seq
          (sym told.same)))

pub dispatch_replace-Told :
    (t : MatchingThread) (c : Command)
    → (let got = replace t.book c.id (fresh_order c) trade_buffer (some victim_buffer) in
        Told
          (record t { book = got.0.book })
          (dispatch_replace t c)
          (news_of_replace got.0 (elim_option got.1 no_result (λ r. r)) c))
unfolding dispatch_replace status_event order_update_event fresh_order to_new_order
dispatch_replace-Told t c =
    let fresh : NewOrder = record (to_new_order c) { id = c.new_id } in
    let got = replace t.book c.id fresh trade_buffer (some victim_buffer) in
    let old : OrderResult = elim_option got.1 no_result (λ r. r) in
    let before : Bool = rejected_before_dispatch got.0.result.status in
    let u : MatchingThread = record t { book = got.0.book } in
    let told = if_no-Told before u _ _ (
      publish_outbound-Told u (order_update UpdateAction.cancelled old.side (update_of c.id old) ok)
        u.dispatch_seq refl) in
    let stated = publish_outbound-Told _ (status_change c.new_id got.0.result.status) _ refl in
    Told-trans told (
      Told-trans (publish_fills-Told _ got.0) (
        Told-trans stated
          (if_no-Told before _ _ _ (emit_order_update-Told _ c.new_id c.side got.0.result))))
