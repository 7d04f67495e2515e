-- ===== src/Protocol/Decoder/Vetted.antt =====
-- What the decoder lets through to the engine.
use order_matching_engine.Base.{
  ℕ, ◌+◌, ◌≡◌, ◌≢◌, refl, List, true, false, ◌||◌, Option, none, some, ltb, ◌==◌, elim_option, drop,
  length, arith, Bool-cases, Option-cases, inl, inr,
}
use order_matching_engine.Base.Int.{pos, ◌≤ℤ◌, ◌<ℤ◌}
use order_matching_engine.Common.Types.{Price}
use order_matching_engine.Protocol.Wire.{get_u8, get_u32}
use order_matching_engine.Protocol.Messages.{
  RejectReason, malformed_frame, unknown_message_type, known_type, expected_payload_size,
  MessageType, NewOrderMsg, CancelMsg, CancelReplaceMsg, limit, market, fok, ioc, day,
  WireOrderType, WireTimeInForce, invalid_field,
}
use order_matching_engine.Protocol.Messages
use order_matching_engine.Protocol.Decoder.{
  FrameDecoder, Result, ok, incomplete, invalid, DecodedMessage, login, new_order, cancel,
  cancel_replace, heartbeat, login_ack, login_reject, exec_report, reject, fail, finish,
  decode_frame, decode_payload, refuse_or, next, has_instrument, order_refused, cancel_refused,
  replace_refused, price_refused, outside, tif_refused, codes_refused, read_new_order, read_cancel,
  read_cancel_replace,
}

-- A price within the bounds of the decoder.
abbrev pub Within : FrameDecoder → Price → Type 0
Within d p = (d.min_price ≤ℤ p) × (p ≤ℤ d.max_price)

pub record IsOrder (d : FrameDecoder) (m : NewOrderMsg) : Type 0 where
  pub served : has_instrument m.instrument_id d.instruments ≡ true
  pub positive : pos 0 <ℤ m.quantity
  pub priced : m.order_type ≡ limit → Within d m.price
  pub killable : m.order_type ≡ market → m.time_in_force ≢ fok

pub record IsReplacement (d : FrameDecoder) (m : CancelReplaceMsg) : Type 0 where
  pub served : has_instrument m.instrument_id d.instruments ≡ true
  pub positive : pos 0 <ℤ m.new_quantity
  pub priced : Within d m.new_price

-- What the engine may rely on of a message.
abbrev pub Vetted : FrameDecoder → DecodedMessage → Type 0
Vetted d (login m) = d.terminal ≡ d.terminal
Vetted d (new_order m) = IsOrder d m
Vetted d (cancel m) = has_instrument m.instrument_id d.instruments ≡ true
Vetted d (cancel_replace m) = IsReplacement d m
Vetted d (heartbeat m) = d.terminal ≡ d.terminal
Vetted d (login_ack m) = d.terminal ≡ d.terminal
Vetted d (login_reject m) = d.terminal ≡ d.terminal
Vetted d (exec_report m) = d.terminal ≡ d.terminal
Vetted d (reject m) = d.terminal ≡ d.terminal

abbrev pub VettedResult : FrameDecoder → Result → Type 0
VettedResult d (ok m) = Vetted d m
VettedResult d incomplete = d.terminal ≡ d.terminal
VettedResult d (invalid r) = d.terminal ≡ d.terminal

refuse_or-Vetted :
    (d : FrameDecoder) (o : Option RejectReason) (m : DecodedMessage)
    → (o ≡ none → Vetted d m)
    → VettedResult d (refuse_or o m)
unfolding refuse_or
refuse_or-Vetted d none m h = h refl
refuse_or-Vetted d (some r) m h = refl

tif_allowed :
    (k : WireOrderType) (t : WireTimeInForce) → tif_refused k t ≡ false → k ≡ market → t ≢ fok
unfolding tif_refused
tif_allowed market day e k f = ground arith
tif_allowed market ioc e k f = ground arith
tif_allowed market fok e k f = ground arith
tif_allowed limit t e k f = ground arith

accepted-IsOrder : (d : FrameDecoder) (m : NewOrderMsg) → order_refused d m ≡ none → IsOrder d m
unfolding order_refused
accepted-IsOrder d m e = record {
  served = ground arith;
  positive = ground arith;
  priced = λ k. price m.order_type k (ground arith);
  killable = tif_allowed m.order_type m.time_in_force (ground arith);
}
  where
    price : (k : WireOrderType) → k ≡ limit → price_refused d k m.price ≡ false → Within d m.price
    price limit k f = unfold price_refused outside in (ground arith, ground arith)
    price market k f = absurd (ground arith)

replace-IsReplacement :
    (d : FrameDecoder) (m : CancelReplaceMsg) → replace_refused d m ≡ none → IsReplacement d m
unfolding replace_refused outside
replace-IsReplacement d m e = record {
  served = ground arith;
  positive = ground arith;
  priced = (ground arith, ground arith);
}

decode_payload-Vetted :
    (d : FrameDecoder) (type : MessageType) (p : List ℕ) → VettedResult d (decode_payload d type p)
unfolding decode_payload cancel_refused
decode_payload-Vetted d Messages.login p = refl
decode_payload-Vetted d Messages.new_order p = elim (Bool-cases (codes_refused p)) [
  | inl bad ↦ rw bad refl
  | inr good ↦ rw good (
      refuse_or-Vetted d (order_refused d (read_new_order p)) (new_order (read_new_order p))
        (accepted-IsOrder d (read_new_order p)))
]
decode_payload-Vetted d Messages.cancel p =
    refuse_or-Vetted d _ (cancel (read_cancel p)) (λ e. ground arith)
decode_payload-Vetted d Messages.cancel_replace p =
    refuse_or-Vetted d _ (cancel_replace (read_cancel_replace p))
      (replace-IsReplacement d (read_cancel_replace p))
decode_payload-Vetted d Messages.heartbeat p = refl
decode_payload-Vetted d Messages.login_ack p = refl
decode_payload-Vetted d Messages.login_reject p = refl
decode_payload-Vetted d Messages.exec_report p = refl
decode_payload-Vetted d Messages.reject p = refl
decode_payload-Vetted d Messages.l2_delta p = refl
decode_payload-Vetted d Messages.l3_order p = refl
decode_payload-Vetted d Messages.l3_fill p = refl
decode_payload-Vetted d Messages.trade_tick p = refl
decode_payload-Vetted d Messages.snapshot_start p = refl
decode_payload-Vetted d Messages.snapshot_end p = refl

finish-Vetted :
    (d : FrameDecoder) (n : ℕ) (x : Result) → VettedResult d x → VettedResult d (finish d n x).1
unfolding finish fail
finish-Vetted d n (ok m) v = v
finish-Vetted d n incomplete v = v
finish-Vetted d n (invalid r) v = v

decode_frame-Vetted : (d : FrameDecoder) (len : ℕ) → VettedResult d (decode_frame d len).1
unfolding decode_frame fail
decode_frame-Vetted d len = elim (Option-cases (known_type (get_u8 (drop 4 d.buf)))) [
  | inl e ↦ rw (e, elim_option) refl
  | inr (type, e) ↦ elim (Bool-cases (len == 1 + expected_payload_size type)) [
    | inl same ↦
        rw (e, elim_option, same)
          (finish-Vetted d (4 + len) (decode_payload d type (drop 5 d.buf))
            (decode_payload-Vetted d type (drop 5 d.buf)))
    | inr other ↦ rw (e, elim_option, other) refl
  ]
]

-- What the decoder lets through is sane: a new order, a cancellation or a replacement is for an
-- instrument that it serves, quantities are positive, limit and replacement prices are within its
-- bounds, and no market order is fill-or-kill.
pub next-Vetted : (d : FrameDecoder) → VettedResult d (next d).1
unfolding next fail
next-Vetted d = elim (Bool-cases d.terminal) [
  | inl t ↦ simp t refl
  | inr t ↦ elim (Bool-cases (ltb (length d.buf) 4)) [
    | inl short ↦ simp (t, short) refl
    | inr long ↦ elim (Bool-cases (ltb (get_u32 d.buf) 1 || ltb 64 (get_u32 d.buf))) [
      | inl bad ↦ simp (t, long, bad) refl
      | inr good ↦ elim (Bool-cases (ltb (length d.buf) (4 + get_u32 d.buf))) [
        | inl short ↦ simp (t, long, good, short) refl
        | inr full ↦ simp (t, long, good, full) (decode_frame-Vetted d (get_u32 d.buf))
      ]
    ]
  ]
]
