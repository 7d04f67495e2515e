-- ===== src/Protocol/Decoder/Stream.antt =====
-- What a call of the decoder does, by what stands at the front of its buffer.
use order_matching_engine.Base.{
  ℕ, ◌+◌, ◌≤◌, ◌<◌, ◌≡◌, ◌≢◌, ◌⊎◌, refl, sym, List, ◌++◌, true, false, ◌||◌, ltb, ◌==◌, elim_option,
  Option, none, some, length, drop, length-append, length-drop, arith, Bool-cases, Option-cases,
  append_assoc, inl, inr, ap,
}
use order_matching_engine.Protocol.Wire.{get_u8, get_u32}
use order_matching_engine.Protocol.Messages.{
  MessageType, RejectReason, malformed_frame, unknown_message_type, known_type,
  expected_payload_size,
}
use order_matching_engine.Protocol.Messages
use order_matching_engine.Protocol.Decoder.{
  FrameDecoder, Result, ok, incomplete, invalid, DecodedMessage, new_order, cancel, cancel_replace,
  feed, consume, fail, finish, decode_frame, decode_payload, next, refuse_or, codes_refused,
  order_refused, cancel_refused, replace_refused, read_new_order, read_cancel, read_cancel_replace,
}

-- A whole frame stands at the front of the buffer, with a length that a frame may have.
pub record HasFrame (d : FrameDecoder) : Type 0 where
  pub alive : d.terminal ≡ false
  pub some_bytes : 1 ≤ get_u32 d.buf
  pub not_too_many : get_u32 d.buf ≤ 64
  pub whole : 4 + get_u32 d.buf ≤ length d.buf

-- What is wrong with the frame at the front.
pub data Fault (d : FrameDecoder) : RejectReason → Type 0 where
  unknown : known_type (get_u8 (drop 4 d.buf)) ≡ none → Fault d unknown_message_type
  wrong_size :
      (type : MessageType)
      → known_type (get_u8 (drop 4 d.buf)) ≡ some type
      → get_u32 d.buf ≢ 1 + expected_payload_size type
      → Fault d malformed_frame
  bad_payload :
      (type : MessageType) (r : RejectReason)
      → known_type (get_u8 (drop 4 d.buf)) ≡ some type
      → get_u32 d.buf ≡ 1 + expected_payload_size type
      → decode_payload d type (drop 5 d.buf) ≡ invalid r
      → Fault d r

-- What a call of `next` does to a decoder, and when.
pub data Step (d : FrameDecoder) : FrameDecoder × Result → Type 0 where
  no_length :
      {w : FrameDecoder × Result}
      → d.terminal ≡ false
      → length d.buf < 4
      → w ≡ (d, incomplete)
      → Step d w
  cut_short :
      {w : FrameDecoder × Result}
      → d.terminal ≡ false
      → 4 ≤ length d.buf
      → 1 ≤ get_u32 d.buf
      → get_u32 d.buf ≤ 64
      → length d.buf < 4 + get_u32 d.buf
      → w ≡ (d, incomplete)
      → Step d w
  dead :
      {w : FrameDecoder × Result}
      → d.terminal ≡ true
      → w ≡ (record d { terminal = true }, invalid malformed_frame)
      → Step d w
  bad_length :
      {w : FrameDecoder × Result}
      → d.terminal ≡ false
      → 4 ≤ length d.buf
      → (get_u32 d.buf ≡ 0) ⊎ (64 < get_u32 d.buf)
      → w ≡ (record d { terminal = true }, invalid malformed_frame)
      → Step d w
  bad_frame :
      {w : FrameDecoder × Result} (r : RejectReason)
      → HasFrame d
      → Fault d r
      → w ≡ (record d { terminal = true }, invalid r)
      → Step d w
  takes :
      {w : FrameDecoder × Result} (type : MessageType) (m : DecodedMessage)
      → HasFrame d
      → known_type (get_u8 (drop 4 d.buf)) ≡ some type
      → get_u32 d.buf ≡ 1 + expected_payload_size type
      → decode_payload d type (drop 5 d.buf) ≡ ok m
      → w ≡ (record d { buf = drop (4 + get_u32 d.buf) d.buf }, ok m)
      → Step d w

refuse_or_complete : (o : Option RejectReason) (m : DecodedMessage) → ¬ (refuse_or o m ≡ incomplete)
unfolding refuse_or
refuse_or_complete none m e = absurd (ground (arith, e))
refuse_or_complete (some r) m e = absurd (ground (arith, e))

-- The payload of a whole frame is never incomplete.
decode_payload_complete :
    (d : FrameDecoder) (type : MessageType) (p : List ℕ) → ¬ (decode_payload d type p ≡ incomplete)
unfolding decode_payload
decode_payload_complete d Messages.login p e = absurd (ground (arith, e))
decode_payload_complete d Messages.new_order p e = elim (Bool-cases (codes_refused p)) [
  | inl f ↦ absurd (ground (arith, e, f))
  | inr f ↦
      refuse_or_complete (order_refused d (read_new_order p)) (new_order (read_new_order p))
        (ground (arith, e, f))
]
decode_payload_complete d Messages.cancel p e =
    refuse_or_complete (cancel_refused d (read_cancel p)) (cancel (read_cancel p)) e
decode_payload_complete d Messages.cancel_replace p e =
    refuse_or_complete (replace_refused d (read_cancel_replace p))
      (cancel_replace (read_cancel_replace p)) e
decode_payload_complete d Messages.heartbeat p e = absurd (ground (arith, e))
decode_payload_complete d Messages.login_ack p e = absurd (ground (arith, e))
decode_payload_complete d Messages.login_reject p e = absurd (ground (arith, e))
decode_payload_complete d Messages.exec_report p e = absurd (ground (arith, e))
decode_payload_complete d Messages.reject p e = absurd (ground (arith, e))
decode_payload_complete d Messages.l2_delta p e = absurd (ground (arith, e))
decode_payload_complete d Messages.l3_order p e = absurd (ground (arith, e))
decode_payload_complete d Messages.l3_fill p e = absurd (ground (arith, e))
decode_payload_complete d Messages.trade_tick p e = absurd (ground (arith, e))
decode_payload_complete d Messages.snapshot_start p e = absurd (ground (arith, e))
decode_payload_complete d Messages.snapshot_end p e = absurd (ground (arith, e))

finish-Step :
    (d : FrameDecoder) (type : MessageType) (x : Result)
    → HasFrame d
    → known_type (get_u8 (drop 4 d.buf)) ≡ some type
    → get_u32 d.buf ≡ 1 + expected_payload_size type
    → decode_payload d type (drop 5 d.buf) ≡ x
    → Step d (finish d (4 + get_u32 d.buf) x)
unfolding finish consume fail
finish-Step d type (ok m) h k n e = takes type m h k n e refl
finish-Step d type incomplete h k n e = absurd (decode_payload_complete d type (drop 5 d.buf) e)
finish-Step d type (invalid r) h k n e = bad_frame r h (bad_payload type r k n e) refl

decode_frame-Step : (d : FrameDecoder) → HasFrame d → Step d (decode_frame d (get_u32 d.buf))
unfolding decode_frame fail
decode_frame-Step d h = elim (Option-cases (known_type (get_u8 (drop 4 d.buf)))) [
  | inl e ↦ rw (e, elim_option) (bad_frame unknown_message_type h (unknown e) refl)
  | inr (type, e) ↦ elim (Bool-cases (get_u32 d.buf == 1 + expected_payload_size type)) [
    | inl same ↦
        rw (e, elim_option, same)
          (finish-Step d type (decode_payload d type (drop 5 d.buf)) h e (ground arith) refl)
    | inr other ↦
        rw (e, elim_option, other)
          (bad_frame malformed_frame h (wrong_size type e (λ f. ground (arith, f, other))) refl)
  ]
]

-- Every call of next is one of these: the buffer lacks a length, or has a good length and lacks
-- the rest of the frame, and next waits and changes nothing; or the decoder had failed, the length
-- is not from 1 to 64, or a whole frame of an unknown type, of the wrong size for its type or with
-- a refused payload stands in front, and next fails with the reason and marks the decoder as
-- failed; or a whole frame with a payload that decodes stands in front, and next gives its message
-- and takes just the bytes of that frame, 4 and its length, off the front.
pub next-Step : (d : FrameDecoder) → Step d (next d)
unfolding next fail
next-Step d = elim (Bool-cases d.terminal) [
  | inl t ↦ simp t (dead t refl)
  | inr t ↦ elim (Bool-cases (ltb (length d.buf) 4)) [
    | inl short ↦ simp (t, short) (no_length t (ground arith) refl)
    | inr long ↦ elim (Bool-cases (ltb (get_u32 d.buf) 1 || ltb 64 (get_u32 d.buf))) [
      | inl bad ↦
          simp (t, long, bad) (bad_length t (ground arith) (lengths (get_u32 d.buf) bad) refl)
      | inr good ↦ elim (Bool-cases (ltb (length d.buf) (4 + get_u32 d.buf))) [
        | inl short ↦
            simp (t, long, good, short)
              (cut_short t (ground arith) (ground arith) (ground arith) (ground arith) refl)
        | inr full ↦
            simp (t, long, good, full)
              (decode_frame-Step d (record {
                alive = t;
                some_bytes = ground arith;
                not_too_many = ground arith;
                whole = ground arith;
              }))
      ]
    ]
  ]
]
  where
    lengths : (n : ℕ) → (ltb n 1 || ltb 64 n) ≡ true → (n ≡ 0) ⊎ (64 < n)
    lengths n e = elim (Bool-cases (ltb 64 n)) [
      | inl f ↦ inr (ground arith)
      | inr f ↦ inl (ground arith)
    ]

pub next-le : (d : FrameDecoder) → length (next d).0.buf ≤ length d.buf
next-le d = go (next d) (next-Step d)
  where
    go : (w : FrameDecoder × Result) → Step d w → length w.0.buf ≤ length d.buf
    go w (no_length t s e) = rw e (omega arith)
    go w (cut_short t l p q s e) = rw e (omega arith)
    go w (dead t e) = rw e (omega arith)
    go w (bad_length t l b e) = rw e (omega arith)
    go w (bad_frame r h f e) = rw e (omega arith)
    go w (takes type m h k n p e) = rw e (omega (arith, length-drop (4 + get_u32 d.buf) d.buf))

-- Feeding two pieces, both accepted, is the same as feeding them as one.
pub feed-append :
    (d : FrameDecoder) (xs ys : List ℕ)
    → (feed d xs).1 ≡ true
    → (feed (feed d xs).0 ys).1 ≡ true
    → feed d (xs ++ ys) ≡ feed (feed d xs).0 ys
unfolding feed
feed-append d xs ys a b = elim (Bool-cases (d.terminal || ltb 256 (length d.buf + length xs))) [
  | inl refused ↦ absurd (ground arith)
  | inr taken ↦ elim (Bool-cases (d.terminal || ltb 256 (length d.buf + length (xs ++ ys)))) [
    | inl refused ↦ absurd (ground (arith, length-append d.buf xs, length-append xs ys))
    | inr both ↦ elim (Bool-cases (d.terminal || ltb 256 (length (d.buf ++ xs) + length ys))) [
      | inl refused ↦ absurd (ground (arith, length-append d.buf xs, length-append xs ys))
      | inr then_taken ↦
          simp (taken, both, then_taken)
            (ap (λ z. (record d { buf = z }, true)) (sym (append_assoc d.buf xs ys)))
    ]
  ]
]
