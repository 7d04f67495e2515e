-- ===== src/Protocol/Decoder/Calls.antt =====
-- The decoder under any sequence of calls: a failure is for good, and the buffer keeps what was accepted.
use order_matching_engine.Base.{
  ℕ, ◌≤◌, ◌≡◌, refl, sym, ap, List, [], ◌∷◌, ◌++◌, map, Bool, true, false, if◌then◌else◌, length,
  arith,
}
use order_matching_engine.Common.Types.{Price}
use order_matching_engine.Protocol.Messages.{RejectReason, malformed_frame}
use order_matching_engine.Protocol.Decoder.{FrameDecoder, Result, invalid, feed, next}
use order_matching_engine.Protocol.Decoder.Stream.{
  Step, no_length, cut_short, dead, bad_length, bad_frame, takes, next-Step,
}

pub data Call : Type 0 where
  feeds : List ℕ → Call
  asks : Call

pub data Reply : Type 0 where
  accepted : Bool → Reply
  answered : Result → Reply

unfoldable pub call : FrameDecoder → Call → FrameDecoder × Reply
call d (feeds bytes) = ((feed d bytes).0, accepted (feed d bytes).1)
call d asks = ((next d).0, answered (next d).1)

unfoldable pub play : FrameDecoder → List Call → FrameDecoder × List Reply
unfolding call
play d [] = (d, [])
play d (c ∷ cs) = let one = call d c in let rest = play one.0 cs in (rest.0, one.1 ∷ rest.1)

-- A decoder as it is made.
unfoldable pub fresh : List ℕ → Price → Price → FrameDecoder
fresh is low high = record {
  instruments = is;
  min_price = low;
  max_price = high;
  buf = [];
  terminal = false;
}

-- The answer of a failed decoder.
abbrev pub refusal : Call → Reply
refusal (feeds bytes) = accepted false
refusal asks = answered (invalid malformed_frame)

same_terminal :
    (d : FrameDecoder) → d.terminal ≡ true → Path FrameDecoder (record d { terminal = true }) d
same_terminal d t = sym (ap (λ x. record d { terminal = x }) t)

call_terminal : (d : FrameDecoder) (c : Call) → d.terminal ≡ true → call d c ≡ (d, refusal c)
unfolding call feed next
call_terminal d (feeds bytes) t = simp t refl
call_terminal d asks t = go (next d) (next-Step d)
  where
    go :
        (w : FrameDecoder × Result)
        → Step d w
        → Path (FrameDecoder × Reply) (w.0, answered w.1) (d, answered (invalid malformed_frame))
    go w (no_length f s e) = absurd (ground (arith, f, t))
    go w (cut_short f l p q s e) = absurd (ground (arith, f, t))
    go w (dead f e) = rw e (ap (λ x. (x, answered (invalid malformed_frame))) (same_terminal d t))
    go w (bad_length f l b e) = absurd (ground (arith, f, t))
    go w (bad_frame r h f e) = absurd (ground (arith, h.alive, t))
    go w (takes type m h k n p e) = absurd (ground (arith, h.alive, t))

play_terminal :
    (d : FrameDecoder) (cs : List Call) → d.terminal ≡ true → play d cs ≡ (d, map refusal cs)
unfolding play
play_terminal d [] t = refl
play_terminal d (c ∷ cs) t =
    rw (call_terminal d c t) (ap (λ w. (w.0, refusal c ∷ w.1)) (play_terminal d cs t))

invalid-terminal :
    (d : FrameDecoder) (r : RejectReason) → (next d).1 ≡ invalid r → (next d).0.terminal ≡ true
invalid-terminal d r = go (next d) (next-Step d)
  where
    go : (w : FrameDecoder × Result) → Step d w → w.1 ≡ invalid r → w.0.terminal ≡ true
    go w (no_length f s e) g = absurd (ground (arith, e, g))
    go w (cut_short f l p q s e) g = absurd (ground (arith, e, g))
    go w (dead f e) g = rw e refl
    go w (bad_length f l b e) g = rw e refl
    go w (bad_frame r' h f e) g = rw e refl
    go w (takes type m h k n p e) g = absurd (ground (arith, e, g))

-- Once next has answered that the input is invalid, whatever its reason, every later sequence of
-- calls leaves the decoder as it is: every feed is refused, and every next answers that the frame
-- is malformed.
pub failed_for_good :
    (d : FrameDecoder) (r : RejectReason) (cs : List Call)
    → (next d).1 ≡ invalid r
    → play (next d).0 cs ≡ ((next d).0, map refusal cs)
failed_for_good d r cs e = play_terminal (next d).0 cs (invalid-terminal d r e)

-- The bytes that the decoder accepts in some calls.
abbrev pub taken_in : FrameDecoder → List Call → List ℕ
taken_in d [] = []
taken_in d (feeds bytes ∷ cs) =
    (if (feed d bytes).1 then bytes else []) ++ taken_in (feed d bytes).0 cs
taken_in d (asks ∷ cs) = taken_in (next d).0 cs

-- The buffer `b` is the end of `all`, and within its bound.
pub record IsTail (all b : List ℕ) : Type 0 where
  pub used : List ℕ
  pub split : all ≡ used ++ b
  pub bounded : length b ≤ 256
