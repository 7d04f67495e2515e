-- ===== src/Tests/Stream.antt =====
-- The theorems on the frames, at concrete messages.
use order_matching_engine.Base.{◌≡◌, refl, List, [], ◌∷◌, ◌++◌, map, none, true, false, arith}
use order_matching_engine.Base.Int.{pos}
use order_matching_engine.Common.Types.{buy}
use order_matching_engine.Protocol.Messages.{NewOrderMsg, limit, day, malformed_frame}
use order_matching_engine.Protocol.Encoder.{encode_new_order}
use order_matching_engine.Protocol.Decoder.{
  FrameDecoder, feed, next, fail, ok, invalid, new_order, order_refused, has_instrument,
  tif_refused, price_refused, outside,
}
use order_matching_engine.Protocol.Wire.{get_u32, get_bytes}
use order_matching_engine.Protocol.Decoder.Stream.{Step, next-Step, feed-append}
use order_matching_engine.Protocol.Decoder.Calls.{Call, feeds, asks, play, refusal, failed_for_good}
use order_matching_engine.Protocol.Decoder.Vetted.{VettedResult, next-Vetted}
use order_matching_engine.Protocol.Decoder.RoundTrip.{waiting, IsWireOrder, next-encode_new_order}

abbrev fresh_decoder : FrameDecoder
fresh_decoder = record {
  instruments = 7 ∷ [];
  min_price = pos 10000;
  max_price = pos 12000;
  buf = [];
  terminal = false;
}

abbrev message : NewOrderMsg
message = record {
  client_seq_num = 1;
  order_id = pos 42;
  instrument_id = 7;
  side = buy;
  order_type = limit;
  price = pos 10500;
  quantity = pos 10;
  time_in_force = day;
}

message-IsWireOrder : IsWireOrder message
message-IsWireOrder = record {
  client_seq_num = omega arith;
  order_id = omega arith;
  instrument_id = omega arith;
  price = omega arith;
  quantity = omega arith;
}

message_accepted : order_refused fresh_decoder message ≡ none
unfolding order_refused has_instrument tif_refused price_refused outside
message_accepted = refl

next-encode_new_order_example :
    next (waiting fresh_decoder (encode_new_order message ++ (1 ∷ 2 ∷ [])))
    ≡ (waiting fresh_decoder (1 ∷ 2 ∷ []), ok (new_order message))
next-encode_new_order_example =
    next-encode_new_order fresh_decoder message (1 ∷ 2 ∷ []) message-IsWireOrder message_accepted

abbrev loaded : FrameDecoder
loaded = waiting fresh_decoder (encode_new_order message)

next-Vetted_example : VettedResult loaded (next loaded).1
next-Vetted_example = next-Vetted loaded

next-Step_example : Step loaded (next loaded)
next-Step_example = next-Step loaded

-- The length of this frame is 0.
abbrev spoilt : FrameDecoder
spoilt = waiting fresh_decoder (0 ∷ 0 ∷ 0 ∷ 0 ∷ 9 ∷ [])

spoilt_fails : (next spoilt).1 ≡ invalid malformed_frame
unfolding next get_u32 get_bytes fail
spoilt_fails = refl

abbrev calls : List Call
calls = feeds (encode_new_order message) ∷ asks ∷ asks ∷ feeds (1 ∷ []) ∷ []

failed_for_good_example : play (next spoilt).0 calls ≡ ((next spoilt).0, map refusal calls)
failed_for_good_example = failed_for_good spoilt malformed_frame calls spoilt_fails

first_fed : (feed fresh_decoder (1 ∷ [])).1 ≡ true
unfolding feed
first_fed = refl

second_fed : (feed (feed fresh_decoder (1 ∷ [])).0 (2 ∷ [])).1 ≡ true
unfolding feed
second_fed = refl

feed-append_example :
    feed fresh_decoder (1 ∷ 2 ∷ []) ≡ feed (feed fresh_decoder (1 ∷ [])).0 (2 ∷ [])
feed-append_example = feed-append fresh_decoder (1 ∷ []) (2 ∷ []) first_fed second_fed
