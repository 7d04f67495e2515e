-- ===== src/Sequencer/Format/RoundTrip.antt =====
-- The bytes of a record and of a header, read back.
use order_matching_engine.Base.{
  ℕ, ◌^◌, ◌<◌, ◌≡◌, refl, ap, ap₂, ◌∙◌, List, ◌++◌, true, ◌==◌, length, take, drop, arith,
}
use order_matching_engine.Common.Types.{Side, buy, sell}
use order_matching_engine.Common.Crc32.{crc32}
use order_matching_engine.Engine.Order.{OrderType}
use order_matching_engine.Ipc.Command.{Command, CommandKind}
use order_matching_engine.Protocol.Wire.{
  put_u8, put_bytes, put_u32, put_u64, put_i64, get_u8, get_bytes, get_u32, get_u64, IsI64,
  get_u32-put_u32, get_u64-put_u64, get_i64-put_i64,
}
use order_matching_engine.Protocol.Messages.{side_code}
use order_matching_engine.Protocol.Decoder.{side_of_code}
use order_matching_engine.Sequencer.Format.{
  SegmentHeader, header_body, encode_header, decode_header, kind_code, engine_type_code,
  kind_of_code, engine_type_of_code, command_image, command_of_image, JournalRecord, record_body,
  encode_record,
}

-- The fields are in the ranges of their types.
pub record IsCommand (c : Command) : Type 0 where
  pub id : c.id < 2 ^ 64
  pub new_id : c.new_id < 2 ^ 64
  pub price : IsI64 c.price
  pub quantity : IsI64 c.quantity
  pub participant : c.participant < 2 ^ 64

crc32_lt : (bytes : List ℕ) → crc32 bytes < 2 ^ 32
unfolding crc32
crc32_lt bytes = omega arith

kind_lem :
    (k : CommandKind) (rest : List ℕ) → kind_of_code (get_u8 (put_u8 (kind_code k) ++ rest)) ≡ k
unfolding kind_of_code kind_code get_u8 put_u8
kind_lem CommandKind.new rest = refl
kind_lem CommandKind.cancel rest = refl
kind_lem CommandKind.replace rest = refl

side_lem : (s : Side) (rest : List ℕ) → side_of_code (get_u8 (put_u8 (side_code s) ++ rest)) ≡ s
unfolding side_of_code side_code get_u8 put_u8
side_lem buy rest = refl
side_lem sell rest = refl

engine_type_lem :
    (t : OrderType) (rest : List ℕ)
    → engine_type_of_code (get_u8 (put_u8 (engine_type_code t) ++ rest)) ≡ t
unfolding engine_type_of_code engine_type_code get_u8 put_u8
engine_type_lem OrderType.limit rest = refl
engine_type_lem OrderType.market rest = refl
engine_type_lem OrderType.ioc rest = refl
engine_type_lem OrderType.fok rest = refl

pub command_of_image-command_image :
    (c : Command) (rest : List ℕ) → IsCommand c → command_of_image (command_image c ++ rest) ≡ c
unfolding command_of_image command_image put_u64 put_bytes put_i64 put_u8
command_of_image-command_image c rest v =
    let all : List ℕ = command_image c ++ rest in
    let e_id = get_u64-put_u64 c.id (drop 8 all) v.id in
    let e_new_id = get_u64-put_u64 c.new_id (drop 16 all) v.new_id in
    let e_price = get_i64-put_i64 c.price (drop 24 all) v.price in
    let e_quantity = get_i64-put_i64 c.quantity (drop 32 all) v.quantity in
    let e_participant = get_u64-put_u64 c.participant (drop 40 all) v.participant in
    let e_kind = kind_lem c.kind (drop 41 all) in
    let e_side = side_lem c.side (drop 42 all) in
    let e_type = engine_type_lem c.order_type (drop 43 all) in
    λ i. record {
      id = e_id i;
      new_id = e_new_id i;
      price = e_price i;
      quantity = e_quantity i;
      participant = e_participant i;
      kind = e_kind i;
      side = e_side i;
      order_type = e_type i;
    }

-- What a reader finds at the start of a record.
pub record Found (r : JournalRecord) (bytes : List ℕ) : Type 0 where
  pub size : get_u32 bytes ≡ 48
  pub number : get_u64 (drop 4 bytes) ≡ r.global_seq
  pub kind : kind_of_code (get_u8 (drop 12 bytes)) ≡ r.kind
  pub command : command_of_image (drop 16 bytes) ≡ r.command
  pub body : take 64 bytes ≡ record_body r
  pub checksum : get_u32 (drop 64 bytes) ≡ crc32 (record_body r)

pub length-encode_record : (r : JournalRecord) → length (encode_record r) ≡ 68
unfolding encode_record record_body command_image put_u32 put_u64 put_i64 put_u8 put_bytes
length-encode_record r = refl

pub encode_record-Found :
    (r : JournalRecord) (rest : List ℕ)
    → r.global_seq < 2 ^ 64
    → IsCommand r.command
    → Found r (encode_record r ++ rest)
unfolding encode_record record_body command_image put_u32 put_u64 put_i64 put_u8 put_bytes
encode_record-Found r rest small v =
    let all : List ℕ = encode_record r ++ rest in
    record {
      size = get_u32-put_u32 48 (drop 4 all) (omega arith);
      number = get_u64-put_u64 r.global_seq (drop 12 all) small;
      kind = kind_lem r.kind (drop 13 all);
      command = command_of_image-command_image r.command (drop 64 all) v;
      body = refl;
      checksum = get_u32-put_u32 (crc32 (record_body r)) rest (crc32_lt (record_body r));
    }

pub decode_header-encode_header :
    (h : SegmentHeader) (rest : List ℕ)
    → h.first_seq < 2 ^ 64
    → h.created_counter < 2 ^ 64
    → decode_header (encode_header h ++ rest) ≡ (h, true)
unfolding decode_header encode_header header_body put_u32 put_u64 put_bytes get_u32 get_bytes
decode_header-encode_header h rest a b =
    let all : List ℕ = encode_header h ++ rest in
    let e_first = get_u64-put_u64 h.first_seq (drop 16 all) a in
    let e_counter = get_u64-put_u64 h.created_counter (drop 24 all) b in
    let e_crc = get_u32-put_u32 (crc32 (header_body h)) rest (crc32_lt (header_body h)) in
    ap₂ (λ x y. (x, y)) (λ i. record { first_seq = e_first i; created_counter = e_counter i })
      (ap (λ k. crc32 (header_body h) == k) e_crc ∙ same (crc32 (header_body h)))
  where
    same : (n : ℕ) → (n == n) ≡ true
    same n = ground arith
