-- ===== src/Sequencer/Format.antt =====
-- sequencer/journal_format.hpp: the bytes of a segment of the journal.
pub mod RoundTrip
use order_matching_engine.Base.{
  ℕ, zero, suc, ◌+◌, List, [], ◌∷◌, ◌++◌, Bool, true, false, ◌&&◌, ◌==◌, take, drop,
}
use order_matching_engine.Common.Types.{Side, buy, sell}
use order_matching_engine.Common.Crc32.{crc32}
use order_matching_engine.Engine.Order.{OrderType}
use order_matching_engine.Engine.Order
use order_matching_engine.Ipc.Command.{Command, CommandKind}
use order_matching_engine.Protocol.Wire.{
  put_u8, put_u32, put_u64, put_i64, get_u8, get_u32, get_u64, get_i64,
}
use order_matching_engine.Protocol.Messages.{side_code}
use order_matching_engine.Protocol.Decoder.{side_of_code}

abbrev pub magic : ℕ
magic = 0x534A5856

pub record SegmentHeader : Type 0 where
  pub first_seq : ℕ
  pub created_counter : ℕ

-- What the checksum of the header covers.
unfoldable pub header_body : SegmentHeader → List ℕ
header_body h =
    put_u32 magic
    ++ (put_u32 1 ++ (put_u64 h.first_seq ++ (put_u64 h.created_counter ++ put_u32 0)))

unfoldable pub encode_header : SegmentHeader → List ℕ
unfolding header_body
encode_header h = header_body h ++ put_u32 (crc32 (header_body h))

unfoldable pub decode_header : List ℕ → SegmentHeader × Bool
decode_header bytes = (
  record { first_seq = get_u64 (drop 8 bytes); created_counter = get_u64 (drop 16 bytes) },
  get_u32 bytes == magic
      && (get_u32 (drop 4 bytes) == 1 && (crc32 (take 28 bytes) == get_u32 (drop 28 bytes))),
)

unfoldable pub kind_code : CommandKind → ℕ
kind_code CommandKind.new = 0
kind_code CommandKind.cancel = 1
kind_code CommandKind.replace = 2

unfoldable pub engine_type_code : OrderType → ℕ
engine_type_code OrderType.limit = 0
engine_type_code OrderType.market = 1
engine_type_code OrderType.ioc = 2
engine_type_code OrderType.fok = 3

-- The casts of a byte. The writer writes no byte past the last constructor.
unfoldable pub kind_of_code : ℕ → CommandKind
kind_of_code zero = CommandKind.new
kind_of_code (suc zero) = CommandKind.cancel
kind_of_code (suc (suc n)) = CommandKind.replace

unfoldable pub engine_type_of_code : ℕ → OrderType
engine_type_of_code zero = OrderType.limit
engine_type_of_code (suc zero) = OrderType.market
engine_type_of_code (suc (suc zero)) = OrderType.ioc
engine_type_of_code (suc (suc (suc n))) = OrderType.fok

-- The 48 bytes of a `Command` in memory: five words, three bytes and five of padding, which are zero.
unfoldable pub command_image : Command → List ℕ
unfolding kind_code side_code engine_type_code
command_image c =
    put_u64 c.id
    ++ (put_u64 c.new_id
        ++ (put_i64 c.price
            ++ (put_i64 c.quantity
                ++ (put_u64 c.participant
                    ++ (put_u8 (kind_code c.kind)
                        ++ (put_u8 (side_code c.side)
                            ++ (put_u8 (engine_type_code c.order_type)
                                ++ (0 ∷ 0 ∷ 0 ∷ 0 ∷ 0 ∷ []))))))))

unfoldable pub command_of_image : List ℕ → Command
unfolding kind_of_code side_of_code engine_type_of_code
command_of_image p = record {
  id = get_u64 p;
  new_id = get_u64 (drop 8 p);
  price = get_i64 (drop 16 p);
  quantity = get_i64 (drop 24 p);
  participant = get_u64 (drop 32 p);
  kind = kind_of_code (get_u8 (drop 40 p));
  side = side_of_code (get_u8 (drop 41 p));
  order_type = engine_type_of_code (get_u8 (drop 42 p));
}

pub record JournalRecord : Type 0 where
  pub global_seq : ℕ
  pub kind : CommandKind
  pub command : Command

-- What the checksum of a record covers: the length of the payload, the number, the kind with three
-- bytes of padding, the payload.
unfoldable pub record_body : JournalRecord → List ℕ
unfolding kind_code command_image
record_body r =
    put_u32 48
    ++ (put_u64 r.global_seq
        ++ (put_u8 (kind_code r.kind) ++ (0 ∷ 0 ∷ 0 ∷ command_image r.command)))

unfoldable pub encode_record : JournalRecord → List ℕ
unfolding record_body
encode_record r = record_body r ++ put_u32 (crc32 (record_body r))
