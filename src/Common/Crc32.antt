-- ===== src/Common/Crc32.antt =====
-- common/crc32.hpp: the checksum of the journal. An entry of the table is computed where it is used.
use Prim.Native.Nat.{bit_xor}
use order_matching_engine.Base.{ℕ, zero, suc, ◌/◌, ◌%◌, ◌^◌, List, [], ◌∷◌, ◌==◌, if◌then◌else◌}

unfoldable pub table_step : ℕ → ℕ
table_step c = if c % 2 == 1 then bit_xor 0xEDB88320 (c / 2) else c / 2

unfoldable pub table_entry : ℕ → ℕ → ℕ
unfolding table_step
table_entry zero c = c
table_entry (suc k) c = table_entry k (table_step c)

unfoldable pub crc_loop : ℕ → List ℕ → ℕ
unfolding table_entry
crc_loop c [] = c
crc_loop c (b ∷ bs) = crc_loop (bit_xor (table_entry 8 (bit_xor c b % 256)) (c / 256)) bs

-- All of it is in 32 bits; the seed is 0.
unfoldable pub crc32 : List ℕ → ℕ
unfolding crc_loop
crc32 bytes = bit_xor (crc_loop (bit_xor 0 0xFFFFFFFF) bytes) 0xFFFFFFFF % 2 ^ 32
