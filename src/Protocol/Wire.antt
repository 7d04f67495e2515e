-- ===== src/Protocol/Wire.antt =====
-- protocol/wire.hpp: little-endian loads and stores. A byte is a number below 256.
use order_matching_engine.Base.{
  ℕ, zero, suc, ◌+◌, ◌-◌, ◌*◌, ◌/◌, ◌%◌, ◌^◌, ◌<◌, ◌≤◌, ◌≡◌, List, [], ◌∷◌, ◌++◌, ltb,
  if◌then◌else◌, arith, ap, ◌∙◌,
}
use order_matching_engine.Base.Int.{ℤ, pos, negsuc, pos_part, neg_part}

unfoldable pub put_u8 : ℕ → List ℕ
put_u8 v = v % 256 ∷ []

unfoldable pub get_u8 : List ℕ → ℕ
get_u8 [] = 0
get_u8 (b ∷ bs) = b

-- The low bytes of `v`, `v >> 8`, `v >> 16` and so on, `n` of them.
unfoldable pub put_bytes : ℕ → ℕ → List ℕ
put_bytes zero v = []
put_bytes (suc n) v = v % 256 ∷ put_bytes n (v / 256)

-- The bytes shifted to their places. No two of them share a bit, so `|` is a sum.
unfoldable pub get_bytes : ℕ → List ℕ → ℕ
get_bytes zero bs = 0
get_bytes (suc n) [] = 0
get_bytes (suc n) (b ∷ bs) = b + 256 * get_bytes n bs

unfoldable pub put_u32 : ℕ → List ℕ
put_u32 v = put_bytes 4 v

unfoldable pub get_u32 : List ℕ → ℕ
get_u32 bs = get_bytes 4 bs

unfoldable pub put_u64 : ℕ → List ℕ
put_u64 v = put_bytes 8 v

unfoldable pub get_u64 : List ℕ → ℕ
get_u64 bs = get_bytes 8 bs

-- The casts between the 64-bit types keep the bits.
unfoldable pub to_u64 : ℤ → ℕ
to_u64 (pos n) = n % 2 ^ 64
to_u64 (negsuc n) = 2 ^ 64 - 1 - n % 2 ^ 64

unfoldable pub to_i64 : ℕ → ℤ
to_i64 n = if ltb n (2 ^ 63) then pos n else negsuc (2 ^ 64 - 1 - n)

unfoldable pub put_i64 : ℤ → List ℕ
put_i64 v = put_u64 (to_u64 v)

unfoldable pub get_i64 : List ℕ → ℤ
get_i64 bs = to_i64 (get_u64 bs)

-- The range of a signed 64-bit number.
abbrev pub IsI64 : ℤ → Type 0
IsI64 v = (pos_part v < 2 ^ 63) × (neg_part v ≤ 2 ^ 63)

abbrev pub pow_256 : ℕ → ℕ
pow_256 zero = 1
pow_256 (suc n) = 256 * pow_256 n

pub get_bytes-put_bytes :
    (n v : ℕ) (rest : List ℕ) → v < pow_256 n → get_bytes n (put_bytes n v ++ rest) ≡ v
unfolding get_bytes put_bytes
get_bytes-put_bytes zero v rest h = omega arith
get_bytes-put_bytes (suc n) v rest h =
    omega (arith, get_bytes-put_bytes n (v / 256) rest (omega arith))

pub to_i64-to_u64 : (v : ℤ) → IsI64 v → to_i64 (to_u64 v) ≡ v
unfolding to_i64 to_u64
to_i64-to_u64 (pos n) h = ground arith
to_i64-to_u64 (negsuc n) h = ground arith

pub to_u64-lt : (v : ℤ) → to_u64 v < 2 ^ 64
unfolding to_u64
to_u64-lt (pos n) = omega arith
to_u64-lt (negsuc n) = omega arith

pub get_u8-put_u8 : (v : ℕ) (rest : List ℕ) → v < 256 → get_u8 (put_u8 v ++ rest) ≡ v
unfolding get_u8 put_u8
get_u8-put_u8 v rest h = omega arith

pub get_u32-put_u32 : (v : ℕ) (rest : List ℕ) → v < 2 ^ 32 → get_u32 (put_u32 v ++ rest) ≡ v
unfolding get_u32 put_u32
get_u32-put_u32 v rest h = get_bytes-put_bytes 4 v rest h

pub get_u64-put_u64 : (v : ℕ) (rest : List ℕ) → v < 2 ^ 64 → get_u64 (put_u64 v ++ rest) ≡ v
unfolding get_u64 put_u64
get_u64-put_u64 v rest h = get_bytes-put_bytes 8 v rest h

pub get_i64-put_i64 : (v : ℤ) (rest : List ℕ) → IsI64 v → get_i64 (put_i64 v ++ rest) ≡ v
unfolding get_i64 put_i64
get_i64-put_i64 v rest h =
    ap to_i64 (get_u64-put_u64 (to_u64 v) rest (to_u64-lt v)) ∙ to_i64-to_u64 v h
