-- ===== src/Fas1/Crc.antt =====
-- CRC-32C of acoustic-protocol.ts. JavaScript's 32-bit operations act on bit patterns, which are
-- the numbers below 2 ^ 32 here; `>>> 1` is `/ 2`, and `& 0xff` is `% 256`.
pub mod Detect
use fipwave.Common.{ℕ, zero, suc, ◌/◌, ◌%◌, List, [], ◌∷◌, ◌==◌, if◌then◌else◌, get_or}
use Prim.Native.Nat.{bit_xor}

-- The inner loop of `createCrc32cTable`, for the bits that are left.
unfoldable pub crc_bits : ℕ → ℕ → ℕ
crc_bits zero value = value
crc_bits (suc bit) value =
    crc_bits bit (if value % 2 == 1 then bit_xor (value / 2) 0x82f6_3b78 else value / 2)

-- The outer loop, for the indices that are left.
unfoldable pub crc_entries : ℕ → ℕ → List ℕ
crc_entries zero index = []
crc_entries (suc left) index = crc_bits 8 index ∷ crc_entries left (suc index)

unfoldable pub crc32c_table : List ℕ
unfolding crc_entries crc_bits
crc32c_table = crc_entries 256 0

-- One turn of the loop of `crc32c`.
unfoldable pub crc_step : ℕ → ℕ → ℕ
unfolding crc32c_table
crc_step value byte = bit_xor (get_or crc32c_table (bit_xor value byte % 256) 0) (value / 256)

unfoldable pub crc_loop : ℕ → List ℕ → ℕ
unfolding crc_step
crc_loop value [] = value
crc_loop value (byte ∷ bytes) = crc_loop (crc_step value byte) bytes

unfoldable pub crc32c : List ℕ → ℕ
unfolding crc_loop
crc32c bytes = bit_xor (crc_loop 0xffff_ffff bytes) 0xffff_ffff
