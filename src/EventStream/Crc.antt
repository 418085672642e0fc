-- ===== src/EventStream/Crc.antt =====
-- hash/crc32 with the IEEE polynomial, as proxy/eventstream.go uses it, bit by bit.
use Prim.Native.Nat.{bit_xor}
use kiro_go_plus.Base.{
  ℕ, zero, suc, ◌/◌, ◌%◌, ◌^◌, ◌<◌, ◌≡◌, refl, List, [], ◌∷◌, ◌++◌, arith, if◌then◌else◌, ◌==◌,
  nat_eq,
}
use kiro_go_plus.Base.Text.{codes}

shift_bits : ℕ → ℕ → ℕ
shift_bits zero c = c
shift_bits (suc k) c = shift_bits k (if c % 2 == 0 then c / 2 else bit_xor (c / 2) 0xedb88320)

-- checksum.Write, over the inverted register.
unfoldable pub write : ℕ → List ℕ → ℕ
unfolding shift_bits
write c [] = c
write c (b ∷ bs) = write (shift_bits 8 (bit_xor c b)) bs

-- The sum is a uint32.
unfoldable pub sum32 : ℕ → ℕ
sum32 c = bit_xor c 0xffffffff % 2 ^ 32

unfoldable pub checksum_ieee : List ℕ → ℕ
unfolding sum32 write
checksum_ieee bs = sum32 (write 0xffffffff bs)

-- Two writes are one write of the bytes together.
pub write-append : (c : ℕ) (xs ys : List ℕ) → write c (xs ++ ys) ≡ write (write c xs) ys
unfolding write
write-append c [] ys = refl
write-append c (x ∷ xs) ys = write-append (shift_bits 8 (bit_xor c x)) xs ys

pub checksum_ieee-lt : (bs : List ℕ) → checksum_ieee bs < 2 ^ 32
unfolding checksum_ieee
checksum_ieee-lt bs = omega arith

-- The check value of CRC-32.
checksum_ieee_check : checksum_ieee (codes "123456789") ≡ 0xcbf43926
unfolding checksum_ieee
checksum_ieee_check = refl
