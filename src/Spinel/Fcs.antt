-- ===== src/Spinel/Fcs.antt =====
-- `_fcs` of spinel.py: the 16-bit frame check sequence of an HDLC frame.
pub mod Residue
pub mod Detect
use ha_nrf52840_ot_rcp_updat.Base.{
  ℕ, zero, suc, ◌/◌, ◌%◌, ◌<◌, List, [], ◌∷◌, All, bit_and, bit_xor, ◌==◌, if◌then◌else◌,
}

abbrev pub initial_fcs : ℕ
initial_fcs = 0xffff

abbrev pub good_fcs : ℕ
good_fcs = 0xf0b8

-- The body of the inner loop.
pub fcs_bit : ℕ → ℕ
fcs_bit fcs = bit_xor (fcs / 2) (if bit_and fcs 1 == 0 then 0 else 0x8408)

-- `for _ in range(n)`
pub fcs_bits : ℕ → ℕ → ℕ
unfolding fcs_bit
fcs_bits zero fcs = fcs
fcs_bits (suc n) fcs = fcs_bits n (fcs_bit fcs)

-- The body of the outer loop.
pub fcs_byte : ℕ → ℕ → ℕ
unfolding fcs_bits
fcs_byte fcs byte = fcs_bits 8 (bit_xor fcs byte)

pub fcs_from : ℕ → List ℕ → ℕ
unfolding fcs_byte
fcs_from fcs [] = fcs
fcs_from fcs (byte ∷ bytes) = fcs_from (fcs_byte fcs byte) bytes

unfoldable pub fcs_of : List ℕ → ℕ
unfolding fcs_from
fcs_of bytes = bit_and (fcs_from initial_fcs bytes) 0xffff

-- What Python's `bytes` are.
abbrev pub IsBytes : List ℕ → Type 0
IsBytes = All (λ b. b < 256)

-- `value.to_bytes(2, "little")` of a value below 2 ^ 16.
abbrev pub to_bytes_le : ℕ → List ℕ
to_bytes_le value = (value % 256) ∷ (value / 256) ∷ []
