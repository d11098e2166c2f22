-- ===== src/Spinel/Fcs/Residue.antt =====
-- The check sequence appended to a payload leaves the constant residue.
use ha_nrf52840_ot_rcp_updat.Base.{
  ℕ, zero, suc, ◌+◌, ◌*◌, ◌/◌, ◌%◌, ◌^◌, ◌<◌, ◌≡◌, refl, true, All-append, List, [], ◌∷◌, ◌++◌,
  arith, bit_xor, ◌==◌, ==_iff,
}
use ha_nrf52840_ot_rcp_updat.Base.Bits.{
  all_below, all_below_sound, bit_xor-lt, bit_xor_fields, bit_and_mask,
}
use ha_nrf52840_ot_rcp_updat.Spinel.Fcs.{
  initial_fcs, good_fcs, fcs_bit, fcs_bits, fcs_byte, fcs_from, fcs_of, IsBytes, to_bytes_le,
}

pub fcs_bit-lt : (s : ℕ) → s < 2 ^ 16 → fcs_bit s < 2 ^ 16
unfolding fcs_bit
fcs_bit-lt s h = ground (arith, bit_xor-lt 16 (s / 2) 0, bit_xor-lt 16 (s / 2) 0x8408)

pub fcs_bits-lt : (n s : ℕ) → s < 2 ^ 16 → fcs_bits n s < 2 ^ 16
unfolding fcs_bits
fcs_bits-lt zero s h = h
fcs_bits-lt (suc n) s h = fcs_bits-lt n (fcs_bit s) (fcs_bit-lt s h)

pub fcs_byte-lt : (s b : ℕ) → s < 2 ^ 16 → b < 256 → fcs_byte s b < 2 ^ 16
unfolding fcs_byte
fcs_byte-lt s b h k = fcs_bits-lt 8 (bit_xor s b) (bit_xor-lt 16 s b h (omega arith))

pub fcs_from-lt : (s : ℕ) (bytes : List ℕ) → s < 2 ^ 16 → IsBytes bytes → fcs_from s bytes < 2 ^ 16
unfolding fcs_from
fcs_from-lt s [] h k = h
fcs_from-lt s (b ∷ bytes) h k = fcs_from-lt (fcs_byte s b) bytes (fcs_byte-lt s b h k.0) k.1

pub fcs_from-append : (s : ℕ) (xs ys : List ℕ) → fcs_from s (xs ++ ys) ≡ fcs_from (fcs_from s xs) ys
unfolding fcs_from
fcs_from-append s [] ys = refl
fcs_from-append s (x ∷ xs) ys = fcs_from-append (fcs_byte s x) xs ys

-- The last mask of `_fcs` changes nothing.
pub fcs_of-eq-fcs_from :
    (bytes : List ℕ) → IsBytes bytes → fcs_of bytes ≡ fcs_from initial_fcs bytes
unfolding fcs_of
fcs_of-eq-fcs_from bytes h = omega (
  arith,
  bit_and_mask 16 (fcs_from initial_fcs bytes),
  fcs_from-lt initial_fcs bytes (omega arith) h,
)

xor_ones_table : all_below 256 (λ l. bit_xor l (bit_xor l 255) == 255) ≡ true
unfolding all_below
xor_ones_table = refl

xor_zero_table : all_below 256 (λ h. bit_xor h 0 == h) ≡ true
unfolding all_below
xor_zero_table = refl

residue_table :
    all_below 256
      (λ h. fcs_bits 8 (bit_xor (fcs_bits 8 (h * 256 + 255)) (bit_xor h 255)) == good_fcs)
    ≡ true
unfolding all_below fcs_bits
residue_table = refl

-- The two bytes of the complement lead from any state to the residue.
residue_of_state :
    (h l : ℕ)
    → h < 256
    → l < 256
    → fcs_from (h * 256 + l) (bit_xor l 255 ∷ bit_xor h 255 ∷ []) ≡ good_fcs
unfolding fcs_from fcs_byte
residue_of_state h l hh hl = rw (state, (==_iff _ _).0 (all_below_sound 256 _ residue_table h hh))
  where
    low : bit_xor l (bit_xor l 255) ≡ 255
    low = (==_iff _ _).0 (all_below_sound 256 _ xor_ones_table l hl)

    high : bit_xor h 0 ≡ h
    high = (==_iff _ _).0 (all_below_sound 256 _ xor_zero_table h hh)

    state : bit_xor (h * 256 + l) (bit_xor l 255) ≡ h * 256 + 255
    state = ground (arith, bit_xor_fields 8 h l 0 (bit_xor l 255), bit_xor-lt 8 l 255, low, high)

complement_fields :
    (s : ℕ) → s < 2 ^ 16 → bit_xor s 0xffff ≡ bit_xor (s / 256) 255 * 256 + bit_xor (s % 256) 255
complement_fields s h = ground (arith, bit_xor_fields 8 (s / 256) (s % 256) 255 255)

complement_bytes :
    (s : ℕ)
    → s < 2 ^ 16
    → to_bytes_le (bit_xor s 0xffff) ≡ bit_xor (s % 256) 255 ∷ bit_xor (s / 256) 255 ∷ []
complement_bytes s h =
    ground (arith, complement_fields s h, bit_xor-lt 8 (s / 256) 255, bit_xor-lt 8 (s % 256) 255)

residue_from : (s : ℕ) → s < 2 ^ 16 → fcs_from s (to_bytes_le (bit_xor s 0xffff)) ≡ good_fcs
residue_from s h = rw (complement_bytes s h) (ground (arith, residue_of_state (s / 256) (s % 256)))

pub to_bytes_le-IsBytes : (n : ℕ) → n < 2 ^ 16 → IsBytes (to_bytes_le n)
to_bytes_le-IsBytes n h = omega arith

pub complement-lt : (payload : List ℕ) → IsBytes payload → bit_xor (fcs_of payload) 0xffff < 2 ^ 16
complement-lt payload h =
    bit_xor-lt 16 (fcs_of payload) 0xffff
      (rw (fcs_of-eq-fcs_from payload h) (fcs_from-lt initial_fcs payload (omega arith) h))
      (omega arith)

-- A payload followed by its complemented check sequence has the residue that receivers test.
pub fcs_of_framed :
    (payload : List ℕ)
    → IsBytes payload
    → fcs_of (payload ++ to_bytes_le (bit_xor (fcs_of payload) 0xffff)) ≡ good_fcs
fcs_of_framed payload h =
    rw
      (
        fcs_of-eq-fcs_from _ framed,
        fcs_of-eq-fcs_from payload h,
        fcs_from-append initial_fcs payload _,
      )
      (residue_from (fcs_from initial_fcs payload) state)
  where
    state : fcs_from initial_fcs payload < 2 ^ 16
    state = fcs_from-lt initial_fcs payload (omega arith) h

    framed : IsBytes (payload ++ to_bytes_le (bit_xor (fcs_of payload) 0xffff))
    framed = All-append (λ b. b < 256) payload _ h (to_bytes_le-IsBytes _ (complement-lt payload h))
