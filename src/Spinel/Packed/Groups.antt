-- ===== src/Spinel/Packed/Groups.antt =====
-- One byte of `pack_uint` and one round of `unpack_uint` of spinel.py: a group of seven bits.
use mathlib.Core.WellFounded.{Acc}
use mathlib.Core.Logic.{dif_pos, dif_neg}
use native.Mathlib.Bridge.{le_prop}
use native.Mathlib.Decide.{dec_lt}
use native.Mathlib.Numerals.{towards_suc}
use ha_nrf52840_ot_rcp_updat.Base.{
  ℕ, suc, ◌+◌, ◌*◌, ◌/◌, ◌%◌, ◌^◌, ◌<◌, ◌≤◌, ◌≡◌, refl, true, List, [], ◌∷◌, ◌++◌, arith, bit_and,
  bit_or, ◌==◌, if◌then◌else◌, get_elem?-append, length, ok,
}
use ha_nrf52840_ot_rcp_updat.Base.Bits.{
  all_below, all_below_sound, bit_and_mask, bit_or_fields, bit_or_comm, bit_or-zero,
}
use ha_nrf52840_ot_rcp_updat.Spinel.Packed.{shrinks, pack_from, unpack_from}

low_table : all_below 128 (λ x. bit_and x 0x80 == 0) ≡ true
unfolding all_below
low_table = refl

high_table : all_below 128 (λ x. bit_and (x + 128) 0x80 == 128) ≡ true
unfolding all_below
high_table = refl

seven_table : all_below 128 (λ x. bit_and (x + 128) 0x7f == x) ≡ true
unfolding all_below
seven_table = refl

pub pow_seven : (k : ℕ) → 2 ^ ((k + 1) * 7) ≡ 128 * 2 ^ (k * 7)
pow_seven k = rw (lem) (simp towards_suc (omega arith))
  where
    lem : (k + 1) * 7 ≡ k * 7 + 7
    lem = omega arith

-- One byte of a packed value.
last_byte : (value : ℕ) → value < 128 → bit_or (bit_and value 0x7f) 0 ≡ value
last_byte value h = ground (arith, bit_and_mask 7 value, bit_or-zero (bit_and value 0x7f))

more_byte : (value : ℕ) → bit_or (bit_and value 0x7f) 0x80 ≡ value % 128 + 128
more_byte value = ground (
  arith,
  bit_and_mask 7 value,
  bit_or_comm (bit_and value 0x7f) 0x80,
  bit_or_fields 7 1 (value % 128),
)

-- A group of bits above those that are there is added.
pub add_group :
    (k value group : ℕ) → value < 2 ^ k → bit_or value (group * 2 ^ k) ≡ value + group * 2 ^ k
add_group k value group h =
    omega (arith, bit_or_comm value (group * 2 ^ k), bit_or_fields k group value h)

unpack_step :
    (left index value : ℕ) (before after : List ℕ) (byte : ℕ)
    → unpack_from (suc left) index value (before ++ byte ∷ after) (length before) ≡ (
        let value' = bit_or value (bit_and byte 0x7f * 2 ^ (index * 7)) in
        if bit_and byte 0x80 == 0
        then ok (value', length before + 1)
        else unpack_from left (index + 1) value' (before ++ byte ∷ after) (length before + 1))
unfolding unpack_from
unpack_step left index value before after byte =
    ground (arith, get_elem?-append before (byte ∷ after) 0)

pub pack_from_last : (v : ℕ) (w : Acc ◌<◌ v) → v < 128 → pack_from v w ≡ v ∷ []
unfolding pack_from
pack_from_last v (Acc.intro _ smaller) h =
    rw (dif_neg (dec_lt 0 (v / 2 ^ 7)) not_more, last_byte v h)
  where
    not_more : ¬ (0 < v / 2 ^ 7)
    not_more = omega arith

pub pack_from_more :
    (v : ℕ) (w : Acc ◌<◌ v)
    → 128 ≤ v
    → (w' : Acc ◌<◌ (v / 2 ^ 7)) × (pack_from v w ≡ (v % 128 + 128) ∷ pack_from (v / 2 ^ 7) w')
unfolding pack_from
pack_from_more v (Acc.intro _ smaller) h = (
  smaller (v / 2 ^ 7) (shrinks v more),
  rw (dif_pos (dec_lt 0 (v / 2 ^ 7)) le_prop more, more_byte v),
)
  where
    more : 0 < v / 2 ^ 7
    more = omega arith

-- A byte below 128 ends the number; one from 128 on carries seven bits and goes on.
pub stop_byte :
    (left index value b : ℕ) (before after : List ℕ)
    → value < 2 ^ (index * 7)
    → b < 128
    → unpack_from (suc left) index value (before ++ b ∷ after) (length before)
      ≡ ok (value + b * 2 ^ (index * 7), length before + 1)
stop_byte left index value b before after h lt = ground (
  arith,
  unpack_step left index value before after b,
  bit_and_mask 7 b,
  all_below_sound 128 (λ x. bit_and x 0x80 == 0) low_table b lt,
  add_group (index * 7) value b h,
)

pub go_byte :
    (left index value b : ℕ) (before after : List ℕ)
    → value < 2 ^ (index * 7)
    → b < 128
    → unpack_from (suc left) index value (before ++ (b + 128) ∷ after) (length before)
      ≡ unpack_from left
          (index + 1)
          (value + b * 2 ^ (index * 7))
          (before ++ (b + 128) ∷ after)
          (length before + 1)
go_byte left index value b before after h lt = ground (
  arith,
  unpack_step left index value before after (b + 128),
  all_below_sound 128 (λ x. bit_and (x + 128) 0x80 == 128) high_table b lt,
  all_below_sound 128 (λ x. bit_and (x + 128) 0x7f == x) seven_table b lt,
  add_group (index * 7) value b h,
)
