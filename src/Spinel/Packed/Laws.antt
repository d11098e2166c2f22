-- ===== src/Spinel/Packed/Laws.antt =====
-- Packing and unpacking are inverse, and unpacking stays inside its buffer.
use mathlib.Core.WellFounded.{Acc}
use native.Mathlib.Decide.{dec_lt}
use native.Mathlib.Nat.{add-zero}
use ha_nrf52840_ot_rcp_updat.Base.{
  ℕ, zero, suc, ◌+◌, ◌*◌, ◌/◌, ◌%◌, ◌^◌, ◌<◌, ◌≤◌, ◌≡◌, ◌↔◌, inl, inr, Bool-cases, Option-cases, ap,
  List, [], ◌∷◌, ◌++◌, some, arith, bit_and, bit_or, ◌==◌, get_elem?, length, length-append,
  append_assoc, ok, err,
}
use ha_nrf52840_ot_rcp_updat.Base.Order.{lt_wf}
use ha_nrf52840_ot_rcp_updat.Base.Bits.{bit_and_mask}
use ha_nrf52840_ot_rcp_updat.Spinel.Errors.{packed_out_of_range}
use ha_nrf52840_ot_rcp_updat.Spinel.Packed.{pack_from, pack_uint, unpack_from, unpack_uint}
use ha_nrf52840_ot_rcp_updat.Spinel.Packed.Groups.{
  pow_seven, add_group, pack_from_last, pack_from_more, stop_byte, go_byte,
}

-- The bounds that the next round needs.
next_value-lt :
    (index value b : ℕ)
    → value < 2 ^ (index * 7)
    → b < 128
    → value + b * 2 ^ (index * 7) < 2 ^ ((index + 1) * 7)
next_value-lt index value b h lt = rw (pow_seven index) (grind arith)

next_left : (left v : ℕ) → v < 2 ^ (suc left * 7) → v / 2 ^ 7 < 2 ^ (left * 7)
next_left left v h = omega (arith, pow_seven left, ap (λ (n : ℕ). 2 ^ (n * 7)) add_suc)
  where
    add_suc : suc left ≡ left + 1
    add_suc = omega arith

left_pos : (left x : ℕ) → 0 < x → x < 2 ^ (left * 7) → 1 ≤ left
left_pos zero x p h = absurd (omega arith)
left_pos (suc left) x p h = omega arith

group_sum :
    (index value v : ℕ)
    → value + v % 128 * 2 ^ (index * 7) + v / 2 ^ 7 * 2 ^ ((index + 1) * 7)
      ≡ value + v * 2 ^ (index * 7)
group_sum index value v =
    rw (pow_seven index) (omega (arith, ap (λ (t : ℕ). t * 2 ^ (index * 7)) digits))
  where
    digits : v ≡ v / 2 ^ 7 * 128 + v % 128
    digits = omega arith

unpack-pack_from :
    (left index value v : ℕ) (w : Acc ◌<◌ v) (before after : List ℕ)
    → value < 2 ^ (index * 7)
    → v < 2 ^ (left * 7)
    → 1 ≤ left
    → unpack_from left index value (before ++ (pack_from v w ++ after)) (length before)
      ≡ ok (value + v * 2 ^ (index * 7), length before + length (pack_from v w))
unpack-pack_from zero index value v w before after h k p = absurd (omega arith)
unpack-pack_from (suc left) index value v w before after h k p = elim (dec_lt v 128) [
  | yes small ↦ rw (pack_from_last v w small) (stop_byte left index value v before after h small)
  | no big ↦
      let (w', e) = pack_from_more v w (omega arith) in
      let byte = v % 128 + 128 in
      let tail = pack_from (v / 2 ^ 7) w' ++ after in
      let rest =
        unpack-pack_from left (index + 1) (value + v % 128 * 2 ^ (index * 7)) (v / 2 ^ 7) w'
          (before ++ byte ∷ []) after (next_value-lt index value (v % 128) h (omega arith))
          (next_left left v k) (left_pos left (v / 2 ^ 7) (omega arith) (next_left left v k)) in
      rw (e, go_byte left index value (v % 128) before tail h (omega arith))
        (ground (
          arith,
          rest,
          append_assoc before (byte ∷ []) tail,
          length-append before (byte ∷ []),
          group_sum index value v,
        ))
]

packed_value :
    (v : ℕ) (packed : List ℕ)
    → pack_uint v ≡ ok packed
    → (v < 2 ^ 32) × (pack_from v (lt_wf.apply v) ≡ packed)
unfolding pack_uint
packed_value v packed h = ground arith

-- An unsigned 32-bit value that is packed is unpacked where it stands in any buffer, with the
-- offset behind it.
pub unpack-pack_uint :
    (v : ℕ) (before after packed : List ℕ)
    → pack_uint v ≡ ok packed
    → unpack_uint (before ++ (packed ++ after)) (length before)
      ≡ ok (v, length before + length packed)
unfolding unpack_uint
unpack-pack_uint v before after packed h = ground (
  arith,
  packed_value v packed h,
  unpack-pack_from 5 0 0 v (lt_wf.apply v) before after (omega arith)
      (omega (arith, packed_value v packed h)) (omega arith),
)

-- Packing fails exactly on values of more than 32 bits, always for that reason.
pub pack_uint_fails : (v : ℕ) → (pack_uint v ≡ err packed_out_of_range) ↔ (2 ^ 32 ≤ v)
unfolding pack_uint
pack_uint_fails v = ground arith

get_elem?-lt : (l : List ℕ) (i x : ℕ) → get_elem? l i ≡ some x → i < length l
get_elem?-lt [] i x h = cc
get_elem?-lt (y ∷ l) zero x h = omega arith
get_elem?-lt (y ∷ l) (suc i) x h = omega (arith, get_elem?-lt l i x h)

-- The value after a round, in the form of `unpack_from`.
next_value :
    (index value byte : ℕ)
    → value < 2 ^ (index * 7)
    → bit_or value (bit_and byte 0x7f * 2 ^ (index * 7)) < 2 ^ ((index + 1) * 7)
next_value index value byte h = ground (
  arith,
  bit_and_mask 7 byte,
  add_group (index * 7) value (byte % 128) h,
  next_value-lt index value (byte % 128) h,
)

pow_mono : (k left : ℕ) → 2 ^ (k * 7) ≤ 2 ^ ((k + left) * 7)
pow_mono k zero = rw (add-zero k) (omega arith)
pow_mono k (suc left) =
    omega (arith, pow_mono k left, pow_seven (k + left), ap (λ (n : ℕ). 2 ^ (n * 7)) regroup)
  where
    regroup : k + suc left ≡ k + left + 1
    regroup = omega arith

unpack_from_bounds :
    (left index value : ℕ) (bytes : List ℕ) (offset v end : ℕ)
    → value < 2 ^ (index * 7)
    → unpack_from left index value bytes offset ≡ ok (v, end)
    → (v < 2 ^ ((index + left) * 7)) × (offset < end) × (end ≤ offset + left) × (end ≤ length bytes)
unfolding unpack_from
unpack_from_bounds zero index value bytes offset v end h e = cc
unpack_from_bounds (suc left) index value bytes offset v end h e =
    elim (Option-cases (get_elem? bytes offset)) [
      | inl missing ↦ ground arith
      | inr (byte, found) ↦ elim (Bool-cases (bit_and byte 0x80 == 0)) [
        | inl last ↦ ground (
          arith,
          get_elem?-lt bytes offset byte found,
          next_value index value byte h,
          pow_mono (index + 1) left,
          regroup,
        )
        | inr more ↦ ground (
          arith,
          next_value index value byte h,
          regroup,
          unpack_from_bounds left (index + 1) (bit_or value (bit_and byte 0x7f * 2 ^ (index * 7)))
              bytes (offset + 1) v end,
        )
      ]
    ]
  where
    regroup : index + suc left ≡ index + 1 + left
    regroup = omega arith

-- Whatever the bytes, an unpacked value is below 2 ^ 35, and the offset behind it has moved by one
-- to five bytes and lies inside the buffer.
pub unpack_uint_bounds :
    (bytes : List ℕ) (offset v end : ℕ)
    → unpack_uint bytes offset ≡ ok (v, end)
    → (v < 2 ^ 35) × (offset < end) × (end ≤ offset + 5) × (end ≤ length bytes)
unfolding unpack_uint
unpack_uint_bounds bytes offset v end h =
    unpack_from_bounds 5 0 0 bytes offset v end (omega arith) h
