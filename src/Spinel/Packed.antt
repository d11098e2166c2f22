-- ===== src/Spinel/Packed.antt =====
-- `pack_uint` and `unpack_uint` of spinel.py: integers in groups of seven bits, the low group
-- first. The program packs its own non-negative constants, so values are naturals.
pub mod Groups
pub mod Laws
use mathlib.Core.WellFounded.{Acc}
use mathlib.Core.Logic.{dite}
use native.Mathlib.Decide.{dec_lt}
use ha_nrf52840_ot_rcp_updat.Base.{
  ℕ, zero, suc, ◌+◌, ◌*◌, ◌/◌, ◌^◌, ◌<◌, List, [], ◌∷◌, none, some, arith, bit_and, bit_or, ◌==◌,
  ltb, if◌then◌else◌, get_elem?, Result, ok, err,
}
use ha_nrf52840_ot_rcp_updat.Base.Order.{lt_wf}
use ha_nrf52840_ot_rcp_updat.Spinel.Errors.{
  SpinelError, packed_out_of_range, truncated_packed, packed_too_large,
}

pub shrinks : (value : ℕ) → 0 < value / 2 ^ 7 → value / 2 ^ 7 < value
shrinks value h = omega arith

-- The `while True` loop: `value >>= 7` falls until it is 0.
pub pack_from : (value : ℕ) → Acc ◌<◌ value → List ℕ
pack_from value (Acc.intro _ smaller) =
    dite (dec_lt 0 (value / 2 ^ 7))
      (λ more.
        bit_or (bit_and value 0x7f) 0x80
        ∷ pack_from (value / 2 ^ 7) (smaller (value / 2 ^ 7) (shrinks value more)))
      (λ _. bit_or (bit_and value 0x7f) 0 ∷ [])

unfoldable pub pack_uint : ℕ → Result SpinelError (List ℕ)
unfolding pack_from lt_wf dec_lt
pack_uint value =
    if ltb 0xffffffff value
    then err packed_out_of_range
    else ok (pack_from value (lt_wf.apply value))

-- The loop `for index in range(5)`, with `left` rounds to go.
pub unpack_from : ℕ → ℕ → ℕ → List ℕ → ℕ → Result SpinelError (ℕ × ℕ)
unpack_from zero index value bytes offset = err packed_too_large
unpack_from (suc left) index value bytes offset = elim (get_elem? bytes offset) [
  | none ↦ err truncated_packed
  | some byte ↦
      let value' = bit_or value (bit_and byte 0x7f * 2 ^ (index * 7)) in
      let rest = unpack_from left (index + 1) value' bytes (offset + 1) in
      if bit_and byte 0x80 == 0 then ok (value', offset + 1) else rest
]

-- The value, and the offset behind it.
unfoldable pub unpack_uint : List ℕ → ℕ → Result SpinelError (ℕ × ℕ)
unfolding unpack_from
unpack_uint bytes offset = unpack_from 5 0 0 bytes offset
