-- ===== src/Spinel/Hdlc/Escape.antt =====
-- What the escaped bytes are, and how the decoder reads them back.
use ha_nrf52840_ot_rcp_updat.Base.{
  ℕ, ◌+◌, ◌≤◌, ◌<◌, ◌≡◌, refl, ◌≢◌, true, false, List, [], ◌∷◌, ◌++◌, append_assoc, append-nil,
  arith, length, length-append, All, All-append, Bool-cases, inl, inr,
}
use ha_nrf52840_ot_rcp_updat.Base.Bits.{bit_xor-cancel}
use ha_nrf52840_ot_rcp_updat.Spinel.Hdlc.{
  hdlc_flag, max_frame_bytes, is_escaped, escape_byte, escape_bytes, HdlcDecoder, append_byte,
  decode_byte, feed,
}

-- Feeding two chunks is feeding them joined.
pub feed-append :
    (d : HdlcDecoder) (xs ys : List ℕ)
    → feed d (xs ++ ys) ≡ ((feed (feed d xs).0 ys).0, (feed d xs).1 ++ (feed (feed d xs).0 ys).1)
unfolding feed
feed-append d [] ys = refl
feed-append d (x ∷ xs) ys = simp (feed-append (decode_byte d x).0 xs ys, append_assoc)

-- The decoder in the middle of a frame.
abbrev pub within : List ℕ → HdlcDecoder
within f = record { frame = f; in_frame = true; escaped = false }

feed-escape_byte :
    (f : List ℕ) (b : ℕ)
    → length f < max_frame_bytes + 2
    → feed (within f) (escape_byte b) ≡ (within (f ++ b ∷ []), [])
unfolding feed decode_byte append_byte escape_byte
feed-escape_byte f b h = elim (Bool-cases (is_escaped b)) [
  | inl e ↦ rw e (ground (arith, bit_xor-cancel b 0x20))
  | inr e ↦ rw e (ground arith)
]

-- Escaped bytes are read back as they were, with nothing yielded.
pub feed-escape_bytes :
    (f bs : List ℕ)
    → length f + length bs ≤ max_frame_bytes + 2
    → feed (within f) (escape_bytes bs) ≡ (within (f ++ bs), [])
unfolding escape_bytes
feed-escape_bytes f [] h = rw append-nil (unfold feed in refl)
feed-escape_bytes f (b ∷ bs) h = rw (
  feed-append (within f) (escape_byte b) (escape_bytes bs),
  feed-escape_byte f b (omega arith),
  feed-escape_bytes (f ++ b ∷ []) bs (omega (arith, length-append f (b ∷ []))),
  append_assoc,
)

-- Between the two flags of a frame stands no flag, and neither XON nor XOFF.
abbrev pub IsTransparent : ℕ → Type 0
IsTransparent b = (b ≢ hdlc_flag) × (b ≢ 0x11) × (b ≢ 0x13)

escape_byte-IsTransparent : (b : ℕ) → All IsTransparent (escape_byte b)
unfolding escape_byte
escape_byte-IsTransparent b = ground arith

pub escape_bytes-IsTransparent : (bs : List ℕ) → All IsTransparent (escape_bytes bs)
unfolding escape_bytes
escape_bytes-IsTransparent [] = tt
escape_bytes-IsTransparent (b ∷ bs) =
    All-append IsTransparent (escape_byte b) (escape_bytes bs) (escape_byte-IsTransparent b)
      (escape_bytes-IsTransparent bs)
