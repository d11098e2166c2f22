-- ===== src/Spinel/Hdlc.antt =====
-- HDLC framing of spinel.py: `hdlc_encode` and the incremental `HdlcDecoder`.
pub mod Escape
pub mod RoundTrip
pub mod Bounds
use ha_nrf52840_ot_rcp_updat.Base.{
  ℕ, ◌+◌, ◌-◌, Bool, true, false, not, ◌&&◌, ◌||◌, List, [], ◌∷◌, ◌++◌, bit_xor, length, take, ltb,
  leb, ◌==◌, if◌then◌else◌, Result, ok, err,
}
use ha_nrf52840_ot_rcp_updat.Spinel.Errors.{SpinelError, invalid_payload_length}
use ha_nrf52840_ot_rcp_updat.Spinel.Fcs.{good_fcs, fcs_of, to_bytes_le}

abbrev pub hdlc_flag : ℕ
hdlc_flag = 0x7e

abbrev pub hdlc_escape : ℕ
hdlc_escape = 0x7d

abbrev pub hdlc_escape_xor : ℕ
hdlc_escape_xor = 0x20

abbrev pub max_frame_bytes : ℕ
max_frame_bytes = 4096

-- `byte in _HDLC_ESCAPED`
abbrev pub is_escaped : ℕ → Bool
is_escaped b = b == hdlc_flag || b == hdlc_escape || b == 0x11 || b == 0x13

pub escape_byte : ℕ → List ℕ
escape_byte b = if is_escaped b then hdlc_escape ∷ bit_xor b hdlc_escape_xor ∷ [] else b ∷ []

pub escape_bytes : List ℕ → List ℕ
unfolding escape_byte
escape_bytes [] = []
escape_bytes (b ∷ bs) = escape_byte b ++ escape_bytes bs

-- The payload with its check sequence.
pub framed : List ℕ → List ℕ
framed payload = payload ++ to_bytes_le (bit_xor (fcs_of payload) 0xffff)

unfoldable pub hdlc_encode : List ℕ → Result SpinelError (List ℕ)
unfolding escape_bytes framed
hdlc_encode payload =
    if length payload == 0 || ltb max_frame_bytes (length payload)
    then err invalid_payload_length
    else ok (hdlc_flag ∷ escape_bytes (framed payload) ++ hdlc_flag ∷ [])

-- The fields of `HdlcDecoder`.
pub record HdlcDecoder : Type 0 where
  pub frame : List ℕ
  pub in_frame : Bool
  pub escaped : Bool

-- `HdlcDecoder()`
abbrev pub new_decoder : HdlcDecoder
new_decoder = record { frame = []; in_frame = false; escaped = false }

-- The decoder just after a flag.
abbrev pub opened : HdlcDecoder
opened = record { frame = []; in_frame = true; escaped = false }

-- What a flag yields: the frame that it ends, when that is whole and its check is right.
unfoldable pub completed : HdlcDecoder → List (List ℕ)
completed d =
    if d.in_frame && leb 3 (length d.frame) && fcs_of d.frame == good_fcs
    then take (length d.frame - 2) d.frame ∷ []
    else []

-- The end of the loop body: store one byte, or give the frame up when it is too long.
pub append_byte : HdlcDecoder → ℕ → HdlcDecoder
append_byte d byte =
    if leb (max_frame_bytes + 2) (length d.frame)
    then new_decoder
    else record d { frame = d.frame ++ byte ∷ []; escaped = false }

-- The loop body of `feed`: the new state and what is yielded.
pub decode_byte : HdlcDecoder → ℕ → HdlcDecoder × List (List ℕ)
unfolding completed append_byte
decode_byte d byte =
    if byte == hdlc_flag
    then (opened, completed d)
    else if not d.in_frame
    then (d, [])
    else if byte == hdlc_escape
    then (record d { escaped = true }, [])
    else (append_byte d (if d.escaped then bit_xor byte hdlc_escape_xor else byte), [])

-- `feed`: the state after the bytes, and all frames that are yielded, in order.
unfoldable pub feed : HdlcDecoder → List ℕ → HdlcDecoder × List (List ℕ)
unfolding decode_byte
feed d [] = (d, [])
feed d (byte ∷ bytes) =
    let step = decode_byte d byte in let rest = feed step.0 bytes in (rest.0, step.1 ++ rest.1)
