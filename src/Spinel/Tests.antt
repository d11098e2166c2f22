-- ===== src/Spinel/Tests.antt =====
-- Inputs on which the framing and the packed integers of spinel.py are run, and the theorems at
-- inputs that meet their hypotheses.
use ha_nrf52840_ot_rcp_updat.Base.{
  ℕ, ◌+◌, ◌^◌, ◌<◌, ◌≤◌, ◌≡◌, refl, ◌↔◌, List, [], ◌∷◌, ◌++◌, All, arith, length, ok,
}
use ha_nrf52840_ot_rcp_updat.Spinel.Fcs.{fcs_of, IsBytes}
use ha_nrf52840_ot_rcp_updat.Spinel.Hdlc.{
  hdlc_flag, max_frame_bytes, hdlc_encode, new_decoder, opened, completed, feed, framed,
}
use ha_nrf52840_ot_rcp_updat.Spinel.Hdlc.Escape.{within, IsTransparent}
use ha_nrf52840_ot_rcp_updat.Spinel.Hdlc.RoundTrip.{
  hdlc_encode_iff, hdlc_encode-IsTransparent, feed-hdlc_encode, Encodes, feed_garbage-stream,
}
use ha_nrf52840_ot_rcp_updat.Spinel.Hdlc.Bounds.{
  IsBounded, IsPayload, feed-IsBounded, framed-completed, completed_damaged,
}
use ha_nrf52840_ot_rcp_updat.Spinel.Packed.{pack_uint, unpack_uint}
use ha_nrf52840_ot_rcp_updat.Spinel.Packed.Laws.{unpack-pack_uint, unpack_uint_bounds}

-- PROP_VALUE_GET of the NCP version, with a byte that has to be escaped behind it.
abbrev request : List ℕ
request = 0x81 ∷ 2 ∷ 2 ∷ 0x7e ∷ []

abbrev wire : List ℕ
wire = 126 ∷ 129 ∷ 2 ∷ 2 ∷ 125 ∷ 94 ∷ 250 ∷ 209 ∷ 126 ∷ []

request-IsBytes : IsBytes request
request-IsBytes = omega arith

encode_request : hdlc_encode request ≡ ok wire
unfolding hdlc_encode fcs_of
encode_request = refl

feed-hdlc_encode_example : feed new_decoder wire ≡ (opened, request ∷ [])
unfolding completed
feed-hdlc_encode_example = feed-hdlc_encode new_decoder request wire request-IsBytes encode_request

-- A closing flag is lost, and with it the first frame; the second one is read.
feed_garbage-stream_example : feed new_decoder ((1 ∷ 126 ∷ 5 ∷ []) ++ (wire ++ [])) ≡ (
  opened,
  (feed new_decoder (1 ∷ 126 ∷ 5 ∷ [])).1
      ++ (completed (feed new_decoder (1 ∷ 126 ∷ 5 ∷ [])).0 ++ request ∷ []),
)
feed_garbage-stream_example =
    feed_garbage-stream (1 ∷ 126 ∷ 5 ∷ []) request [] (wire ++ [])
      (Encodes.one_more request-IsBytes encode_request Encodes.none_left)

hdlc_encode_iff_example :
    ((bytes : List ℕ) × (hdlc_encode request ≡ ok bytes))
    ↔ ((1 ≤ length request) × (length request ≤ max_frame_bytes))
hdlc_encode_iff_example = hdlc_encode_iff request

hdlc_encode-IsTransparent_example :
    (inner : List ℕ) × (wire ≡ hdlc_flag ∷ inner ++ hdlc_flag ∷ []) × All IsTransparent inner
hdlc_encode-IsTransparent_example = hdlc_encode-IsTransparent request wire encode_request

new_decoder-IsBounded : IsBounded new_decoder
new_decoder-IsBounded = omega arith

feed-IsBounded_example :
    IsBounded (feed new_decoder wire).0 × All IsPayload (feed new_decoder wire).1
feed-IsBounded_example = feed-IsBounded new_decoder wire new_decoder-IsBounded (omega arith)

-- The buffer just before the closing flag.
abbrev buffer : List ℕ
buffer = 0x81 ∷ 2 ∷ 2 ∷ 0x7e ∷ 250 ∷ 209 ∷ []

completed-buffer : completed (within buffer) ≡ request ∷ []
unfolding completed fcs_of
completed-buffer = refl

framed-completed_example : buffer ≡ framed request
framed-completed_example = framed-completed (within buffer) request (omega arith) completed-buffer

completed_damaged_example : completed (within (0x81 ∷ 3 ∷ 7 ∷ 0x7e ∷ 250 ∷ 209 ∷ [])) ≡ []
unfolding fcs_of
completed_damaged_example =
    completed_damaged (0x81 ∷ []) (0x7e ∷ 250 ∷ 209 ∷ []) 2 2 3 7 (omega arith) (omega arith) refl
      (λ same. omega arith)

pack_300 : pack_uint 300 ≡ ok (172 ∷ 2 ∷ [])
unfolding pack_uint
pack_300 = refl

unpack-pack_uint_example : unpack_uint ((7 ∷ []) ++ ((172 ∷ 2 ∷ []) ++ 9 ∷ [])) 1 ≡ ok (300, 3)
unpack-pack_uint_example = unpack-pack_uint 300 (7 ∷ []) (9 ∷ []) (172 ∷ 2 ∷ []) pack_300

unpack_300 : unpack_uint (172 ∷ 2 ∷ []) 0 ≡ ok (300, 2)
unfolding unpack_uint
unpack_300 = refl

unpack_uint_bounds_example : (300 < 2 ^ 35) × (0 < 2) × (2 ≤ 0 + 5) × (2 ≤ 2)
unpack_uint_bounds_example = unpack_uint_bounds (172 ∷ 2 ∷ []) 0 300 2 unpack_300
