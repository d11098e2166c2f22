-- ===== src/Spinel/Hdlc/RoundTrip.antt =====
-- What is encoded is decoded: one frame, a stream of frames, and a frame behind garbage.
use ha_nrf52840_ot_rcp_updat.Base.{
  ℕ, ◌+◌, ◌-◌, ◌≤◌, ◌≡◌, refl, ◌↔◌, List, [], ◌∷◌, ◌++◌, append_assoc, arith, bit_xor, length,
  length-append, take, take-append, All, ok,
}
use ha_nrf52840_ot_rcp_updat.Spinel.Fcs.{good_fcs, fcs_of, to_bytes_le, IsBytes}
use ha_nrf52840_ot_rcp_updat.Spinel.Fcs.Residue.{fcs_of_framed}
use ha_nrf52840_ot_rcp_updat.Spinel.Hdlc.{
  hdlc_flag, max_frame_bytes, escape_bytes, framed, hdlc_encode, HdlcDecoder, new_decoder, opened,
  completed, decode_byte, feed,
}
use ha_nrf52840_ot_rcp_updat.Spinel.Hdlc.Escape.{
  within, feed-append, feed-escape_bytes, IsTransparent, escape_bytes-IsTransparent,
}

-- The bytes of one frame on the wire.
abbrev wire : List ℕ → List ℕ
wire p = hdlc_flag ∷ escape_bytes (framed p) ++ hdlc_flag ∷ []

-- Encoding succeeds exactly on payloads of 1 to 4096 bytes; the frame then is a flag, bytes
-- among which are no flag, no XON and no XOFF, and a flag.
pub hdlc_encode_iff :
    (p : List ℕ)
    → ((bytes : List ℕ) × (hdlc_encode p ≡ ok bytes))
      ↔ ((1 ≤ length p) × (length p ≤ max_frame_bytes))
unfolding hdlc_encode
hdlc_encode_iff p = (λ h. ground (arith, h.1), λ h. (wire p, ground arith))

pub hdlc_encode-IsTransparent :
    (p bytes : List ℕ)
    → hdlc_encode p ≡ ok bytes
    → (inner : List ℕ) × (bytes ≡ hdlc_flag ∷ inner ++ hdlc_flag ∷ []) × All IsTransparent inner
unfolding hdlc_encode
hdlc_encode-IsTransparent p bytes h =
    (escape_bytes (framed p), ground arith, escape_bytes-IsTransparent (framed p))

length-framed : (p : List ℕ) → length (framed p) ≡ length p + 2
unfolding framed
length-framed p = omega (arith, length-append p (to_bytes_le (bit_xor (fcs_of p) 0xffff)))

take-framed : (p : List ℕ) → take (length (framed p) - 2) (framed p) ≡ p
take-framed p = rw (length-framed p) (rw (len) (unfold framed in take-append p _))
  where
    len : length p + 2 - 2 ≡ length p
    len = omega arith

fcs_of-framed : (p : List ℕ) → IsBytes p → fcs_of (framed p) ≡ good_fcs
unfolding framed
fcs_of-framed p b = fcs_of_framed p b

-- A flag after the bytes of a payload and its check sequence yields the payload.
completed-framed : (p : List ℕ) → IsBytes p → 1 ≤ length p → completed (within (framed p)) ≡ p ∷ []
unfolding completed
completed-framed p b h = ground (arith, fcs_of-framed p b, take-framed p, length-framed p)

feed_flag :
    (d : HdlcDecoder) (xs : List ℕ)
    → feed d (hdlc_flag ∷ xs) ≡ ((feed opened xs).0, completed d ++ (feed opened xs).1)
unfolding feed decode_byte
feed_flag d xs = refl

feed_body :
    (p : List ℕ)
    → IsBytes p
    → 1 ≤ length p
    → length p ≤ max_frame_bytes
    → feed opened (escape_bytes (framed p) ++ hdlc_flag ∷ []) ≡ (opened, p ∷ [])
feed_body p b h k =
    rw
      (
        feed-append opened (escape_bytes (framed p)) (hdlc_flag ∷ []),
        feed-escape_bytes [] (framed p) (omega (arith, length-framed p)),
        feed_flag (within (framed p)) [],
        completed-framed p b h,
      )
      (unfold feed in refl)

-- Decoding an encoded frame from any state of the decoder yields what the opening flag completes,
-- then the payload and nothing else, and leaves the decoder just after a flag.
pub feed-hdlc_encode :
    (d : HdlcDecoder) (p bytes : List ℕ)
    → IsBytes p
    → hdlc_encode p ≡ ok bytes
    → feed d bytes ≡ (opened, completed d ++ p ∷ [])
feed-hdlc_encode d p bytes b h = rw (← wire_of, feed_flag d _, feed_body p b sizes.0 sizes.1)
  where
    sizes : (1 ≤ length p) × (length p ≤ max_frame_bytes)
    sizes = (hdlc_encode_iff p).0 (bytes, h)

    wire_of : wire p ≡ bytes
    wire_of = unfold hdlc_encode in ground arith

-- The wire bytes of several payloads, one frame after another.
pub data Encodes : List (List ℕ) → List ℕ → Type 0 where
  none_left : Encodes [] []
  one_more :
      {p bytes rest : List ℕ} {ps : List (List ℕ)}
      → IsBytes p
      → hdlc_encode p ≡ ok bytes
      → Encodes ps rest
      → Encodes (p ∷ ps) (bytes ++ rest)

feed_stream :
    (ps : List (List ℕ)) (stream : List ℕ) → Encodes ps stream → feed opened stream ≡ (opened, ps)
feed_stream [] stream none_left = unfold feed in refl
feed_stream (p ∷ ps) stream (one_more {bytes} {rest} b h e) =
    rw (feed-append opened bytes rest, feed-hdlc_encode opened p bytes b h, feed_stream ps rest e)
      (unfold completed in refl)

-- Whatever the decoder was fed before, it yields the payloads of a stream of encoded frames, in
-- order and each once, after what the garbage and the first flag made it yield.
pub feed_garbage-stream :
    (garbage : List ℕ) (p : List ℕ) (ps : List (List ℕ)) (stream : List ℕ)
    → Encodes (p ∷ ps) stream
    → feed new_decoder (garbage ++ stream)
      ≡ (opened, (feed new_decoder garbage).1 ++ (completed (feed new_decoder garbage).0 ++ p ∷ ps))
feed_garbage-stream garbage p ps stream (one_more {bytes} {rest} b h e) =
    rw
      (
        feed-append new_decoder garbage (bytes ++ rest),
        feed-append (feed new_decoder garbage).0 bytes rest,
        feed-hdlc_encode (feed new_decoder garbage).0 p bytes b h,
        feed_stream ps rest e,
      )
      (simp append_assoc)
