-- ===== src/Spinel/Hdlc/Bounds.antt =====
-- What the decoder can hold and yield, whatever bytes arrive.
use mathlib.Core.Path.{subst}
use ha_nrf52840_ot_rcp_updat.Base.{
  ℕ, zero, suc, ◌+◌, ◌-◌, ◌/◌, ◌%◌, ◌≤◌, ◌<◌, ◌≡◌, refl, ap, sym, ◌∙◌, List, [], ◌∷◌, ◌++◌, arith,
  bit_xor, length, length-append, take, All, All-append, All-split,
}
use ha_nrf52840_ot_rcp_updat.Base.Bits.{bit_xor-lt}
use ha_nrf52840_ot_rcp_updat.Spinel.Fcs.{good_fcs, fcs_of, to_bytes_le, IsBytes}
use ha_nrf52840_ot_rcp_updat.Spinel.Fcs.Residue.{fcs_of_framed, to_bytes_le-IsBytes, complement-lt}
use ha_nrf52840_ot_rcp_updat.Spinel.Fcs.Detect.{fcs_of-pair_injective}
use ha_nrf52840_ot_rcp_updat.Spinel.Hdlc.{
  max_frame_bytes, framed, HdlcDecoder, completed, append_byte, decode_byte, feed,
}
use ha_nrf52840_ot_rcp_updat.Spinel.Hdlc.Escape.{within}

-- The buffer is bounded and holds bytes.
pub record IsBounded (d : HdlcDecoder) : Type 0 where
  pub fits : length d.frame ≤ max_frame_bytes + 2
  pub bytes : IsBytes d.frame

-- What `hdlc_encode` accepts.
abbrev pub IsPayload : List ℕ → Type 0
IsPayload p = IsBytes p × (1 ≤ length p) × (length p ≤ max_frame_bytes)

All-take {ℓ κ} : {A : Type ℓ} (P : A → Type κ) (n : ℕ) (xs : List A) → All P xs → All P (take n xs)
All-take P zero xs h = tt
All-take P (suc n) [] h = tt
All-take P (suc n) (x ∷ xs) h = (h.0, All-take P n xs h.1)

length-take_min : {A : Type 0} (n : ℕ) (xs : List A) → n ≤ length xs → length (take n xs) ≡ n
length-take_min zero xs h = refl
length-take_min (suc n) [] h = absurd (omega arith)
length-take_min (suc n) (x ∷ xs) h = ap suc (length-take_min n xs (omega arith))

append_byte-IsBounded :
    (d : HdlcDecoder) (b : ℕ) → IsBounded d → b < 256 → IsBounded (append_byte d b)
unfolding append_byte
append_byte-IsBounded d b h lt = ground (
  arith,
  length-append d.frame (b ∷ []),
  All-append (λ x. x < 256) d.frame (b ∷ []) h.bytes (lt, tt),
)

decode_byte-IsBounded :
    (d : HdlcDecoder) (b : ℕ) → IsBounded d → b < 256 → IsBounded (decode_byte d b).0
unfolding decode_byte
decode_byte-IsBounded d b h lt = ground (
  arith,
  append_byte-IsBounded d b h lt,
  append_byte-IsBounded d (bit_xor b 0x20) h (bit_xor-lt 8 b 0x20 lt (omega arith)),
)

completed-IsPayload : (d : HdlcDecoder) → IsBounded d → All IsPayload (completed d)
unfolding completed
completed-IsPayload d h = ground (
  arith,
  All-take (λ x. x < 256) (length d.frame - 2) d.frame h.bytes,
  length-take_min (length d.frame - 2) d.frame,
)

decode_byte-IsPayload : (d : HdlcDecoder) (b : ℕ) → IsBounded d → All IsPayload (decode_byte d b).1
unfolding decode_byte
decode_byte-IsPayload d b h = ground (arith, completed-IsPayload d h)

-- Whatever bytes arrive, in whatever chunks, the buffer never passes 4098 bytes, and every frame
-- that is yielded is a payload of 1 to 4096 bytes.
pub feed-IsBounded :
    (d : HdlcDecoder) (bytes : List ℕ)
    → IsBounded d
    → IsBytes bytes
    → IsBounded (feed d bytes).0 × All IsPayload (feed d bytes).1
unfolding feed
feed-IsBounded d [] h k = (h, tt)
feed-IsBounded d (b ∷ bytes) h k =
    let rest = feed-IsBounded (decode_byte d b).0 bytes (decode_byte-IsBounded d b h k.0) k.1 in
    (rest.0, All-append IsPayload (decode_byte d b).1 _ (decode_byte-IsPayload d b h) rest.1)

-- A list of two or more elements ends with its last two.
last_two :
    (n : ℕ) (l : List ℕ) → length l ≡ n + 2 → (x : ℕ) × (y : ℕ) × (l ≡ take n l ++ x ∷ y ∷ [])
last_two n [] h = absurd (omega arith)
last_two zero (x ∷ []) h = absurd (omega arith)
last_two zero (x ∷ y ∷ []) h = (x, y, refl)
last_two zero (x ∷ y ∷ z ∷ l) h = absurd (omega arith)
last_two (suc n) (w ∷ l) h = let (a, b, e) = last_two n l (omega arith) in (a, b, ap (λ t. w ∷ t) e)

-- The two bytes after a payload that make its check right are its check sequence.
check_unique :
    (p : List ℕ) (x y : ℕ)
    → IsBytes (p ++ x ∷ y ∷ [])
    → fcs_of (p ++ x ∷ y ∷ []) ≡ good_fcs
    → p ++ x ∷ y ∷ [] ≡ framed p
unfolding framed
check_unique p x y h good = ground (
  arith,
  fcs_of-pair_injective p [] x y (check % 256) (check / 256) h whole
      (good ∙ sym (fcs_of_framed p bytes)),
)
  where
    bytes : IsBytes p
    bytes = (All-split (λ b. b < 256) p _ h).0

    check : ℕ
    check = bit_xor (fcs_of p) 0xffff

    whole : IsBytes (p ++ to_bytes_le check)
    whole = All-append (λ b. b < 256) p _ bytes (to_bytes_le-IsBytes check (complement-lt p bytes))

passed :
    (d : HdlcDecoder) (p : List ℕ)
    → completed d ≡ p ∷ []
    → (fcs_of d.frame ≡ good_fcs) × (3 ≤ length d.frame) × (take (length d.frame - 2) d.frame ≡ p)
unfolding completed
passed d p e = ground arith

-- A flag yields a payload only when the buffer holds that payload followed by its own check
-- sequence: no other two closing bytes pass.
pub framed-completed :
    (d : HdlcDecoder) (p : List ℕ) → IsBytes d.frame → completed d ≡ p ∷ [] → d.frame ≡ framed p
framed-completed d p h e =
    let (good, long, taken) = passed d p e in
    let (x, y, split) = last_two (length d.frame - 2) d.frame (omega arith) in
    let whole : d.frame ≡ p ++ x ∷ y ∷ [] = split ∙ ap (λ t. t ++ x ∷ y ∷ []) taken in
    whole ∙ check_unique p x y (subst IsBytes whole h) (sym (ap fcs_of whole) ∙ good)

-- A frame that was damaged inside two neighbouring bytes is not yielded.
pub completed_damaged :
    (before after : List ℕ) (a b c d : ℕ)
    → IsBytes (before ++ a ∷ b ∷ after)
    → IsBytes (before ++ c ∷ d ∷ after)
    → fcs_of (before ++ a ∷ b ∷ after) ≡ good_fcs
    → ¬ ((a ≡ c) × (b ≡ d))
    → completed (within (before ++ c ∷ d ∷ after)) ≡ []
unfolding completed
completed_damaged before after a b c d h k good differ = ground (
  arith,
  λ (e : fcs_of (before ++ c ∷ d ∷ after) ≡ good_fcs).
      differ (fcs_of-pair_injective before after a b c d h k (good ∙ sym e)),
)
