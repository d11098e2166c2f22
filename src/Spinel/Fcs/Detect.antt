-- ===== src/Spinel/Fcs/Detect.antt =====
-- The check sequence is a bijection of states, so damage to two neighbouring bytes shows.
use native.Mathlib.Nat.{pow-suc}
use ha_nrf52840_ot_rcp_updat.Base.{
  ℕ, zero, suc, ◌+◌, ◌*◌, ◌/◌, ◌%◌, ◌^◌, ◌≤◌, ◌<◌, ◌≡◌, refl, true, All-split, List, [], ◌∷◌, ◌++◌,
  arith, bit_xor, ◌==◌, ==_iff, if◌then◌else◌, ltb, ◌∙◌, sym, ap,
}
use ha_nrf52840_ot_rcp_updat.Base.Bits.{
  all_below, all_below_sound, bit_xor-lt, bit_xor_fields, bit_and_mask, bit_xor-cancel,
  bit_xor-zero, bit_xor_assoc, bit_xor_comm, bit_xor_step, bit_xor-cancel_left,
  bit_xor-cancel_right,
}
use ha_nrf52840_ot_rcp_updat.Spinel.Fcs.{
  initial_fcs, fcs_bit, fcs_bits, fcs_byte, fcs_from, fcs_of, IsBytes,
}
use ha_nrf52840_ot_rcp_updat.Spinel.Fcs.Residue.{
  fcs_bit-lt, fcs_byte-lt, fcs_from-lt, fcs_from-append, fcs_of-eq-fcs_from,
}

-- The state before a round, from the state after it: bit 15 tells which branch was taken.
undo_bit : ℕ → ℕ
undo_bit r = if ltb r 32768 then r * 2 else bit_xor r 0x8408 * 2 + 1

xor_top : (t : ℕ) → t < 32768 → 32768 ≤ bit_xor t 0x8408
xor_top t h = ground (arith, bit_xor_fields 15 0 t 1 0x408)

undo_bit-fcs_bit : (s : ℕ) → s < 2 ^ 16 → undo_bit (fcs_bit s) ≡ s
unfolding undo_bit fcs_bit
undo_bit-fcs_bit s h =
    ground (
      arith,
      bit_and_mask 1 s,
      bit_xor-zero (s / 2),
      xor_top (s / 2),
      bit_xor-cancel (s / 2) 0x8408,
    )

pub fcs_bits-injective : (n s t : ℕ) → s < 2 ^ 16 → t < 2 ^ 16 → fcs_bits n s ≡ fcs_bits n t → s ≡ t
unfolding fcs_bits
fcs_bits-injective zero s t hs ht e = e
fcs_bits-injective (suc n) s t hs ht e =
    sym (undo_bit-fcs_bit s hs)
    ∙ ap undo_bit
        (fcs_bits-injective n (fcs_bit s) (fcs_bit t) (fcs_bit-lt s hs) (fcs_bit-lt t ht) e)
    ∙ undo_bit-fcs_bit t ht

-- A round shifts an even part out without looking at it.
fcs_bit-even : (t s : ℕ) → fcs_bit (bit_xor (t * 2) s) ≡ bit_xor t (fcs_bit s)
unfolding fcs_bit
fcs_bit-even t s = ground (
  arith,
  bit_and_mask 1 s,
  bit_and_mask 1 (bit_xor (t * 2) s),
  bit_xor_step (t * 2) s,
  bit_xor_assoc t (s / 2) 0,
  bit_xor_assoc t (s / 2) 0x8408,
)

fcs_bits-even : (n t s : ℕ) → fcs_bits n (bit_xor (t * 2 ^ n) s) ≡ bit_xor t (fcs_bits n s)
unfolding fcs_bits
fcs_bits-even zero t s = ground arith
fcs_bits-even (suc n) t s =
    ground (arith, pow-suc 2 n, fcs_bit-even (t * 2 ^ n) s, shifted, fcs_bits-even n t (fcs_bit s))
  where
    shifted : t * 2 ^ suc n ≡ t * 2 ^ n * 2
    shifted = omega (arith, ap (λ (x : ℕ). t * x) (pow-suc 2 n))

-- The low byte whose eight rounds leave the given high byte.
low_of_high : ℕ → ℕ → ℕ
low_of_high zero hi = 0
low_of_high (suc n) hi = let rest = low_of_high n hi in if fcs_bits 8 n / 256 == hi then n else rest

high_table : all_below 256 (λ l. low_of_high 256 (fcs_bits 8 l / 256) == l) ≡ true
unfolding all_below low_of_high fcs_bits
high_table = refl

xor_high : (x b : ℕ) → b < 256 → bit_xor x b / 256 ≡ x / 256
xor_high x b h = ground (
  arith,
  bit_xor_fields 8 (x / 256) (x % 256) 0 b,
  bit_xor-zero (x / 256),
  bit_xor-lt 8 (x % 256) b,
)

-- Of a state and a byte, the high byte after eight rounds shows only the low byte before them.
high_of_byte :
    (s a : ℕ) → s < 2 ^ 16 → a < 256 → fcs_byte s a / 256 ≡ fcs_bits 8 (bit_xor (s % 256) a) / 256
unfolding fcs_byte
high_of_byte s a hs ha = ground (
  arith,
  split,
  fcs_bits-even 8 (s / 256) (bit_xor (s % 256) a),
  bit_xor_comm (s / 256) (fcs_bits 8 (bit_xor (s % 256) a)),
  xor_high (fcs_bits 8 (bit_xor (s % 256) a)) (s / 256),
)
  where
    low : bit_xor (s % 256) a < 256
    low = bit_xor-lt 8 (s % 256) a (omega arith) ha

    split : bit_xor s a ≡ bit_xor (s / 256 * 256) (bit_xor (s % 256) a)
    split = ground (
      arith,
      bit_xor_fields 8 (s / 256) (s % 256) 0 a,
      bit_xor_fields 8 (s / 256) 0 0 (bit_xor (s % 256) a),
      low,
      bit_xor-zero (bit_xor (s % 256) a),
      bit_xor_comm 0 (bit_xor (s % 256) a),
    )

low_byte_injective : (l m : ℕ) → l < 256 → m < 256 → fcs_bits 8 l / 256 ≡ fcs_bits 8 m / 256 → l ≡ m
low_byte_injective l m hl hm e = sym (found l hl) ∙ ap (low_of_high 256) e ∙ found m hm
  where
    found : (n : ℕ) → n < 256 → low_of_high 256 (fcs_bits 8 n / 256) ≡ n
    found n h = (==_iff _ _).0 (all_below_sound 256 _ high_table n h)

first_byte_injective :
    (s a b c d : ℕ)
    → s < 2 ^ 16
    → a < 256
    → b < 256
    → c < 256
    → d < 256
    → bit_xor (fcs_byte s a) b ≡ bit_xor (fcs_byte s c) d
    → a ≡ c
first_byte_injective s a b c d hs ha hb hc hd e = bit_xor-cancel_left (s % 256) a c (
    low_byte_injective (bit_xor (s % 256) a) (bit_xor (s % 256) c)
      (bit_xor-lt 8 (s % 256) a (omega arith) ha) (bit_xor-lt 8 (s % 256) c (omega arith) hc)
      (ground (
        arith,
        high_of_byte s a,
        high_of_byte s c,
        xor_high (fcs_byte s a) b,
        xor_high (fcs_byte s c) d,
        ap (λ (x : ℕ). x / 256) e,
      )))

-- From one state, two bytes are determined by the state after them.
pub pair_injective :
    (s a b c d : ℕ)
    → s < 2 ^ 16
    → a < 256
    → b < 256
    → c < 256
    → d < 256
    → fcs_byte (fcs_byte s a) b ≡ fcs_byte (fcs_byte s c) d
    → (a ≡ c) × (b ≡ d)
pair_injective s a b c d hs ha hb hc hd e = (first, second)
  where
    inner : bit_xor (fcs_byte s a) b ≡ bit_xor (fcs_byte s c) d
    inner =
        fcs_bits-injective 8 (bit_xor (fcs_byte s a) b) (bit_xor (fcs_byte s c) d)
          (bit_xor-lt 16 (fcs_byte s a) b (fcs_byte-lt s a hs ha) (omega arith))
          (bit_xor-lt 16 (fcs_byte s c) d (fcs_byte-lt s c hs hc) (omega arith))
          (unfold fcs_byte in e)

    first : a ≡ c
    first = first_byte_injective s a b c d hs ha hb hc hd inner

    second : b ≡ d
    second = bit_xor-cancel_left (fcs_byte s a) b d (ground (arith, inner, first))

-- Bytes after the damage keep two different states different.
fcs_from-injective :
    (s t : ℕ) (bytes : List ℕ)
    → s < 2 ^ 16
    → t < 2 ^ 16
    → IsBytes bytes
    → fcs_from s bytes ≡ fcs_from t bytes
    → s ≡ t
unfolding fcs_from
fcs_from-injective s t [] hs ht h e = e
fcs_from-injective s t (b ∷ bytes) hs ht h e = bit_xor-cancel_right s t b (
    fcs_bits-injective 8 (bit_xor s b) (bit_xor t b) (bit_xor-lt 16 s b hs (omega arith))
      (bit_xor-lt 16 t b ht (omega arith))
      (unfold fcs_byte in
        fcs_from-injective (fcs_byte s b) (fcs_byte t b) bytes (fcs_byte-lt s b hs h.0)
          (fcs_byte-lt t b ht h.0) h.1 e))

-- Two texts of bytes that differ only inside two neighbouring bytes have different check
-- sequences.
pub fcs_of-pair_injective :
    (before after : List ℕ) (a b c d : ℕ)
    → IsBytes (before ++ a ∷ b ∷ after)
    → IsBytes (before ++ c ∷ d ∷ after)
    → fcs_of (before ++ a ∷ b ∷ after) ≡ fcs_of (before ++ c ∷ d ∷ after)
    → (a ≡ c) × (b ≡ d)
fcs_of-pair_injective before after a b c d h k e =
    pair_injective s a b c d s-lt left.1.0 left.1.1.0 right.1.0 right.1.1.0 (
      fcs_from-injective (fcs_byte (fcs_byte s a) b) (fcs_byte (fcs_byte s c) d) after
        (pair-lt a b left.1.0 left.1.1.0) (pair-lt c d right.1.0 right.1.1.0) left.1.1.1
        (sym (expand a b h) ∙ e ∙ expand c d k))
  where
    s : ℕ
    s = fcs_from initial_fcs before

    left : IsBytes before × IsBytes (a ∷ b ∷ after)
    left = All-split (λ x. x < 256) before _ h

    right : IsBytes before × IsBytes (c ∷ d ∷ after)
    right = All-split (λ x. x < 256) before _ k

    s-lt : s < 2 ^ 16
    s-lt = fcs_from-lt initial_fcs before (omega arith) left.0

    pair-lt : (x y : ℕ) → x < 256 → y < 256 → fcs_byte (fcs_byte s x) y < 2 ^ 16
    pair-lt x y hx hy = fcs_byte-lt (fcs_byte s x) y (fcs_byte-lt s x s-lt hx) hy

    expand :
        (x y : ℕ)
        → IsBytes (before ++ x ∷ y ∷ after)
        → fcs_of (before ++ x ∷ y ∷ after) ≡ fcs_from (fcs_byte (fcs_byte s x) y) after
    expand x y hb =
        fcs_of-eq-fcs_from _ hb
        ∙ fcs_from-append initial_fcs before (x ∷ y ∷ after)
        ∙ (unfold fcs_from in refl)
