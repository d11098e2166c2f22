-- ===== src/Manifest/Segments.antt =====
-- What an image that `validate_rcp_elf` of manifest.py accepts puts where in the flash, and that
-- the check reads nothing behind the end of the file.
use ha_nrf52840_ot_rcp_updat.Base.{
  ℕ, zero, suc, ◌+◌, ◌*◌, ◌≤◌, ◌<◌, ◌≡◌, ◌≢◌, ◌⊎◌, inl, inr, Bool-cases, arith, Bool, true, ◌||◌,
  List, ok, err, ◌==◌, >>=-eq-ok, length,
}
use ha_nrf52840_ot_rcp_updat.Manifest.Elf.{
  struct_error, application_start, flash_end, Segment, unpack_segment, check_segment,
  check_segments,
}

-- What the check grants for a segment that holds bytes to load.
pub record IsSafe (bytes : List ℕ) (s : Segment) : Type 0 where
  pub inside_file :
      s.segment_type ≡ 1 → 0 < s.file_size → s.file_offset + s.file_size ≤ length bytes
  pub above_bootloader :
      s.segment_type ≡ 1
      → 0 < s.file_size
      → 0 < s.physical_address
      → application_start ≤ s.physical_address
  pub below_end :
      s.segment_type ≡ 1
      → 0 < s.file_size
      → 0 < s.physical_address
      → s.physical_address + s.file_size ≤ flash_end

-- A segment that is written to the flash.
pub record IsFlash (s : Segment) : Type 0 where
  pub is_load : s.segment_type ≡ 1
  pub not_empty : 0 < s.file_size
  pub placed : 0 < s.physical_address

check_segment-IsSafe :
    (bytes : List ℕ) (s : Segment) {flash : Bool}
    → check_segment bytes s ≡ ok flash
    → IsSafe bytes s × (flash ≡ true → IsFlash s)
unfolding check_segment
check_segment-IsSafe bytes s h = (ground arith, λ e. ground arith)

pub check_segment-no_struct_error :
    (bytes : List ℕ) (s : Segment) → check_segment bytes s ≢ err struct_error
unfolding check_segment
check_segment-no_struct_error bytes s h = ground arith

-- The program header of number `i`.
pub record IsEntry (bytes : List ℕ) (start size i : ℕ) (s : Segment) : Type 0 where
  pub read : unpack_segment bytes (start + i * size) ≡ ok s

at_or_after : (i j : ℕ) → i ≤ j → (j ≡ i) ⊎ (i + 1 ≤ j)
at_or_after i j h = elim (Bool-cases (j == i)) [
  | inl e ↦ inl (ground arith)
  | inr e ↦ inr (ground arith)
]

-- The parts of a round that does not raise.
record Round (left index : ℕ) (bytes : List ℕ) (start size : ℕ) (found outcome : Bool)
    : Type 0 where
  pub segment : Segment
  pub flash : Bool
  pub entry : unpack_segment bytes (start + index * size) ≡ ok segment
  pub safe : IsSafe bytes segment
  pub written : flash ≡ true → IsFlash segment
  pub rest : check_segments left (index + 1) bytes start size (flash || found) ≡ ok outcome

check_segments-Round :
    (left index : ℕ) (bytes : List ℕ) (start size : ℕ) (found : Bool) {outcome : Bool}
    → check_segments (suc left) index bytes start size found ≡ ok outcome
    → Round left index bytes start size found outcome
unfolding check_segments
check_segments-Round left index bytes start size found h =
    let (s, read, more) = >>=-eq-ok (unpack_segment bytes (start + index * size)) _ h in
    let (flash, checked, rest) = >>=-eq-ok (check_segment bytes s) _ more in
    let (safe, written) = check_segment-IsSafe bytes s checked in
    record { segment = s; flash = flash; entry = read; safe = safe; written = written; rest = rest }

pub check_segments-IsSafe :
    (left index : ℕ) (bytes : List ℕ) (start size : ℕ) (found : Bool) {outcome : Bool}
    → check_segments left index bytes start size found ≡ ok outcome
    → (i : ℕ) → index ≤ i
    → i < index + left
    → (s : Segment) × IsEntry bytes start size i s × IsSafe bytes s
check_segments-IsSafe zero index bytes start size found h i low high = absurd (omega arith)
check_segments-IsSafe (suc left) index bytes start size found h i low high =
    let round = check_segments-Round left index bytes start size found h in
    elim (at_or_after index i low) [
      | inl same ↦ (round.segment, record { read = rw (same, round.entry) }, round.safe)
      | inr after ↦
          check_segments-IsSafe left (index + 1) bytes start size (round.flash || found) round.rest
            i after (omega arith)
    ]

pub check_segments-IsFlash :
    (left index : ℕ) (bytes : List ℕ) (start size : ℕ) (found : Bool)
    → check_segments left index bytes start size found ≡ ok true
    → (found ≡ true)
      ⊎ ((i : ℕ) × (s : Segment) × (i < index + left) × IsEntry bytes start size i s × IsFlash s)
unfolding check_segments
check_segments-IsFlash zero index bytes start size found h = inl (ground arith)
check_segments-IsFlash (suc left) index bytes start size found h =
    let round = check_segments-Round left index bytes start size found h in
    elim (check_segments-IsFlash left (index + 1) bytes start size (round.flash || found)
      round.rest) [
        | inr (i, s, small, entry, flash) ↦ inr (i, s, omega arith, entry, flash)
        | inl one ↦ elim (Bool-cases found) [
          | inl before ↦ inl before
          | inr fresh ↦ inr (
            index,
            round.segment,
            omega arith,
            record { read = round.entry },
            round.written (ground arith),
          )
        ]
      ]
