-- ===== src/Manifest/Accepted.antt =====
-- Where an image that `validate_rcp_elf` of manifest.py accepts is written.
use ha_nrf52840_ot_rcp_updat.Base.{
  ℕ, zero, suc, ◌+◌, ◌≤◌, ==_iff, Bool-cases, ◌||◌, ◌-◌, ◌*◌, ◌<◌, ◌≡◌, refl, ap, inl, inr, arith,
  Bool, true, false, not, ◌&&◌, List, [], ◌∷◌, Result, ok, ◌==◌, ltb, require, ◌>>◌, >>=-eq-ok,
  length, take, drop,
}
use ha_nrf52840_ot_rcp_updat.Base.Text.{text_eq}
use ha_nrf52840_ot_rcp_updat.Manifest.Elf.{
  ManifestError, Segment, elf32_header_size, elf32_program_header_size, no_flash_segment, not_arm,
  not_elf, not_little_endian, too_short, headers_outside, no_program_headers, unpack_u16,
  unpack_u32, check_segments, validate_rcp_elf,
}
use ha_nrf52840_ot_rcp_updat.Manifest.Segments.{
  IsSafe, IsFlash, IsEntry, check_segments-IsSafe, check_segments-IsFlash,
}

-- What the header of an image says of its program headers: a table of entries of at least 32 bytes
-- each, which ends inside the file.
pub record Header (bytes : List ℕ) : Type 0 where
  pub program_offset : ℕ
  pub entry_size : ℕ
  pub program_count : ℕ
  pub offset_read : unpack_u32 bytes 28 ≡ ok program_offset
  pub size_read : unpack_u16 bytes 42 ≡ ok entry_size
  pub count_read : unpack_u16 bytes 44 ≡ ok program_count
  pub entry_room : 32 ≤ entry_size
  pub table_inside : program_offset + entry_size * program_count ≤ length bytes

require-passed :
    {A : Type 0} (test : Bool) (e : ManifestError) (next : Result ManifestError A) {a : A}
    → (require test e >> next) ≡ ok a
    → test ≡ true
require-passed true e next h = refl
require-passed false e next h = cc

entry_room_lem :
    (size count : ℕ) → not (ltb size elf32_program_header_size || count == 0) ≡ true → 32 ≤ size
entry_room_lem size count h = ground arith

table_inside_lem :
    (total start need : ℕ)
    → not (ltb total start || ltb (total - start) need) ≡ true
    → start + need ≤ total
table_inside_lem total start need h = ground arith

-- An entry of a table ends inside the table.
entry_end_le : (count size i : ℕ) → i < count → i * size + size ≤ size * count
entry_end_le zero size i h = absurd (omega arith)
entry_end_le (suc count) size i h = elim (Bool-cases (i == count)) [
  | inl e ↦ let same : i ≡ count = (==_iff i count).0 e in rw same (omega arith)
  | inr e ↦ let before = entry_end_le count size i (ground arith) in omega (arith, before)
]

require-eq-ok :
    {A : Type 0} (test : Bool) (e : ManifestError) (next : Result ManifestError A) {a : A}
    → (require test e >> next) ≡ ok a
    → next ≡ ok a
require-eq-ok true e next h = h
require-eq-ok false e next h = cc

found_flash : (found : Bool) → require found no_flash_segment ≡ ok tt → found ≡ true
found_flash true h = refl
found_flash false h = cc

accepted_loop :
    (bytes : List ℕ)
    → validate_rcp_elf bytes ≡ ok tt
    → (h : Header bytes) × (check_segments h.program_count 0 bytes h.program_offset h.entry_size
          false
        ≡ ok true)
unfolding validate_rcp_elf
accepted_loop bytes h0 =
    let h1 = require-eq-ok (not (ltb (length bytes) elf32_header_size)) too_short _ h0 in
    let h2 = require-eq-ok (text_eq (take 4 bytes) (0x7f ∷ 0x45 ∷ 0x4c ∷ 0x46 ∷ [])) not_elf _ h1 in
    let h3 =
      require-eq-ok (text_eq (take 3 (drop 4 bytes)) (1 ∷ 1 ∷ 1 ∷ [])) not_little_endian _ h2 in
    let (e_type, e1, h4) = >>=-eq-ok (unpack_u16 bytes 16) _ h3 in
    let (e_machine, e2, h5) = >>=-eq-ok (unpack_u16 bytes 18) _ h4 in
    let h6 = require-eq-ok (e_type == 2 && e_machine == 40) not_arm _ h5 in
    let (program_offset, e3, h7) = >>=-eq-ok (unpack_u32 bytes 28) _ h6 in
    let (entry_size, e4, h8) = >>=-eq-ok (unpack_u16 bytes 42) _ h7 in
    let (program_count, e5, h9) = >>=-eq-ok (unpack_u16 bytes 44) _ h8 in
    let h10 =
      require-eq-ok (not (ltb entry_size elf32_program_header_size || program_count == 0))
        no_program_headers _ h9 in
    let h11 =
      require-eq-ok
        (not (
          ltb (length bytes) program_offset
          || ltb (length bytes - program_offset) (entry_size * program_count)))
        headers_outside _ h10 in
    let (found, e6, h12) =
      >>=-eq-ok (check_segments program_count 0 bytes program_offset entry_size false) _ h11 in
    (
      record {
        program_offset = program_offset;
        entry_size = entry_size;
        program_count = program_count;
        offset_read = e3;
        size_read = e4;
        count_read = e5;
        entry_room =
            entry_room_lem entry_size program_count (require-passed _ no_program_headers _ h9);
        table_inside =
            table_inside_lem (length bytes) program_offset (entry_size * program_count)
              (require-passed _ headers_outside _ h10);
      },
      rw e6 (ap ok (found_flash found h12)),
    )

-- Of an accepted image, the 32 bytes of every program header are inside the file; a segment to load lies inside
-- the file and, unless its address is 0, between the application start 0x1000 and the flash end
-- 0x100000; and at least one segment is written.
pub validate_rcp_elf-IsSafe :
    (bytes : List ℕ)
    → validate_rcp_elf bytes ≡ ok tt
    → (h : Header bytes) × ((i : ℕ)
        → i < h.program_count
        → (h.program_offset + i * h.entry_size + 32 ≤ length bytes)
          × ((s : Segment) × IsEntry bytes h.program_offset h.entry_size i s × IsSafe bytes s))
      × ((i : ℕ) × (s : Segment) × (i < h.program_count)
          × IsEntry bytes h.program_offset h.entry_size i s
          × IsFlash s)
validate_rcp_elf-IsSafe bytes accepted =
    let (h, looped) = accepted_loop bytes accepted in
    (
      h,
      λ i small. (
        omega (
          arith,
          entry_end_le h.program_count h.entry_size i small,
          h.entry_room,
          h.table_inside,
        ),
        check_segments-IsSafe h.program_count 0 bytes h.program_offset h.entry_size false looped i
            (omega arith) (omega arith),
      ),
      elim (check_segments-IsFlash h.program_count 0 bytes h.program_offset h.entry_size false
          looped) [
            | inl impossible ↦ absurd (cc)
            | inr (i, s, small, entry, flash) ↦ (i, s, omega arith, entry, flash)
          ],
    )
