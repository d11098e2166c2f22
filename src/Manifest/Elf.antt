-- ===== src/Manifest/Elf.antt =====
-- `validate_rcp_elf` of manifest.py. The file is the list of its bytes.
use ha_nrf52840_ot_rcp_updat.Base.{
  ℕ, zero, suc, ◌+◌, ◌-◌, ◌*◌, Bool, true, false, not, ◌&&◌, ◌||◌, List, [], ◌∷◌, Option, none,
  some, Result, ok, err, ◌==◌, ltb, if◌then◌else◌, require, ◌>>=◌, ◌>>◌, length, get_elem?, take,
  drop,
}
use ha_nrf52840_ot_rcp_updat.Base.Text.{text_eq}

-- The places where `validate_rcp_elf` raises. `struct_error` is the exception of `unpack_from`
-- for a read behind the end of the file.
pub data ManifestError : Type 0 where
  too_short not_elf not_little_endian not_arm no_program_headers headers_outside : ManifestError
  segment_outside_file segment_outside_flash no_flash_segment struct_error : ManifestError

abbrev pub elf32_header_size : ℕ
elf32_header_size = 52

abbrev pub elf32_program_header_size : ℕ
elf32_program_header_size = 32

abbrev pub application_start : ℕ
application_start = 0x1000

abbrev pub flash_end : ℕ
flash_end = 0x00100000

abbrev or_struct_error : Option ℕ → Result ManifestError ℕ
or_struct_error none = err struct_error
or_struct_error (some byte) = ok byte

-- `struct.unpack_from` reads little-endian numbers.
unfoldable pub byte_at : List ℕ → ℕ → Result ManifestError ℕ
byte_at bytes offset = or_struct_error (get_elem? bytes offset)

unfoldable pub unpack_u16 : List ℕ → ℕ → Result ManifestError ℕ
unpack_u16 bytes offset = do
  low ← byte_at bytes offset
  high ← byte_at bytes (offset + 1)
  ok (low + 256 * high)

unfoldable pub unpack_u32 : List ℕ → ℕ → Result ManifestError ℕ
unpack_u32 bytes offset = do
  low ← unpack_u16 bytes offset
  high ← unpack_u16 bytes (offset + 2)
  ok (low + 65536 * high)

-- What the loop reads of a program header.
pub record Segment : Type 0 where
  pub segment_type : ℕ
  pub file_offset : ℕ
  pub virtual_address : ℕ
  pub physical_address : ℕ
  pub file_size : ℕ

unfoldable pub unpack_segment : List ℕ → ℕ → Result ManifestError Segment
unpack_segment bytes offset = do
  segment_type ← unpack_u32 bytes offset
  file_offset ← unpack_u32 bytes (offset + 4)
  virtual_address ← unpack_u32 bytes (offset + 8)
  physical_address ← unpack_u32 bytes (offset + 12)
  file_size ← unpack_u32 bytes (offset + 16)
  ok (record {
    segment_type = segment_type;
    file_offset = file_offset;
    virtual_address = virtual_address;
    physical_address = physical_address;
    file_size = file_size;
  })

-- The loop body: whether the segment sets `has_flash_segment`. On the integers of the source,
-- `address > end - size` is `address + size > end`.
unfoldable pub check_segment : List ℕ → Segment → Result ManifestError Bool
check_segment bytes s =
    if not (s.segment_type == 1) || s.file_size == 0
    then ok false
    else if ltb (length bytes) s.file_offset || ltb (length bytes - s.file_offset) s.file_size
    then err segment_outside_file
    else if s.physical_address == 0
    then ok false
    else if ltb s.physical_address application_start
        || ltb flash_end (s.physical_address + s.file_size)
    then err segment_outside_flash
    else ok true

-- The rounds of the loop from `index` on, with `has_flash_segment`.
unfoldable pub check_segments :
    (left index : ℕ) → List ℕ → (program_offset entry_size : ℕ) → Bool → Result ManifestError Bool
check_segments zero index bytes program_offset entry_size found = ok found
check_segments (suc left) index bytes program_offset entry_size found = do
  segment ← unpack_segment bytes (program_offset + index * entry_size)
  flash ← check_segment bytes segment
  check_segments left (index + 1) bytes program_offset entry_size (flash || found)

unfoldable pub validate_rcp_elf : List ℕ → Result ManifestError (Unit {0})
validate_rcp_elf bytes = do
  require (not (ltb (length bytes) elf32_header_size)) too_short
  require (text_eq (take 4 bytes) (0x7f ∷ 0x45 ∷ 0x4c ∷ 0x46 ∷ [])) not_elf
  require (text_eq (take 3 (drop 4 bytes)) (1 ∷ 1 ∷ 1 ∷ [])) not_little_endian
  e_type ← unpack_u16 bytes 16
  e_machine ← unpack_u16 bytes 18
  require (e_type == 2 && e_machine == 40) not_arm
  program_offset ← unpack_u32 bytes 28
  entry_size ← unpack_u16 bytes 42
  program_count ← unpack_u16 bytes 44
  require (not (ltb entry_size elf32_program_header_size || program_count == 0)) no_program_headers
  require
      (not (
        ltb (length bytes) program_offset
        || ltb (length bytes - program_offset) (entry_size * program_count)))
      headers_outside
  found ← check_segments program_count 0 bytes program_offset entry_size false
  require found no_flash_segment
