-- ===== src/Manifest/Reads.antt =====
-- Which reads of `validate_rcp_elf` of manifest.py stay inside the file: all of them.
use ha_nrf52840_ot_rcp_updat.Base.{
  ℕ, zero, suc, ◌+◌, ◌-◌, ◌*◌, ◌≤◌, ◌<◌, ◌≡◌, ◌≢◌, refl, arith, Bool, true, false, not, ◌||◌, List,
  [], ◌∷◌, some, Result, ok, err, ◌==◌, ltb, require, ◌>>=◌, ◌>>◌, ◌&&◌, >>=-ne-err, length,
  get_elem?, take, drop,
}
use ha_nrf52840_ot_rcp_updat.Base.Text.{text_eq}
use ha_nrf52840_ot_rcp_updat.Manifest.Elf.{
  ManifestError, elf32_header_size, elf32_program_header_size, struct_error, no_flash_segment,
  not_arm, not_elf, not_little_endian, too_short, headers_outside, no_program_headers, byte_at,
  unpack_u16, unpack_u32, Segment, unpack_segment, check_segment, check_segments, validate_rcp_elf,
}
use ha_nrf52840_ot_rcp_updat.Manifest.Segments.{check_segment-no_struct_error}

get_elem?-lt : (bytes : List ℕ) (i : ℕ) → i < length bytes → (b : ℕ) × (get_elem? bytes i ≡ some b)
get_elem?-lt [] i h = absurd (omega arith)
get_elem?-lt (b ∷ bytes) zero h = (b, refl)
get_elem?-lt (b ∷ bytes) (suc i) h = get_elem?-lt bytes i (omega arith)

byte_at-ok :
    (bytes : List ℕ) (offset : ℕ) → offset < length bytes → (b : ℕ) × (byte_at bytes offset ≡ ok b)
unfolding byte_at
byte_at-ok bytes offset h = let (b, e) = get_elem?-lt bytes offset h in (b, rw e refl)

unpack_u16-ok :
    (bytes : List ℕ) (offset : ℕ)
    → offset + 1 < length bytes
    → (v : ℕ) × (unpack_u16 bytes offset ≡ ok v)
unfolding unpack_u16
unpack_u16-ok bytes offset h =
    let (low, e) = byte_at-ok bytes offset (omega arith) in
    let (high, f) = byte_at-ok bytes (offset + 1) h in (low + 256 * high, rw (e, f) refl)

unpack_u32-ok :
    (bytes : List ℕ) (offset : ℕ)
    → offset + 3 < length bytes
    → (v : ℕ) × (unpack_u32 bytes offset ≡ ok v)
unfolding unpack_u32
unpack_u32-ok bytes offset h =
    let (low, e) = unpack_u16-ok bytes offset (omega arith) in
    let (high, f) = unpack_u16-ok bytes (offset + 2) (omega arith) in
    (low + 65536 * high, rw (e, f) refl)

unpack_segment-ok :
    (bytes : List ℕ) (offset : ℕ)
    → offset + 19 < length bytes
    → (s : Segment) × (unpack_segment bytes offset ≡ ok s)
unfolding unpack_segment
unpack_segment-ok bytes offset h =
    let (a, ea) = unpack_u32-ok bytes offset (omega arith) in
    let (b, eb) = unpack_u32-ok bytes (offset + 4) (omega arith) in
    let (c, ec) = unpack_u32-ok bytes (offset + 8) (omega arith) in
    let (d, ed) = unpack_u32-ok bytes (offset + 12) (omega arith) in
    let (e, ee) = unpack_u32-ok bytes (offset + 16) (omega arith) in
    (
      record {
        segment_type = a;
        file_offset = b;
        virtual_address = c;
        physical_address = d;
        file_size = e;
      },
      rw (ea, eb, ec, ed, ee) refl,
    )

check_segments-no_struct_error :
    (left index : ℕ) (bytes : List ℕ) (start size : ℕ) (found : Bool)
    → 32 ≤ size
    → start + index * size + left * size ≤ length bytes
    → check_segments left index bytes start size found ≢ err struct_error
unfolding check_segments
check_segments-no_struct_error zero index bytes start size found big fits = λ e. cc
check_segments-no_struct_error (suc left) index bytes start size found big fits =
    let (s, read) = unpack_segment-ok bytes (start + index * size) (omega arith) in
    >>=-ne-err (unpack_segment bytes (start + index * size)) _ (cc read) (λ segment e.
      >>=-ne-err (check_segment bytes segment) _ (check_segment-no_struct_error bytes segment)
        (λ flash checked.
          check_segments-no_struct_error left (index + 1) bytes start size (flash || found) big
            (omega arith)))

require-no_struct_error :
    {A : Type 0} (test : Bool) (e : ManifestError) (next : Result ManifestError A)
    → e ≢ struct_error
    → (test ≡ true → next ≢ err struct_error)
    → (require test e >> next) ≢ err struct_error
require-no_struct_error true e next h later = later refl
require-no_struct_error false e next h later = ground arith

read-no_struct_error :
    {A B : Type 0} (read : Result ManifestError A) (next : A → Result ManifestError B)
    → (a : A) × (read ≡ ok a)
    → ((a : A) → read ≡ ok a → next a ≢ err struct_error)
    → (read >>= next) ≢ err struct_error
read-no_struct_error read next (a, e) later = >>=-ne-err read next (cc e) later

last_require : (found : Bool) → require found no_flash_segment ≢ err struct_error
last_require true = ground arith
last_require false = ground arith

-- The check of an image never reads behind its end: `unpack_from` does not raise.
pub validate_rcp_elf-no_struct_error : (bytes : List ℕ) → validate_rcp_elf bytes ≢ err struct_error
unfolding validate_rcp_elf
validate_rcp_elf-no_struct_error bytes =
    require-no_struct_error (not (ltb (length bytes) elf32_header_size)) too_short _ (ground arith)
      (λ long.
        require-no_struct_error (text_eq (take 4 bytes) (0x7f ∷ 0x45 ∷ 0x4c ∷ 0x46 ∷ [])) not_elf _
          (ground arith)
          (λ magic.
            require-no_struct_error (text_eq (take 3 (drop 4 bytes)) (1 ∷ 1 ∷ 1 ∷ []))
              not_little_endian _ (ground arith)
              (λ class.
                read-no_struct_error _ _ (unpack_u16-ok bytes 16 (ground arith)) (λ e_type e1.
                  read-no_struct_error _ _ (unpack_u16-ok bytes 18 (ground arith)) (λ e_machine e2.
                    require-no_struct_error (e_type == 2 && e_machine == 40) not_arm _
                      (ground arith)
                      (λ arm.
                        read-no_struct_error _ _ (unpack_u32-ok bytes 28 (ground arith))
                          (λ program_offset e3.
                            read-no_struct_error _ _ (unpack_u16-ok bytes 42 (ground arith))
                              (λ entry_size e4.
                                read-no_struct_error _ _ (unpack_u16-ok bytes 44 (ground arith))
                                  (λ program_count e5.
                                    require-no_struct_error
                                      (not (
                                        ltb entry_size elf32_program_header_size
                                        || program_count == 0))
                                      no_program_headers _ (ground arith)
                                      (λ headers.
                                        require-no_struct_error
                                          (not (
                                            ltb (length bytes) program_offset
                                            || ltb (length bytes - program_offset)
                                                (entry_size * program_count)))
                                          headers_outside _ (ground arith)
                                          (λ inside.
                                            >>=-ne-err _ _
                                              (check_segments-no_struct_error program_count 0 bytes
                                                program_offset entry_size false (ground arith)
                                                (ground arith))
                                              (λ found e6. last_require found))))))))))))

-- What the header of an image says of its program headers.
pub record Header (bytes : List ℕ) : Type 0 where
  pub program_offset : ℕ
  pub entry_size : ℕ
  pub program_count : ℕ
  pub offset_read : unpack_u32 bytes 28 ≡ ok program_offset
  pub size_read : unpack_u16 bytes 42 ≡ ok entry_size
  pub count_read : unpack_u16 bytes 44 ≡ ok program_count
