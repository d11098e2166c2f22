-- ===== src/Manifest/Tests.antt =====
-- An image on which the check of manifest.py is run.
use ha_nrf52840_ot_rcp_updat.Base.{
  ◌+◌, ◌*◌, ◌≤◌, length, none, ℕ, false, map, All, ◌≡◌, ◌≢◌, ◌<◌, refl, List, [], ◌∷◌, ok, err,
}
use mathlib.Core.List.{Perm}
use ha_nrf52840_ot_rcp_updat.Base.Text.{Text, codes, text_eq}
use ha_nrf52840_ot_rcp_updat.Base.Parser.{int_of}
use ha_nrf52840_ot_rcp_updat.Models.Firmware.{FirmwareRelease}
use ha_nrf52840_ot_rcp_updat.Models.Version.{match_version, version_key, key_lt, is_prerelease}
use ha_nrf52840_ot_rcp_updat.Manifest.Elf.{
  Segment, struct_error, segment_outside_flash, byte_at, unpack_u16, unpack_u32, unpack_segment,
  check_segment, check_segments, validate_rcp_elf,
}
use ha_nrf52840_ot_rcp_updat.Manifest.Newest.{in_policy, max_from, candidates, newest_for}
use ha_nrf52840_ot_rcp_updat.Manifest.Latest.{IsNewest, newest_for-IsNewest}
use ha_nrf52840_ot_rcp_updat.Manifest.Sample.{image_at, elf_header}
use ha_nrf52840_ot_rcp_updat.Manifest.Segments.{IsSafe, IsFlash, IsEntry}
use ha_nrf52840_ot_rcp_updat.Manifest.Reads.{validate_rcp_elf-no_struct_error}
use ha_nrf52840_ot_rcp_updat.Manifest.Accepted.{Header, validate_rcp_elf-IsSafe}
use ha_nrf52840_ot_rcp_updat.Manifest.Releases.{
  is_wanted, select_releases, Keyed, with_keys, insert_keyed, sort_keyed, releases_for,
}
use ha_nrf52840_ot_rcp_updat.Manifest.Order.{Selected, HasKey, IsOrdered, releases_for-IsOrdered}

image_accepted : validate_rcp_elf (image_at 0x10) ≡ ok tt
unfolding validate_rcp_elf check_segments check_segment unpack_segment unpack_u32 unpack_u16 byte_at
    text_eq
image_accepted = refl

bootloader_rejected : validate_rcp_elf (image_at 0x0f) ≡ err segment_outside_flash
unfolding validate_rcp_elf check_segments check_segment unpack_segment unpack_u32 unpack_u16 byte_at
    text_eq
bootloader_rejected = refl

validate_rcp_elf-IsSafe_example :
    (h : Header (image_at 0x10)) × ((i : ℕ)
      → i < h.program_count
      → (h.program_offset + i * h.entry_size + 32 ≤ length (image_at 0x10))
        × ((s : Segment) × IsEntry (image_at 0x10) h.program_offset h.entry_size i s
            × IsSafe (image_at 0x10) s))
    × ((i : ℕ) × (s : Segment) × (i < h.program_count)
        × IsEntry (image_at 0x10) h.program_offset h.entry_size i s
        × IsFlash s)
validate_rcp_elf-IsSafe_example = validate_rcp_elf-IsSafe (image_at 0x10) image_accepted

validate_rcp_elf-no_struct_error_example : validate_rcp_elf elf_header ≢ err struct_error
validate_rcp_elf-no_struct_error_example = validate_rcp_elf-no_struct_error elf_header

abbrev tagged : Text → FirmwareRelease
tagged version = record {
  hardware = codes "pca10059";
  ncs_version = version;
  zephyr_version = codes "4.1.99";
  dfu_application_version = 0;
  artifact = record { url = []; sha256 = []; filename = []; signature_url = [] };
  release_url = [];
  release_summary = [];
}

abbrev newer : FirmwareRelease
newer = tagged (codes "3.10.0")

abbrev older : FirmwareRelease
older = tagged (codes "3.9.1")

-- The preview is not on the channel.
abbrev published : List FirmwareRelease
published = newer ∷ tagged (codes "4.0.0-rc1") ∷ older ∷ []

sorted_by_number : releases_for (codes "pca10059") false published ≡ ok (older ∷ newer ∷ [])
unfolding releases_for select_releases is_wanted with_keys sort_keyed insert_keyed key_lt
    is_prerelease version_key match_version int_of text_eq
sorted_by_number = refl

releases_for-IsOrdered_example :
    (chosen : List FirmwareRelease) × (items : List Keyed) × Selected
      (codes "pca10059")
      false
      published
      chosen
    × Perm (older ∷ newer ∷ []) chosen
    × ((older ∷ newer ∷ []) ≡ map (λ (item : Keyed). item.release) items)
    × All HasKey items
    × IsOrdered items
releases_for-IsOrdered_example =
    releases_for-IsOrdered (codes "pca10059") false published (older ∷ newer ∷ []) sorted_by_number

newest_chosen : newest_for (codes "pca10059") false none published ≡ ok newer
unfolding newest_for candidates in_policy max_from releases_for select_releases is_wanted with_keys
    sort_keyed insert_keyed key_lt is_prerelease version_key match_version int_of text_eq
newest_chosen = refl

newest_for-IsNewest_example : IsNewest (codes "pca10059") false none published newer
newest_for-IsNewest_example =
    newest_for-IsNewest (codes "pca10059") false none published newer newest_chosen
