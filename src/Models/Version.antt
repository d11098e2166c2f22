-- ===== src/Models/Version.antt =====
-- Version tags of models.py: `validate_version`, `version_key`, `is_prerelease` and
-- `ncs_dfu_application_version`.
mod Parse
pub mod Grammar
pub mod Order
pub use Parse.{Stage, preview, rc, Version}
unfoldable pub use Parse.{version_parser}
use ha_nrf52840_ot_rcp_updat.Base.{
  ℕ, ◌+◌, ◌*◌, Bool, true, false, not, ◌&&◌, ◌||◌, List, [], ◌∷◌, Option, none, some, Result, ok,
  err, ◌==◌, ltb, leb, if◌then◌else◌, require, ◌>>=◌, ◌>>◌,
}
use ha_nrf52840_ot_rcp_updat.Base.Text.{Text, codes}
use ha_nrf52840_ot_rcp_updat.Base.Parser.{parse_all, int_of}
use ha_nrf52840_ot_rcp_updat.Models.Value.{
  Value, text, ValidationError, invalid_version, component_too_large, sequence_too_large,
  not_representable, assertion_failed, require_string,
}

-- `_VERSION_RE.fullmatch`
unfoldable pub fullmatch_version : Text → Option Version
unfolding version_parser
fullmatch_version = parse_all version_parser

abbrev pub is_some : {A : Type 0} → Option A → Bool
is_some none = false
is_some (some _) = true

unfoldable pub validate_version : Value → Result ValidationError Text
unfolding require_string fullmatch_version
validate_version value = do
  version ← require_string value
  require (is_some (fullmatch_version version)) invalid_version
  ok version

-- `assert match is not None`
abbrev pub or_assert : {A : Type 0} → Option A → Result ValidationError A
or_assert none = err assertion_failed
or_assert (some a) = ok a

-- The lines with which `version_key`, `is_prerelease` and `ncs_dfu_application_version` begin.
unfoldable pub match_version : Text → Result ValidationError Version
unfolding validate_version
match_version value = do
  version ← validate_version (text value)
  or_assert (fullmatch_version version)

-- The tuple that orders versions.
pub record VersionKey : Type 0 where
  pub major : ℕ
  pub minor : ℕ
  pub patch : ℕ
  pub stage : ℕ
  pub sequence : ℕ

abbrev pub stage_key : Option (Stage × Text) → ℕ × ℕ
stage_key none = (2, 0)
stage_key (some (preview, sequence)) = (0, int_of sequence)
stage_key (some (rc, sequence)) = (1, int_of sequence)

abbrev pub key_of : Version → VersionKey
key_of m =
    let (stage, sequence) = stage_key m.prerelease in
    record {
      major = int_of m.major;
      minor = int_of m.minor;
      patch = int_of m.patch;
      stage = stage;
      sequence = sequence;
    }

unfoldable pub version_key : Text → Result ValidationError VersionKey
version_key value = do m ← match_version value; ok (key_of m)

-- `<` on the tuples: the first place where they differ decides.
unfoldable pub key_lt : VersionKey → VersionKey → Bool
key_lt a b =
    if a.major == b.major
    then (if a.minor == b.minor
        then (if a.patch == b.patch
            then (if a.stage == b.stage then ltb a.sequence b.sequence else ltb a.stage b.stage)
            else ltb a.patch b.patch)
        else ltb a.minor b.minor)
    else ltb a.major b.major

unfoldable pub is_prerelease : Text → Result ValidationError Bool
is_prerelease value = do m ← match_version value; ok (is_some m.prerelease)

abbrev pub prerelease_stage : Stage → ℕ → ℕ
prerelease_stage preview sequence = sequence
prerelease_stage rc sequence = 49 + sequence

dfu_stage : Option (Stage × Text) → Result ValidationError ℕ
dfu_stage none = ok 99
dfu_stage (some (stage, sequence)) = do
  require (not (ltb 49 (int_of sequence))) sequence_too_large
  ok (prerelease_stage stage (int_of sequence))

-- The part behind the match, on its groups.
pub dfu_version_of : Version → Result ValidationError ℕ
unfolding dfu_stage
dfu_version_of m = do
  let major = int_of m.major
  let minor = int_of m.minor
  let patch = int_of m.patch
  require (not (ltb 999 major || ltb 999 minor || ltb 999 patch)) component_too_large
  stage ← dfu_stage m.prerelease
  let application_version = (major * 1000000 + minor * 1000 + patch) * 100 + stage
  require (not (ltb 0xffffffff application_version)) not_representable
  ok application_version

unfoldable pub ncs_dfu_application_version : Text → Result ValidationError ℕ
unfolding dfu_version_of
ncs_dfu_application_version value = do m ← match_version value; dfu_version_of m
