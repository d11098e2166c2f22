-- ===== src/Models/Version/Parse.antt =====
-- `_VERSION_RE` of models.py as a parser: MAJOR.MINOR.PATCH, and -previewN or -rcN behind it.
use ha_nrf52840_ot_rcp_updat.Base.{◌&&◌, [], ◌∷◌, Option, none, some, ◌==◌, leb, if◌then◌else◌}
use ha_nrf52840_ot_rcp_updat.Base.Text.{Text, codes}
use ha_nrf52840_ot_rcp_updat.Base.Parser.{
  Parser, pure, ◌>>=◌, ◌>>◌, span, some_of, literal, is_digit,
}

pub data Stage : Type 0 where
  preview rc : Stage

-- The groups of `_VERSION_RE`.
pub record Version : Type 0 where
  pub major : Text
  pub minor : Text
  pub patch : Text
  pub prerelease : Option (Stage × Text)

-- `preview|rc`
unfoldable pub stage_name : Parser Stage
unfolding literal
stage_name s = elim (literal (codes "preview") s) [
  | some (_, rest) ↦ some (preview, rest)
  | none ↦ elim (literal (codes "rc") s) [ some (_, rest) ↦ some (rc, rest) | none ↦ none ]
]

-- `[1-9][0-9]*`
unfoldable pub positive : Parser Text
unfolding span
positive [] = none
positive (c ∷ s) =
    let (ds, rest) = span is_digit s in
    if leb b'1' c && leb c b'9' then some (c ∷ ds, rest) else none

unfoldable pub numbered_stage : Parser (Option (Stage × Text))
unfolding stage_name positive
numbered_stage = do stage ← stage_name; sequence ← positive; pure (some (stage, sequence))

-- `(?:-(preview|rc)([1-9][0-9]*))?`
unfoldable pub prerelease_part : Parser (Option (Stage × Text))
unfolding numbered_stage
prerelease_part [] = some (none, [])
prerelease_part (c ∷ s) = if c == b'-' then numbered_stage s else some (none, c ∷ s)

-- `([0-9]+)\.`
unfoldable pub number_dot : Parser Text
unfolding some_of literal
number_dot = do n ← some_of is_digit; literal (codes "."); pure n

unfoldable pub version_parser : Parser Version
unfolding number_dot prerelease_part
version_parser = do
  major ← number_dot
  minor ← number_dot
  patch ← some_of is_digit
  prerelease ← prerelease_part
  pure (record { major = major; minor = minor; patch = patch; prerelease = prerelease })
