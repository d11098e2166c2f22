-- ===== src/Models/Tokens.antt =====
-- Tokens, topology paths, minor lines and file names of models.py, with their expressions as tests.
use ha_nrf52840_ot_rcp_updat.Base.{
  ℕ, ◌-◌, Bool, true, false, ◌&&◌, ◌||◌, [], ◌∷◌, ◌++◌, length, take, drop, all, Option, none, some,
  Result, ok, err, leb, ◌==◌, if◌then◌else◌, require, ◌>>=◌, ◌>>◌,
}
use ha_nrf52840_ot_rcp_updat.Base.Int.{pos}
use ha_nrf52840_ot_rcp_updat.Base.Text.{Text, codes, text_eq}
use ha_nrf52840_ot_rcp_updat.Base.Parser.{Parser, parse_all, some_of, literal, is_digit}
use ha_nrf52840_ot_rcp_updat.Models.Value.{
  Value, int, ValidationError, unsupported_characters, invalid_topology, invalid_minor_line,
  invalid_dfu_version, invalid_filename, require_string,
}
use ha_nrf52840_ot_rcp_updat.Models.Version.{match_version}

-- `[A-Za-z0-9._+-]`
abbrev pub is_token_char : ℕ → Bool
is_token_char c =
    (leb b'A' c && leb c b'Z')
    || (leb b'a' c && leb c b'z')
    || is_digit c
    || c == b'.'
    || c == b'_'
    || c == b'+'
    || c == b'-'

-- `_TOKEN_RE`
unfoldable pub is_token : Text → Bool
is_token value = leb 1 (length value) && leb (length value) 80 && all is_token_char value

-- `[0-9a-f]`
abbrev pub is_hex : ℕ → Bool
is_hex c = is_digit c || (leb b'a' c && leb c b'f')

-- `_SHA256_RE`
unfoldable pub is_sha256 : Text → Bool
is_sha256 value = length value == 64 && all is_hex value

-- `_ARTIFACT_FILENAME_RE`
unfoldable pub is_artifact_filename : Text → Bool
is_artifact_filename value =
    let stem = length value - 4 in
    leb 1 stem
    && leb stem 160
    && all is_token_char (take stem value)
    && text_eq (drop stem value) (codes ".elf")

abbrev pub is_positive_digit : ℕ → Bool
is_positive_digit c = leb b'1' c && leb c b'9'

-- Where the match of `_USB_TOPOLOGY_RE` stands: before or in the bus number, before or in a port
-- number, or failed.
pub data Spot : Type 0 where
  at_bus in_bus at_port in_port failed : Spot

abbrev pub next_spot : Spot → ℕ → Spot
next_spot at_bus c = if is_positive_digit c then in_bus else failed
next_spot in_bus c = if is_digit c then in_bus else if c == b'-' then at_port else failed
next_spot at_port c = if is_positive_digit c then in_port else failed
next_spot in_port c = if is_digit c then in_port else if c == b'.' then at_port else failed
next_spot failed c = failed

abbrev pub ends_match : Spot → Bool
ends_match in_port = true
ends_match spot = false

abbrev pub matches_from : Spot → Text → Bool
matches_from spot [] = ends_match spot
matches_from spot (c ∷ rest) = matches_from (next_spot spot c) rest

unfoldable pub is_usb_topology : Text → Bool
is_usb_topology value = matches_from at_bus value

unfoldable pub validate_token : Value → Result ValidationError Text
validate_token value = do
  token ← require_string value
  require (is_token token) unsupported_characters
  ok token

unfoldable pub validate_usb_topology : Value → Result ValidationError Text
validate_usb_topology value = do
  topology ← require_string value
  require (is_usb_topology topology) invalid_topology
  ok topology

unfoldable pub validate_artifact_filename : Value → Result ValidationError Text
validate_artifact_filename value = do
  filename ← require_string value
  require (is_artifact_filename filename) invalid_filename
  ok filename

unfoldable pub validate_dfu_application_version : Value → Result ValidationError ℕ
validate_dfu_application_version (int (pos n)) = do
  require (leb n 0xffffffff) invalid_dfu_version
  ok n
validate_dfu_application_version value = err invalid_dfu_version

-- `str(int(digits))`: the digits without the zeros in front.
abbrev pub or_zero : Text → Text
or_zero [] = codes "0"
or_zero (c ∷ rest) = c ∷ rest

abbrev pub drop_zeros : Text → Text
drop_zeros [] = []
drop_zeros (c ∷ rest) = let later = drop_zeros rest in if c == b'0' then later else c ∷ rest

unfoldable pub normal_number : Text → Text
normal_number digits = or_zero (drop_zeros digits)

abbrev pub line_of : Text → Text → Text
line_of major minor = normal_number major ++ (b'.' ∷ normal_number minor)

-- `_MINOR_LINE_RE` with the two numbers of `split`.
abbrev pub after_dot : Text → Option (Unit {0} × Text) → Option ((Text × Text) × Text)
after_dot major none = none
after_dot major (some (done, rest)) = elim (some_of is_digit rest) [
  | none ↦ none
  | some (minor, left) ↦ some ((major, minor), left)
]

unfoldable pub minor_line_parser : Parser (Text × Text)
minor_line_parser value = elim (some_of is_digit value) [
  | none ↦ none
  | some (major, rest) ↦ after_dot major (literal (codes ".") rest)
]

abbrev pub normal_line : Option (Text × Text) → Result ValidationError Text
normal_line none = err invalid_minor_line
normal_line (some (major, minor)) = ok (line_of major minor)

unfoldable pub validate_minor_line : Value → Result ValidationError Text
validate_minor_line value = do
  line ← require_string value
  normal_line (parse_all minor_line_parser line)

unfoldable pub minor_line : Text → Result ValidationError Text
minor_line value = do m ← match_version value; ok (line_of m.major m.minor)
