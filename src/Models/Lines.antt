-- ===== src/Models/Lines.antt =====
-- The minor lines that `validate_minor_line` of models.py returns.
use ha_nrf52840_ot_rcp_updat.Base.{
  ℕ, ◌≤◌, ◌≡◌, refl, [], ◌∷◌, ◌++◌, ◌==◌, inl, inr, Bool-cases, All, arith, Option, none, some, ok,
  >>=-eq-ok,
}
use ha_nrf52840_ot_rcp_updat.Base.Text.{Text, codes}
use ha_nrf52840_ot_rcp_updat.Base.Parser.{some_of, literal, is_digit}
use ha_nrf52840_ot_rcp_updat.Base.Parser.Laws.{Passes, some_of_lem}
use ha_nrf52840_ot_rcp_updat.Models.Value.{Value, require_string}
use ha_nrf52840_ot_rcp_updat.Models.Tokens.{
  normal_number, after_dot, normal_line, minor_line_parser, validate_minor_line,
}

abbrev pub IsDigit : ℕ → Type 0
IsDigit c = (b'0' ≤ c) × (c ≤ b'9')

-- Digits, the first of which is a zero only where it is the only one.
abbrev pub IsNumeral : Text → Type 0
IsNumeral [] = ⊥
IsNumeral (c ∷ rest) = IsDigit c × All IsDigit rest × (c ≡ b'0' → rest ≡ [])

-- Two numerals with a dot between them.
abbrev pub IsMinorLine : Text → Type 0
IsMinorLine value =
    (major : Text) × (minor : Text) × (value ≡ major ++ (b'.' ∷ minor))
    × IsNumeral major
    × IsNumeral minor

normal_number-IsNumeral : (digits : Text) → All IsDigit digits → IsNumeral (normal_number digits)
unfolding normal_number
normal_number-IsNumeral [] all = (omega arith, tt, λ e. refl)
normal_number-IsNumeral (c ∷ rest) (d, ds) = elim (Bool-cases (c == b'0')) [
  | inl e ↦ rw e (normal_number-IsNumeral rest ds)
  | inr e ↦ rw e (d, ds, λ zero. absurd (ground arith))
]

Passes-IsDigit : (t : Text) → Passes is_digit t → All IsDigit t
Passes-IsDigit [] all = tt
Passes-IsDigit (c ∷ rest) (d, ds) = (ground arith, Passes-IsDigit rest ds)

-- The two numbers of a line are digits.
IsDigits : Option ((Text × Text) × Text) → Type 0
IsDigits none = Unit
IsDigits (some ((major, minor), rest)) = All IsDigit major × All IsDigit minor

after_dot-IsDigits :
    (major : Text) (dotted : Option (Unit {0} × Text))
    → All IsDigit major
    → IsDigits (after_dot major dotted)
unfolding IsDigits
after_dot-IsDigits major none all = tt
after_dot-IsDigits major (some (done, rest)) all = behind (some_of is_digit rest) refl
  where
    behind :
        (found : Option (Text × Text))
        → some_of is_digit rest ≡ found
        → IsDigits (elim found [ none ↦ none | some (minor, left) ↦ some ((major, minor), left) ])
    behind none e = tt
    behind (some (minor, left)) e =
        (all, Passes-IsDigit minor (some_of_lem is_digit rest minor left e).2)

minor_line_parser-IsDigits : (line : Text) → IsDigits (minor_line_parser line)
unfolding minor_line_parser IsDigits
minor_line_parser-IsDigits line = begun (some_of is_digit line) refl
  where
    begun :
        (found : Option (Text × Text))
        → some_of is_digit line ≡ found
        → IsDigits (elim found [
          | none ↦ none
          | some (major, rest) ↦ after_dot major (literal (codes ".") rest)
        ])
    begun none e = tt
    begun (some (major, rest)) e =
        after_dot-IsDigits major (literal (codes ".") rest)
          (Passes-IsDigit major (some_of_lem is_digit line major rest e).2)

normal_line-IsMinorLine :
    (parsed : Option ((Text × Text) × Text)) (t : Text)
    → IsDigits parsed
    → normal_line (elim parsed [ some (numbers, []) ↦ some numbers | _ ↦ none ]) ≡ ok t
    → IsMinorLine t
unfolding IsDigits
normal_line-IsMinorLine none t digits h = cc
normal_line-IsMinorLine (some (numbers, c ∷ rest)) t digits h = cc
normal_line-IsMinorLine (some ((major, minor), [])) t (d, e) h = (
  normal_number major,
  normal_number minor,
  cc,
  normal_number-IsNumeral major d,
  normal_number-IsNumeral minor e,
)

pub validate_minor_line-IsMinorLine :
    (value : Value) (t : Text) → validate_minor_line value ≡ ok t → IsMinorLine t
unfolding validate_minor_line
validate_minor_line-IsMinorLine value t h =
    let (line, e, rest) = >>=-eq-ok (require_string value) _ h in
    normal_line-IsMinorLine (minor_line_parser line) t (minor_line_parser-IsDigits line) rest
