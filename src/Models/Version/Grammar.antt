-- ===== src/Models/Version/Grammar.antt =====
-- `version_parser` accepts exactly the texts that `_VERSION_RE` describes.
use ha_nrf52840_ot_rcp_updat.Base.{
  ◌+◌, ◌*◌, ◌-◌, ◌≤◌, ◌≡◌, refl, ◌↔◌, true, ◌&&◌, [], ◌∷◌, ◌++◌, append-nil, Option, none, some,
  inl, inr, Option-cases, arith, leb,
}
use ha_nrf52840_ot_rcp_updat.Base.Text.{Text, codes}
use ha_nrf52840_ot_rcp_updat.Base.Parser.{parse_all, some_of, literal, is_digit, int_of}
use ha_nrf52840_ot_rcp_updat.Base.Parser.Laws.{
  Passes, Stops, IsNonempty, >>=-eq-some, span-append, span_lem, some_of-append, some_of_lem,
  literal-append, literal_lem, int_from-le,
}
use ha_nrf52840_ot_rcp_updat.Models.Version.Parse.{
  Stage, preview, rc, Version, stage_name, positive, number_dot, numbered_stage, prerelease_part,
  version_parser,
}

-- `[0-9]+`
abbrev pub IsNumber : Text → Type 0
IsNumber s = IsNonempty s × Passes is_digit s

-- `[1-9][0-9]*`
abbrev pub IsPositive : Text → Type 0
IsPositive [] = ⊥
IsPositive (c ∷ s) = ((leb b'1' c && leb c b'9') ≡ true) × Passes is_digit s

abbrev pub IsStage : Option (Stage × Text) → Type 0
IsStage none = Unit
IsStage (some (_, sequence)) = IsPositive sequence

-- The groups that the expression allows.
pub record IsVersion (m : Version) : Type 0 where
  pub major : IsNumber m.major
  pub minor : IsNumber m.minor
  pub patch : IsNumber m.patch
  pub stage : IsStage m.prerelease

abbrev pub stage_text : Stage → Text
stage_text preview = codes "preview"
stage_text rc = codes "rc"

abbrev pub prerelease_text : Option (Stage × Text) → Text
prerelease_text none = []
prerelease_text (some (stage, sequence)) = b'-' ∷ stage_text stage ++ sequence

-- The text with the given groups.
abbrev pub version_text : Version → Text
version_text m = m.major ++ (b'.' ∷ m.minor ++ (b'.' ∷ m.patch ++ prerelease_text m.prerelease))

stage_name_lem :
    (s : Text) (stage : Stage) (rest : Text)
    → stage_name s ≡ some (stage, rest)
    → s ≡ stage_text stage ++ rest
unfolding stage_name
stage_name_lem s stage rest h = elim (Option-cases (literal (codes "preview") s)) [
  | inl other ↦ elim (Option-cases (literal (codes "rc") s)) [
    | inl neither ↦ ground arith
    | inr (u, found) ↦ ground (arith, literal_lem (codes "rc") s u.1)
  ]
  | inr (u, found) ↦ ground (arith, literal_lem (codes "preview") s u.1)
]

stage_name-append :
    (stage : Stage) (rest : Text) → stage_name (stage_text stage ++ rest) ≡ some (stage, rest)
unfolding stage_name
stage_name-append preview rest = refl
stage_name-append rc rest = refl

positive_lem : (s a b : Text) → positive s ≡ some (a, b) → (s ≡ a ++ b) × IsPositive a
unfolding positive
positive_lem [] a b h = cc
positive_lem (c ∷ s) a b h = ground (arith, span_lem is_digit s)

positive-append : (a b : Text) → IsPositive a → Stops is_digit b → positive (a ++ b) ≡ some (a, b)
unfolding positive
positive-append [] b h k = absurd h
positive-append (c ∷ a) b h k = ground (arith, span-append is_digit a b h.1 k)

numbered_stage_lem :
    (s : Text) (pre : Option (Stage × Text))
    → numbered_stage s ≡ some (pre, [])
    → (b'-' ∷ s ≡ prerelease_text pre) × IsStage pre
unfolding numbered_stage
numbered_stage_lem s pre h =
    let (stage, mid, named, h1) = >>=-eq-some stage_name _ s h in
    let (sequence, end, counted, h2) = >>=-eq-some positive _ mid h1 in
    ground (
      arith,
      stage_name_lem s stage mid named,
      positive_lem mid sequence end counted,
      append-nil sequence,
    )

prerelease_part_lem :
    (s : Text) (pre : Option (Stage × Text))
    → prerelease_part s ≡ some (pre, [])
    → (s ≡ prerelease_text pre) × IsStage pre
unfolding prerelease_part
prerelease_part_lem [] pre h = ground arith
prerelease_part_lem (c ∷ s) pre h = ground (arith, numbered_stage_lem s pre)

prerelease_part-text :
    (pre : Option (Stage × Text))
    → IsStage pre
    → prerelease_part (prerelease_text pre) ≡ some (pre, [])
unfolding prerelease_part numbered_stage
prerelease_part-text none h = refl
prerelease_part-text (some (stage, sequence)) h =
    ground (
      arith,
      stage_name-append stage sequence,
      positive-append sequence [] h tt,
      append-nil sequence,
    )

prerelease_text-Stops : (pre : Option (Stage × Text)) → Stops is_digit (prerelease_text pre)
prerelease_text-Stops none = tt
prerelease_text-Stops (some (stage, sequence)) = refl

number_dot_lem :
    (s n rest : Text) → number_dot s ≡ some (n, rest) → (s ≡ n ++ b'.' ∷ rest) × IsNumber n
unfolding number_dot
number_dot_lem s n rest h = elim (Option-cases (some_of is_digit s)) [
  | inl bad ↦ ground arith
  | inr ((a, mid), found) ↦ elim (Option-cases (literal (codes ".") mid)) [
    | inl bad ↦ ground arith
    | inr ((u, end), dot) ↦
        ground (arith, some_of_lem is_digit s a mid found, literal_lem (codes ".") mid end)
  ]
]

number_dot-append : (n rest : Text) → IsNumber n → number_dot (n ++ b'.' ∷ rest) ≡ some (n, rest)
unfolding number_dot
number_dot-append n rest h =
    ground (arith, some_of-append is_digit n (b'.' ∷ rest) h.0 h.1, literal-append (codes ".") rest)

version_parser_lem :
    (s : Text) (m : Version) → version_parser s ≡ some (m, []) → IsVersion m × (s ≡ version_text m)
unfolding version_parser
version_parser_lem s m h = elim (Option-cases (number_dot s)) [
  | inl bad ↦ ground arith
  | inr ((major, s1), p1) ↦ elim (Option-cases (number_dot s1)) [
    | inl bad ↦ ground arith
    | inr ((minor, s2), p2) ↦ elim (Option-cases (some_of is_digit s2)) [
      | inl bad ↦ ground arith
      | inr ((patch, s3), p3) ↦ elim (Option-cases (prerelease_part s3)) [
        | inl bad ↦ ground arith
        | inr ((pre, s4), p4) ↦ ground (
          arith,
          number_dot_lem s major s1 p1,
          number_dot_lem s1 minor s2 p2,
          some_of_lem is_digit s2 patch s3 p3,
          prerelease_part_lem s3 pre,
        )
      ]
    ]
  ]
]

version_parser-text : (m : Version) → IsVersion m → version_parser (version_text m) ≡ some (m, [])
unfolding version_parser
version_parser-text m h = ground (
  arith,
  number_dot-append m.major (m.minor ++ (b'.' ∷ m.patch ++ prerelease_text m.prerelease)) h.major,
  number_dot-append m.minor (m.patch ++ prerelease_text m.prerelease) h.minor,
  some_of-append is_digit m.patch (prerelease_text m.prerelease) h.patch.0 h.patch.1
      (prerelease_text-Stops m.prerelease),
  prerelease_part-text m.prerelease h.stage,
)

-- The parser accepts a text as a whole exactly when it is MAJOR.MINOR.PATCH, alone or with
-- -previewN or -rcN behind it, and then finds just those groups.
pub version_parser_iff :
    (s : Text) (m : Version)
    → (parse_all version_parser s ≡ some m) ↔ (IsVersion m × (s ≡ version_text m))
version_parser_iff s m =
    (λ h. version_parser_lem s m (whole h), λ h. ground (arith, version_parser-text m h.0))
  where
    whole : parse_all version_parser s ≡ some m → version_parser s ≡ some (m, [])
    whole h = ground arith

-- A sequence number is 1 or more.
pub positive-pos : (s : Text) → IsPositive s → 1 ≤ int_of s
unfolding int_of
positive-pos [] h = absurd h
positive-pos (c ∷ s) h = grind (arith, int_from-le (0 * 10 + (c - 48)) s)
