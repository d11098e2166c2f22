-- ===== src/Base/Parser.antt =====
-- Parsers of texts, for what the program matches with regular expressions: a parser takes a
-- prefix and returns the rest. Repetitions are greedy; the expressions of the program are such
-- that the character after a repetition is never one that it takes, so they need no second try.
pub mod Laws
use mathlib.Core.Bool.{Bool, true, false, ◌&&◌, ◌||◌}
use mathlib.Core.Option.{Option, none, some}
use mathlib.Core.List.{List, [], ◌∷◌, ◌++◌}
use mathlib.Core.Path.{◌≡◌, refl, ap}
use native.Mathlib.Omega.{arith}
use Prim.Native.Nat.{ℕ, ◌+◌, ◌*◌, ◌-◌}
use ha_nrf52840_ot_rcp_updat.Base.Tests.{◌==◌, leb, if◌then◌else◌}
use ha_nrf52840_ot_rcp_updat.Base.Lists.{All}
use ha_nrf52840_ot_rcp_updat.Base.Text.{Text}

abbrev pub Parser : Type 0 → Type 0
Parser A = Text → Option (A × Text)

abbrev pub pure : {A : Type 0} → A → Parser A
pure a s = some (a, s)

infixl 5 ◌>>=◌ ◌>>◌
abbrev pub ◌>>=◌ : {A B : Type 0} → Parser A → (A → Parser B) → Parser B
◌>>=◌ p f s = elim (p s) [ none ↦ none | some (a, rest) ↦ f a rest ]

abbrev pub ◌>>◌ : {A B : Type 0} → Parser A → Parser B → Parser B
p >> q = p >>= λ _. q

-- `fullmatch`: nothing may be left over.
abbrev pub parse_all : {A : Type 0} → Parser A → Text → Option A
parse_all p s = elim (p s) [ some (a, []) ↦ some a | _ ↦ none ]

-- The longest prefix of characters that pass the test, and the rest.
unfoldable pub span : (ℕ → Bool) → Text → Text × Text
span p [] = ([], [])
span p (c ∷ s) = let rest = span p s in if p c then (c ∷ rest.0, rest.1) else ([], c ∷ s)

-- `[...]+`
unfoldable pub some_of : (ℕ → Bool) → Parser Text
unfolding span
some_of p s =
    let (taken, rest) = span p s in elim taken [ [] ↦ none | c ∷ cs ↦ some (c ∷ cs, rest) ]

-- A fixed text.
unfoldable pub literal : Text → Parser (Unit {0})
literal [] s = some (tt, s)
literal (c ∷ cs) [] = none
literal (c ∷ cs) (d ∷ s) = let rest = literal cs s in if c == d then rest else none

-- `[0-9]`
abbrev pub is_digit : ℕ → Bool
is_digit c = leb b'0' c && leb c b'9'

-- `int` of a text of digits.
unfoldable pub int_from : ℕ → Text → ℕ
int_from n [] = n
int_from n (c ∷ s) = int_from (n * 10 + (c - 48)) s

unfoldable pub int_of : Text → ℕ
unfolding int_from
int_of = int_from 0
