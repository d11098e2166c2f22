-- ===== src/Base/Parser/Laws.antt =====
-- What the parsers of `Parser` take and leave.
use mathlib.Core.Bool.{Bool, true, false}
use mathlib.Core.Option.{Option, none, some}
use mathlib.Core.List.{[], ◌∷◌, ◌++◌}
use mathlib.Core.Path.{◌≡◌, refl}
use native.Mathlib.Omega.{arith}
use Prim.Native.Nat.{ℕ, ◌+◌, ◌*◌, ◌-◌, ◌≤◌}
use ha_nrf52840_ot_rcp_updat.Base.Lists.{All}
use ha_nrf52840_ot_rcp_updat.Base.Text.{Text}
use ha_nrf52840_ot_rcp_updat.Base.Parser.{Parser, ◌>>=◌, span, some_of, literal, int_from}

-- Every character passes the test.
abbrev pub Passes : (ℕ → Bool) → Text → Type 0
Passes p = All (λ c. p c ≡ true)

-- The text is empty or begins with a character that fails the test.
abbrev pub Stops : (ℕ → Bool) → Text → Type 0
Stops p [] = Unit
Stops p (c ∷ s) = p c ≡ false

abbrev pub IsNonempty : Text → Type 0
IsNonempty [] = ⊥
IsNonempty (c ∷ s) = Unit

bind_inv :
    {A B : Type 0} (o : Option (A × Text)) (f : A → Parser B) {r : B × Text}
    → ◌≡◌ {A = Option (B × Text)} (elim o [ none ↦ none | some (a, mid) ↦ f a mid ]) (some r)
    → (a : A) × (mid : Text) × (o ≡ some (a, mid)) × (f a mid ≡ some r)
bind_inv none f h = cc
bind_inv (some (a, mid)) f h = (a, mid, refl, h)

-- Inversion of a sequence that succeeds.
pub >>=-eq-some :
    {A B : Type 0} (p : Parser A) (f : A → Parser B) (s : Text) {r : B × Text}
    → (p >>= f) s ≡ some r
    → (a : A) × (mid : Text) × (p s ≡ some (a, mid)) × (f a mid ≡ some r)
>>=-eq-some p f s h = bind_inv (p s) f h

pub span-append : (p : ℕ → Bool) (a b : Text) → Passes p a → Stops p b → span p (a ++ b) ≡ (a, b)
unfolding span
span-append p [] [] h k = refl
span-append p [] (c ∷ b) h k = rw k
span-append p (c ∷ a) b h k = ground (arith, span-append p a b h.1 k)

pub span_lem :
    (p : ℕ → Bool) (s : Text)
    → (s ≡ (span p s).0 ++ (span p s).1) × Passes p (span p s).0 × Stops p (span p s).1
unfolding span
span_lem p [] = (refl, tt, tt)
span_lem p (c ∷ s) = ground (arith, span_lem p s)

pub some_of-append :
    (p : ℕ → Bool) (a b : Text)
    → IsNonempty a
    → Passes p a
    → Stops p b
    → some_of p (a ++ b) ≡ some (a, b)
unfolding some_of
some_of-append p [] b n h k = absurd n
some_of-append p (c ∷ a) b n h k = ground (arith, span-append p (c ∷ a) b h k)

pub some_of_lem :
    (p : ℕ → Bool) (s a b : Text)
    → some_of p s ≡ some (a, b)
    → (s ≡ a ++ b) × IsNonempty a × Passes p a × Stops p b
unfolding some_of
some_of_lem p s a b h = ground (arith, span_lem p s)

pub literal-append : (a b : Text) → literal a (a ++ b) ≡ some (tt, b)
unfolding literal
literal-append [] b = refl
literal-append (c ∷ a) b = ground (arith, literal-append a b)

pub literal_lem : (a s b : Text) → literal a s ≡ some (tt, b) → s ≡ a ++ b
unfolding literal
literal_lem [] s b h = ground arith
literal_lem (c ∷ a) [] b h = cc
literal_lem (c ∷ a) (d ∷ s) b h = ground (arith, literal_lem a s b)

pub int_from-le : (n : ℕ) (s : Text) → n ≤ int_from n s
unfolding int_from
int_from-le n [] = omega arith
int_from-le n (c ∷ s) = omega (arith, int_from-le (n * 10 + (c - 48)) s)
