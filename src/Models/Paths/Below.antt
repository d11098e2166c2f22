-- ===== src/Models/Paths/Below.antt =====
-- Where the path of an accepted device of models.py lies.
use ha_nrf52840_ot_rcp_updat.Base.{
  ◌≡◌, ◌≢◌, refl, true, inl, inr, Bool-cases, List, [], ◌∷◌, ◌++◌, ◌==◌, All, arith,
}
use ha_nrf52840_ot_rcp_updat.Base.Text.{Text, codes, text_eq, text_eq_iff, starts_with}
use ha_nrf52840_ot_rcp_updat.Models.Paths.{split, kept, joined, path}

abbrev IsSlashFree : Text → Type 0
IsSlashFree = All (λ c. c ≢ b'/')

-- A name of a path: it is not empty, holds no slash and is not a single dot.
pub record IsName (name : Text) : Type 0 where
  pub nonempty : name ≢ []
  pub slash_free : All (λ c. c ≢ b'/') name
  pub no_dot : name ≢ codes "."

-- Names, each behind a slash.
pub data IsBelow : Text → Type 0 where
  here : IsBelow []
  deeper : {name rest : Text} → IsName name → IsBelow rest → IsBelow (b'/' ∷ name ++ rest)

-- /dev, or a path below it.
pub IsInDev : Text → Type 0
IsInDev value = (rest : Text) × (value ≡ codes "/dev" ++ rest) × IsBelow rest

starts_with-append :
    (value start : Text) → starts_with value start ≡ true → (rest : Text) × (value ≡ start ++ rest)
unfolding starts_with
starts_with-append value [] h = (value, refl)
starts_with-append [] (p ∷ ps) h = cc
starts_with-append (c ∷ value) (p ∷ ps) h =
    let (rest, e) = starts_with-append value ps (ground arith) in
    let same : c ≡ p = ground arith in (rest, cc)

split-IsSlashFree : (value : Text) → All IsSlashFree (split value)
unfolding split
split-IsSlashFree [] = (tt, tt)
split-IsSlashFree (c ∷ rest) = elim (Bool-cases (c == b'/')) [
  | inl e ↦ rw e (tt, split-IsSlashFree rest)
  | inr e ↦ rw e (attached (split rest) (ground arith) (split-IsSlashFree rest))
]
  where
    attached :
        (parts : List Text)
        → c ≢ b'/'
        → All IsSlashFree parts
        → All IsSlashFree (elim parts [ [] ↦ (c ∷ []) ∷ [] | part ∷ others ↦ (c ∷ part) ∷ others ])
    attached [] h all = ((h, tt), tt)
    attached (part ∷ others) h (p, ps) = ((h, p), ps)

kept-IsName : (parts : List Text) → All IsSlashFree parts → All IsName (kept parts)
unfolding kept
kept-IsName [] all = tt
kept-IsName ([] ∷ parts) (p, ps) = kept-IsName parts ps
kept-IsName ((c ∷ part) ∷ parts) (p, ps) = elim (Bool-cases (text_eq (c ∷ part) (codes "."))) [
  | inl e ↦ rw e (kept-IsName parts ps)
  | inr e ↦ rw e (
    record {
      nonempty = λ h. cc;
      slash_free = p;
      no_dot = λ h. let same = (text_eq_iff (c ∷ part) (codes ".")).1 h in cc;
    },
    kept-IsName parts ps,
  )
]

joined-IsBelow : (names : List Text) → All IsName names → IsBelow (joined names)
unfolding joined
joined-IsBelow [] all = here
joined-IsBelow (name ∷ names) (n, ns) = deeper n (joined-IsBelow names ns)

pub path-IsInDev : (value : Text) → starts_with value (codes "/dev/") ≡ true → IsInDev (path value)
unfolding path split kept joined text_eq IsInDev
path-IsInDev value h =
    let (rest, e) = starts_with-append value (codes "/dev/") h in
    rw e (
      joined (kept (split rest)),
      refl,
      joined-IsBelow (kept (split rest)) (kept-IsName (split rest) (split-IsSlashFree rest)),
    )
