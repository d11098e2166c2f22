-- ===== src/Models/Paths.antt =====
-- `str(Path(text))` of models.py for a text that begins with one slash, as `pathlib` documents it.
pub mod Below
use ha_nrf52840_ot_rcp_updat.Base.{
  ℕ, Bool, true, false, ◌||◌, List, [], ◌∷◌, ◌++◌, ◌==◌, if◌then◌else◌,
}
use ha_nrf52840_ot_rcp_updat.Base.Text.{Text, codes, text_eq}

abbrev attach : ℕ → List Text → List Text
attach c [] = (c ∷ []) ∷ []
attach c (part ∷ parts) = (c ∷ part) ∷ parts

-- The parts between the slashes.
unfoldable pub split : Text → List Text
split [] = [] ∷ []
split (c ∷ rest) = let parts = split rest in if c == b'/' then [] ∷ parts else attach c parts

abbrev pub is_skipped : Text → Bool
is_skipped [] = true
is_skipped (c ∷ part) = text_eq (c ∷ part) (codes ".")

-- Empty parts and single dots fall away.
unfoldable pub kept : List Text → List Text
kept [] = []
kept (part ∷ parts) = let later = kept parts in if is_skipped part then later else part ∷ later

unfoldable pub joined : List Text → Text
joined [] = []
joined (part ∷ parts) = b'/' ∷ part ++ joined parts

abbrev pub or_root : Text → Text
or_root [] = codes "/"
or_root (c ∷ rest) = c ∷ rest

unfoldable pub path : Text → Text
path value = or_root (joined (kept (split value)))
