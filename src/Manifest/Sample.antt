-- ===== src/Manifest/Sample.antt =====
-- A small image for the tests of manifest.py and updater.py.
use ha_nrf52840_ot_rcp_updat.Base.{ℕ, List, [], ◌∷◌, ◌++◌}

abbrev pub word : ℕ → ℕ → List ℕ
word low second = low ∷ second ∷ 0 ∷ 0 ∷ []

-- An ELF header that places one program header of 32 bytes behind it.
abbrev pub elf_header : List ℕ
elf_header =
    (0x7f ∷ 0x45 ∷ 0x4c ∷ 0x46 ∷ 1 ∷ 1 ∷ 1 ∷ 0 ∷ word 0 0)
    ++ word 0 0
    ++ (2 ∷ 0 ∷ 40 ∷ 0 ∷ word 1 0)
    ++ word 0 0
    ++ word 52 0
    ++ word 0 0
    ++ word 0 0
    ++ (52 ∷ 0 ∷ 32 ∷ 0 ∷ 1 ∷ 0 ∷ 0 ∷ 0 ∷ 0 ∷ 0 ∷ 0 ∷ 0 ∷ [])

-- Four bytes at the address whose second byte is given, from the end of the headers on.
abbrev pub image_at : ℕ → List ℕ
image_at page =
    elf_header
    ++ word 1 0
    ++ word 84 0
    ++ word 0 page
    ++ word 0 page
    ++ word 4 0
    ++ word 4 0
    ++ word 5 0
    ++ word 4 0
    ++ (1 ∷ 2 ∷ 3 ∷ 4 ∷ [])
