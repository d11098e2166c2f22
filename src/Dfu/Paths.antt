-- ===== src/Dfu/Paths.antt =====
-- Paths and names of the USB topology, for dfu.py: pathlib on absolute paths without a trailing
-- slash, and the expressions that names must match.
use ha_nrf52840_ot_rcp_updat.Base.{
  ℕ, ◌-◌, Bool, true, false, ◌&&◌, ◌||◌, List, [], ◌∷◌, ◌++◌, length, drop, all, ltb, leb, ◌==◌,
  if◌then◌else◌,
}
use ha_nrf52840_ot_rcp_updat.Models.Tokens.{is_hex, is_token, is_usb_topology}
use ha_nrf52840_ot_rcp_updat.Base.Text.{Text, codes, text_eq}

-- `parent / name`
unfoldable pub join : Text → Text → Text
join parent name = parent ++ (b'/' ∷ name)

-- `path.name`; `current` is the component read so far.
abbrev pub name_from : Text → Text → Text
name_from current [] = current
name_from current (c ∷ rest) = name_from (if c == b'/' then [] else current ++ (c ∷ [])) rest

unfoldable pub name_of : Text → Text
name_of path = name_from [] path

-- `path.parents`, the nearest first; `before` is the part of the path read so far.
abbrev pub or_root : Text → Text
or_root [] = codes "/"
or_root (c ∷ before) = c ∷ before

abbrev pub parents_from : Text → List Text → Text → List Text
parents_from before found [] = found
parents_from before found (c ∷ rest) =
    parents_from (before ++ (c ∷ [])) (if c == b'/' then or_root before ∷ found else found) rest

unfoldable pub parents_of : Text → List Text
parents_of path = if text_eq path (codes "/") then [] else parents_from [] [] path

-- `path.suffix == ".elf"`
unfoldable pub is_elf_name : Text → Bool
is_elf_name path =
    let name = name_of path in
    ltb 4 (length name) && text_eq (drop (length name - 4) name) (codes ".elf")

-- `_USB_SERIAL_RE` is `_TOKEN_RE` of models.py, and the USB path that of `_USB_TOPOLOGY_RE`.
unfoldable pub is_usb_serial : Text → Bool
is_usb_serial value = is_token value

unfoldable pub is_usb_path : Text → Bool
is_usb_path value = is_usb_topology value

-- `[0-9a-f]{4}`
unfoldable pub is_usb_id : Text → Bool
is_usb_id value = length value == 4 && all is_hex value

-- `str.strip` on ASCII texts
abbrev pub is_space : ℕ → Bool
is_space c = (leb 9 c && leb c 13) || (leb 28 c && leb c 32)

abbrev pub strip_left : Text → Text
strip_left [] = []
strip_left (c ∷ rest) = let later = strip_left rest in if is_space c then later else c ∷ rest

-- Without the spaces at the end: a space is kept only before something that is kept.
abbrev pub keep_before : ℕ → Text → Text
keep_before c [] = if is_space c then [] else c ∷ []
keep_before c (d ∷ rest) = c ∷ d ∷ rest

abbrev pub strip_right : Text → Text
strip_right [] = []
strip_right (c ∷ rest) = keep_before c (strip_right rest)

unfoldable pub strip : Text → Text
strip value = strip_right (strip_left value)

-- The order of texts, for `sorted` of paths in one directory.
abbrev pub text_lt : Text → Text → Bool
text_lt s [] = false
text_lt [] (d ∷ t) = true
text_lt (c ∷ s) (d ∷ t) = ltb c d || (c == d && text_lt s t)

abbrev pub insert_text : Text → List Text → List Text
insert_text s [] = s ∷ []
insert_text s (t ∷ ts) = let rest = insert_text s ts in if text_lt t s then t ∷ rest else s ∷ t ∷ ts

unfoldable pub sort_texts : List Text → List Text
sort_texts [] = []
sort_texts (t ∷ ts) = insert_text t (sort_texts ts)
