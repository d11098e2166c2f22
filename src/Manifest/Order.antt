-- ===== src/Manifest/Order.antt =====
-- What `releases_for` of manifest.py returns: the wanted releases, all of them, the oldest first.
use ha_nrf52840_ot_rcp_updat.Base.{
  ◌≡◌, refl, ap, sym, inl, inr, Bool-cases, arith, Bool, true, false, List, [], ◌∷◌, map, Result,
  ok, if◌then◌else◌, >>=-eq-ok, All,
}
use mathlib.Core.List.{Perm}
use mathlib.Core.List.Perm
use ha_nrf52840_ot_rcp_updat.Base.Text.{Text}
use ha_nrf52840_ot_rcp_updat.Models.Value.{ValidationError}
use ha_nrf52840_ot_rcp_updat.Models.Firmware.{FirmwareRelease}
use ha_nrf52840_ot_rcp_updat.Models.Version.{VersionKey, version_key, key_lt}
use ha_nrf52840_ot_rcp_updat.Manifest.Releases.{
  is_wanted, select_releases, Keyed, with_keys, insert_keyed, sort_keyed, releases_for,
}

ok_inj : {A : Type 0} {a b : A} → Path (Result ValidationError A) (ok a) (ok b) → a ≡ b
ok_inj h = cc

-- Not smaller by the key, and under its own key.
pub NotBelow : VersionKey → Keyed → Type 0
NotBelow key item = key_lt item.key key ≡ false

pub IsOrdered : List Keyed → Type 0
IsOrdered [] = Unit
IsOrdered (item ∷ others) = All (NotBelow item.key) others × IsOrdered others

pub key_le_trans :
    (a b c : VersionKey) → key_lt b a ≡ false → key_lt c b ≡ false → key_lt c a ≡ false
unfolding key_lt
key_le_trans a b c h k = ground arith

pub key_lt-asymm : (a b : VersionKey) → key_lt a b ≡ true → key_lt b a ≡ false
unfolding key_lt
key_lt-asymm a b h = ground arith

NotBelow-weaken :
    (a b : VersionKey) (items : List Keyed)
    → key_lt b a ≡ false
    → All (NotBelow b) items
    → All (NotBelow a) items
unfolding NotBelow
NotBelow-weaken a b [] h all = tt
NotBelow-weaken a b (item ∷ others) h (first, rest) =
    (key_le_trans a b item.key h first, NotBelow-weaken a b others h rest)

insert_keyed-All :
    (P : Keyed → Type 0) (item : Keyed) (items : List Keyed)
    → P item
    → All P items
    → All P (insert_keyed item items)
unfolding insert_keyed
insert_keyed-All P item [] h all = (h, tt)
insert_keyed-All P item (first ∷ others) h (one, rest) =
    elim (Bool-cases (key_lt first.key item.key)) [
      | inl e ↦ rw e (one, insert_keyed-All P item others h rest)
      | inr e ↦ rw e (h, (one, rest))
    ]

pub sort_keyed-All :
    (P : Keyed → Type 0) (items : List Keyed) → All P items → All P (sort_keyed items)
unfolding sort_keyed
sort_keyed-All P [] all = tt
sort_keyed-All P (item ∷ others) (h, rest) =
    insert_keyed-All P item _ h (sort_keyed-All P others rest)

insert_keyed-IsOrdered :
    (item : Keyed) (items : List Keyed) → IsOrdered items → IsOrdered (insert_keyed item items)
unfolding insert_keyed IsOrdered NotBelow
insert_keyed-IsOrdered item [] ordered = (tt, tt)
insert_keyed-IsOrdered item (first ∷ others) (above, ordered) =
    elim (Bool-cases (key_lt first.key item.key)) [
      | inl e ↦ rw e (
        insert_keyed-All (NotBelow first.key) item others (key_lt-asymm _ _ e) above,
        insert_keyed-IsOrdered item others ordered,
      )
      | inr e ↦ rw e ((e, NotBelow-weaken item.key first.key others e above), (above, ordered))
    ]

sort_keyed-IsOrdered : (items : List Keyed) → IsOrdered (sort_keyed items)
unfolding sort_keyed IsOrdered
sort_keyed-IsOrdered [] = tt
sort_keyed-IsOrdered (item ∷ others) = insert_keyed-IsOrdered item _ (sort_keyed-IsOrdered others)

insert_keyed-perm :
    (item : Keyed) (items : List Keyed) → Perm (insert_keyed item items) (item ∷ items)
unfolding insert_keyed
insert_keyed-perm item [] = Perm.refl _
insert_keyed-perm item (first ∷ others) = elim (Bool-cases (key_lt first.key item.key)) [
  | inl e ↦ rw e (Perm.trans (Perm.cons first (insert_keyed-perm item others)) (Perm.swap _ _ _))
  | inr e ↦ rw e (Perm.refl _)
]

sort_keyed-perm : (items : List Keyed) → Perm (sort_keyed items) items
unfolding sort_keyed
sort_keyed-perm [] = Perm.refl _
sort_keyed-perm (item ∷ others) =
    Perm.trans (insert_keyed-perm item _) (Perm.cons item (sort_keyed-perm others))

-- The releases that the comprehension keeps, in their order.
pub data Selected (hardware : Text) (allow : Bool)
    : List FirmwareRelease → List FirmwareRelease → Type 0 where
  nothing : Selected hardware allow [] []
  keep :
      {release : FirmwareRelease} {releases chosen : List FirmwareRelease}
      → is_wanted hardware allow release ≡ ok true
      → Selected hardware allow releases chosen
      → Selected hardware allow (release ∷ releases) (release ∷ chosen)
  skip :
      {release : FirmwareRelease} {releases chosen : List FirmwareRelease}
      → is_wanted hardware allow release ≡ ok false
      → Selected hardware allow releases chosen
      → Selected hardware allow (release ∷ releases) chosen

select_one :
    (hardware : Text) (allow wanted : Bool) (release : FirmwareRelease)
    (others rest : List FirmwareRelease)
    → is_wanted hardware allow release ≡ ok wanted
    → Selected hardware allow others rest
    → Selected hardware allow (release ∷ others) (if wanted then release ∷ rest else rest)
select_one hardware allow true release others rest e h = keep e h
select_one hardware allow false release others rest e h = skip e h

pub select_releases-Selected :
    (hardware : Text) (allow : Bool) (releases chosen : List FirmwareRelease)
    → select_releases hardware allow releases ≡ ok chosen
    → Selected hardware allow releases chosen
unfolding select_releases
select_releases-Selected hardware allow [] [] h = nothing
select_releases-Selected hardware allow [] (r ∷ rs) h = cc
select_releases-Selected hardware allow (release ∷ others) chosen h =
    let (wanted, e, h1) = >>=-eq-ok (is_wanted hardware allow release) _ h in
    let (rest, f, h2) = >>=-eq-ok (select_releases hardware allow others) _ h1 in
    let same = ok_inj h2 in
    rw (sym same) (
      select_one hardware allow wanted release others rest e
        (select_releases-Selected hardware allow others rest f))

-- An item that stands under the key of its own version.
unfoldable pub HasKey : Keyed → Type 0
HasKey item = version_key item.release.ncs_version ≡ ok item.key

pub with_keys-HasKey :
    (releases : List FirmwareRelease) (items : List Keyed)
    → with_keys releases ≡ ok items
    → (map (λ (item : Keyed). item.release) items ≡ releases) × All HasKey items
unfolding with_keys HasKey
with_keys-HasKey [] [] h = (refl, tt)
with_keys-HasKey [] (r ∷ rs) h = cc
with_keys-HasKey (release ∷ others) items h =
    let (key, e, h1) = >>=-eq-ok (version_key release.ncs_version) _ h in
    let (rest, f, h2) = >>=-eq-ok (with_keys others) _ h1 in
    let (same, keyed) = with_keys-HasKey others rest f in
    let eq = ok_inj h2 in rw (sym eq) (ap (λ l. release ∷ l) same, (e, keyed))

-- When the list of releases is returned, it holds exactly the releases of this hardware that the
-- channel allows, up to order, and their version keys rise along it.
pub releases_for-IsOrdered :
    (hardware : Text) (allow : Bool) (releases found : List FirmwareRelease)
    → releases_for hardware allow releases ≡ ok found
    → (chosen : List FirmwareRelease) × (items : List Keyed) × Selected hardware allow releases
        chosen
      × Perm found chosen
      × (found ≡ map (λ (item : Keyed). item.release) items)
      × All HasKey items
      × IsOrdered items
unfolding releases_for
releases_for-IsOrdered hardware allow releases found h =
    let (chosen, e, h1) = >>=-eq-ok (select_releases hardware allow releases) _ h in
    let (keyed, f, h2) = >>=-eq-ok (with_keys chosen) _ h1 in
    let (same, keys) = with_keys-HasKey chosen keyed f in
    let eq = ok_inj h2 in
    (
      chosen,
      sort_keyed keyed,
      select_releases-Selected hardware allow releases chosen e,
      rw (sym eq, sym same) (Perm.map (λ (item : Keyed). item.release) (sort_keyed-perm keyed)),
      sym eq,
      sort_keyed-All HasKey keyed keys,
      sort_keyed-IsOrdered keyed,
    )
