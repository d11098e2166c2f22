-- ===== src/Manifest/Sorted.antt =====
-- What holds of all releases that `releases_for` of manifest.py sorts holds of all it returns, and
-- the other way round.
use ha_nrf52840_ot_rcp_updat.Base.{
  ◌≡◌, Bool, true, false, List, [], ◌∷◌, Result, ok, >>=-eq-ok, All, map, if◌then◌else◌,
}
use ha_nrf52840_ot_rcp_updat.Base.Text.{Text}
use ha_nrf52840_ot_rcp_updat.Models.Value.{ValidationError}
use ha_nrf52840_ot_rcp_updat.Models.Firmware.{FirmwareRelease}
use ha_nrf52840_ot_rcp_updat.Models.Version.{key_lt}
use ha_nrf52840_ot_rcp_updat.Manifest.Releases.{
  select_releases, Keyed, with_keys, insert_keyed, sort_keyed, releases_for,
}
use ha_nrf52840_ot_rcp_updat.Manifest.Order.{
  Selected, select_releases-Selected, with_keys-HasKey, sort_keyed-All,
}

parted :
    (P : Keyed → Type 0) (item first : Keyed) (others rest : List Keyed) (test : Bool)
    → (All P rest → P item × All P others)
    → All P (if test then first ∷ rest else item ∷ first ∷ others)
    → P item × All P (first ∷ others)
parted P item first others rest true behind all =
    let found = behind all.1 in (found.0, (all.0, found.1))
parted P item first others rest false behind all = all

insert_keyed-All_back :
    (P : Keyed → Type 0) (item : Keyed) (items : List Keyed)
    → All P (insert_keyed item items)
    → P item × All P items
unfolding insert_keyed
insert_keyed-All_back P item [] all = all
insert_keyed-All_back P item (first ∷ others) all =
    parted P item first others (insert_keyed item others) (key_lt first.key item.key)
      (insert_keyed-All_back P item others) all

sort_keyed-All_back :
    (P : Keyed → Type 0) (items : List Keyed) → All P (sort_keyed items) → All P items
unfolding sort_keyed
sort_keyed-All_back P [] all = tt
sort_keyed-All_back P (item ∷ others) all =
    let (p, ps) = insert_keyed-All_back P item (sort_keyed others) all in
    (p, sort_keyed-All_back P others ps)

module _ (P : FirmwareRelease → Type 0) where
  pub released_of :
      (items : List Keyed)
      → All (λ (item : Keyed). P item.release) items
      → All P (map (λ (item : Keyed). item.release) items)
  released_of [] all = tt
  released_of (item ∷ others) (p, ps) = (p, released_of others ps)

  pub keyed_of :
      (items : List Keyed)
      → All P (map (λ (item : Keyed). item.release) items)
      → All (λ (item : Keyed). P item.release) items
  keyed_of [] all = tt
  keyed_of (item ∷ others) (p, ps) = (p, keyed_of others ps)

-- The selection that `releases_for` has sorted.
pub record Sorted (hardware : Text) (allow : Bool) (releases found : List FirmwareRelease)
    : Type 1 where
  pub chosen : List FirmwareRelease
  pub selected : Selected hardware allow releases chosen
  pub into : (P : FirmwareRelease → Type 0) → All P chosen → All P found
  pub back : (P : FirmwareRelease → Type 0) → All P found → All P chosen

ok_list_injective :
    {x y : List FirmwareRelease}
    → ◌≡◌ {A = Result ValidationError (List FirmwareRelease)} (ok x) (ok y)
    → x ≡ y
ok_list_injective e = cc

pub releases_for-Sorted :
    (hardware : Text) (allow : Bool) (releases found : List FirmwareRelease)
    → releases_for hardware allow releases ≡ ok found
    → Sorted hardware allow releases found
unfolding releases_for
releases_for-Sorted hardware allow releases found h =
    let (chosen, e, h1) = >>=-eq-ok (select_releases hardware allow releases) _ h in
    let (keyed, f, h2) = >>=-eq-ok (with_keys chosen) _ h1 in
    let (same, keys) = with_keys-HasKey chosen keyed f in
    let eq = ok_list_injective h2 in
    record {
      chosen = chosen;
      selected = select_releases-Selected hardware allow releases chosen e;
      into = λ P all. rw⁻¹ eq (
          released_of P (sort_keyed keyed)
            (sort_keyed-All (λ item. P item.release) keyed (keyed_of P keyed (rw same all))));
      back = λ P all. rw⁻¹ same (
          released_of P keyed (
            sort_keyed-All_back (λ item. P item.release) keyed
              (keyed_of P (sort_keyed keyed) (rw eq all))));
    }
