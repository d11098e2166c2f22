-- ===== src/Models/Version/Order.antt =====
-- The Secure DFU version follows the order of the version tags.
use ha_nrf52840_ot_rcp_updat.Base.{
  ℕ, ◌+◌, ◌*◌, ◌≤◌, ◌<◌, ◌≡◌, ◌≢◌, ◌↔◌, true, Option, none, some, ok, ◌==◌, ltb, if◌then◌else◌,
  arith, >>=-eq-ok,
}
use ha_nrf52840_ot_rcp_updat.Base.Text.{Text}
use ha_nrf52840_ot_rcp_updat.Base.Parser.{int_of}
use ha_nrf52840_ot_rcp_updat.Models.Version.Grammar.{
  IsStage, IsVersion, version_text, version_parser_iff, positive-pos,
}
use ha_nrf52840_ot_rcp_updat.Models.Version.{
  stage_key, Stage, preview, rc, Version, VersionKey, key_of, version_key, key_lt, match_version,
  dfu_version_of, ncs_dfu_application_version,
}

-- A sequence number is 1 or more.
abbrev pub IsNumbered : Option (Stage × Text) → Type 0
IsNumbered none = Unit
IsNumbered (some (_, sequence)) = 1 ≤ int_of sequence

-- What the DFU version is, in numbers that the order of the keys shows.
dfu_stage_of : VersionKey → ℕ
dfu_stage_of k = if k.stage == 0 then k.sequence else if k.stage == 1 then 49 + k.sequence else 99

dfu_parts :
    (m : Version) (n : ℕ)
    → dfu_version_of m ≡ ok n
    → let k = key_of m in
      (n ≡ (k.major * 1000000 + k.minor * 1000 + k.patch) * 100 + dfu_stage_of k)
      × (k.minor ≤ 999)
      × (k.patch ≤ 999)
      × (k.stage ≤ 2)
      × (k.sequence ≤ 49)
unfolding dfu_version_of dfu_stage_of
dfu_parts m n h = ground arith

-- The numbers below the order of keys: a key whose parts are in range.
abbrev InRange : VersionKey → Type 0
InRange k =
    (k.minor ≤ 999)
    × (k.patch ≤ 999)
    × (k.stage ≤ 2)
    × (k.sequence ≤ 49)
    × (k.stage ≢ 2 → 1 ≤ k.sequence)
    × (k.stage ≡ 2 → k.sequence ≡ 0)

-- Stages: preview 1 to 49, candidates 1 to 49, the release.
stage_order :
    (a b : VersionKey)
    → InRange a
    → InRange b
    → ((if a.stage == b.stage then ltb a.sequence b.sequence else ltb a.stage b.stage) ≡ true)
      ↔ (dfu_stage_of a < dfu_stage_of b)
unfolding dfu_stage_of
stage_order a b ha hb = ground arith

dfu_stage-le : (k : VersionKey) → InRange k → dfu_stage_of k ≤ 99
unfolding dfu_stage_of
dfu_stage-le k h = ground arith

dfu_number : VersionKey → ℕ
dfu_number k = (k.major * 1000000 + k.minor * 1000 + k.patch) * 100 + dfu_stage_of k

key_order :
    (a b : VersionKey) → InRange a → InRange b → (key_lt a b ≡ true) ↔ (dfu_number a < dfu_number b)
unfolding key_lt dfu_number
key_order a b ha hb = ground (arith, stage_order a b ha hb, dfu_stage-le a ha, dfu_stage-le b hb)

match_version_lem :
    (s : Text) (m : Version) → match_version s ≡ ok m → IsVersion m × (s ≡ version_text m)
unfolding match_version
match_version_lem s m h = (version_parser_iff s m).0 (ground arith)

stage_facts :
    (pre : Option (Stage × Text))
    → IsStage pre
    → ((stage_key pre).0 ≢ 2 → 1 ≤ (stage_key pre).1)
      × ((stage_key pre).0 ≡ 2 → (stage_key pre).1 ≡ 0)
stage_facts none h = ground arith
stage_facts (some (preview, sequence)) h = ground (arith, positive-pos sequence h)
stage_facts (some (rc, sequence)) h = ground (arith, positive-pos sequence h)

-- The key of a tag that has a DFU version is in range, and determines the DFU version.
tag_facts :
    (s : Text) (k : VersionKey) (n : ℕ)
    → version_key s ≡ ok k
    → ncs_dfu_application_version s ≡ ok n
    → InRange k × (n ≡ dfu_number k)
unfolding version_key ncs_dfu_application_version dfu_number
tag_facts s k n e f =
    let (m, matched, key) = >>=-eq-ok (match_version s) _ e in
    let valid : IsVersion m = (match_version_lem s m matched).0 in
    let number : dfu_version_of m ≡ ok n = ground arith in
    ground (arith, stage_facts m.prerelease valid.stage, dfu_parts m n number)

-- Of two tags that have a Secure DFU version, the one with the smaller DFU version is the one
-- that `version_key` puts first.
pub ncs_dfu_application_version_order :
    (a b : Text) (ka kb : VersionKey) (na nb : ℕ)
    → version_key a ≡ ok ka
    → version_key b ≡ ok kb
    → ncs_dfu_application_version a ≡ ok na
    → ncs_dfu_application_version b ≡ ok nb
    → (key_lt ka kb ≡ true) ↔ (na < nb)
ncs_dfu_application_version_order a b ka kb na nb ea eb fa fb =
    let (ra, numa) = tag_facts a ka na ea fa in
    let (rb, numb) = tag_facts b kb nb eb fb in rw (numa, numb) (key_order ka kb ra rb)
