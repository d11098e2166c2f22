-- ===== src/Updater/Allowed.antt =====
-- Which running versions updater.py agrees to replace.
use ha_nrf52840_ot_rcp_updat.Base.{
  ◌≡◌, ◌≢◌, refl, ap, sym, ◌∙◌, ◌↔◌, ◌⊎◌, inl, inr, Bool, true, false, not, ◌&&◌, ◌||◌, Option,
  none, some, Result, ok, err, ◌>>=◌, ◌>>◌, require,
}
use ha_nrf52840_ot_rcp_updat.Base.Text.{Text, text_eq, text_eq_iff}
use ha_nrf52840_ot_rcp_updat.Models.Version.{VersionKey, version_key, key_lt}
use ha_nrf52840_ot_rcp_updat.Models.Firmware.{PreparedFirmware}
use ha_nrf52840_ot_rcp_updat.Models.Ncp.{NcpVersion}
use ha_nrf52840_ot_rcp_updat.Models.Settings.{Settings}
use ha_nrf52840_ot_rcp_updat.Models.Value.{ValidationError}
use ha_nrf52840_ot_rcp_updat.Effects.{Class, update}
use ha_nrf52840_ot_rcp_updat.Updater.Checks.{
  supported_hardware, is_none, tag_is, refuse_downgrade, is_downgrade, is_legacy,
  validate_current_ncp,
}

-- The running version may be replaced: it lacks a tag, old firmware without tags is allowed, and
-- its board is unknown or the right one; or it has all tags, the board is the right one, both
-- versions are well formed, and the new one is not older unless it was selected by hand.
pub data IsAllowed (settings : Settings) (version : NcpVersion) (firmware : PreparedFirmware)
    (selected_target : Bool) : Type 0 where
  unidentified :
      is_legacy version ≡ true
      → settings.allow_legacy_rcp ≡ true
      → (version.hardware ≡ none) ⊎ (version.hardware ≡ some supported_hardware)
      → IsAllowed settings version firmware selected_target
  identified :
      {installed zephyr : Text} {target_key installed_key : VersionKey}
      → version.hardware ≡ some supported_hardware
      → version.ncs_version ≡ some installed
      → version.zephyr_version ≡ some zephyr
      → version_key firmware.ncs_version ≡ ok target_key
      → version_key installed ≡ ok installed_key
      → (key_lt target_key installed_key ≡ false) ⊎ (selected_target ≡ true)
      → IsAllowed settings version firmware selected_target

-- The outcome for a version that lacks a tag, on the answers of its tests.
legacy_iff :
    (allowed right_board : Bool)
    → ((do
      require {E = Class} (not (true && not allowed)) update
      require right_board update
      ok tt)
        ≡ ok (tt {0}))
      ↔ ((allowed ≡ true) × (right_board ≡ true))
legacy_iff true true = (λ _. (refl, refl), λ _. refl)
legacy_iff true false = (λ h. cc, λ h. cc)
legacy_iff false right_board = (λ h. cc, λ h. cc)

guard_iff :
    (older selected_target : Bool)
    → (require {E = Class} (not (older && not selected_target)) update ≡ ok tt)
      ↔ ((older ≡ false) ⊎ (selected_target ≡ true))
guard_iff true true = (λ _. inr refl, λ _. refl)
guard_iff true false = (λ h. cc, λ h. elim h [ inl e ↦ cc | inr e ↦ cc ])
guard_iff false selected_target = (λ _. inl refl, λ _. refl)

refuse_downgrade_iff :
    (selected_target : Bool) (target installed : Result ValidationError VersionKey)
    → (refuse_downgrade selected_target
          (do target_key ← target; installed_key ← installed; ok (key_lt target_key installed_key))
        ≡ ok tt)
      ↔ ((target_key : VersionKey) × (installed_key : VersionKey) × (target ≡ ok target_key)
          × (installed ≡ ok installed_key)
          × ((key_lt target_key installed_key ≡ false) ⊎ (selected_target ≡ true)))
refuse_downgrade_iff selected_target (err problem) installed = (λ h. cc, λ h. cc)
refuse_downgrade_iff selected_target (ok target_key) (err problem) = (λ h. cc, λ h. cc)
refuse_downgrade_iff selected_target (ok target_key) (ok installed_key) = (
  λ h. (
    target_key,
    installed_key,
    refl,
    refl,
    (guard_iff (key_lt target_key installed_key) selected_target).0 h,
  ),
  λ (k, j, e, e', allowed).
      let same : key_lt k j ≡ key_lt target_key installed_key = cc in
      (guard_iff (key_lt target_key installed_key) selected_target).1 (rw (sym same) allowed),
)

tag_is_iff :
    (tag : Option Text) (expected : Text) → (tag_is tag expected ≡ true) ↔ (tag ≡ some expected)
unfolding tag_is
tag_is_iff none expected = (λ h. cc, λ h. cc)
tag_is_iff (some actual) expected =
    (λ h. ap some ((text_eq_iff actual expected).0 h), λ h. (text_eq_iff actual expected).1 cc)

board_iff :
    (hardware : Option Text)
    → ((is_none hardware || tag_is hardware supported_hardware) ≡ true)
      ↔ ((hardware ≡ none) ⊎ (hardware ≡ some supported_hardware))
board_iff none = (λ _. inl refl, λ _. refl)
board_iff (some actual) = (
  λ h. inr ((tag_is_iff (some actual) supported_hardware).0 h),
  λ h. elim h [ inl e ↦ cc | inr e ↦ (tag_is_iff (some actual) supported_hardware).1 e ],
)

seq_iff :
    (test : Bool) (rest : Result Class (Unit {0}))
    → ((do require test update; rest) ≡ ok (tt {0})) ↔ ((test ≡ true) × (rest ≡ ok (tt {0})))
seq_iff true rest = (λ h. (refl, h), λ (_, h). h)
seq_iff false rest = (λ h. cc, λ h. cc)

some_injective : {x y : Text} → some x ≡ some y → x ≡ y
some_injective e = cc

true-ne-false : true ≢ false
true-ne-false e = cc

identified-is_legacy :
    (version : NcpVersion) (board installed zephyr : Text)
    → version.hardware ≡ some board
    → version.ncs_version ≡ some installed
    → version.zephyr_version ≡ some zephyr
    → is_legacy version ≡ false
unfolding is_legacy
identified-is_legacy version board installed zephyr h n z = rw (h, n, z) refl

module _ (settings : Settings) (firmware : PreparedFirmware) (selected_target : Bool) where
  legacy-IsAllowed :
      (version : NcpVersion)
      → is_legacy version ≡ true
      → (validate_current_ncp settings version firmware selected_target ≡ ok tt)
        ↔ IsAllowed settings version firmware selected_target
  unfolding validate_current_ncp
  legacy-IsAllowed version legacy = rw legacy (
    λ h.
        let tests = (legacy_iff settings.allow_legacy_rcp _).0 h in
        unidentified legacy tests.0 ((board_iff version.hardware).0 tests.1),
    λ allowed. elim allowed [
      | unidentified l a b ↦
          (legacy_iff settings.allow_legacy_rcp _).1 (a, (board_iff version.hardware).1 b)
      | identified h n z k j d ↦
          absurd (true-ne-false (sym legacy ∙ identified-is_legacy version _ _ _ h n z))
    ],
  )

  identified-IsAllowed :
      (version : NcpVersion) (board installed zephyr : Text)
      → version.hardware ≡ some board
      → version.ncs_version ≡ some installed
      → version.zephyr_version ≡ some zephyr
      → (validate_current_ncp settings version firmware selected_target ≡ ok tt)
        ↔ IsAllowed settings version firmware selected_target
  unfolding validate_current_ncp is_legacy tag_is is_downgrade
  identified-IsAllowed version board installed zephyr eh en ez =
      rw (eh, en, ez)
        (
          λ h.
              let tests = (seq_iff (text_eq board supported_hardware) _).0 h in
              let (k, j, ek, ej, d) = (refuse_downgrade_iff selected_target _ _).0 tests.1 in
              identified (ap some ((text_eq_iff board supported_hardware).0 tests.0)) refl refl ek
                ej d,
          λ allowed. elim allowed [
            | unidentified l a b ↦ absurd (true-ne-false (sym l))
            | identified h n z ek ej d ↦
                let same = some_injective n in
                (seq_iff (text_eq board supported_hardware) _).1 (
                  (text_eq_iff board supported_hardware).1 (some_injective h),
                  (refuse_downgrade_iff selected_target _ _).1
                      (_, _, ek, ap version_key same ∙ ej, d),
                )
          ],
        )

  -- The check of the running version passes exactly when it lacks a tag, old firmware is allowed
  -- and its board is unknown or the right one; or it has all tags and the right board, both NCS
  -- tags are well formed, and the new one is not older unless it was selected by hand.
  pub validate_current_ncp_iff :
      (version : NcpVersion)
      → (validate_current_ncp settings version firmware selected_target ≡ ok tt)
        ↔ IsAllowed settings version firmware selected_target
  unfolding is_legacy
  validate_current_ncp_iff version =
      by_tags version.hardware version.ncs_version version.zephyr_version refl refl refl
    where
      by_tags :
          (h n z : Option Text)
          → version.hardware ≡ h
          → version.ncs_version ≡ n
          → version.zephyr_version ≡ z
          → (validate_current_ncp settings version firmware selected_target ≡ ok tt)
            ↔ IsAllowed settings version firmware selected_target
      by_tags (some board) (some installed) (some zephyr) eh en ez =
          identified-IsAllowed version board installed zephyr eh en ez
      by_tags none n z eh en ez = legacy-IsAllowed version (rw eh refl)
      by_tags (some board) none z eh en ez = legacy-IsAllowed version (rw (eh, en) refl)
      by_tags (some board) (some installed) none eh en ez =
          legacy-IsAllowed version (rw (eh, en, ez) refl)
