-- ===== src/Dfu/Matched.antt =====
-- The devices that dfu.py finds are those that the selector asks for.
use mathlib.Core.Path.{subst}
use ha_nrf52840_ot_rcp_updat.Base.{
  ◌≡◌, refl, All, Bool-cases, inl, inr, true, ◌&&◌, &&_iff, List, [], ◌∷◌, Option, none, some,
}
use ha_nrf52840_ot_rcp_updat.Base.Text.{Text, codes, text_eq, text_eq_iff}
use ha_nrf52840_ot_rcp_updat.Dfu.Target.{DfuTarget, DfuSelector}
use ha_nrf52840_ot_rcp_updat.Dfu.Paths.{join, name_of, is_usb_serial, strip}
use ha_nrf52840_ot_rcp_updat.Dfu.Machine.{Flasher, Machine, Reached, listed, read}
use ha_nrf52840_ot_rcp_updat.Effects.{is_os_error, Event}
use ha_nrf52840_ot_rcp_updat.Effects.Finds.{
  Finds, Finds-pure, Finds-if, Finds-on_class, Finds-catch, Finds-bind, Finds-call,
}
use ha_nrf52840_ot_rcp_updat.Dfu.Found.{
  IsListed, Answers-IsListed, IsIdentified, MayIdentified, IsSerialOf, IsPortOf,
  read_identity-Finds,
}
use ha_nrf52840_ot_rcp_updat.Dfu.Flasher.{
  dfu_vid_pid, fits, is_wanted_device, add_target, checked_serial, read_usb_serial, with_serial,
  admit, add_found, match_targets, matching_dfu_targets,
}

-- The port, where there is one, was found under this device.
abbrev pub MayPortOf : {W : Type 0} → Machine W → W → Flasher → Text → Option Text → Type 0
MayPortOf machine start flasher physical_path none = Unit {0}
MayPortOf machine start flasher physical_path (some port) =
    IsPortOf machine start flasher physical_path port

-- The target is a device that was found on the bus with the identity of the bootloader, that the
-- selector asks for, and whose serial number was read from it and is of the accepted form.
pub record IsSelected {W : Type 0} (machine : Machine W) (start : W) (flasher : Flasher)
    (selector : DfuSelector) (target : DfuTarget) : Type 0 where
  pub found :
      IsIdentified machine start flasher.sys_bus_usb target.physical_path (codes "1915:521f")
  pub live_path : fits selector.physical_path target.physical_path ≡ true
  pub usb_path : fits selector.usb_path (name_of target.physical_path) ≡ true
  pub serial : fits selector.serial_number target.serial_number ≡ true
  pub serial_read : IsSerialOf machine start target.physical_path target.serial_number
  pub well_formed : is_usb_serial target.serial_number ≡ true
  pub port : MayPortOf machine start flasher target.physical_path target.serial_port

abbrev pub AreSelected :
    {W : Type 0} → Machine W → W → Flasher → DfuSelector → List DfuTarget → Type 0
AreSelected machine start flasher selector = All (IsSelected machine start flasher selector)

abbrev pub MaySelected :
    {W : Type 0} → Machine W → W → Flasher → DfuSelector → Option DfuTarget → Type 0
MaySelected machine start flasher selector none = Unit {0}
MaySelected machine start flasher selector (some target) =
    IsSelected machine start flasher selector target

-- A serial number that was read of the device and is of the accepted form.
abbrev MaySerial : {W : Type 0} → Machine W → W → Text → Option Text → Type 0
MaySerial machine start physical_path none = Unit {0}
MaySerial machine start physical_path (some serial) =
    IsSerialOf machine start physical_path serial × (is_usb_serial serial ≡ true)

add_target-All :
    (P : DfuTarget → Type 0) (found : List DfuTarget) (target : DfuTarget)
    → All P found
    → P target
    → All P (add_target found target)
unfolding add_target
add_target-All P [] target h t = (t, tt)
add_target-All P (first ∷ others) target (h, hs) t =
    elim (Bool-cases (text_eq first.physical_path target.physical_path)) [
      | inl e ↦ rw e (h, hs)
      | inr e ↦ rw e (h, add_target-All P others target hs t)
    ]

module _ {W : Type 0} (machine : Machine W) (start : W) (flasher : Flasher) where
  checked_serial-MaySerial :
      (path serial : Text)
      → IsSerialOf machine start path serial
      → MaySerial machine start path (checked_serial machine flasher serial)
  checked_serial-MaySerial path serial h = elim (Bool-cases (is_usb_serial serial)) [
    | inl e ↦ rw e (h, e)
    | inr e ↦ rw e tt
  ]

  read_usb_serial-Finds :
      {I : List Event → Type 0} (path : Text)
      → Finds
          (Reached machine start)
          I
          (MaySerial machine start path)
          (read_usb_serial machine flasher path)
  unfolding read_usb_serial
  read_usb_serial-Finds path =
      Finds-catch _ _
        (Finds-bind _ _
          (Finds-call (machine.read_text (join path (codes "serial")))
            (λ _. read (join path (codes "serial"))))
          (λ content found. Finds-pure _ (
            checked_serial-MaySerial path (strip content)
              (record { content = content; content_read = found; stripped = refl }))))
        (λ failure. Finds-on_class is_os_error _ failure (Finds-pure none tt))

  module _ (selector : DfuSelector) where
    with_serial-MaySelected :
        (physical_path : Text) (serial : Option Text)
        → IsIdentified machine start flasher.sys_bus_usb physical_path (codes "1915:521f")
        → fits selector.physical_path physical_path ≡ true
        → fits selector.usb_path (name_of physical_path) ≡ true
        → MaySerial machine start physical_path serial
        → MaySelected machine start flasher selector
            (with_serial machine flasher selector physical_path serial)
    with_serial-MaySelected physical_path none found live usb h = tt
    with_serial-MaySelected physical_path (some serial) found live usb h =
        elim (Bool-cases (fits selector.serial_number serial)) [
          | inl e ↦ rw e (record {
            found = found;
            live_path = live;
            usb_path = usb;
            serial = e;
            serial_read = h.0;
            well_formed = h.1;
            port = tt;
          })
          | inr e ↦ rw e tt
        ]

    admit-Finds :
        {I : List Event → Type 0} (identity : Option (Text × Text))
        → MayIdentified machine start flasher.sys_bus_usb identity
        → Finds
            (Reached machine start)
            I
            (MaySelected machine start flasher selector)
            (admit machine flasher selector identity)
    unfolding admit is_wanted_device
    admit-Finds none found = Finds-pure none tt
    admit-Finds (some (physical_path, vid_pid)) found =
        Finds-if
          (text_eq vid_pid dfu_vid_pid
            && fits selector.physical_path physical_path
            && fits selector.usb_path (name_of physical_path))
          _ _
          (λ wanted.
            let parts = (&&_iff _ (fits selector.usb_path (name_of physical_path))).0 wanted in
            let first = (&&_iff (text_eq vid_pid dfu_vid_pid) _).0 parts.0 in
            let same = (text_eq_iff vid_pid dfu_vid_pid).0 first.0 in
            Finds-bind _ _ (read_usb_serial-Finds physical_path) (λ serial h. Finds-pure _ (
              with_serial-MaySelected physical_path serial
                (subst
                  (λ identity.
                    IsIdentified machine start flasher.sys_bus_usb physical_path identity)
                  same found)
                first.1 parts.1 h)))
          (λ _. Finds-pure none tt)

    add_found-AreSelected :
        (found : List DfuTarget) (target : Option DfuTarget)
        → AreSelected machine start flasher selector found
        → MaySelected machine start flasher selector target
        → AreSelected machine start flasher selector (add_found machine flasher found target)
    add_found-AreSelected found none h t = h
    add_found-AreSelected found (some target) h t = add_target-All _ found target h t

    match_targets-Finds :
        {I : List Event → Type 0} (candidates : List Text) (found : List DfuTarget)
        → All (IsListed machine start flasher.sys_bus_usb) candidates
        → AreSelected machine start flasher selector found
        → Finds
            (Reached machine start)
            I
            (AreSelected machine start flasher selector)
            (match_targets machine flasher selector found candidates)
    unfolding match_targets
    match_targets-Finds [] found on_bus h = Finds-pure found h
    match_targets-Finds (candidate ∷ candidates) found (on_bus, others) h =
        Finds-bind _ _ (read_identity-Finds machine start flasher candidate on_bus) (λ identity i.
          Finds-bind _ _ (admit-Finds identity i) (λ target t.
            match_targets-Finds candidates (add_found machine flasher found target) others
              (add_found-AreSelected found target h t)))

    pub matching_dfu_targets-Finds :
        {I : List Event → Type 0}
        → Finds
            (Reached machine start)
            I
            (AreSelected machine start flasher selector)
            (matching_dfu_targets machine flasher selector)
    unfolding matching_dfu_targets
    matching_dfu_targets-Finds =
        Finds-bind _ _
          (Finds-call (machine.list_directory flasher.sys_bus_usb)
            (λ _. listed flasher.sys_bus_usb))
          (λ candidates answered.
            match_targets-Finds candidates []
              (Answers-IsListed machine start flasher.sys_bus_usb candidates answered) tt)
