-- ===== src/Dfu/Found.antt =====
-- What dfu.py has read of a device that it takes for a bootloader, and of a port of this device.
use ha_nrf52840_ot_rcp_updat.Base.{
  ◌≡◌, refl, ◌⊎◌, inl, inr, Bool-cases, true, List, [], ◌∷◌, ◌++◌, Option, none, some, All,
  All-append,
}
use ha_nrf52840_ot_rcp_updat.Base.Text.{Text, codes, lower}
use ha_nrf52840_ot_rcp_updat.Dfu.Paths.{join, name_of, strip, text_lt, insert_text, sort_texts}
use ha_nrf52840_ot_rcp_updat.Dfu.Machine.{Flasher, Machine, Reached, listed, resolved, read}
use ha_nrf52840_ot_rcp_updat.Effects.{is_os_error, Event}
use ha_nrf52840_ot_rcp_updat.Effects.Finds.{
  Answers, Finds, Finds-pure, Finds-on_class, Finds-catch, Finds-bind, Finds-call,
}
use ha_nrf52840_ot_rcp_updat.Dfu.Flasher.{
  read_identity, has_ancestor, port_of, collect_ports, tty_ports_for_usb_device,
}

insert_text-All :
    (P : Text → Type 0) (t : Text) (ts : List Text) → P t → All P ts → All P (insert_text t ts)
insert_text-All P t [] p all = (p, tt)
insert_text-All P t (first ∷ others) p (q, qs) = elim (Bool-cases (text_lt first t)) [
  | inl e ↦ rw e (q, insert_text-All P t others p qs)
  | inr e ↦ rw e (p, (q, qs))
]

sort_texts-All : (P : Text → Type 0) (ts : List Text) → All P ts → All P (sort_texts ts)
unfolding sort_texts
sort_texts-All P [] all = tt
sort_texts-All P (t ∷ ts) (p, ps) = insert_text-All P t (sort_texts ts) p (sort_texts-All P ts ps)

abbrev pub IsEntry : Text → List Text → Type 0
IsEntry name [] = ⊥
IsEntry name (first ∷ others) = (name ≡ first) ⊎ IsEntry name others

module _ {W : Type 0} (machine : Machine W) (start : W) where
  -- The directory has been listed with this entry.
  pub record IsListed (directory : Text) (path : Text) : Type 0 where
    pub paths : List Text
    pub answered : Answers (Reached machine start) (machine.list_directory directory) paths
    pub entry : IsEntry path paths

  All-IsListed :
      (directory : Text) (paths items : List Text)
      → Answers (Reached machine start) (machine.list_directory directory) paths
      → ((path : Text) → IsEntry path items → IsEntry path paths)
      → All (IsListed directory) items
  All-IsListed directory paths [] answered among = tt
  All-IsListed directory paths (path ∷ others) answered among = (
    record { paths = paths; answered = answered; entry = among path (inl refl) },
    All-IsListed directory paths others answered (λ other h. among other (inr h)),
  )

  pub Answers-IsListed :
      (directory : Text) (paths : List Text)
      → Answers (Reached machine start) (machine.list_directory directory) paths
      → All (IsListed directory) paths
  Answers-IsListed directory paths answered = All-IsListed directory paths paths answered (λ _ h. h)

  -- A device on the USB bus whose identity was read as this one.
  pub record IsIdentified (bus : Text) (physical_path vid_pid : Text) : Type 0 where
    pub candidate : Text
    pub vendor : Text
    pub product : Text
    pub listed : IsListed bus candidate
    pub resolved : Answers (Reached machine start) (machine.resolve candidate) physical_path
    pub vendor_read :
        Answers
          (Reached machine start)
          (machine.read_text (join physical_path (codes "idVendor")))
          vendor
    pub product_read :
        Answers
          (Reached machine start)
          (machine.read_text (join physical_path (codes "idProduct")))
          product
    pub identity : vid_pid ≡ lower (strip vendor) ++ (b':' ∷ lower (strip product))

  abbrev pub MayIdentified : Text → Option (Text × Text) → Type 0
  MayIdentified bus none = Unit
  MayIdentified bus (some (physical_path, vid_pid)) = IsIdentified bus physical_path vid_pid

  -- The serial number that was read of a device.
  pub record IsSerialOf (physical_path serial : Text) : Type 0 where
    pub content : Text
    pub content_read :
        Answers
          (Reached machine start)
          (machine.read_text (join physical_path (codes "serial")))
          content
    pub stripped : serial ≡ strip content

  -- A serial port that was resolved to lie under the device.
  pub record IsPortOf (flasher : Flasher) (physical_path port : Text) : Type 0 where
    pub tty_path : Text
    pub node : Text
    pub listed : IsListed flasher.sys_class_tty tty_path
    pub resolved :
        Answers (Reached machine start) (machine.resolve (join tty_path (codes "device"))) node
    pub under : has_ancestor machine flasher physical_path node ≡ true
    pub named : port ≡ join flasher.dev_directory (name_of tty_path)

  module _ (flasher : Flasher) where
    pub read_identity-Finds :
        {I : List Event → Type 0} (candidate : Text)
        → IsListed flasher.sys_bus_usb candidate
        → Finds
            (Reached machine start)
            I
            (MayIdentified flasher.sys_bus_usb)
            (read_identity machine flasher candidate)
    unfolding read_identity
    read_identity-Finds candidate is_listed =
        Finds-catch _ _
          (Finds-bind _ _ (Finds-call (machine.resolve candidate) (λ _. resolved candidate))
            (λ physical_path r.
              Finds-bind _ _ (Finds-call _ (λ _. read (join physical_path (codes "idVendor"))))
                (λ vendor v.
                  Finds-bind _ _ (Finds-call _ (λ _. read (join physical_path (codes "idProduct"))))
                    (λ product p. Finds-pure _ (record {
                      candidate = candidate;
                      vendor = vendor;
                      product = product;
                      listed = is_listed;
                      resolved = r;
                      vendor_read = v;
                      product_read = p;
                      identity = refl;
                    })))))
          (λ failure. Finds-on_class is_os_error _ failure (Finds-pure none tt))

    module _ (physical_path : Text) where
      port_of-Finds :
          {I : List Event → Type 0} (tty_path : Text)
          → IsListed flasher.sys_class_tty tty_path
          → Finds
              (Reached machine start)
              I
              (All (IsPortOf flasher physical_path))
              (port_of machine flasher physical_path tty_path)
      unfolding port_of
      port_of-Finds tty_path is_listed =
          Finds-catch _ _
            (Finds-bind _ _
              (Finds-call (machine.resolve (join tty_path (codes "device")))
                (λ _. resolved (join tty_path (codes "device"))))
              (λ node r.
                Finds-pure _ (elim (Bool-cases (has_ancestor machine flasher physical_path node)) [
                  | inl e ↦ rw e (
                    record {
                      tty_path = tty_path;
                      node = node;
                      listed = is_listed;
                      resolved = r;
                      under = e;
                      named = refl;
                    },
                    tt,
                  )
                  | inr e ↦ rw e tt
                ])))
            (λ failure. Finds-on_class is_os_error _ failure (Finds-pure [] tt))

      collect_ports-Finds :
          {I : List Event → Type 0} (tty_paths : List Text)
          → All (IsListed flasher.sys_class_tty) tty_paths
          → Finds
              (Reached machine start)
              I
              (All (IsPortOf flasher physical_path))
              (collect_ports machine flasher physical_path tty_paths)
      unfolding collect_ports
      collect_ports-Finds [] all = Finds-pure [] tt
      collect_ports-Finds (tty_path ∷ others) (is_listed, all) =
          Finds-bind _ _ (port_of-Finds tty_path is_listed) (λ port p.
            Finds-bind _ _ (collect_ports-Finds others all)
              (λ ports ps. Finds-pure _ (All-append _ port ports p ps)))

      pub tty_ports_for_usb_device-Finds :
          {I : List Event → Type 0}
          → Finds
              (Reached machine start)
              I
              (All (IsPortOf flasher physical_path))
              (tty_ports_for_usb_device machine flasher physical_path)
      unfolding tty_ports_for_usb_device
      tty_ports_for_usb_device-Finds =
          Finds-bind _ _
            (Finds-call (machine.list_directory flasher.sys_class_tty)
              (λ _. listed flasher.sys_class_tty))
            (λ tty_paths answered.
              Finds-bind _ _
                (collect_ports-Finds tty_paths
                  (Answers-IsListed flasher.sys_class_tty tty_paths answered))
                (λ ports all. Finds-pure _ (sort_texts-All _ ports all)))
