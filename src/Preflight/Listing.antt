-- ===== src/Preflight/Listing.antt =====
-- The responses from which `actions` of preflight.py returns a list of actions.
use ha_nrf52840_ot_rcp_updat.Base.{◌≡◌, refl, Option, none, some, List, [], ◌∷◌, ok, >>=-eq-ok}
use ha_nrf52840_ot_rcp_updat.Base.Text.{codes}
use ha_nrf52840_ot_rcp_updat.Models.Value.{
  Value, get_field, or_null, null, bool, int, real, text, arr, obj, Items, nil, cons, Fields,
}
use ha_nrf52840_ot_rcp_updat.Preflight.Actions.{objects, unwrap, as_array, listed}

-- The array of these objects.
abbrev pub objects_of : List Fields → Items
objects_of [] = nil
objects_of (fields ∷ others) = cons (obj fields) (objects_of others)

-- A response that lists these actions: an array of objects, bare or under `data`, or under
-- `actions` where there is no `data`.
pub data IsListing (present : List Fields) (document : Value) : Type 0 where
  bare : document ≡ arr (objects_of present) → IsListing present document
  in_data :
      (fields : Fields)
      → document ≡ obj fields
      → get_field (codes "data") fields ≡ some (arr (objects_of present))
      → IsListing present document
  in_actions :
      (fields : Fields)
      → document ≡ obj fields
      → get_field (codes "data") fields ≡ none
      → get_field (codes "actions") fields ≡ some (arr (objects_of present))
      → IsListing present document

objects_sound :
    (items : Items) (present : List Fields)
    → objects items ≡ ok present
    → items ≡ objects_of present
unfolding objects
objects_sound nil [] h = refl
objects_sound nil (p ∷ ps) h = cc
objects_sound (cons (obj fields) others) present h =
    let (rest, e, h1) = >>=-eq-ok (objects others) _ h in
    let same = objects_sound others rest e in cc
objects_sound (cons null others) present h = cc
objects_sound (cons (bool b) others) present h = cc
objects_sound (cons (int n) others) present h = cc
objects_sound (cons (real w) others) present h = cc
objects_sound (cons (text t) others) present h = cc
objects_sound (cons (arr inside) others) present h = cc

objects_complete : (present : List Fields) → objects (objects_of present) ≡ ok present
unfolding objects
objects_complete [] = refl
objects_complete (fields ∷ others) = rw (objects_complete others) refl

as_array_sound :
    (document : Value) (present : List Fields)
    → as_array document ≡ ok present
    → document ≡ arr (objects_of present)
unfolding as_array
as_array_sound (arr items) present h = let same = objects_sound items present h in cc
as_array_sound null present h = cc
as_array_sound (bool b) present h = cc
as_array_sound (int n) present h = cc
as_array_sound (real w) present h = cc
as_array_sound (text t) present h = cc
as_array_sound (obj fields) present h = cc

as_array_complete : (present : List Fields) → as_array (arr (objects_of present)) ≡ ok present
unfolding as_array
as_array_complete present = objects_complete present

actions_sound :
    (fields : Fields) (present : List Fields) (found : Option Value)
    → get_field (codes "data") fields ≡ none
    → get_field (codes "actions") fields ≡ found
    → as_array (or_null found) ≡ ok present
    → IsListing present (obj fields)
actions_sound fields present none lacks e h = let impossible = as_array_sound null present h in cc
actions_sound fields present (some document) lacks e h =
    in_actions fields refl lacks (let same = as_array_sound document present h in cc)

data_sound :
    (fields : Fields) (present : List Fields) (found : Option Value)
    → get_field (codes "data") fields ≡ found
    → as_array (elim found [
      | none ↦ or_null (get_field (codes "actions") fields)
      | some document ↦ document
    ])
      ≡ ok present
    → IsListing present (obj fields)
data_sound fields present none e h = actions_sound fields present _ e refl h
data_sound fields present (some document) e h =
    in_data fields refl (let same = as_array_sound document present h in cc)

pub IsListing-sound :
    (document : Value) (present : List Fields)
    → listed document ≡ ok present
    → IsListing present document
unfolding listed unwrap
IsListing-sound (obj fields) present h = data_sound fields present _ refl h
IsListing-sound (arr items) present h = bare (as_array_sound (arr items) present h)
IsListing-sound null present h = bare (as_array_sound null present h)
IsListing-sound (bool b) present h = bare (as_array_sound (bool b) present h)
IsListing-sound (int n) present h = bare (as_array_sound (int n) present h)
IsListing-sound (real w) present h = bare (as_array_sound (real w) present h)
IsListing-sound (text t) present h = bare (as_array_sound (text t) present h)

unwrap-data :
    (fields : Fields) (document : Value)
    → get_field (codes "data") fields ≡ some document
    → unwrap (obj fields) ≡ document
unfolding unwrap
unwrap-data fields document e = rw (e, unwrap) refl

unwrap-actions :
    (fields : Fields) (document : Value)
    → get_field (codes "data") fields ≡ none
    → get_field (codes "actions") fields ≡ some document
    → unwrap (obj fields) ≡ document
unfolding unwrap
unwrap-actions fields document e f = rw (e, f, unwrap) refl

listed-bare : (present : List Fields) → listed (arr (objects_of present)) ≡ ok present
unfolding listed unwrap
listed-bare present = as_array_complete present

pub IsListing-complete :
    (document : Value) (present : List Fields)
    → IsListing present document
    → listed document ≡ ok present
unfolding listed
IsListing-complete document present (bare e) = rw e (listed-bare present)
IsListing-complete document present (in_data fields e f) =
    rw (e, unwrap-data fields _ f) (as_array_complete present)
IsListing-complete document present (in_actions fields e f g) =
    rw (e, unwrap-actions fields _ f g) (as_array_complete present)
