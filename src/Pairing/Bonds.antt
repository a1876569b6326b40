-- ===== src/Pairing/Bonds.antt =====
-- What BlueZ exports of the devices at one moment, and the checks of pairing.py and manager.py on it. The
-- property tables belong to bleak's BlueZManager; `Device` has the properties that the code reads.
use home_assistant_bluetooth.Prelude.{
  Bool, false, ◌||◌, not, Option, none, some, List, [], ◌∷◌, ◌==◌, text_eq, if◌then◌else◌, Text,
  codes, casefold, Result, ok, err,
}
use home_assistant_bluetooth.Prelude.Dict.{Dict, get, get_or}

-- The properties of org.bluez.Device1; a missing flag is false, a missing list is empty.
pub record Device : Type 0 where
  pub address : Text
  pub paired : Bool
  pub bonded : Bool
  pub trusted : Bool
  pub services_resolved : Bool
  pub uuids : List Text
  pub adapter : Option Text
  pub preferred_bearer : Option Text

-- `_properties` and `_service_map` of the manager: the devices by path, and the UUIDs of the service
-- objects that are exported below a device.
pub record Bluez : Type 0 where
  pub devices : Dict Text Device
  pub service_uuids : Dict Text (List Text)

-- The exception classes of pairing.py; `base_error` is PairingError itself.
pub data PairingError : Type 0 where
  base_error device_not_found rejected timed_out verification stale_bond service_pending :
      PairingError

abbrev pub hid_service_uuid : Text
hid_service_uuid = codes "00001812-0000-1000-8000-00805f9b34fb"

unfoldable pub is_hogp : Text → Bool
is_hogp uuid = casefold uuid == hid_service_uuid

unfoldable pub any_hogp : List Text → Bool
any_hogp [] = false
any_hogp (uuid ∷ uuids) = is_hogp uuid || any_hogp uuids

unfoldable pub bluez_device_path : Dict Text Device → Text → Option Text
bluez_device_path [] normalized = none
bluez_device_path ((path, device) ∷ devices) normalized =
    let rest = bluez_device_path devices normalized in
    if casefold device.address == normalized then some path else rest

-- manager.py: the first device with the address.
unfoldable pub bluez_device_path_from_address : Bluez → Text → Option Text
bluez_device_path_from_address bluez address = bluez_device_path bluez.devices (casefold address)

unfoldable pub device_properties : Bluez → Text → Result PairingError Device
device_properties bluez device_path = elim (get bluez.devices device_path) [
  | none ↦ err device_not_found
  | some device ↦ ok device
]

unfoldable pub has_hogp : Device → Bool
has_hogp device = any_hogp device.uuids

unfoldable pub has_hogp_service : Bluez → Text → Bool
has_hogp_service bluez device_path = any_hogp (get_or bluez.service_uuids device_path [])

unfoldable pub verify_existing_bond : Bluez → Text → Device → Result PairingError (Unit {0})
verify_existing_bond bluez device_path device =
    if not device.paired || not device.bonded
    then err verification
    else if not (has_hogp device)
    then err verification
    else if not device.services_resolved
    then err verification
    else if not (has_hogp_service bluez device_path)
    then err service_pending
    else ok tt
