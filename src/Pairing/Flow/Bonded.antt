-- ===== src/Pairing/Flow/Bonded.antt =====
-- What BlueZ had exported of the device of a result, property by property.
use mathlib.Core.Bool.{false≢true}
use home_assistant_bluetooth.Prelude.{
  ℕ, ◌≡◌, ◌⊎◌, inl, inr, Bool, true, some, List, [], ◌∷◌, ◌==◌, text_eq, text_beq_iff, Text, codes,
  casefold, arith, Bool-cases, Option-cases, ok,
}
use home_assistant_bluetooth.Prelude.Dict.{get, get_or}
use home_assistant_bluetooth.Pairing.Bonds.{
  Bluez, Device, hid_service_uuid, is_hogp, any_hogp, device_properties, has_hogp, has_hogp_service,
  verify_existing_bond,
}
use home_assistant_bluetooth.Pairing.Session.{Session, Env}
use home_assistant_bluetooth.Pairing.Fresh.{PairingResult}
use home_assistant_bluetooth.Pairing.Fresh.Verified.{Checked}
use home_assistant_bluetooth.Pairing.Flow.{pair_hogp_device}
use home_assistant_bluetooth.Pairing.Flow.Verified.{
  pair_with-Confirms, rebuild_hogp_bond-Confirms, pair_once-Confirms,
}

-- The UUID of the HID-over-GATT service is in a list, in any case of letters.
abbrev pub HasHogp : List Text → Type 0
HasHogp [] = ⊥
HasHogp (uuid ∷ uuids) =
    (casefold uuid ≡ codes "00001812-0000-1000-8000-00805f9b34fb") ⊎ HasHogp uuids

-- BlueZ exports the device with a complete bond and a service object for HID over GATT.
pub record IsBonded (bluez : Bluez) (device_path : Text) : Type 0 where
  pub device : Device
  pub exported : get bluez.devices device_path ≡ some device
  pub paired : device.paired ≡ true
  pub bonded : device.bonded ≡ true
  pub resolved : device.services_resolved ≡ true
  pub announced : HasHogp device.uuids
  pub services : List Text
  pub listed : get bluez.service_uuids device_path ≡ some services
  pub object : HasHogp services

any_hogp-HasHogp : (uuids : List Text) → any_hogp uuids ≡ true → HasHogp uuids
unfolding any_hogp is_hogp
any_hogp-HasHogp [] h = absurd (false≢true h)
any_hogp-HasHogp (uuid ∷ uuids) h = elim (Bool-cases (casefold uuid == hid_service_uuid)) [
  | inl e ↦ inl ((text_beq_iff (casefold uuid) hid_service_uuid).0 e)
  | inr e ↦ inr (any_hogp-HasHogp uuids (ground (arith, e, h)))
]

exported-get :
    (bluez : Bluez) (p : Text) (d : Device)
    → device_properties bluez p ≡ ok d
    → get bluez.devices p ≡ some d
unfolding device_properties
exported-get bluez p d h = elim (Option-cases (get bluez.devices p)) [
  | inl e ↦ ground arith
  | inr (c, e) ↦ ground arith
]

-- The five facts behind an accepted bond.
accepted :
    (bluez : Bluez) (p : Text) (d : Device)
    → verify_existing_bond bluez p d ≡ ok tt
    → (d.paired ≡ true)
      × (d.bonded ≡ true)
      × (d.services_resolved ≡ true)
      × (has_hogp d ≡ true)
      × (has_hogp_service bluez p ≡ true)
unfolding verify_existing_bond
accepted bluez p d h = (ground arith, ground arith, ground arith, ground arith, ground arith)

service_objects :
    (bluez : Bluez) (p : Text)
    → has_hogp_service bluez p ≡ true
    → (services : List Text) × (get bluez.service_uuids p ≡ some services) × HasHogp services
unfolding has_hogp_service get_or
service_objects bluez p h = elim (Option-cases (get bluez.service_uuids p)) [
  | inl e ↦ absurd (none_absurd (rw (e, has_hogp_service, get_or) at h))
  | inr (services, e) ↦
      (services, e, any_hogp-HasHogp services (rw (e, has_hogp_service, get_or) at h))
]
  where
    none_absurd : any_hogp [] ≡ true → ⊥
    none_absurd k = any_hogp-HasHogp [] k

checked-IsBonded :
    (env : Env) (p : Text) (c : Checked env p) → IsBonded (env.exports c.checked_at) p
checked-IsBonded env p c =
    let bluez = env.exports c.checked_at in
    let (paired, bonded, resolved, announced, object) = accepted bluez p c.device c.bonded in
    let (services, listed, has) = service_objects bluez p object in
    record {
      device = c.device;
      exported = exported-get bluez p c.device c.exported;
      paired = paired;
      bonded = bonded;
      resolved = resolved;
      announced = any_hogp-HasHogp c.device.uuids (unfold has_hogp in announced);
      services = services;
      listed = listed;
      object = has;
    }

-- Where a pairing returns a result, of a new bond, of a usable old one or of a rebuilt one, there was a
-- moment at which BlueZ exported the device of the result as paired, bonded and with resolved services,
-- with the HID-over-GATT UUID among its UUIDs, and with a service object of that UUID.
pub pair_hogp_device-IsBonded :
    (env : Env) (address : Text) (replace_existing : Bool) (s s' : Session) (result : PairingResult)
    → pair_hogp_device env address replace_existing s ≡ (ok result, s')
    → (moment : ℕ) × IsBonded (env.exports moment) result.device_path
unfolding pair_hogp_device
pair_hogp_device-IsBonded env address replace_existing s s' result e =
    let whole =
      pair_with-Confirms env address _
        (λ t. rebuild_hogp_bond-Confirms env address _ (pair_once-Confirms env address) t)
        replace_existing s in
    let checked = rw e at whole in
    (checked.checked_at, checked-IsBonded env result.device_path checked)
