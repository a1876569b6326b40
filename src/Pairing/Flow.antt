-- ===== src/Pairing/Flow.antt =====
-- The entry points of pairing.py: `async_remove_hogp_device`, `async_rebuild_hogp_bond` and
-- `async_pair_hogp_device`.
pub mod Released
pub mod Returned
pub mod Removal
pub mod Pairs
pub mod Entry
pub mod Rebuilds
pub mod Verified
pub mod Bonded
use home_assistant_bluetooth.Prelude.{
  ℕ, zero, suc, Bool, true, false, ◌&&◌, ◌||◌, not, Option, none, some, List, [], ◌∷◌,
  if◌then◌else◌, Text, Result, ok, err,
}
use home_assistant_bluetooth.Pairing.Bonds.{
  Bluez, Device, PairingError, base_error, device_not_found, timed_out, verification, stale_bond,
  service_pending, bluez_device_path_from_address, device_properties, verify_existing_bond,
}
use home_assistant_bluetooth.Pairing.Session.{
  Failure, pairing, timeout, Request, start_discovery, set_trusted, remove_device, disconnected,
  Session, Env, Coroutine, continue, return, raise, ◌>>=◌, ◌>>◌, try_except, try_finally, note, now,
  properties_now, open_bus, sleep, wait_for_hogp_service,
}
use home_assistant_bluetooth.Pairing.Fresh.{
  PairingResult, checked_request, mark_discovery, drop_discovery, pair_fresh, verified,
}

-- `except TimeoutError as err: raise e from err`
unfoldable pub timeout_becomes : PairingError → Failure → Failure
timeout_becomes e timeout = pairing e
timeout_becomes e f = f

unfoldable pub disconnect : Coroutine (Unit {0})
disconnect s = (ok tt, note disconnected s)

-- `discovery_started = False` before the `try` of the rebuild.
unfoldable pub no_discovery : Coroutine (Unit {0})
no_discovery s = (ok tt, record s { discovery_started = false })

abbrev pub found_or : PairingError → Option Text → Result PairingError Text
found_or e none = err e
found_or e (some path) = ok path

abbrev pub lift_error : {A : Type 0} → Result PairingError A → Session → Result Failure A × Session
lift_error (ok a) s = (ok a, s)
lift_error (err e) s = (err (pairing e), s)

module _ (env : Env) (address : Text) where
  -- bluez_device_path_from_address, and PairingDeviceNotFoundError where there is none.
  unfoldable pub find_device : Coroutine Text
  find_device s =
      lift_error (found_or device_not_found (bluez_device_path_from_address (now env s) address)) s

  -- `properties.get("Adapter")`
  unfoldable pub adapter_of : Device → Coroutine Text
  adapter_of device s = lift_error (found_or verification device.adapter) s

  -- `async_remove_hogp_device` for a device that is there.
  unfoldable pub remove_found : Text → Coroutine Bool
  remove_found device_path = properties_now env device_path >>= λ device.
      (adapter_of device >>= λ adapter_path.
      (open_bus env
        >> (try_finally (checked_request env (remove_device device_path)) disconnect
            >> return true)))

  -- async_remove_hogp_device(address, ignore_missing=…)
  unfoldable pub remove_hogp_device : Bool → Coroutine Bool
  remove_hogp_device ignore_missing s = elim (bluez_device_path_from_address (now env s) address) [
    | some device_path ↦ remove_found device_path s
    | none ↦ if ignore_missing then (ok false, s) else (err (pairing device_not_found), s)
  ]

  -- The remote is exported again, with no bond.
  unfoldable pub is_fresh : Bluez → Result PairingError Bool
  is_fresh bluez = elim (bluez_device_path_from_address bluez address) [
    | none ↦ ok false
    | some device_path ↦ elim (device_properties bluez device_path) [
      | err e ↦ err e
      | ok device ↦ ok (not device.paired && not device.bonded)
    ]
  ]

  unfoldable pub poll_direct_device : ℕ → Coroutine (Unit {0})
  poll_direct_device zero s = elim (is_fresh (now env s)) [
    | err e ↦ (err (pairing e), s)
    | ok true ↦ (ok tt, s)
    | ok false ↦ (err timeout, s)
  ]
  poll_direct_device (suc n) s = elim (is_fresh (now env s)) [
    | err e ↦ (err (pairing e), s)
    | ok true ↦ (ok tt, s)
    | ok false ↦ continue (λ u. poll_direct_device n) (sleep env s)
  ]

  -- `_async_wait_for_direct_device`; its path is looked up again by the pairing.
  unfoldable pub wait_for_direct_device : Coroutine (Unit {0})
  wait_for_direct_device =
      try_except (poll_direct_device env.polls) (λ f. raise (timeout_becomes timed_out f))

  unfoldable pub rebuild_body : Text → Text → Coroutine (Unit {0})
  rebuild_body device_path adapter_path =
      checked_request env (start_discovery adapter_path)
      >> (mark_discovery
          >> (checked_request env (remove_device device_path) >> wait_for_direct_device))

  unfoldable pub rebuild_clean_up : Text → Coroutine (Unit {0})
  rebuild_clean_up adapter_path = drop_discovery env adapter_path >> disconnect

  -- `async_rebuild_hogp_bond`; `again` is its call of `async_pair_hogp_device`.
  unfoldable pub rebuild_hogp_bond : Coroutine PairingResult → Coroutine PairingResult
  rebuild_hogp_bond again = find_device >>= λ device_path.
      (properties_now env device_path >>= λ device.
      (adapter_of device >>= λ adapter_path.
      (open_bus env
        >> (no_discovery
            >> (try_finally (rebuild_body device_path adapter_path) (rebuild_clean_up adapter_path)
                >> again)))))

  -- The bond of an initially paired device: `ok true` asks for a rebuild.
  unfoldable pub pending_bond : Text → Bool → Coroutine Bool
  pending_bond device_path true s = (ok true, s)
  pending_bond device_path false s =
      (try_except (wait_for_hogp_service env device_path)
            (λ f. raise (timeout_becomes service_pending f))
          >> (properties_now env device_path >>= λ device.
              (verified env device_path device >> return false)))
        s

  unfoldable pub check_bond : Text → Device → Bool → Coroutine Bool
  check_bond device_path device replace_existing s =
      elim (verify_existing_bond (now env s) device_path device) [
        | ok u ↦ (ok false, s)
        | err service_pending ↦ pending_bond device_path replace_existing s
        | err verification ↦
            if replace_existing then (ok true, s) else (err (pairing stale_bond), s)
        | err e ↦ (err (pairing e), s)
      ]

  unfoldable pub already : Text → Coroutine PairingResult
  already device_path = return (record { device_path = device_path; already_paired = true })

  -- A usable bond: it is trusted, where it was not.
  unfoldable pub trust_bond : Text → Device → Coroutine PairingResult
  trust_bond device_path device s =
      if (env.reread s.time device).trusted
      then already device_path s
      else (open_bus env
            >> (try_finally (checked_request env (set_trusted device_path)) disconnect
                >> already device_path))
          s

  unfoldable pub after_check :
      Coroutine PairingResult → Text → Device → Bool → Coroutine PairingResult
  after_check rebuild device_path device true = rebuild
  after_check rebuild device_path device false = trust_bond device_path device

  -- `async_pair_hogp_device`; `rebuild` is its call of `async_rebuild_hogp_bond`.
  unfoldable pub pair_found :
      Coroutine PairingResult → Bool → Text → Device → Coroutine PairingResult
  pair_found rebuild replace_existing device_path device s =
      if device.paired || device.bonded
      then (check_bond device_path device replace_existing
            >>= after_check rebuild device_path device)
          s
      else (adapter_of device >>= λ adapter_path. pair_fresh env device_path adapter_path device) s

  unfoldable pub pair_with : Coroutine PairingResult → Bool → Coroutine PairingResult
  pair_with rebuild replace_existing = find_device >>= λ device_path.
      (properties_now env device_path >>= λ device.
      pair_found rebuild replace_existing device_path device)

  -- async_pair_hogp_device(address), which never asks for a rebuild (Flow/Rebuilds).
  unfoldable pub pair_once : Coroutine PairingResult
  pair_once = pair_with (raise (pairing base_error)) false

  -- async_pair_hogp_device(address, replace_existing=…)
  unfoldable pub pair_hogp_device : Bool → Coroutine PairingResult
  pair_hogp_device replace_existing = pair_with (rebuild_hogp_bond pair_once) replace_existing
