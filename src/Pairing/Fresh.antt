-- ===== src/Pairing/Fresh.antt =====
-- `async_pair_hogp_device` of pairing.py from the opened bus on: the pairing of a remote that has no bond.
pub mod Traces
pub mod Leftovers
pub mod Ends
pub mod Mid
pub mod Finishing
pub mod Body
pub mod CleanUp
pub mod Verified
use home_assistant_bluetooth.Prelude.{
  ℕ, suc, Bool, true, false, ◌&&◌, ◌||◌, not, Option, none, some, List, [], ◌∷◌, ◌==◌, text_eq,
  if◌then◌else◌, Text, codes, Result, ok, err,
}
use home_assistant_bluetooth.Pairing.Bonds.{
  Bluez, Device, PairingError, base_error, rejected, timed_out, verification, service_pending,
  verify_existing_bond,
}
use home_assistant_bluetooth.Pairing.Session.{
  Failure, pairing, dbus, timeout, Reply, Request, start_discovery, stop_discovery,
  set_preferred_bearer, set_trusted, pair, register_agent, request_default_agent, unregister_agent,
  remove_device, exported, unexported, disconnected, Session, Env, Coroutine, return, raise, ◌>>=◌,
  ◌>>◌, try_except, try_finally, dbus_becomes, swallow, note, request, now, properties_now,
  open_bus, wait_for_hogp_service,
}

pub record PairingResult : Type 0 where
  pub device_path : Text
  pub already_paired : Bool

-- _BLUEZ_REJECTED_ERRORS
unfoldable pub is_rejection : Text → Bool
is_rejection name =
    name == codes "org.bluez.Error.AuthenticationCanceled"
    || name == codes "org.bluez.Error.AuthenticationFailed"
    || name == codes "org.bluez.Error.AuthenticationRejected"
    || name == codes "org.bluez.Error.Rejected"

-- The class for a BleakDBusError of Device1.Pair.
unfoldable pub pairing_failure : Text → Text → PairingError
pairing_failure name details =
    if is_rejection name
    then rejected
    else if name == codes "org.bluez.Error.AuthenticationTimeout"
    then timed_out
    else if name == codes "org.bluez.Error.ConnectionAttemptFailed"
        && details == codes "Page Timeout"
    then timed_out
    else verification

unfoldable pub mark_discovery : Coroutine (Unit {0})
mark_discovery s = (ok tt, record s { discovery_started = true })

unfoldable pub mark_agent : Coroutine (Unit {0})
mark_agent s = (ok tt, record s { agent_registered = true })

unfoldable pub mark_pair : Coroutine (Unit {0})
mark_pair s = (ok tt, record s { pair_started = true })

-- `initial_properties.get("PreferredBearer") not in (None, "le")`
unfoldable pub needs_le : Device → Bool
needs_le device = elim (device.preferred_bearer) [
  | none ↦ false
  | some bearer ↦ not (bearer == codes "le")
]

-- `finally`: agent and discovery are released whatever the failures of the calls before.
unfoldable pub unexport_and_disconnect : Coroutine (Unit {0})
unexport_and_disconnect s = (ok tt, note disconnected (note unexported s))

module _ (env : Env) where
  -- A call whose BleakDBusError becomes PairingError.
  unfoldable pub checked_request : Request → Coroutine (Unit {0})
  checked_request r = try_except (request env r) (λ f. raise (dbus_becomes base_error f))

  unfoldable pub prefer_le : Text → Device → Coroutine (Unit {0})
  prefer_le device_path initial s =
      if needs_le (env.reread s.time initial)
      then checked_request (set_preferred_bearer device_path) s
      else (ok tt, s)

  -- The `except` clauses of Device1.Pair: the error to report, or the failure that goes on.
  unfoldable pub attempt_error : Text → Failure → Coroutine (Option PairingError)
  attempt_error device_path timeout =
      properties_now env device_path >>= λ d. return (some timed_out)
  attempt_error device_path (dbus name details) = return (some (pairing_failure name details))
  attempt_error device_path f = raise f

  unfoldable pub attempt : Text → Coroutine (Option PairingError)
  attempt device_path =
      try_except (request env (pair device_path) >> return none) (attempt_error device_path)

  unfoldable pub verified : Text → Device → Coroutine (Unit {0})
  verified device_path device s = elim (verify_existing_bond (now env s) device_path device) [
    | ok u ↦ (ok tt, s)
    | err e ↦ (err (pairing e), s)
  ]

  -- `with suppress(TimeoutError)`
  unfoldable pub forget_timeout : Failure → Coroutine (Unit {0})
  forget_timeout timeout = return tt
  forget_timeout f = raise f

  unfoldable pub finishing : Text → Coroutine (Unit {0})
  finishing device_path =
      try_except (wait_for_hogp_service env device_path) forget_timeout
      >> (properties_now env device_path >>= λ device.
          (verified device_path device >> request env (set_trusted device_path)))

  -- The `except` clauses behind the verification; a pending service keeps the bond.
  unfoldable pub settle : Failure → Coroutine (Option PairingError)
  settle (pairing service_pending) s =
      (ok (some service_pending), record s { pair_complete = true })
  settle (pairing e) s = (ok (some e), s)
  settle (dbus name details) s = (ok (some verification), s)
  settle f s = (err f, s)

  unfoldable pub finish : Text → Option PairingError → Coroutine (Option PairingError)
  finish device_path (some e) = return (some e)
  finish device_path none = try_except (finishing device_path >> return none) settle

  unfoldable pub conclude : Text → Option PairingError → Coroutine PairingResult
  conclude device_path (some e) s = (err (pairing e), s)
  conclude device_path none s = (
    ok (record { device_path = device_path; already_paired = false }),
    record s { pair_complete = true },
  )

  unfoldable pub fresh_body : Text → Text → Device → Coroutine PairingResult
  fresh_body device_path adapter_path initial =
      checked_request (start_discovery adapter_path)
      >> (mark_discovery
          >> (prefer_le device_path initial
              >> (checked_request register_agent
                  >> (mark_agent
                      >> (checked_request request_default_agent
                          >> (mark_pair
                              >> (attempt device_path >>= λ error.
                                  (finish device_path error >>= conclude device_path))))))))

  -- A call of the clean-up, where a flag asks for it.
  unfoldable pub released : Request → Bool → Coroutine (Unit {0})
  released r true = try_except (request env r) swallow
  released r false = return tt

  -- The bond of an attempt that did not complete.
  unfoldable pub drop_bond : Text → Coroutine (Unit {0})
  drop_bond device_path s =
      released (remove_device device_path) (s.pair_started && not s.pair_complete) s

  unfoldable pub drop_agent : Coroutine (Unit {0})
  drop_agent s = released unregister_agent s.agent_registered s

  unfoldable pub drop_discovery : Text → Coroutine (Unit {0})
  drop_discovery adapter_path s = released (stop_discovery adapter_path) s.discovery_started s

  unfoldable pub fresh_clean_up : Text → Text → Coroutine (Unit {0})
  fresh_clean_up device_path adapter_path =
      drop_bond device_path
      >> (drop_agent >> (drop_discovery adapter_path >> unexport_and_disconnect))

  -- The local flags before the `try`, and the exported agent.
  unfoldable pub prepare : Coroutine (Unit {0})
  prepare s = (
    ok tt,
    record (note exported s) {
      agent_registered = false;
      discovery_started = false;
      pair_started = false;
      pair_complete = false;
    },
  )

  unfoldable pub pair_fresh : Text → Text → Device → Coroutine PairingResult
  pair_fresh device_path adapter_path initial =
      open_bus env
      >> (prepare
          >> try_finally (fresh_body device_path adapter_path initial)
              (fresh_clean_up device_path adapter_path))
