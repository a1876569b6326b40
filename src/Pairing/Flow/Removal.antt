-- ===== src/Pairing/Flow/Removal.antt =====
-- `async_remove_hogp_device`: nothing is held at its end, other than where a clean-up call is cancelled.
use home_assistant_bluetooth.Prelude.{inl, inr, Bool, true, false, Text, arith, Option-cases}
use home_assistant_bluetooth.Pairing.Bonds.{Device, bluez_device_path_from_address}
use home_assistant_bluetooth.Pairing.Session
use home_assistant_bluetooth.Pairing.Session.{
  Failure, pairing, dbus, timeout, other_exception, cancelled, Reply, success, failure, Request,
  start_discovery, stop_discovery, set_trusted, remove_device, requested, bus_opened, Session, Env,
  Coroutine, continue, recover, outcome_of, return, raise, ◌>>◌, try_except, try_finally,
  dbus_becomes, log, note, request, now, properties_now, open_bus, sleep, poll_hogp_service,
  wait_for_hogp_service,
}
use home_assistant_bluetooth.Pairing.Flow.{
  find_device, adapter_of, remove_found, remove_hogp_device,
}
use home_assistant_bluetooth.Pairing.Flow.Released.{
  lift-Quiet, Idle, Quiet, continue-Quiet, log-remove, properties_now-Quiet, bus_call-Quiet,
}

module _ (env : Env) (address : Text) where
  pub find_device-Quiet : (s : Session) → Idle s → Quiet (find_device env address s)
  unfolding find_device
  find_device-Quiet s i = lift-Quiet _ s i

  pub adapter_of-Quiet : (d : Device) (s : Session) → Idle s → Quiet (adapter_of env address d s)
  unfolding adapter_of
  adapter_of-Quiet d s i = lift-Quiet _ s i

  remove_found-Quiet : (p : Text) (s : Session) → Idle s → Quiet (remove_found env address p s)
  unfolding remove_found Session.◌>>=◌ ◌>>◌
  remove_found-Quiet p s i =
      continue-Quiet _ (properties_now env p s) (properties_now-Quiet env p s i) (λ d s i.
        continue-Quiet _ (adapter_of env address d s) (adapter_of-Quiet d s i) (λ a s i.
          bus_call-Quiet env (remove_device p) true s i (λ r t o. log-remove false p r t o)))

  -- A removal that starts with nothing held ends with nothing held, the bus disconnected, unless a
  -- clean-up call whose await was cancelled is the last event.
  pub remove_hogp_device-Quiet :
      (ignore_missing : Bool) (s : Session)
      → Idle s
      → Quiet (remove_hogp_device env address ignore_missing s)
  unfolding remove_hogp_device
  remove_hogp_device-Quiet ignore_missing s i =
      elim (Option-cases (bluez_device_path_from_address (now env s) address)) [
        | inl e ↦ rw (e, remove_hogp_device) (ground arith)
        | inr (p, e) ↦ rw (e, remove_hogp_device) (remove_found-Quiet p s i)
      ]
