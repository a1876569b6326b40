-- ===== src/Pairing/Flow/Entry.antt =====
-- What `async_pair_hogp_device` leaves behind, with or without a rebuild of the bond.
use home_assistant_bluetooth.Prelude.{
  inl, inr, Bool, true, false, ◌||◌, Text, arith, Bool-cases, Result, ok, err,
}
use home_assistant_bluetooth.Pairing.Bonds.{Device}
use home_assistant_bluetooth.Pairing.Session
use home_assistant_bluetooth.Pairing.Session.{
  Failure, bus_opened, Session, Env, Coroutine, continue, return, ◌>>◌, try_finally, log, now,
  properties_now, open_bus,
}
use home_assistant_bluetooth.Pairing.Fresh.{PairingResult}
use home_assistant_bluetooth.Pairing.Fresh.CleanUp.{IsReleased, pair_fresh-IsReleased}
use home_assistant_bluetooth.Pairing.Flow.Returned.{IsGivenBack, given_back}
use home_assistant_bluetooth.Pairing.Flow.{
  find_device, adapter_of, rebuild_body, rebuild_hogp_bond, check_bond, trust_bond, after_check,
  pair_found, pair_with, pair_once, pair_hogp_device, no_discovery,
}
use home_assistant_bluetooth.Pairing.Flow.Released.{
  Idle, Quiet, Open, Flagged, Idle-Released, continue-Released, opened-Open, properties_now-Quiet,
}
use home_assistant_bluetooth.Pairing.Flow.Removal.{find_device-Quiet, adapter_of-Quiet}
use home_assistant_bluetooth.Pairing.Flow.Pairs.{
  trust_bond-Quiet, check_bond-Quiet, open_bus-Released, rebuild_body-Flagged, body-Quiet,
}

module _ (env : Env) (address : Text) where
  no_discovery-Flagged : (s : Session) → Open false s → Flagged (no_discovery s).1
  unfolding no_discovery
  no_discovery-Flagged s o = ground arith

  trust_bond-IsReleased :
      (p : Text) (d : Device) (s : Session) → Idle s → IsReleased (trust_bond env address p d s)
  trust_bond-IsReleased p d s i =
      settled (trust_bond env address p d s) (trust_bond-Quiet env address p d s i)
    where
      settled : (r : Result Failure PairingResult × Session) → Quiet r → IsReleased r
      settled (ok a, s) i = Idle-Released (ok a) s i
      settled (err e, s) (inl i) = Idle-Released (err e) s i
      settled (err e, s) (inr b) = inr b

  module _ (rebuild : Coroutine PairingResult)
      (rebuilt : (s : Session) → Idle s → IsReleased (rebuild s)) where
    after_check-IsReleased :
        (p : Text) (d : Device) (b : Bool) (s : Session)
        → Idle s
        → IsReleased (after_check env address rebuild p d b s)
    unfolding after_check
    after_check-IsReleased p d true s i = rebuilt s i
    after_check-IsReleased p d false s i = trust_bond-IsReleased p d s i

    pair_found-IsReleased :
        (b : Bool) (p : Text) (d : Device) (s : Session)
        → Idle s
        → IsReleased (pair_found env address rebuild b p d s)
    unfolding pair_found Session.◌>>=◌
    pair_found-IsReleased b p d s i = elim (Bool-cases (d.paired || d.bonded)) [
      | inl e ↦
          rw (e, pair_found)
            (continue-Released _ (check_bond env address p d b s)
              (check_bond-Quiet env address p d b s i) (λ c t k. after_check-IsReleased p d c t k))
      | inr e ↦
          rw (e, pair_found)
            (continue-Released _ (adapter_of env address d s) (adapter_of-Quiet env address d s i)
              (λ a t k. pair_fresh-IsReleased env p a d t k.clean k.bond))
    ]

    pair_with-IsReleased :
        (b : Bool) (s : Session) → Idle s → IsReleased (pair_with env address rebuild b s)
    unfolding pair_with Session.◌>>=◌
    pair_with-IsReleased b s i =
        continue-Released _ (find_device env address s) (find_device-Quiet env address s i)
          (λ p s i.
            continue-Released _ (properties_now env p s) (properties_now-Quiet env p s i)
              (λ d s i. pair_found-IsReleased b p d s i))

    rebuild_hogp_bond-IsReleased :
        (s : Session) → Idle s → IsReleased (rebuild_hogp_bond env address rebuild s)
    unfolding rebuild_hogp_bond no_discovery try_finally Session.◌>>=◌ ◌>>◌
    rebuild_hogp_bond-IsReleased s i =
        continue-Released _ (find_device env address s) (find_device-Quiet env address s i)
          (λ p s i.
            continue-Released _ (properties_now env p s) (properties_now-Quiet env p s i) (λ d s i.
              continue-Released _ (adapter_of env address d s) (adapter_of-Quiet env address d s i)
                (λ a s i. open_bus-Released env address _ s i (
                  let body = rebuild_body env address p a (no_discovery (log bus_opened s)).1 in
                  continue-Released _ _
                    (body-Quiet env address a body (
                      rebuild_body-Flagged env address p a _
                        (no_discovery-Flagged _ (opened-Open s i))))
                    (λ u t k. rebuilt t k)))))

  -- A failure that no step of the pairing has to clean up after.
  pair_once-IsReleased : (s : Session) → Idle s → IsReleased (pair_once env address s)
  unfolding pair_once Session.raise
  pair_once-IsReleased s i = pair_with-IsReleased _ (λ t k. Idle-Released _ t k) false s i

  pair_hogp_device-IsReleased :
      (replace_existing : Bool) (s : Session)
      → Idle s
      → IsReleased (pair_hogp_device env address replace_existing s)
  unfolding pair_hogp_device
  pair_hogp_device-IsReleased replace_existing s i =
      pair_with-IsReleased _ (λ t k. rebuild_hogp_bond-IsReleased _ pair_once-IsReleased t k)
        replace_existing s i

  -- Pairing a remote, with or without permission to replace its bond, starts where the bus is closed and
  -- all that was registered, started or paired was asked to end. Whatever BlueZ exports and answers,
  -- whichever step fails and wherever the task is cancelled, it ends with the bus disconnected and no
  -- agent exported. An agent that BlueZ had registered is left only where the last UnregisterAgent failed,
  -- a discovery that was started runs on only where the last StopDiscovery failed, and an attempted
  -- pairing is left only by a result, by services that are still pending, or where the last RemoveDevice
  -- failed. The one exception is a cancellation while a clean-up awaits RemoveDevice, with the agent
  -- still exported, UnregisterAgent, or StopDiscovery: that call is then the last event.
  pub pair_hogp_device-IsGivenBack :
      (replace_existing : Bool) (s : Session)
      → Idle s
      → IsGivenBack (pair_hogp_device env address replace_existing s)
  pair_hogp_device-IsGivenBack replace_existing s i =
      given_back (pair_hogp_device env address replace_existing s)
        (pair_hogp_device-IsReleased replace_existing s i)
