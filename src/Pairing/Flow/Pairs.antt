-- ===== src/Pairing/Flow/Pairs.antt =====
-- `async_rebuild_hogp_bond` and `async_pair_hogp_device`: nothing is held at their end.
use home_assistant_bluetooth.Prelude.{
  ℕ, zero, suc, ◌≡◌, inl, inr, Bool, true, false, Text, arith, Bool-cases, Result-cases, Result, ok,
  err,
}
use home_assistant_bluetooth.Pairing.Bonds.{
  Device, timed_out, service_pending, verification, verify_existing_bond,
}
use home_assistant_bluetooth.Pairing.Session
use home_assistant_bluetooth.Pairing.Session.{
  Failure, pairing, Reply, success, failure, Request, start_discovery, stop_discovery, set_trusted,
  remove_device, requested, bus_opened, Session, Env, Coroutine, continue, recover, return, raise,
  ◌>>◌, try_except, try_finally, log, note, now, properties_now, open_bus, sleep,
  wait_for_hogp_service,
}
use home_assistant_bluetooth.Pairing.Fresh.{
  PairingResult, checked_request, mark_discovery, drop_discovery, verified,
}
use home_assistant_bluetooth.Pairing.Fresh.Traces.{Interrupted}
use home_assistant_bluetooth.Pairing.Fresh.Ends.{Ends, continue-Ends, Reply-cases}
use home_assistant_bluetooth.Pairing.Fresh.CleanUp.{IsReleased, released-Ends}
use home_assistant_bluetooth.Pairing.Flow.{
  is_fresh, poll_direct_device, wait_for_direct_device, rebuild_body, rebuild_clean_up,
  pending_bond, check_bond, already, trust_bond, disconnect, timeout_becomes,
}
use home_assistant_bluetooth.Pairing.Flow.Released.{
  Idle, Quiet, Open, Flagged, Idle-Released, continue-Quiet, disconnect-Idle, log-remove, log-trust,
  log-start_failed, log-start_done, log-stop, request-Both, properties_now-Quiet, poll-Quiet,
  verified-Quiet, re_raised-Quiet, bus_call-Quiet,
}

module _ (env : Env) (address : Text) where
  pub trust_bond-Quiet :
      (p : Text) (d : Device) (s : Session) → Idle s → Quiet (trust_bond env address p d s)
  unfolding trust_bond already return ◌>>◌
  trust_bond-Quiet p d s i = elim (Bool-cases (env.reread s.time d).trusted) [
    | inl e ↦ rw (e, trust_bond) i
    | inr e ↦
        rw (e, trust_bond)
          (bus_call-Quiet env (set_trusted p) _ s i (λ r t o. log-trust false p r t o))
  ]

  pending_bond-Quiet :
      (p : Text) (b : Bool) (s : Session) → Idle s → Quiet (pending_bond env address p b s)
  unfolding pending_bond ◌>>◌ Session.◌>>=◌ return try_except wait_for_hogp_service
  pending_bond-Quiet p true s i = i
  pending_bond-Quiet p false s i =
      continue-Quiet _ _
        (re_raised-Quiet env (timeout_becomes service_pending) _ (poll-Quiet env env.polls p s i))
        (λ u s i.
          continue-Quiet _ (properties_now env p s) (properties_now-Quiet env p s i) (λ d s i.
            continue-Quiet _ (verified env p d s) (verified-Quiet env p d s i) (λ u s i. i)))

  pub check_bond-Quiet :
      (p : Text) (d : Device) (b : Bool) (s : Session)
      → Idle s
      → Quiet (check_bond env address p d b s)
  unfolding check_bond
  check_bond-Quiet p d b s i = elim (Result-cases (verify_existing_bond (now env s) p d)) [
    | inl (u, e) ↦ rw (e, check_bond) i
    | inr (service_pending, e) ↦ rw (e, check_bond) (pending_bond-Quiet p b s i)
    | inr (verification, e) ↦ rw (e, check_bond) (ground arith)
    | inr (x, e) ↦ rw (e, check_bond) (ground arith)
  ]

  pub open_bus-Released :
      (k : Coroutine PairingResult) (s : Session)
      → Idle s
      → IsReleased (k (log bus_opened s))
      → IsReleased (continue (λ u. k) (open_bus env s))
  unfolding open_bus
  open_bus-Released k s i q = elim (Reply-cases (env.opens s.time)) [
    | inl e ↦ rw (e, open_bus) q
    | inr (f, e) ↦
        rw (e, open_bus)
          (Idle-Released _ _ record {
            clean = record {
              bus = i.clean.bus;
              export = i.clean.export;
              agent = i.clean.agent;
              discovery = i.clean.discovery;
            };
            bond = i.bond;
          })
  ]

  sleep-Flagged : (s : Session) → Flagged s → Ends (λ u. Flagged) (λ f. Flagged) (sleep env s)
  unfolding sleep
  sleep-Flagged s o = elim (Reply-cases (env.sleeps s.time)) [
    | inl e ↦ rw (e, sleep) (ground arith)
    | inr (f, e) ↦ rw (e, sleep) (ground arith)
  ]

  poll-Flagged :
      (n : ℕ) (s : Session)
      → Flagged s
      → Ends (λ u. Flagged) (λ f. Flagged) (poll_direct_device env address n s)
  unfolding poll_direct_device
  poll-Flagged zero s o = elim (Result-cases (is_fresh env address (now env s))) [
    | inl (true, e) ↦ rw (e, poll_direct_device) o
    | inl (false, e) ↦ rw (e, poll_direct_device) o
    | inr (x, e) ↦ rw (e, poll_direct_device) o
  ]
  poll-Flagged (suc n) s o = elim (Result-cases (is_fresh env address (now env s))) [
    | inl (true, e) ↦ rw (e, poll_direct_device) o
    | inl (false, e) ↦
        rw (e, poll_direct_device)
          (continue-Ends (λ u. Flagged) (λ u. Flagged) (λ f. Flagged) _ (sleep env s)
            (sleep-Flagged s o) (λ u t k. poll-Flagged n t k))
    | inr (x, e) ↦ rw (e, poll_direct_device) o
  ]

  re_raised-Flagged :
      (g : Failure → Failure) (r : Result Failure (Unit {0}) × Session)
      → Ends (λ u. Flagged) (λ f. Flagged) r
      → Ends (λ u. Flagged) (λ f. Flagged) (recover (λ f. raise (g f)) r)
  unfolding raise
  re_raised-Flagged g (ok a, s) q = q
  re_raised-Flagged g (err e, s) q = q

  pub rebuild_body-Flagged :
      (p a : Text) (s : Session)
      → Flagged s
      → Ends (λ u. Flagged) (λ f. Flagged) (rebuild_body env address p a s)
  unfolding rebuild_body ◌>>◌ wait_for_direct_device try_except mark_discovery log
  rebuild_body-Flagged p a s o =
      continue-Ends (λ u t. Flagged (mark_discovery t).1) (λ u. Flagged) (λ f. Flagged) _
        (checked_request env (start_discovery a) s)
        (request-Both env (start_discovery a) s Flagged (λ t. Flagged (mark_discovery t).1)
          (log-start_done a s o) (λ f. log-start_failed a f s o))
        (λ u t k.
          continue-Ends (λ u. Flagged) (λ u. Flagged) (λ f. Flagged) _
            (checked_request env (remove_device p) (mark_discovery t).1)
            (request-Both env (remove_device p) (mark_discovery t).1 Flagged Flagged
              (log-remove _ p success _ k) (λ f. log-remove _ p (failure f) _ k))
            (λ u x h. re_raised-Flagged (timeout_becomes timed_out) _ (poll-Flagged env.polls x h)))

  disconnect_then :
      {A : Type 0} (r : Result Failure A) (c : Result Failure (Unit {0}) × Session)
      → Ends (λ u. Open false) (λ f s. Interrupted s.events) c
      → Quiet (Session.outcome_of r (continue (λ u. disconnect) c))
  unfolding disconnect
  disconnect_then (ok a) (ok u, s) o = unfold disconnect in disconnect-Idle s o
  disconnect_then (err e) (ok u, s) o = unfold disconnect in inl (disconnect-Idle s o)
  disconnect_then (ok a) (err e, s) o = inr o
  disconnect_then (err f) (err e, s) o = inr o

  kept-Open : (s : Session) → s.discovery_started ≡ false → Flagged s → Open false s
  kept-Open s e o = ground (arith, o.discovery)

  clean_up-Quiet :
      {A : Type 0} (a : Text) (r : Result Failure A) (s : Session)
      → Flagged s
      → Quiet (Session.outcome_of r (rebuild_clean_up env address a s))
  unfolding rebuild_clean_up drop_discovery ◌>>◌
  clean_up-Quiet a r s o = disconnect_then r (drop_discovery env a s) (
      released-Ends env (stop_discovery a) s.discovery_started s (Open false)
        (λ h p. log-stop s.discovery_started a p s o) (λ h. kept-Open s h o) o.agent)

  pub body-Quiet :
      {A : Type 0} (a : Text) (r : Result Failure A × Session)
      → Ends (λ u. Flagged) (λ f. Flagged) r
      → Quiet (Session.outcome_of r.0 (rebuild_clean_up env address a r.1))
  body-Quiet a (ok u, s) o = clean_up-Quiet a (ok u) s o
  body-Quiet a (err e, s) o = clean_up-Quiet a (err e) s o
