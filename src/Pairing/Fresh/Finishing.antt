-- ===== src/Pairing/Fresh/Finishing.antt =====
-- However the awaits of a pairing end, up to those that finish it, its flags tell what it holds.
use home_assistant_bluetooth.Prelude.{
  ◌≡◌, inl, inr, true, Text, arith, Bool-cases, Result-cases, ℕ, zero, suc,
}
use home_assistant_bluetooth.Pairing.Bonds.{
  Device, has_hogp_service, device_properties, verify_existing_bond,
}
use home_assistant_bluetooth.Pairing.Session
use home_assistant_bluetooth.Pairing.Session.{
  Failure, pairing, dbus, timeout, other_exception, cancelled, Reply, success, failure, Request,
  start_discovery, stop_discovery, set_preferred_bearer, set_trusted, pair, register_agent,
  request_default_agent, unregister_agent, remove_device, requested, Session, Env, Coroutine,
  continue, recover, outcome_of, result_of, return, raise, try_except, try_finally, dbus_becomes,
  swallow, log, note, request, now, properties_now, sleep, poll_hogp_service, wait_for_hogp_service,
}
use home_assistant_bluetooth.Pairing.Fresh.{
  checked_request, attempt_error, attempt, verified, forget_timeout, finishing, base_error,
}
use home_assistant_bluetooth.Pairing.Fresh.Ends.{Ends, continue-Ends, recover-Ends, Reply-cases}
use home_assistant_bluetooth.Pairing.Fresh.Mid.{
  Late, Mid, Mid-Stops, Stops, is_plain, log-Mid, log-pair, log-trust, waited-Late,
}

module _ (env : Env) where
  pub request-Ends :
      (r : Request) (s : Session) (Q : Session → Type 0) (R : Failure → Session → Type 0)
      → Q (log (requested r success) s)
      → ((f : Failure) → R f (log (requested r (failure f)) s))
      → Ends (λ u. Q) R (request env r s)
  unfolding request
  request-Ends r s Q R done failed = elim (Reply-cases (env.replies s.time)) [
    | inl e ↦ rw (e, request) done
    | inr (f, e) ↦ rw (e, request) (failed f)
  ]

  pub checked_request-Ends :
      (r : Request) (s : Session) (Q : Session → Type 0)
      → Q (log (requested r success) s)
      → ((f : Failure) → Mid (log (requested r (failure f)) s))
      → Ends (λ u. Q) Stops (checked_request env r s)
  unfolding checked_request try_except raise
  checked_request-Ends r s Q done failed =
      recover-Ends (λ u. Q) (λ f. Mid) Stops _ (request env r s)
        (request-Ends r s Q (λ f. Mid) done failed)
        (λ f t m. Mid-Stops (dbus_becomes base_error f) t m)

  pub plain-Ends :
      (r : Request) (s : Session)
      → is_plain r ≡ true
      → Mid s
      → Ends (λ u. Mid) Stops (checked_request env r s)
  plain-Ends r s h m =
      checked_request-Ends r s Mid (log-Mid r success s h m) (λ f. log-Mid r (failure f) s h m)

  pub properties_now-Ends :
      (device_path : Text) (s : Session)
      → Late s
      → Ends (λ d. Late) (λ f. Late) (properties_now env device_path s)
  unfolding properties_now
  properties_now-Ends device_path s m =
      elim (Result-cases (device_properties (now env s) device_path)) [
        | inl (d, e) ↦ rw (e, properties_now) m
        | inr (x, e) ↦ rw (e, properties_now) m
      ]

  pub attempt_error-Ends :
      (device_path : Text) (f : Failure) (s : Session)
      → Late s
      → Ends (λ e. Late) (λ f. Late) (attempt_error env device_path f s)
  unfolding attempt_error Session.◌>>=◌ return raise
  attempt_error-Ends device_path timeout s m =
      continue-Ends (λ d. Late) (λ e. Late) (λ f. Late) _ (properties_now env device_path s)
        (properties_now-Ends device_path s m) (λ d t k. k)
  attempt_error-Ends device_path (dbus name details) s m = m
  attempt_error-Ends device_path (pairing e) s m = m
  attempt_error-Ends device_path other_exception s m = m
  attempt_error-Ends device_path cancelled s m = m

  pub attempt-Ends :
      (device_path : Text) (s : Session)
      → Late s
      → Ends (λ e. Late) (λ f. Late) (attempt env device_path s)
  unfolding attempt try_except Session.◌>>◌ return
  attempt-Ends device_path s m =
      recover-Ends (λ e. Late) (λ f. Late) (λ f. Late) (attempt_error env device_path) _
        (continue-Ends (λ u. Late) (λ e. Late) (λ f. Late) _ (request env (pair device_path) s)
          (request-Ends (pair device_path) s Late (λ f. Late) (log-pair device_path success s m)
            (λ f. log-pair device_path (failure f) s m))
          (λ u t k. k))
        (λ f t k. attempt_error-Ends device_path f t k)

  pub sleep-Ends : (s : Session) → Late s → Ends (λ u. Late) (λ f. Late) (sleep env s)
  unfolding sleep
  sleep-Ends s m = elim (Reply-cases (env.sleeps s.time)) [
    | inl e ↦ rw (e, sleep) (waited-Late s m)
    | inr (f, e) ↦ rw (e, sleep) (waited-Late s m)
  ]

  pub poll-Ends :
      (n : ℕ) (device_path : Text) (s : Session)
      → Late s
      → Ends (λ u. Late) (λ f. Late) (poll_hogp_service env n device_path s)
  unfolding poll_hogp_service
  poll-Ends zero device_path s m = elim (Bool-cases (has_hogp_service (now env s) device_path)) [
    | inl e ↦ rw (e, poll_hogp_service) m
    | inr e ↦ rw (e, poll_hogp_service) m
  ]
  poll-Ends (suc n) device_path s m = elim (Bool-cases (has_hogp_service (now env s) device_path)) [
    | inl e ↦ rw (e, poll_hogp_service) m
    | inr e ↦
        rw (e, poll_hogp_service)
          (continue-Ends (λ u. Late) (λ u. Late) (λ f. Late) _ (sleep env s) (sleep-Ends s m)
            (λ u t k. poll-Ends n device_path t k))
  ]

  pub verified-Ends :
      (device_path : Text) (d : Device) (s : Session)
      → Late s
      → Ends (λ u. Late) (λ f. Late) (verified env device_path d s)
  unfolding verified
  verified-Ends device_path d s m =
      elim (Result-cases (verify_existing_bond (now env s) device_path d)) [
        | inl (u, e) ↦ rw (e, verified) m
        | inr (x, e) ↦ rw (e, verified) m
      ]

  pub forget_timeout-Ends :
      (f : Failure) (s : Session) → Late s → Ends (λ u. Late) (λ f. Late) (forget_timeout env f s)
  unfolding forget_timeout return raise
  forget_timeout-Ends f s m = ground arith

  pub finishing-Ends :
      (device_path : Text) (s : Session)
      → Late s
      → Ends (λ u. Late) (λ f. Late) (finishing env device_path s)
  unfolding finishing wait_for_hogp_service try_except Session.◌>>◌ Session.◌>>=◌
  finishing-Ends device_path s m =
      continue-Ends (λ u. Late) (λ u. Late) (λ f. Late) _ _
        (recover-Ends (λ u. Late) (λ f. Late) (λ f. Late) (forget_timeout env) _
          (poll-Ends env.polls device_path s m) (λ f t k. forget_timeout-Ends f t k))
        (λ u t k.
          continue-Ends (λ d. Late) (λ u. Late) (λ f. Late) _ (properties_now env device_path t)
            (properties_now-Ends device_path t k)
            (λ d t' k'.
              continue-Ends (λ u. Late) (λ u. Late) (λ f. Late) _ (verified env device_path d t')
                (verified-Ends device_path d t' k')
                (λ u' t'' k''.
                  request-Ends (set_trusted device_path) t'' Late (λ f. Late)
                    (log-trust device_path success t'' k'')
                    (λ f. log-trust device_path (failure f) t'' k''))))
