-- ===== src/Pairing/Fresh/Body.antt =====
-- However the body of a pairing ends, its flags tell what it holds.
use home_assistant_bluetooth.Prelude.{
  ◌≡◌, inl, inr, refl, true, Option, none, some, Text, arith, Bool-cases,
}
use home_assistant_bluetooth.Pairing.Bonds.{Device, PairingError, service_pending}
use home_assistant_bluetooth.Pairing.Session
use home_assistant_bluetooth.Pairing.Session.{
  Failure, pairing, dbus, timeout, other_exception, cancelled, Reply, success, failure, Request,
  start_discovery, stop_discovery, set_preferred_bearer, set_trusted, pair, register_agent,
  request_default_agent, unregister_agent, remove_device, requested, Session, Env, Coroutine,
  continue, recover, outcome_of, result_of, return, raise, try_except, try_finally, dbus_becomes,
  swallow, log, note, request, now, properties_now, sleep, poll_hogp_service, wait_for_hogp_service,
}
use home_assistant_bluetooth.Pairing.Fresh.{
  mark_discovery, mark_agent, mark_pair, needs_le, prefer_le, attempt, finishing, settle, finish,
  conclude, fresh_body,
}
use home_assistant_bluetooth.Pairing.Fresh.Traces.{Tracks}
use home_assistant_bluetooth.Pairing.Fresh.Ends.{Ends, continue-Ends, recover-Ends}
use home_assistant_bluetooth.Pairing.Fresh.Mid.{
  Late, Mid, Mid-Stops, Stops, log-register_done, log-register_failed, log-start_done,
  log-start_failed, weaker-Ends,
}
use home_assistant_bluetooth.Pairing.Fresh.Finishing.{
  checked_request-Ends, plain-Ends, attempt-Ends, finishing-Ends,
}

module _ (env : Env) where
  -- The error that is to be reported; a complete pairing reports a pending service only.
  record Settled (error : Option PairingError) (s : Session) : Type 0 where
    tracks : Tracks s
    pending : s.pair_complete ≡ true → error ≡ some service_pending

  Late-Settled : (error : Option PairingError) (s : Session) → Late s → Settled error s
  Late-Settled error s m = record {
    tracks = m.mid.tracks;
    pending = λ c. ground (arith, m.mid.incomplete);
  }

  settle-Ends : (f : Failure) (s : Session) → Late s → Ends Settled Stops (settle env f s)
  unfolding settle
  settle-Ends f s m = ground (arith, Mid-Stops f s m.mid)

  finish-Ends :
      (device_path : Text) (error : Option PairingError) (s : Session)
      → Late s
      → Ends Settled Stops (finish env device_path error s)
  unfolding finish try_except return Session.◌>>◌
  finish-Ends device_path (some e) s m = Late-Settled (some e) s m
  finish-Ends device_path none s m =
      recover-Ends Settled (λ f. Late) Stops (settle env) _
        (continue-Ends (λ u. Late) Settled (λ f. Late) _ (finishing env device_path s)
          (finishing-Ends env device_path s m) (λ u t k. Late-Settled none t k))
        (λ f t k. settle-Ends f t k)

  conclude-Ends :
      (device_path : Text) (error : Option PairingError) (s : Session)
      → Settled error s
      → Ends (λ r. Tracks) Stops (conclude env device_path error s)
  unfolding conclude
  conclude-Ends device_path (some e) s m = record {
    tracks = m.tracks;
    pending = λ c. ground (arith, m.pending c);
  }
  conclude-Ends device_path none s m = record {
    bus = m.tracks.bus;
    export = m.tracks.export;
    agent = m.tracks.agent;
    discovery = m.tracks.discovery;
    attempted = m.tracks.attempted;
  }

  prefer_le-Ends :
      (device_path : Text) (d : Device) (s : Session)
      → Mid s
      → Ends (λ u. Mid) Stops (prefer_le env device_path d s)
  unfolding prefer_le
  prefer_le-Ends device_path d s m = elim (Bool-cases (needs_le (env.reread s.time d))) [
    | inl e ↦ rw (e, prefer_le) (plain-Ends env (set_preferred_bearer device_path) s refl m)
    | inr e ↦ rw (e, prefer_le) m
  ]

  -- Device1.Pair, and what follows it.
  paired-Ends :
      (device_path : Text) (s : Session)
      → Late s
      → Ends
          (λ r. Tracks)
          Stops
          (continue
            (λ error. λ t. continue (conclude env device_path) (finish env device_path error t))
            (attempt env device_path s))
  paired-Ends device_path s m =
      continue-Ends (λ e. Late) (λ r. Tracks) Stops _ (attempt env device_path s)
        (weaker-Ends (λ e. Late) (attempt env device_path s) (attempt-Ends env device_path s m))
        (λ error t k.
          continue-Ends Settled (λ r. Tracks) Stops _ (finish env device_path error t)
            (finish-Ends device_path error t k)
            (λ error' t' k'. conclude-Ends device_path error' t' k'))

  mark_pair-Late : (s : Session) → Mid s → Late (mark_pair s).1
  unfolding mark_pair
  mark_pair-Late s m = ground arith

  pub fresh_body-Ends :
      (device_path adapter_path : Text) (initial : Device) (s : Session)
      → Mid s
      → Ends (λ r. Tracks) Stops (fresh_body env device_path adapter_path initial s)
  unfolding fresh_body mark_discovery mark_agent mark_pair Session.◌>>◌ Session.◌>>=◌
  fresh_body-Ends device_path adapter_path initial s m =
      continue-Ends (λ u t. Mid (mark_discovery t).1) (λ r. Tracks) Stops _ _
        (checked_request-Ends env (start_discovery adapter_path) s (λ t. Mid (mark_discovery t).1)
          (log-start_done adapter_path s m) (λ f. log-start_failed adapter_path f s m))
        (λ u t k.
          continue-Ends (λ u. Mid) (λ r. Tracks) Stops _ _ (prefer_le-Ends device_path initial _ k)
            (λ u t k.
              continue-Ends (λ u t. Mid (mark_agent t).1) (λ r. Tracks) Stops _ _
                (checked_request-Ends env register_agent t (λ t. Mid (mark_agent t).1)
                  (log-register_done t k) (λ f. log-register_failed f t k))
                (λ u t k.
                  continue-Ends (λ u. Mid) (λ r. Tracks) Stops _ _
                    (plain-Ends env request_default_agent _ refl k)
                    (λ u t k. paired-Ends device_path (mark_pair t).1 (mark_pair-Late t k)))))
