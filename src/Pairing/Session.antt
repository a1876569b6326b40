-- ===== src/Pairing/Session.antt =====
-- The awaits of pairing.py. A coroutine is a function of the session: the number of awaits so far, the
-- events so far (the newest first) and the local flags that its `finally` reads. What BlueZ does is the
-- environment: what it exports at each moment, and what each await brings.
use home_assistant_bluetooth.Prelude.{
  ℕ, zero, suc, Bool, true, false, List, ◌∷◌, if◌then◌else◌, Text, Result, ok, err,
}
use home_assistant_bluetooth.Pairing.Bonds.{
  Bluez, Device, PairingError, has_hogp_service, device_properties,
}

-- What ends a coroutine: an exception of pairing.py, BleakDBusError with its name and details, a
-- TimeoutError, another Exception, or the CancelledError of its task.
pub data Failure : Type 0 where
  pairing : PairingError → Failure
  dbus : Text → Text → Failure
  timeout other_exception cancelled : Failure

pub data Reply : Type 0 where
  success : Reply
  failure : Failure → Reply

-- The messages on the system bus.
pub data Request : Type 0 where
  start_discovery stop_discovery : Text → Request
  set_preferred_bearer set_trusted pair : Text → Request
  register_agent request_default_agent unregister_agent : Request
  remove_device : Text → Request

pub data Event : Type 0 where
  bus_opened exported unexported disconnected : Event
  requested : Request → Reply → Event

pub record Session : Type 0 where
  pub time : ℕ
  pub events : List Event
  pub agent_registered : Bool
  pub discovery_started : Bool
  pub pair_started : Bool
  pub pair_complete : Bool

pub record Env : Type 0 where
  pub exports : ℕ → Bluez
  -- What a property dict that was taken earlier reads now: BlueZManager updates it in place.
  pub reread : ℕ → Device → Device
  -- For Device1.Pair the reply is that of the call joined with the task that waits for the properties
  -- Paired, Bonded and ServicesResolved.
  pub replies : ℕ → Reply
  -- The outcome of `bus_factory()` and of a sleep of a polling loop.
  pub opens : ℕ → Reply
  pub sleeps : ℕ → Reply
  -- How often a polling loop sleeps before its `asyncio.timeout` fires.
  pub polls : ℕ

abbrev pub Coroutine : Type 0 → Type 0
Coroutine A = Session → Result Failure A × Session

unfoldable pub return : {A : Type 0} → A → Coroutine A
return a s = (ok a, s)

unfoldable pub raise : {A : Type 0} → Failure → Coroutine A
raise e s = (err e, s)

abbrev pub continue :
    {A B : Type 0} → (A → Coroutine B) → Result Failure A × Session → Result Failure B × Session
continue f (ok a, s) = f a s
continue f (err e, s) = (err e, s)

-- `await m`, and then the rest.
infixl 5 ◌>>=◌
unfoldable pub ◌>>=◌ : {A B : Type 0} → Coroutine A → (A → Coroutine B) → Coroutine B
(m >>= f) s = continue f (m s)

infixl 5 ◌>>◌
unfoldable pub ◌>>◌ : {A : Type 0} → Coroutine (Unit {0}) → Coroutine A → Coroutine A
(m >> k) s = continue (λ u. k) (m s)

abbrev pub recover :
    {A : Type 0} → (Failure → Coroutine A) → Result Failure A × Session → Result Failure A × Session
recover handler (ok a, s) = (ok a, s)
recover handler (err e, s) = handler e s

-- try: m, except: the handler, which raises again what it does not catch.
unfoldable pub try_except : {A : Type 0} → Coroutine A → (Failure → Coroutine A) → Coroutine A
try_except m handler s = recover handler (m s)

abbrev pub outcome_of :
    {A : Type 0}
    → Result Failure A
    → Result Failure (Unit {0}) × Session
    → Result Failure A × Session
outcome_of r (ok u, s) = (r, s)
outcome_of r (err e, s) = (err e, s)

-- try: m, finally: the clean-up; what the clean-up raises takes the place of what m did.
unfoldable pub try_finally : {A : Type 0} → Coroutine A → Coroutine (Unit {0}) → Coroutine A
try_finally m clean_up s = outcome_of (m s).0 (clean_up (m s).1)

-- `except BleakDBusError as err: raise e from err`
unfoldable pub dbus_becomes : PairingError → Failure → Failure
dbus_becomes e (dbus name details) = pairing e
dbus_becomes e f = f

-- `except Exception`, with a log line: only a CancelledError goes on.
unfoldable pub swallow : Failure → Coroutine (Unit {0})
swallow cancelled s = (err cancelled, s)
swallow f s = (ok tt, s)

-- What is done at once, and what is awaited.
unfoldable pub note : Event → Session → Session
note e s = record s { events = e ∷ s.events }

unfoldable pub log : Event → Session → Session
log e s = record s { time = suc s.time; events = e ∷ s.events }

abbrev pub result_of : Reply → Result Failure (Unit {0})
result_of success = ok tt
result_of (failure f) = err f

module _ (env : Env) where
  -- `_async_call`
  unfoldable pub request : Request → Coroutine (Unit {0})
  request r s = (result_of (env.replies s.time), log (requested r (env.replies s.time)) s)

  unfoldable pub now : Session → Bluez
  now s = env.exports s.time

  unfoldable pub properties_now : Text → Coroutine Device
  properties_now device_path s = elim (device_properties (now s) device_path) [
    | ok d ↦ (ok d, s)
    | err e ↦ (err (pairing e), s)
  ]

  abbrev pub Reply-failed : Failure → Failure
  Reply-failed cancelled = cancelled
  Reply-failed f = pairing PairingError.base_error

  -- `await bus_factory()`: an Exception becomes PairingError.
  unfoldable pub open_bus : Coroutine (Unit {0})
  open_bus s = elim (env.opens s.time) [
    | success ↦ (ok tt, log bus_opened s)
    | failure f ↦ (err (Reply-failed f), record s { time = suc s.time })
  ]

  unfoldable pub sleep : Coroutine (Unit {0})
  sleep s = (result_of (env.sleeps s.time), record s { time = suc s.time })

  -- The loop of `_async_wait_for_hogp_service`; no sleep left is a TimeoutError.
  unfoldable pub poll_hogp_service : ℕ → Text → Coroutine (Unit {0})
  poll_hogp_service zero device_path s =
      if has_hogp_service (now s) device_path then (ok tt, s) else (err timeout, s)
  poll_hogp_service (suc n) device_path s = elim (has_hogp_service (now s) device_path) [
    | true ↦ (ok tt, s)
    | false ↦ continue (λ u. poll_hogp_service n device_path) (sleep s)
  ]

  unfoldable pub wait_for_hogp_service : Text → Coroutine (Unit {0})
  wait_for_hogp_service = poll_hogp_service env.polls
