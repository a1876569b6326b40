-- ===== src/Pairing/Tests.antt =====
-- Concrete runs of the pairing: a remote that is not paired yet and whose pairing succeeds.
use home_assistant_bluetooth.Prelude.{
  ℕ, ◌≡◌, refl, ◌↔◌, Bool, true, false, none, some, [], ◌∷◌, Text, codes, ok, ltb, casefold,
  text_eq, if◌then◌else◌,
}
use home_assistant_bluetooth.Pairing.Bonds.{
  Device, hid_service_uuid, device_properties, has_hogp, has_hogp_service, any_hogp, is_hogp,
  verify_existing_bond, bluez_device_path, bluez_device_path_from_address,
}
use home_assistant_bluetooth.Pairing.Agent.{
  authorize_service, agent_answers, IsAllowed, agent_answers_iff,
}
use home_assistant_bluetooth.Prelude.Dict.{get, get_or}
use home_assistant_bluetooth.Pairing.Session
use home_assistant_bluetooth.Pairing.Session.{Reply, success, Session, Env}
use home_assistant_bluetooth.Pairing.Fresh.{
  pair_fresh, prepare, fresh_body, fresh_clean_up, drop_bond, drop_agent, drop_discovery,
  unexport_and_disconnect, released, checked_request, mark_discovery, mark_agent, mark_pair,
  prefer_le, needs_le, attempt, finish, finishing, forget_timeout, verified, conclude,
}
use home_assistant_bluetooth.Pairing.Fresh.Traces.{
  holds_bus, holds_export, holds_agent, holds_discovery, leaves_bond,
}
use home_assistant_bluetooth.Pairing.Flow.Returned.{IsGivenBack}
use home_assistant_bluetooth.Pairing.Flow.Bonded.{IsBonded, pair_hogp_device-IsBonded}
use home_assistant_bluetooth.Pairing.Flow.{
  pair_with, pair_found, find_device, adapter_of, pair_once, pair_hogp_device, remove_hogp_device,
}
use home_assistant_bluetooth.Pairing.Flow.Released.{Idle, Quiet}
use home_assistant_bluetooth.Pairing.Flow.Removal.{remove_hogp_device-Quiet}
use home_assistant_bluetooth.Pairing.Flow.Entry.{pair_hogp_device-IsGivenBack}
use home_assistant_bluetooth.Pairing.Flow.Rebuilds.{pair_hogp_device-same}

abbrev remote_path : Text
remote_path = codes "/org/bluez/hci0/dev_AA"

abbrev adapter : Text
adapter = codes "/org/bluez/hci0"

abbrev remote : Bool → Device
remote done = record {
  address = codes "AA";
  paired = done;
  bonded = done;
  trusted = false;
  services_resolved = done;
  uuids = hid_service_uuid ∷ [];
  adapter = some adapter;
  preferred_bearer = none;
}

-- BlueZ reports the bond from the fifth await on.
abbrev world : Env
world = record {
  exports = λ n. record {
    devices = (remote_path, remote (ltb 4 n)) ∷ [];
    service_uuids = if ltb 4 n then (remote_path, hid_service_uuid ∷ []) ∷ [] else [];
  };
  reread = λ n d. d;
  replies = λ n. success;
  opens = λ n. success;
  sleeps = λ n. success;
  polls = 3;
}

abbrev start : Session
start = record {
  time = 0;
  events = [];
  agent_registered = false;
  discovery_started = false;
  pair_started = false;
  pair_complete = false;
}

start-Idle : Idle start
unfolding holds_bus holds_export holds_agent holds_discovery leaves_bond
start-Idle = record {
  clean = record { bus = refl; export = refl; agent = refl; discovery = refl };
  bond = refl;
}

pairs_at_once : pair_hogp_device world (codes "aa") false start ≡ (
  ok (record { device_path = remote_path; already_paired = false }),
  (pair_hogp_device world (codes "aa") false start).1,
)
unfolding pair_hogp_device pair_with pair_found find_device adapter_of bluez_device_path
    bluez_device_path_from_address pair_fresh prepare fresh_body fresh_clean_up drop_bond drop_agent
    drop_discovery unexport_and_disconnect released checked_request mark_discovery mark_agent
    mark_pair prefer_le needs_le attempt finish finishing forget_timeout verified conclude
    Session.log Session.note Session.return Session.◌>>=◌ Session.◌>>◌ Session.try_except
    Session.try_finally Session.swallow Session.request Session.now Session.properties_now
    Session.open_bus Session.poll_hogp_service Session.wait_for_hogp_service device_properties
    has_hogp has_hogp_service any_hogp is_hogp verify_existing_bond get get_or casefold
pairs_at_once = refl

agent_answers_iff_example :
    (agent_answers remote_path (authorize_service remote_path hid_service_uuid) ≡ true)
    ↔ IsAllowed remote_path (authorize_service remote_path hid_service_uuid)
agent_answers_iff_example =
    agent_answers_iff remote_path (authorize_service remote_path hid_service_uuid)

pair_hogp_device-IsBonded_example : (moment : ℕ) × IsBonded (world.exports moment) remote_path
pair_hogp_device-IsBonded_example =
    pair_hogp_device-IsBonded world (codes "aa") false start
      (pair_hogp_device world (codes "aa") false start).1
      (record { device_path = remote_path; already_paired = false }) pairs_at_once

pair_hogp_device-IsGivenBack_example : IsGivenBack (pair_hogp_device world (codes "aa") true start)
pair_hogp_device-IsGivenBack_example =
    pair_hogp_device-IsGivenBack world (codes "aa") true start start-Idle

pair_hogp_device-same_example :
    pair_hogp_device world (codes "aa") false start ≡ pair_once world (codes "aa") start
pair_hogp_device-same_example = pair_hogp_device-same world (codes "aa") start

remove_hogp_device-Quiet_example : Quiet (remove_hogp_device world (codes "aa") false start)
remove_hogp_device-Quiet_example =
    remove_hogp_device-Quiet world (codes "aa") false start start-Idle
