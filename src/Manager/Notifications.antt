-- ===== src/Manager/Notifications.antt =====
-- `_async_start_notifications`, `_capture_initial_cached_value` and `_async_stop_notifications` of
-- manager.py. The bus is the environment: `bus_ready` says that there is a connected bus,
-- `cached_value` is the `Value` property that BlueZ has cached (`none` also for one that `bytes` refuses),
-- and a `Reply` is what a call to StartNotify or StopNotify brings. The lock keeps two runs apart, but
-- other callbacks can run while a call waits. A cancellation
-- of a waiting call is not modelled.
pub mod Account
use home_assistant_bluetooth.Prelude.{
  ℕ, ◌+◌, Bool, true, false, ◌&&◌, ◌||◌, not, Option, none, some, List, [], ◌∷◌, ◌++◌, text_eq,
  if◌then◌else◌, Text,
}
use home_assistant_bluetooth.Prelude.Bytes.{Bytes}
use home_assistant_bluetooth.Prelude.Dict.{put, pop, contains, add}
use home_assistant_bluetooth.Manager.State.{Manager}

-- Whether StartNotify and StopNotify for a path succeed, and what the other callbacks do to the manager
-- while StartNotify, and then StopNotify, waits.
pub record Reply : Type 0 where
  pub success : Bool
  pub stop_success : Bool
  pub during_start : Manager → Manager
  pub during_stop : Manager → Manager

-- The calls on the bus, each with its success.
pub data Call : Type 0 where
  start_notify : Text → Bool → Call
  stop_notify : Text → Bool → Call

unfoldable pub is_live : Manager → Bool
is_live m = m.connected && not m.stopping

-- A round of the loop: the manager, the calls, and whether the loop goes on.
pub record Round : Type 0 where
  pub manager : Manager
  pub calls : List Call
  pub goes_on : Bool

-- self._initial_cached_values_by_path.pop(path, None)
unfoldable pub drop_cached : Text → Manager → Manager
drop_cached path m = record m {
  initial_cached_values_by_path = pop m.initial_cached_values_by_path path;
}

unfoldable pub subscribed : Text → Manager → Manager
subscribed path m = record m { notification_paths = add m.notification_paths path }

unfoldable pub failed : Text → Manager → Manager
failed path m = record (drop_cached path m) { connection_failures = m.connection_failures + 1 }

-- A StopNotify that fails is logged, and the loop goes on.
unfoldable pub stop_calls : (Text → Reply) → List Text → List Call
stop_calls reply [] = []
stop_calls reply (path ∷ paths) =
    stop_notify path (reply path).stop_success ∷ stop_calls reply paths

module _ (bus_ready : Bool) (cached_value : Text → Option Bytes) (reply : Text → Reply) where
  unfoldable pub capture_initial_cached_value : Text → Manager → Manager
  capture_initial_cached_value path m = elim (cached_value path) [
    | none ↦ drop_cached path m
    | some value ↦ record m {
      initial_cached_values_by_path = put m.initial_cached_values_by_path path value;
    }
  ]

  unfoldable pub start_round : Text → Manager → Round
  start_round path m =
      let waited = (reply path).during_start (capture_initial_cached_value path m) in
      if not (is_live m)
      then record { manager = m; calls = []; goes_on = false }
      else if contains m.notification_paths path
      then record { manager = m; calls = []; goes_on = true }
      else if not (reply path).success
      then record {
        manager = failed path waited;
        calls = start_notify path false ∷ [];
        goes_on = true;
      }
      else if not (is_live waited)
      then record {
        manager = (reply path).during_stop (drop_cached path waited);
        calls = start_notify path true ∷ stop_notify path (reply path).stop_success ∷ [];
        goes_on = false;
      }
      else record {
        manager = subscribed path waited;
        calls = start_notify path true ∷ [];
        goes_on = true;
      }

  unfoldable pub start_loop : List Text → Manager → Manager × List Call
  start_loop [] m = (m, [])
  start_loop (path ∷ paths) m =
      let round = start_round path m in
      let rest = start_loop paths round.manager in
      if round.goes_on then (rest.0, round.calls ++ rest.1) else (round.manager, round.calls)

  unfoldable pub start_notifications : List Text → Manager → Manager × List Call
  start_notifications paths m =
      if not bus_ready || not (is_live m) then (m, []) else start_loop paths m

  unfoldable pub stop_notifications : Manager → Manager × List Call
  stop_notifications m = (
    record m { notification_paths = []; initial_cached_values_by_path = [] },
    if bus_ready && m.connected then stop_calls reply m.notification_paths else [],
  )
