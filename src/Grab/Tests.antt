-- ===== src/Grab/Tests.antt =====
-- A grabber with two matching nodes, and the theorems at it.
use home_assistant_bluetooth.Prelude.{
  ◌≡◌, refl, true, false, none, some, [], ◌∷◌, text_eq, ◌==◌, if◌then◌else◌, Text, codes, casefold,
  ok,
}
use home_assistant_bluetooth.Prelude.Dict.{get, put, has, contains, add}
use home_assistant_bluetooth.Keymap.Names.{strip, is_space, drop_while, drop_while_end}
use home_assistant_bluetooth.Grab.{
  Grabber, Kernel, no_status, release_stale, acquire, acquire_all, reconciled, reconcile_sync,
  matching, matching_nodes_sync, sorted, insert, text_leb, texts_eq, active, is_event_name,
  all_digits, sorted_items,
}
use home_assistant_bluetooth.Grab.Account.{
  IsAccounted, IsReleasedAll, reconcile_sync-IsAccounted, opens_of, closes_of, grabs_of, ungrabs_of,
}
use home_assistant_bluetooth.Grab.Dicts.{owners}
use home_assistant_bluetooth.Grab.Status.{reconcile_sync-active}
use home_assistant_bluetooth.Grab.Protection.{Reconciles, reconcile_sync-Reconciles}
use home_assistant_bluetooth.Grab.Runs.{reconcile, publish, stop, stop-IsReleasedAll}

abbrev fresh : Grabber
fresh = record {
  address = codes "aa:01";
  fds = [];
  last_errors = [];
  status = no_status;
  stopping = false;
  events = [];
}

abbrev machine : Kernel
machine = record {
  opens = λ path. ok (if path == codes "/dev/input/event3" then 7 else 8);
  grabs = λ fd. none;
  closes = λ fd. none;
  uniqs = some (
      (codes "event3", some (codes "AA:01 "))
      ∷ (codes "event12", some (codes "aa:01"))
      ∷ (codes "event4", none)
      ∷ []);
}

abbrev node : Text
node = codes "/dev/input/event3"

fresh-IsAccounted : IsAccounted fresh
unfolding opens_of closes_of grabs_of ungrabs_of owners
fresh-IsAccounted = record { distinct = tt; opens = λ fd. refl; grabs = λ fd. refl }

protects : active (reconcile_sync machine fresh).1 ≡ true
unfolding active texts_eq reconcile_sync reconciled acquire_all acquire release_stale sorted insert
    text_leb matching_nodes_sync matching is_event_name all_digits sorted_items strip is_space
    drop_while drop_while_end casefold get put has contains add
protects = refl

reconcile_sync-IsAccounted_example : IsAccounted (reconcile_sync machine fresh).0
reconcile_sync-IsAccounted_example = reconcile_sync-IsAccounted machine fresh fresh-IsAccounted

reconcile_sync-Reconciles_example : Reconciles machine fresh node (reconcile_sync machine fresh)
reconcile_sync-Reconciles_example = reconcile_sync-Reconciles machine fresh node refl

reconcile_sync-active_example :
    (contains (matching_nodes_sync (codes "aa:01") machine) node
      ≡ has (reconcile_sync machine fresh).0.fds node)
    × (has (reconcile_sync machine fresh).1.errors node ≡ false)
reconcile_sync-active_example = reconcile_sync-active machine fresh node refl protects

stop-IsReleasedAll_example :
    IsReleasedAll
      (stop
        (reconcile machine ∷ [])
        (publish no_status ∷ reconcile machine ∷ [])
        (reconcile_sync machine fresh).0).0
stop-IsReleasedAll_example =
    stop-IsReleasedAll (reconcile machine ∷ []) (publish no_status ∷ reconcile machine ∷ [])
      (reconcile_sync machine fresh).0 (reconcile_sync-IsAccounted machine fresh fresh-IsAccounted)
