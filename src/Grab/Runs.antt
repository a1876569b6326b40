-- ===== src/Grab/Runs.antt =====
-- `async_start`, `_async_poll` and `async_stop` as interleaved runs: a reconciliation in a worker thread
-- can still run after its task was cancelled.
use home_assistant_bluetooth.Prelude.{
  ℕ, ◌≡◌, refl, ◌∙◌, inl, inr, true, false, Option, List, [], ◌∷◌, arith, Text, Bool-cases,
}
use home_assistant_bluetooth.Grab.{
  Grabber, Kernel, InputGrabStatus, paths, reconcile_sync, release_all_sync, release_sync,
  release_each, publish_status, set_stopping, status_eq, no_status,
}
use home_assistant_bluetooth.Grab.Dicts.{owners}
use home_assistant_bluetooth.Grab.Account.{
  IsAccounted, IsReleasedAll, reconcile_sync-IsAccounted, release_each-IsAccounted,
  reconcile_sync-stopping,
}
use home_assistant_bluetooth.Grab.Nodes.{release_all_sync-none}

-- What a thread or a callback does at once: a reconciliation under the lock, the publication of a
-- status, and the release of all nodes under the lock.
pub data Step : Type 0 where
  reconcile : Kernel → Step
  publish : InputGrabStatus → Step
  release_all : Step

unfoldable pub step : Step → Grabber → Grabber
step (reconcile kernel) g = (reconcile_sync kernel g).0
step (publish status) g = (publish_status status g).0
step release_all g = release_all_sync g

unfoldable pub steps : List Step → Grabber → Grabber
steps [] g = g
steps (s ∷ ss) g = steps ss (step s g)

-- `async_start`: the reconciliation before the poll task, where there is no task yet.
unfoldable pub start : Kernel → Grabber → Grabber × Option InputGrabStatus
start kernel g =
    let (next, status) = reconcile_sync kernel (set_stopping false g) in publish_status status next

-- `async_stop`, with what other threads do between its awaits.
unfoldable pub stop : List Step → List Step → Grabber → Grabber × Option InputGrabStatus
stop before after g =
    publish_status no_status (steps after (release_all_sync (steps before (set_stopping true g))))

pub step-IsAccounted : (s : Step) (g : Grabber) → IsAccounted g → IsAccounted (step s g)
unfolding step publish_status release_all_sync
step-IsAccounted (reconcile kernel) g h = reconcile_sync-IsAccounted kernel g h
step-IsAccounted (publish status) g h = elim (Bool-cases (status_eq status g.status)) [
  | inl e ↦ rw (step, e, publish_status) h
  | inr e ↦
      rw (step, e, publish_status)
        record { distinct = h.distinct; opens = h.opens; grabs = h.grabs }
]
step-IsAccounted release_all g h = release_each-IsAccounted (paths g.fds) g h

-- Any run of steps keeps the account of the descriptors.
pub steps-IsAccounted : (ss : List Step) (g : Grabber) → IsAccounted g → IsAccounted (steps ss g)
unfolding steps
steps-IsAccounted [] g h = h
steps-IsAccounted (s ∷ ss) g h = steps-IsAccounted ss (step s g) (step-IsAccounted s g h)

-- Stopped, with nothing held.
record IsStopped (g : Grabber) : Type 0 where
  stopping : g.stopping ≡ true
  empty : g.fds ≡ []

release_sync-stopping : (path : Text) (g : Grabber) → (release_sync path g).stopping ≡ g.stopping
unfolding release_sync
release_sync-stopping path g = ground arith

release_each-stopping :
    (held : List Text) (g : Grabber) → (release_each held g).stopping ≡ g.stopping
unfolding release_each
release_each-stopping [] g = refl
release_each-stopping (path ∷ held) g =
    release_each-stopping held (release_sync path g) ∙ release_sync-stopping path g

step-stopping : (s : Step) (g : Grabber) → g.stopping ≡ true → (step s g).stopping ≡ true
unfolding step publish_status release_all_sync
step-stopping (reconcile kernel) g e = rw (step, reconcile_sync-stopping kernel g e) e
step-stopping (publish status) g e = elim (Bool-cases (status_eq status g.status)) [
  | inl c ↦ rw (step, c, publish_status) e
  | inr c ↦ rw (step, c, publish_status) e
]
step-stopping release_all g e = release_each-stopping (paths g.fds) g ∙ e

steps-stopping : (ss : List Step) (g : Grabber) → g.stopping ≡ true → (steps ss g).stopping ≡ true
unfolding steps
steps-stopping [] g e = e
steps-stopping (s ∷ ss) g e = steps-stopping ss (step s g) (step-stopping s g e)

step-IsStopped : (s : Step) (g : Grabber) → IsStopped g → IsStopped (step s g)
unfolding step publish_status
step-IsStopped (reconcile kernel) g h = rw (step, reconcile_sync-stopping kernel g h.stopping) h
step-IsStopped (publish status) g h = elim (Bool-cases (status_eq status g.status)) [
  | inl c ↦ rw (step, c, publish_status) h
  | inr c ↦ rw (step, c, publish_status) record { stopping = h.stopping; empty = h.empty }
]
step-IsStopped release_all g h = record {
  stopping = unfold release_all_sync in release_each-stopping (paths g.fds) g ∙ h.stopping;
  empty = release_all_sync-none g;
}

steps-IsStopped : (ss : List Step) (g : Grabber) → IsStopped g → IsStopped (steps ss g)
unfolding steps
steps-IsStopped [] g h = h
steps-IsStopped (s ∷ ss) g h = steps-IsStopped ss (step s g) (step-IsStopped s g h)

IsStopped-ReleasedAll : (g : Grabber) → IsStopped g → IsAccounted g → IsReleasedAll g
IsStopped-ReleasedAll g h a =
    let none_owned : (fd : ℕ) → owners fd g.fds ≡ 0 = λ fd. rw h.empty (unfold owners in refl) in
    record {
      none_held = h.empty;
      all_closed = λ fd. ground (arith, a.opens fd, none_owned fd);
      all_ungrabbed = λ fd. ground (arith, a.grabs fd, none_owned fd);
    }

-- A stop releases everything, whatever reconciliations, releases and publications other threads still run
-- before and after its own release: no node is held, every descriptor that was ever opened is closed as
-- often, and every grab is released as often.
pub stop-IsReleasedAll :
    (before after : List Step) (g : Grabber) → IsAccounted g → IsReleasedAll (stop before after g).0
unfolding stop set_stopping publish_status step
stop-IsReleasedAll before after g h =
    let marked : Grabber = record g { stopping = true } in
    let accounted : IsAccounted marked = record {
      distinct = h.distinct;
      opens = h.opens;
      grabs = h.grabs;
    } in
    let first = steps-IsAccounted before marked accounted in
    let released = step-IsAccounted release_all (steps before marked) first in
    let stopped : IsStopped (step release_all (steps before marked)) = record {
      stopping =
          step-stopping release_all (steps before marked) (steps-stopping before marked refl);
      empty = unfold step in release_all_sync-none (steps before marked);
    } in
    let last = steps after (step release_all (steps before marked)) in
    IsStopped-ReleasedAll (step (publish no_status) last)
      (step-IsStopped (publish no_status) last (steps-IsStopped after _ stopped))
      (step-IsAccounted (publish no_status) last (steps-IsAccounted after _ released))
