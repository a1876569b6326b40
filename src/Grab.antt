-- ===== src/Grab.antt =====
-- custom_components/bluetooth_hid_remote/input_grab.py: BluetoothInputGrabber. What the process did to
-- its descriptors is recorded, the newest first; how each call of the kernel ends is the environment.
pub mod Dicts
pub mod Account
pub mod Nodes
pub mod Matches
pub mod Status
pub mod Protection
pub mod Runs
pub mod Tests
use home_assistant_bluetooth.Prelude.{
  ℕ, suc, Bool, true, false, ◌&&◌, ◌||◌, not, Option, none, some, List, [], ◌∷◌, ◌++◌, ◌==◌,
  text_eq, if◌then◌else◌, Text, codes, casefold, Result, ok, err, leb, ltb, map,
}
use home_assistant_bluetooth.Prelude.Dict.{Dict, get, put, pop, has, contains, add}
use home_assistant_bluetooth.Keymap.Names.{strip, is_space}

pub data Event : Type 0 where
  opened : Text → ℕ → Event
  grabbed ungrabbed closed : ℕ → Event

pub record InputGrabStatus : Type 0 where
  pub matching_nodes : List Text
  pub grabbed_nodes : List Text
  pub errors : Dict Text Text

pub record Grabber : Type 0 where
  pub address : Text
  pub fds : Dict Text ℕ
  pub last_errors : Dict Text Text
  pub status : InputGrabStatus
  pub stopping : Bool
  pub events : List Event

-- How the calls of one run end: an error has its text, `type(err).__name__: err`.
-- `uniqs` are the entries of /sys/class/input with the content of device/uniq, `none` where it cannot be
-- read; `none` for all of them is an OSError of the listing.
pub record Kernel : Type 0 where
  pub opens : Text → Result Text ℕ
  pub grabs : ℕ → Option Text
  pub closes : ℕ → Option Text
  pub uniqs : Option (Dict Text (Option Text))

-- `<` and `<=` of str.
unfoldable pub text_leb : Text → Text → Bool
text_leb [] t = true
text_leb (a ∷ s) [] = false
text_leb (a ∷ s) (b ∷ t) = ltb a b || (leb a b && text_leb s t)

unfoldable pub insert : Text → List Text → List Text
insert x [] = x ∷ []
insert x (y ∷ ys) = if text_leb x y then x ∷ y ∷ ys else y ∷ insert x ys

-- sorted(texts)
unfoldable pub sorted : List Text → List Text
sorted [] = []
sorted (x ∷ xs) = insert x (sorted xs)

unfoldable pub all_digits : Text → Bool
all_digits [] = true
all_digits (c ∷ s) = leb b'0' c && leb c b'9' && all_digits s

-- _EVENT_NAME_RE.fullmatch(name)
unfoldable pub is_event_name : Text → Bool
is_event_name (e ∷ v ∷ n ∷ u ∷ t ∷ d ∷ digits) =
    (e ∷ v ∷ n ∷ u ∷ t ∷ []) == codes "event" && all_digits (d ∷ digits)
is_event_name _ = false

unfoldable pub insert_entry : Text × Text → Dict Text Text → Dict Text Text
insert_entry x [] = x ∷ []
insert_entry x (y ∷ ys) = if text_leb x.0 y.0 then x ∷ y ∷ ys else y ∷ insert_entry x ys

-- sorted(errors.items()), where the paths differ.
unfoldable pub sorted_items : Dict Text Text → Dict Text Text
sorted_items [] = []
sorted_items (x ∷ xs) = insert_entry x (sorted_items xs)

unfoldable pub matching : Text → Dict Text (Option Text) → List Text
matching address [] = []
matching address ((node, uniq) ∷ nodes) =
    let rest = matching address nodes in
    elim (uniq) [
      | none ↦ rest
      | some text ↦
          if is_event_name node && casefold (strip is_space text) == address
          then add rest (codes "/dev/input/" ++ node)
          else rest
    ]

-- `_matching_nodes_sync`
unfoldable pub matching_nodes_sync : Text → Kernel → List Text
matching_nodes_sync address kernel = elim (kernel.uniqs) [
  | none ↦ []
  | some nodes ↦ matching address nodes
]

abbrev pub paths : Dict Text ℕ → List Text
paths [] = []
paths ((path, fd) ∷ fds) = path ∷ paths fds

-- InputGrabStatus.active
unfoldable pub texts_eq : List Text → List Text → Bool
texts_eq [] [] = true
texts_eq (x ∷ xs) (y ∷ ys) = x == y && texts_eq xs ys
texts_eq _ _ = false

unfoldable pub active : InputGrabStatus → Bool
active status = elim (status.matching_nodes) [
  | [] ↦ false
  | x ∷ xs ↦ texts_eq (x ∷ xs) status.grabbed_nodes
]

-- `_release_sync`: an OSError of either call is suppressed.
unfoldable pub release_sync : Text → Grabber → Grabber
release_sync path g = elim (get g.fds path) [
  | none ↦ g
  | some fd ↦ record g { fds = pop g.fds path; events = closed fd ∷ ungrabbed fd ∷ g.events }
]

-- The nodes that no longer match.
unfoldable pub release_stale : List Text → List Text → Grabber → Grabber
release_stale matching [] g = g
release_stale matching (path ∷ held) g =
    release_stale matching held (if contains matching path then g else release_sync path g)

-- The error of a descriptor that could not be grabbed: that of `closer`, where it raises as well.
unfoldable pub grab_error : Text → Option Text → Text
grab_error error none = error
grab_error error (some close_error) = close_error

abbrev pub Held : Type 0
Held = Grabber × Dict Text Text

-- One round of the loop of `_reconcile_sync`, with the errors so far.
unfoldable pub acquire : Kernel → Text → Held → Held
acquire kernel path (g, errors) = if has g.fds path then (g, errors) else elim (kernel.opens path) [
  | err error ↦ (g, put errors path error)
  | ok fd ↦ elim (kernel.grabs fd) [
    | none ↦ (
      record g { fds = put g.fds path fd; events = grabbed fd ∷ opened path fd ∷ g.events },
      errors,
    )
    | some error ↦ (
      record g { events = closed fd ∷ opened path fd ∷ g.events },
      put errors path (grab_error error (kernel.closes fd)),
    )
  ]
]

unfoldable pub acquire_all : Kernel → List Text → Held → Held
acquire_all kernel [] held = held
acquire_all kernel (path ∷ nodes) held = acquire_all kernel nodes (acquire kernel path held)

unfoldable pub reconciled : List Text → Held → Grabber × InputGrabStatus
reconciled nodes (g, errors) = (
  record g { last_errors = errors },
  record {
    matching_nodes = sorted nodes;
    grabbed_nodes = sorted (paths g.fds);
    errors = sorted_items errors;
  },
)

-- `_reconcile_sync`, which runs under the lock.
unfoldable pub reconcile_sync : Kernel → Grabber → Grabber × InputGrabStatus
reconcile_sync kernel g =
    let nodes = matching_nodes_sync g.address kernel in
    if g.stopping
    then (g, g.status)
    else reconciled nodes
        (acquire_all kernel (sorted nodes) (release_stale nodes (paths g.fds) g, []))

-- `_release_all_sync`, which runs under the lock.
unfoldable pub release_each : List Text → Grabber → Grabber
release_each [] g = g
release_each (path ∷ held) g = release_each held (release_sync path g)

unfoldable pub release_all_sync : Grabber → Grabber
release_all_sync g = release_each (paths g.fds) g

unfoldable pub pairs_eq : Dict Text Text → Dict Text Text → Bool
pairs_eq [] [] = true
pairs_eq ((p, e) ∷ xs) ((q, f) ∷ ys) = p == q && e == f && pairs_eq xs ys
pairs_eq _ _ = false

-- `status == self._status`
unfoldable pub status_eq : InputGrabStatus → InputGrabStatus → Bool
status_eq a b =
    texts_eq a.matching_nodes b.matching_nodes
    && texts_eq a.grabbed_nodes b.grabbed_nodes
    && pairs_eq a.errors b.errors

-- `_publish_status`, with the status that the listeners get.
unfoldable pub publish_status : InputGrabStatus → Grabber → Grabber × Option InputGrabStatus
publish_status status g =
    if status_eq status g.status then (g, none) else (record g { status = status }, some status)

abbrev pub no_status : InputGrabStatus
no_status = record { matching_nodes = []; grabbed_nodes = []; errors = [] }

-- `self._stopping = True` and `self._stopping = False`
unfoldable pub set_stopping : Bool → Grabber → Grabber
set_stopping stopping g = record g { stopping = stopping }
