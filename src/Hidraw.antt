-- ===== src/Hidraw.antt =====
-- custom_components/bluetooth_hid_remote/hidraw.py: BluetoothHidRawWriter. The kernel's answers are the
-- environment; what was done to descriptors is recorded, the newest first.
pub mod Nodes
pub mod Writes
pub mod Order
pub mod Lines
pub mod Tests
use home_assistant_bluetooth.Prelude.{
  ℕ, Bool, true, false, ◌&&◌, ◌||◌, not, Option, none, some, List, [], ◌∷◌, ◌++◌, ◌==◌, nat_eq,
  text_eq, if◌then◌else◌, Text, codes, casefold, Result, ok, err, leb, length,
}
use home_assistant_bluetooth.Prelude.Bytes.{Bytes}
use home_assistant_bluetooth.Prelude.Dict.{Dict, get, put, get_or}
use home_assistant_bluetooth.Grab.{all_digits, text_leb}

abbrev pub Properties : Type 0
Properties = Dict Text Text

-- line.partition("="), where the line has the separator.
unfoldable pub partition : Text → Option (Text × Text)
partition [] = none
partition (c ∷ line) =
    let rest = partition line in
    if c == b'='
    then some ([], line)
    else elim (rest) [ none ↦ none | some (key, item) ↦ some (c ∷ key, item) ]

-- The loop of `_parse_uevent` over the lines.
unfoldable pub parse_lines : List Text → Properties → Properties
parse_lines [] properties = properties
parse_lines (line ∷ lines) properties =
    parse_lines lines
      (elim (partition line) [ none ↦ properties | some (key, item) ↦ put properties key item ])

-- The line boundaries of str.splitlines() below U+0100; "\r\n" is one boundary.
unfoldable pub is_boundary : ℕ → Bool
is_boundary c =
    (leb 10 c && leb c 13) || (leb 28 c && leb c 30) || c == 0x85 || c == 0x2028 || c == 0x2029

-- The line at hand and the lines behind it; the last line is there only where it has a character.
unfoldable pub split_lines : Text → Text → List Text
split_lines [] [] = []
split_lines (c ∷ line) [] = (c ∷ line) ∷ []
split_lines line (c ∷ []) = if is_boundary c then line ∷ [] else (line ++ c ∷ []) ∷ []
split_lines line (c ∷ d ∷ text) =
    let crlf = split_lines [] text in
    let next = split_lines [] (d ∷ text) in
    let more = split_lines (line ++ c ∷ []) (d ∷ text) in
    if c == 13 && d == 10 then line ∷ crlf else if is_boundary c then line ∷ next else more

unfoldable pub parse_uevent : Text → Properties
parse_uevent value = parse_lines (split_lines [] value) []

-- _HIDRAW_NAME_RE.fullmatch(name)
unfoldable pub is_hidraw_name : Text → Bool
is_hidraw_name (h ∷ i ∷ d ∷ r ∷ a ∷ w ∷ first ∷ digits) =
    (h ∷ i ∷ d ∷ r ∷ a ∷ w ∷ []) == codes "hidraw" && all_digits (first ∷ digits)
is_hidraw_name _ = false

abbrev pub Node : Type 0
Node = Text × Properties

unfoldable pub insert_node : Node → List Node → List Node
insert_node x [] = x ∷ []
insert_node x (y ∷ ys) = if text_leb x.0 y.0 then x ∷ y ∷ ys else y ∷ insert_node x ys

-- sorted(matches, key=lambda item: item[0]); the names of a directory differ.
unfoldable pub sorted_nodes : List Node → List Node
sorted_nodes [] = []
sorted_nodes (x ∷ xs) = insert_node x (sorted_nodes xs)

-- The entries of /sys/class/hidraw with the content of device/uevent, `none` where it cannot be read.
unfoldable pub matches : Text → Dict Text (Option Text) → List Node
matches address [] = []
matches address ((name, uevent) ∷ entries) =
    let rest = matches address entries in
    elim (uevent) [
      | none ↦ rest
      | some text ↦
          if is_hidraw_name name
            && casefold (get_or (parse_uevent text) (codes "HID_UNIQ") []) == address
          then (codes "/dev/" ++ name, parse_uevent text) ∷ rest
          else rest
    ]

-- `_matching_devices_sync`; `none` is an OSError of the listing.
unfoldable pub matching_devices_sync : Text → Option (Dict Text (Option Text)) → List Node
matching_devices_sync address none = []
matching_devices_sync address (some entries) = sorted_nodes (matches address entries)

-- The first HID_ID that is there and not empty.
unfoldable pub first_hid_id : List Node → Option Text
first_hid_id [] = none
first_hid_id ((path, properties) ∷ nodes) =
    let rest = first_hid_id nodes in
    elim (get properties (codes "HID_ID")) [
      | none ↦ rest
      | some [] ↦ rest
      | some (c ∷ s) ↦ some (c ∷ s)
    ]

-- `_hid_id_sync`
unfoldable pub hid_id_sync : Text → Option (Dict Text (Option Text)) → Option Text
hid_id_sync address entries = first_hid_id (matching_devices_sync address entries)

-- `written` is what the kernel took of a report, in bytes.
pub data Event : Type 0 where
  opened : Text → ℕ → Event
  written : ℕ → ℕ → Event
  closed : ℕ → Event

-- How the calls on a path and on a descriptor end: `none` is an OSError.
pub record Kernel : Type 0 where
  pub opens : Text → Option ℕ
  pub writes : ℕ → Bytes → Option ℕ

-- ValueError for a report ID that is no byte, and HidRawReportError: no node matches, or the paths of the
-- failures.
pub data WriteError : Type 0 where
  bad_report_id no_node : WriteError
  failed : List Text → WriteError

abbrev pub Outcome : Type 0
Outcome = Result WriteError Text × List Event

-- The loop of `_write_sync`, with the errors and the events so far.
unfoldable pub write_nodes : Kernel → Bytes → List Text → List Text → List Event → Outcome
write_nodes kernel report [] errors events = (err (failed errors), events)
write_nodes kernel report (path ∷ nodes) errors events = elim (kernel.opens path) [
  | none ↦ write_nodes kernel report nodes (errors ++ path ∷ []) events
  | some fd ↦ elim (kernel.writes fd report) [
    | none ↦
        write_nodes kernel report nodes (errors ++ path ∷ []) (closed fd ∷ opened path fd ∷ events)
    | some count ↦
        let later = closed fd ∷ written fd count ∷ opened path fd ∷ events in
        let next = write_nodes kernel report nodes (errors ++ path ∷ []) later in
        let done : Outcome = (ok path, later) in if count == length report then done else next
  ]
]

abbrev pub node_paths : List Node → List Text
node_paths [] = []
node_paths ((path, properties) ∷ nodes) = path ∷ node_paths nodes

unfoldable pub write_paths : Kernel → Bytes → List Text → Outcome
write_paths kernel report [] = (err no_node, [])
write_paths kernel report (path ∷ nodes) = write_nodes kernel report (path ∷ nodes) [] []

-- `_write_sync`; `bytes((report_id,))` comes first.
unfoldable pub write_sync : Text → Option (Dict Text (Option Text)) → Kernel → ℕ → Bytes → Outcome
write_sync address entries kernel report_id payload =
    let outcome =
      write_paths kernel (report_id ∷ payload)
        (node_paths (matching_devices_sync address entries)) in
    if leb report_id 255 then outcome else (err bad_report_id, [])
