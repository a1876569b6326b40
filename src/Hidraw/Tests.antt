-- ===== src/Hidraw/Tests.antt =====
-- A remote with two hidraw nodes, the first of which takes only a part of the report.
use home_assistant_bluetooth.Prelude.{
  List, true, ◌≡◌, refl, Option, some, [], ◌∷◌, text_eq, ◌==◌, if◌then◌else◌, Text, codes, casefold,
  ok, leb,
}
use home_assistant_bluetooth.Prelude.Dict.{Dict, get, put, get_or}
use home_assistant_bluetooth.Grab.{all_digits, text_leb}
use home_assistant_bluetooth.Hidraw.{
  Kernel, write_nodes, write_paths, write_sync, matching_devices_sync, matches, sorted_nodes,
  insert_node, is_hidraw_name, parse_uevent, parse_lines, split_lines, is_boundary, partition,
  hid_id_sync, first_hid_id,
}
use home_assistant_bluetooth.Hidraw.Writes.{IsSettled, write_sync-IsSettled}
use home_assistant_bluetooth.Hidraw.Order.{IsFirst, write_sync-IsFirst}
use home_assistant_bluetooth.Hidraw.Lines.{
  are_entries, is_key, is_plain, print, put_all, parse_uevent-print,
}

abbrev uevent : Text
uevent = codes "HID_ID=0005:0957\nHID_UNIQ=AA:01\n"

abbrev nodes : Option (Dict Text (Option Text))
nodes = some (
    (codes "hidraw2", some uevent)
    ∷ (codes "hidraw1", some uevent)
    ∷ (codes "hidraw", some uevent)
    ∷ [])

abbrev machine : Kernel
machine = record {
  opens = λ path. some (if path == codes "/dev/hidraw1" then 5 else 6);
  writes = λ fd report. some (if leb fd 5 then 1 else 3);
}

hid_id_test : hid_id_sync (codes "aa:01") nodes ≡ some (codes "0005:0957")
unfolding hid_id_sync first_hid_id matching_devices_sync matches sorted_nodes insert_node
    is_hidraw_name parse_uevent parse_lines split_lines is_boundary partition get get_or put
    all_digits text_leb casefold
hid_id_test = refl

second_node_test :
    (write_sync (codes "aa:01") nodes machine 4 (1 ∷ 2 ∷ [])).0 ≡ ok (codes "/dev/hidraw2")
unfolding write_sync write_paths write_nodes matching_devices_sync matches sorted_nodes insert_node
    is_hidraw_name parse_uevent parse_lines split_lines is_boundary partition get get_or put
    all_digits text_leb casefold
second_node_test = refl

write_sync-IsSettled_example :
    IsSettled (4 ∷ 1 ∷ 2 ∷ []) (write_sync (codes "aa:01") nodes machine 4 (1 ∷ 2 ∷ []))
write_sync-IsSettled_example = write_sync-IsSettled (codes "aa:01") nodes machine 4 (1 ∷ 2 ∷ [])

write_sync-IsFirst_example :
    IsFirst
      (codes "aa:01")
      nodes
      machine
      (4 ∷ 1 ∷ 2 ∷ [])
      (write_sync (codes "aa:01") nodes machine 4 (1 ∷ 2 ∷ [])).0
write_sync-IsFirst_example = write_sync-IsFirst (codes "aa:01") nodes machine 4 (1 ∷ 2 ∷ []) refl

abbrev two_lines : List (Text × Text)
two_lines = (codes "HID_ID", codes "0005:0957") ∷ (codes "MODALIAS", codes "hid:b=5") ∷ []

two_lines-plain : are_entries two_lines ≡ true
unfolding are_entries is_key is_plain is_boundary
two_lines-plain = refl

parse_uevent-print_example : parse_uevent (print two_lines) ≡ put_all two_lines []
parse_uevent-print_example = parse_uevent-print two_lines two_lines-plain
