-- ===== src/Lib.antt =====
-- A model of the Bluetooth HID remote integration for Home Assistant
-- (custom_components/bluetooth_hid_remote), with the theorems that make its parts correct.
--
-- A remote is connected by BlueZ; the integration subscribes to its GATT characteristics and gets each
-- notified value by a callback. The callback routes the value by its path: a static value is ignored,
-- a repeated cached value is dropped once, an ATVV characteristic carries Android TV voice, and the
-- rest are HID input reports, which are decoded by the remote's report descriptor into usages and
-- handed to the listeners; a key profile names each usage.
--
-- The parts and their files:
--   Prelude   lists, dicts, sets, bytes, texts and fallible results as the Python code uses them.
--   Hid       hid.py. Hid/Parse is _parse_input_fields, one function for each kind of item and a loop
--             over the bytes; Hid/Decode is HidReportDecoder.decode; Hid/Descriptor has the report map
--             of a remote with one array field.
--   Voice     voice.py. Voice/Adpcm is AtvvImaAdpcmDecoder, its fields passed from call to call;
--             Voice/Ogg is build_ogg_opus with _ogg_page and _ogg_crc; Voice/Buffers has the two
--             buffers and the checks of async_decode_opus_packets.
--   Keymap    keymap.py and android_keycodes.py. Keymap/Tables and Keymap/Codes are the tables,
--             Keymap/Names the text functions, Keymap/Mapper the built-in profiles and the attributes,
--             Keymap/Profiles the custom profiles of a keymap file, from its decoded YAML.
--   Manager   manager.py. Manager/State is the record of the manager's fields, and the effects that a
--             callback has beside changing them: a report to the listeners, a voice packet to the voice
--             listeners, a task for the event loop. Manager/Values is _async_bluez_value_changed,
--             Manager/Button the Search key and _publish_report, Manager/Connection is
--             _async_bluez_connected_changed, Manager/Notifications the subscriptions
--             (_async_start_notifications and _async_stop_notifications) with the replies of the bus
--             as parameters.
--   Pairing   pairing.py. Pairing/Bonds has the checks on what BlueZ exports, Pairing/Agent the answers
--             of the temporary agent, Pairing/Session the awaits and the try, except and finally of a
--             coroutine, with a record of what was done on the bus. Pairing/Fresh is the pairing of a
--             remote that has no bond, Pairing/Flow the three entry points async_remove_hogp_device,
--             async_rebuild_hogp_bond and async_pair_hogp_device.
--   Grab      input_grab.py: BluetoothInputGrabber. Grab/Runs has async_start and async_stop with the
--             steps that worker threads take between their awaits.
--   Hidraw    hidraw.py: BluetoothHidRawWriter.
--   Satellite assist_satellite.py: the recording of BluetoothHidRemoteAssistSatellite, its callbacks in
--             any order, and the processing tasks that it starts.
--
-- How the source is read:
--   - An exception is the error of a Result; where the code catches it, the model matches on it. A
--     missing key or an index out of range is an error or `none`, never a default.
--   - A mutable object is passed in and given back. The manager's decoder is reached only through the
--     manager, so no other alias of it exists.
--   - The descriptor parser runs on fuel, the number of bytes of the report map; each round uses up at
--     least one byte, so the fuel is enough. The lacing loop of an Ogg page has the payload's length
--     as fuel, and each round takes 255 off. The digits of a hexadecimal number have the number as
--     fuel, and each digit divides it by 16.
--   - A polling loop of the pairing sleeps as often as the environment says (`polls`) before its timeout
--     fires; every await has one outcome, which can be a failure or the cancellation of the task.
--   - Machine integers are those of struct.pack and of the CRC: out of range is an error, and the CRC
--     is masked to 32 bits.
--   - Texts are lists of code points. Upper case and hexadecimal digits are those of ASCII.
--
-- Parameters, since their code is not in the repository: the HID Usage Tables (Hid/Types, UsageTables)
-- and the ffmpeg process (Voice/Buffers). The kernel's answers to open, ioctl, write and close are the
-- record `Kernel` of Grab and of Hidraw. BlueZ, the event loop and Home Assistant are the environment:
-- what they deliver is an argument of the callbacks.
--
-- Not modelled: log lines; the mapping of characteristics and the voice commands of the manager, which
-- await D-Bus calls; the Assist pipeline behind the satellite; compatibility diagnostics; the forms and
-- entities of Home Assistant.
pub mod Prelude
pub mod Hid
pub mod Voice
pub mod Keymap
pub mod Manager
pub mod Grab
pub mod Hidraw
pub mod Pairing
pub mod Satellite
