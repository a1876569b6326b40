-- ===== src/Keymap/Codes/Middle.antt =====
-- custom_components/bluetooth_hid_remote/android_keycodes.py: a third of ANDROID_KEY_CODES.
use home_assistant_bluetooth.Prelude.{ℕ, String, List, [], ◌∷◌}

abbrev pub middle_key_codes : List (String × ℕ)
middle_key_codes =
    ("FORWARD_DEL", 112)
    ∷ ("CTRL_LEFT", 113)
    ∷ ("CTRL_RIGHT", 114)
    ∷ ("CAPS_LOCK", 115)
    ∷ ("SCROLL_LOCK", 116)
    ∷ ("META_LEFT", 117)
    ∷ ("META_RIGHT", 118)
    ∷ ("FUNCTION", 119)
    ∷ ("SYSRQ", 120)
    ∷ ("BREAK", 121)
    ∷ ("MOVE_HOME", 122)
    ∷ ("MOVE_END", 123)
    ∷ ("INSERT", 124)
    ∷ ("FORWARD", 125)
    ∷ ("MEDIA_PLAY", 126)
    ∷ ("MEDIA_PAUSE", 127)
    ∷ ("MEDIA_CLOSE", 128)
    ∷ ("MEDIA_EJECT", 129)
    ∷ ("MEDIA_RECORD", 130)
    ∷ ("F1", 131)
    ∷ ("F2", 132)
    ∷ ("F3", 133)
    ∷ ("F4", 134)
    ∷ ("F5", 135)
    ∷ ("F6", 136)
    ∷ ("F7", 137)
    ∷ ("F8", 138)
    ∷ ("F9", 139)
    ∷ ("F10", 140)
    ∷ ("F11", 141)
    ∷ ("F12", 142)
    ∷ ("NUM_LOCK", 143)
    ∷ ("NUMPAD_0", 144)
    ∷ ("NUMPAD_1", 145)
    ∷ ("NUMPAD_2", 146)
    ∷ ("NUMPAD_3", 147)
    ∷ ("NUMPAD_4", 148)
    ∷ ("NUMPAD_5", 149)
    ∷ ("NUMPAD_6", 150)
    ∷ ("NUMPAD_7", 151)
    ∷ ("NUMPAD_8", 152)
    ∷ ("NUMPAD_9", 153)
    ∷ ("NUMPAD_DIVIDE", 154)
    ∷ ("NUMPAD_MULTIPLY", 155)
    ∷ ("NUMPAD_SUBTRACT", 156)
    ∷ ("NUMPAD_ADD", 157)
    ∷ ("NUMPAD_DOT", 158)
    ∷ ("NUMPAD_COMMA", 159)
    ∷ ("NUMPAD_ENTER", 160)
    ∷ ("NUMPAD_EQUALS", 161)
    ∷ ("NUMPAD_LEFT_PAREN", 162)
    ∷ ("NUMPAD_RIGHT_PAREN", 163)
    ∷ ("VOLUME_MUTE", 164)
    ∷ ("INFO", 165)
    ∷ ("CHANNEL_UP", 166)
    ∷ ("CHANNEL_DOWN", 167)
    ∷ ("ZOOM_IN", 168)
    ∷ ("ZOOM_OUT", 169)
    ∷ ("TV", 170)
    ∷ ("WINDOW", 171)
    ∷ ("GUIDE", 172)
    ∷ ("DVR", 173)
    ∷ ("BOOKMARK", 174)
    ∷ ("CAPTIONS", 175)
    ∷ ("SETTINGS", 176)
    ∷ ("TV_POWER", 177)
    ∷ ("TV_INPUT", 178)
    ∷ ("STB_POWER", 179)
    ∷ ("STB_INPUT", 180)
    ∷ ("AVR_POWER", 181)
    ∷ ("AVR_INPUT", 182)
    ∷ ("PROG_RED", 183)
    ∷ ("PROG_GREEN", 184)
    ∷ ("PROG_YELLOW", 185)
    ∷ ("PROG_BLUE", 186)
    ∷ ("APP_SWITCH", 187)
    ∷ ("BUTTON_1", 188)
    ∷ ("BUTTON_2", 189)
    ∷ ("BUTTON_3", 190)
    ∷ ("BUTTON_4", 191)
    ∷ ("BUTTON_5", 192)
    ∷ ("BUTTON_6", 193)
    ∷ ("BUTTON_7", 194)
    ∷ ("BUTTON_8", 195)
    ∷ ("BUTTON_9", 196)
    ∷ ("BUTTON_10", 197)
    ∷ ("BUTTON_11", 198)
    ∷ ("BUTTON_12", 199)
    ∷ ("BUTTON_13", 200)
    ∷ ("BUTTON_14", 201)
    ∷ ("BUTTON_15", 202)
    ∷ ("BUTTON_16", 203)
    ∷ ("LANGUAGE_SWITCH", 204)
    ∷ ("MANNER_MODE", 205)
    ∷ ("3D_MODE", 206)
    ∷ ("CONTACTS", 207)
    ∷ ("CALENDAR", 208)
    ∷ ("MUSIC", 209)
    ∷ ("CALCULATOR", 210)
    ∷ ("ZENKAKU_HANKAKU", 211)
    ∷ ("EISU", 212)
    ∷ ("MUHENKAN", 213)
    ∷ ("HENKAN", 214)
    ∷ ("KATAKANA_HIRAGANA", 215)
    ∷ ("YEN", 216)
    ∷ ("RO", 217)
    ∷ ("KANA", 218)
    ∷ ("ASSIST", 219)
    ∷ ("BRIGHTNESS_DOWN", 220)
    ∷ ("BRIGHTNESS_UP", 221)
    ∷ ("MEDIA_AUDIO_TRACK", 222)
    ∷ ("SLEEP", 223)
    ∷ ("WAKEUP", 224)
    ∷ []
