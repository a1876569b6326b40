-- ===== src/Keymap/Tables.antt =====
-- The three usage tables of keymap.py, in the order of the source.
use home_assistant_bluetooth.Prelude.{
  ℕ, zero, suc, ◌+◌, ◌/◌, ◌%◌, String, List, [], ◌∷◌, ◌++◌, Text, codes, ltb, if◌then◌else◌,
}
use home_assistant_bluetooth.Prelude.Dict.{Dict}

abbrev pub UsageKey : Type 0
UsageKey = ℕ × ℕ

-- `{(0x07, first + index): name(index) for index in range(n)}`, from `index` on.
abbrev pub key_range : ℕ → (ℕ → Text) → ℕ → ℕ → Dict UsageKey Text
key_range first name zero index = []
key_range first name (suc n) index =
    ((0x07, first + index), name index) ∷ key_range first name n (index + 1)

-- str(n) for a number below 100.
abbrev pub decimal : ℕ → Text
decimal n = if ltb n 10 then (48 + n) ∷ [] else (48 + n / 10) ∷ (48 + n % 10) ∷ []

abbrev pub text_values : List (UsageKey × String) → Dict UsageKey Text
text_values [] = []
text_values ((k, v) ∷ entries) = (k, codes v) ∷ text_values entries

abbrev pub control_names : List (UsageKey × String)
control_names =
    ((0x07, 0x27), "0")
    ∷ ((0x07, 0x28), "ENTER")
    ∷ ((0x07, 0x29), "ESCAPE")
    ∷ ((0x07, 0x2A), "DEL")
    ∷ ((0x07, 0x2B), "TAB")
    ∷ ((0x07, 0x2C), "SPACE")
    ∷ []

abbrev pub remote_names : List (UsageKey × String)
remote_names =
    ((0x07, 0x4A), "MOVE_HOME")
    ∷ ((0x07, 0x4B), "PAGE_UP")
    ∷ ((0x07, 0x4C), "FORWARD_DEL")
    ∷ ((0x07, 0x4D), "MOVE_END")
    ∷ ((0x07, 0x4E), "PAGE_DOWN")
    ∷ ((0x07, 0x4F), "DPAD_RIGHT")
    ∷ ((0x07, 0x50), "DPAD_LEFT")
    ∷ ((0x07, 0x51), "DPAD_DOWN")
    ∷ ((0x07, 0x52), "DPAD_UP")
    ∷ ((0x07, 0x54), "NUMPAD_DIVIDE")
    ∷ ((0x07, 0x55), "NUMPAD_MULTIPLY")
    ∷ ((0x07, 0x56), "NUMPAD_SUBTRACT")
    ∷ ((0x07, 0x57), "NUMPAD_ADD")
    ∷ ((0x07, 0x58), "DPAD_CENTER")
    ∷ ((0x07, 0x66), "POWER")
    ∷ ((0x0C, 0x30), "POWER")
    ∷ ((0x0C, 0x40), "MENU")
    ∷ ((0x0C, 0x89), "TV")
    ∷ ((0x0C, 0x8D), "GUIDE")
    ∷ ((0x0C, 0x9C), "CHANNEL_UP")
    ∷ ((0x0C, 0x9D), "CHANNEL_DOWN")
    ∷ ((0x0C, 0xB0), "MEDIA_PLAY")
    ∷ ((0x0C, 0xB1), "MEDIA_PAUSE")
    ∷ ((0x0C, 0xB2), "MEDIA_RECORD")
    ∷ ((0x0C, 0xB3), "MEDIA_FAST_FORWARD")
    ∷ ((0x0C, 0xB4), "MEDIA_REWIND")
    ∷ ((0x0C, 0xB5), "MEDIA_NEXT")
    ∷ ((0x0C, 0xB6), "MEDIA_PREVIOUS")
    ∷ ((0x0C, 0xB7), "MEDIA_STOP")
    ∷ ((0x0C, 0xCD), "MEDIA_PLAY_PAUSE")
    ∷ ((0x0C, 0xE2), "VOLUME_MUTE")
    ∷ ((0x0C, 0xE9), "VOLUME_UP")
    ∷ ((0x0C, 0xEA), "VOLUME_DOWN")
    ∷ ((0x0C, 0x221), "SEARCH")
    ∷ ((0x0C, 0x223), "HOME")
    ∷ ((0x0C, 0x224), "BACK")
    ∷ ((0x0C, 0x225), "FORWARD")
    ∷ ((0xFF, 0x00A1), "VIDEO_APP_1")
    ∷ ((0xFF, 0x00A2), "VIDEO_APP_2")
    ∷ ((0xFF, 0x00A3), "VIDEO_APP_3")
    ∷ ((0xFF, 0x00A4), "VIDEO_APP_4")
    ∷ []

-- _ANDROID_TV_USAGE_NAMES
unfoldable pub android_tv_usage_names : Dict UsageKey Text
android_tv_usage_names =
    key_range 0x04 (λ index. (b'A' + index) ∷ []) 26 0
    ++ (key_range 0x1E (λ index. decimal (index + 1)) 9 0
        ++ (text_values control_names
            ++ (key_range 0x3A (λ index. b'F' ∷ decimal (index + 1)) 12 0
                ++ text_values remote_names)))

-- _GOOGLE_TV_USAGE_NAMES
unfoldable pub google_tv_usage_names : Dict UsageKey Text
google_tv_usage_names = text_values (
    ((0x0C, 0x0001), "DPAD_UP")
    ∷ ((0x0C, 0x0002), "DPAD_DOWN")
    ∷ ((0x0C, 0x0003), "DPAD_LEFT")
    ∷ ((0x0C, 0x0004), "DPAD_RIGHT")
    ∷ ((0x0C, 0x0005), "DPAD_CENTER")
    ∷ ((0x0C, 0x0006), "BACK")
    ∷ ((0x0C, 0x0007), "HOME")
    ∷ ((0x0C, 0x0008), "VOICE_ASSIST")
    ∷ ((0x07, 0x0001), "VOLUME_UP")
    ∷ ((0x07, 0x0002), "VOLUME_DOWN")
    ∷ ((0x0C, 0x0009), "VOLUME_MUTE")
    ∷ ((0x0C, 0x000A), "BUTTON_3")
    ∷ ((0x0C, 0x000B), "BUTTON_4")
    ∷ ((0x0C, 0x000C), "POWER")
    ∷ ((0x0C, 0x000D), "MACRO_1")
    ∷ [])

-- _LINUX_HID_KEYBOARD_ANDROID_COMPAT: a usage, its Linux code, and the Android name.
unfoldable pub linux_compat : Dict ℕ (ℕ × Text)
linux_compat =
    (0xF0, (150, codes "EXPLORER"))
    ∷ (0xF1, (158, codes "BACK"))
    ∷ (0xF2, (159, codes "FORWARD"))
    ∷ (0xF3, (128, codes "MEDIA_STOP"))
    ∷ (0xF5, (177, codes "PAGE_UP"))
    ∷ (0xF6, (178, codes "PAGE_DOWN"))
    ∷ (0xF8, (142, codes "SLEEP"))
    ∷ (0xF9, (152, codes "LOCK"))
    ∷ (0xFA, (173, codes "REFRESH"))
    ∷ (0xFB, (140, codes "CALCULATOR"))
    ∷ []
