-- ===== src/Keymap/Codes/High.antt =====
-- custom_components/bluetooth_hid_remote/android_keycodes.py: a third of ANDROID_KEY_CODES.
use home_assistant_bluetooth.Prelude.{ℕ, String, List, [], ◌∷◌}

abbrev pub high_key_codes : List (String × ℕ)
high_key_codes =
    ("PAIRING", 225)
    ∷ ("MEDIA_TOP_MENU", 226)
    ∷ ("11", 227)
    ∷ ("12", 228)
    ∷ ("LAST_CHANNEL", 229)
    ∷ ("TV_DATA_SERVICE", 230)
    ∷ ("VOICE_ASSIST", 231)
    ∷ ("TV_RADIO_SERVICE", 232)
    ∷ ("TV_TELETEXT", 233)
    ∷ ("TV_NUMBER_ENTRY", 234)
    ∷ ("TV_TERRESTRIAL_ANALOG", 235)
    ∷ ("TV_TERRESTRIAL_DIGITAL", 236)
    ∷ ("TV_SATELLITE", 237)
    ∷ ("TV_SATELLITE_BS", 238)
    ∷ ("TV_SATELLITE_CS", 239)
    ∷ ("TV_SATELLITE_SERVICE", 240)
    ∷ ("TV_NETWORK", 241)
    ∷ ("TV_ANTENNA_CABLE", 242)
    ∷ ("TV_INPUT_HDMI_1", 243)
    ∷ ("TV_INPUT_HDMI_2", 244)
    ∷ ("TV_INPUT_HDMI_3", 245)
    ∷ ("TV_INPUT_HDMI_4", 246)
    ∷ ("TV_INPUT_COMPOSITE_1", 247)
    ∷ ("TV_INPUT_COMPOSITE_2", 248)
    ∷ ("TV_INPUT_COMPONENT_1", 249)
    ∷ ("TV_INPUT_COMPONENT_2", 250)
    ∷ ("TV_INPUT_VGA_1", 251)
    ∷ ("TV_AUDIO_DESCRIPTION", 252)
    ∷ ("TV_AUDIO_DESCRIPTION_MIX_UP", 253)
    ∷ ("TV_AUDIO_DESCRIPTION_MIX_DOWN", 254)
    ∷ ("TV_ZOOM_MODE", 255)
    ∷ ("TV_CONTENTS_MENU", 256)
    ∷ ("TV_MEDIA_CONTEXT_MENU", 257)
    ∷ ("TV_TIMER_PROGRAMMING", 258)
    ∷ ("HELP", 259)
    ∷ ("NAVIGATE_PREVIOUS", 260)
    ∷ ("NAVIGATE_NEXT", 261)
    ∷ ("NAVIGATE_IN", 262)
    ∷ ("NAVIGATE_OUT", 263)
    ∷ ("STEM_PRIMARY", 264)
    ∷ ("STEM_1", 265)
    ∷ ("STEM_2", 266)
    ∷ ("STEM_3", 267)
    ∷ ("DPAD_UP_LEFT", 268)
    ∷ ("DPAD_DOWN_LEFT", 269)
    ∷ ("DPAD_UP_RIGHT", 270)
    ∷ ("DPAD_DOWN_RIGHT", 271)
    ∷ ("MEDIA_SKIP_FORWARD", 272)
    ∷ ("MEDIA_SKIP_BACKWARD", 273)
    ∷ ("MEDIA_STEP_FORWARD", 274)
    ∷ ("MEDIA_STEP_BACKWARD", 275)
    ∷ ("SOFT_SLEEP", 276)
    ∷ ("CUT", 277)
    ∷ ("COPY", 278)
    ∷ ("PASTE", 279)
    ∷ ("SYSTEM_NAVIGATION_UP", 280)
    ∷ ("SYSTEM_NAVIGATION_DOWN", 281)
    ∷ ("SYSTEM_NAVIGATION_LEFT", 282)
    ∷ ("SYSTEM_NAVIGATION_RIGHT", 283)
    ∷ ("ALL_APPS", 284)
    ∷ ("REFRESH", 285)
    ∷ ("THUMBS_UP", 286)
    ∷ ("THUMBS_DOWN", 287)
    ∷ ("PROFILE_SWITCH", 288)
    ∷ ("VIDEO_APP_1", 289)
    ∷ ("VIDEO_APP_2", 290)
    ∷ ("VIDEO_APP_3", 291)
    ∷ ("VIDEO_APP_4", 292)
    ∷ ("VIDEO_APP_5", 293)
    ∷ ("VIDEO_APP_6", 294)
    ∷ ("VIDEO_APP_7", 295)
    ∷ ("VIDEO_APP_8", 296)
    ∷ ("FEATURED_APP_1", 297)
    ∷ ("FEATURED_APP_2", 298)
    ∷ ("FEATURED_APP_3", 299)
    ∷ ("FEATURED_APP_4", 300)
    ∷ ("DEMO_APP_1", 301)
    ∷ ("DEMO_APP_2", 302)
    ∷ ("DEMO_APP_3", 303)
    ∷ ("DEMO_APP_4", 304)
    ∷ ("KEYBOARD_BACKLIGHT_DOWN", 305)
    ∷ ("KEYBOARD_BACKLIGHT_UP", 306)
    ∷ ("KEYBOARD_BACKLIGHT_TOGGLE", 307)
    ∷ ("STYLUS_BUTTON_PRIMARY", 308)
    ∷ ("STYLUS_BUTTON_SECONDARY", 309)
    ∷ ("STYLUS_BUTTON_TERTIARY", 310)
    ∷ ("STYLUS_BUTTON_TAIL", 311)
    ∷ ("RECENT_APPS", 312)
    ∷ ("MACRO_1", 313)
    ∷ ("MACRO_2", 314)
    ∷ ("MACRO_3", 315)
    ∷ ("MACRO_4", 316)
    ∷ ("EMOJI_PICKER", 317)
    ∷ ("SCREENSHOT", 318)
    ∷ ("DICTATE", 319)
    ∷ ("NEW", 320)
    ∷ ("CLOSE", 321)
    ∷ ("DO_NOT_DISTURB", 322)
    ∷ ("PRINT", 323)
    ∷ ("LOCK", 324)
    ∷ ("FULLSCREEN", 325)
    ∷ ("F13", 326)
    ∷ ("F14", 327)
    ∷ ("F15", 328)
    ∷ ("F16", 329)
    ∷ ("F17", 330)
    ∷ ("F18", 331)
    ∷ ("F19", 332)
    ∷ ("F20", 333)
    ∷ ("F21", 334)
    ∷ ("F22", 335)
    ∷ ("F23", 336)
    ∷ ("F24", 337)
    ∷ []

-- A table of literals, its keys as code points.
