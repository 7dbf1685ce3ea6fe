-- ===== src/Renderer/Settings.antt =====
-- `parse_settings_body` with its callers and helpers (src/studio_host.cpp). A position is the rest of
-- the text. A round of the loop takes at least a byte, so that one more round than the text has bytes is enough.
use streammate_studio_host.Prelude.{
  ℕ, zero, suc, ◌+◌, Bool, true, false, not, ◌&&◌, ◌||◌, Option, none, some, List, [], ◌∷◌, ◌++◌,
  if◌then◌else◌, ltb, leb, ◌==◌, Bytes, codes, is_empty, is_digit, after_prefix, contains_text,
  length,
}
use streammate_studio_host.Prelude.Int.{pos}
use streammate_studio_host.Prelude.Result.{Result, ok, err, guard, ◌>>=◌}
use streammate_studio_host.Prelude.Ordered.{Map, insert, member}
use streammate_studio_host.Scanner.Number.{ws}
use streammate_studio_host.Rpc.Tokens.{parse_json_string_token, extract_json_object_body, tail}
use streammate_studio_host.Renderer.{Std, FilterSettingValue, number, boolean, text}
use streammate_studio_host.Renderer.Mirror.{starts_with}

abbrev pub known_filter_setting_keys : List Bytes
known_filter_setting_keys =
    codes "brightness"
    ∷ codes "contrast"
    ∷ codes "gamma"
    ∷ codes "saturation"
    ∷ codes "hue_shift"
    ∷ codes "opacity"
    ∷ codes "color_multiply"
    ∷ codes "color_add"
    ∷ codes "similarity"
    ∷ codes "smoothness"
    ∷ codes "spill"
    ∷ codes "key_color_type"
    ∷ codes "key_color"
    ∷ codes "left"
    ∷ codes "right"
    ∷ codes "top"
    ∷ codes "bottom"
    ∷ codes "relative"
    ∷ codes "db"
    ∷ codes "gain_db"
    ∷ codes "ratio"
    ∷ codes "threshold"
    ∷ codes "open_threshold"
    ∷ codes "close_threshold"
    ∷ codes "attack_time"
    ∷ codes "hold_time"
    ∷ codes "release_time"
    ∷ codes "suppress_level"
    ∷ codes "sharpness"
    ∷ []

abbrev pub known_plugin_source_setting_keys : List Bytes
known_plugin_source_setting_keys = codes "color" ∷ codes "text" ∷ []

-- `std::tolower` in the C locale.
unfoldable pub lower : Bytes → Bytes
lower [] = []
lower (c ∷ t) = (if leb b'A' c && leb c b'Z' then c + 32 else c) ∷ lower t

abbrev pub separate : Bytes
separate = codes "settings entries must be separated by commas"

abbrev pub no_key : Bytes
no_key = codes "settings must contain string keys"

abbrev pub no_pair : Bytes
no_pair = codes "settings must contain key/value pairs"

abbrev pub no_value : Bytes
no_value = codes "settings value is required"

abbrev pub unknown : Bytes → Bytes
unknown family = codes "unknown " ++ family ++ codes " key (refused fail-closed)"

abbrev pub bad_string : Bytes → Bytes
bad_string family = family ++ codes " string value refused"

abbrev pub infinite : Bytes → Bytes
infinite family = family ++ codes " number must be finite"

abbrev pub too_large : Bytes → Bytes
too_large family = family ++ codes " number is out of range"

abbrev pub not_primitive : Bytes → Bytes
not_primitive family = family ++ codes " values must be primitive"

abbrev pub nothing_set : Bytes → Bytes
nothing_set family = codes "settings must set at least one known " ++ family ++ codes " key"

-- The head of a text, and what is behind it.
abbrev pub heads : ℕ → Bytes → Bool
heads b [] = false
heads b (c ∷ t) = c == b

-- The characters in front of the first that is not of "-0123456789.eE+", and what is behind them.
unfoldable pub double_token : Bytes → Bytes × Bytes
double_token [] = ([], [])
double_token (c ∷ t) =
    let more = double_token t in
    if c == b'-' || is_digit c || c == b'.' || c == b'e' || c == b'E' || c == b'+'
    then (c ∷ more.0, more.1)
    else ([], c ∷ t)

-- The start of a round: the comma in front of every entry but the first.
unfoldable pub separated : Bool → Bytes → Result Bytes
unfolding ws
separated true t = if heads b',' t then err separate else ok t
separated false t =
    let t' = ws (tail t) in
    if not (heads b',' t)
    then err separate
    else if is_empty t' || heads b',' t'
    then err separate
    else ok t'

-- From a key to its value.
unfoldable pub colon : Bytes → Result Bytes
unfolding ws
colon t =
    let t' = ws t in
    let v = ws (tail t') in
    if not (heads b':' t') then err no_pair else if is_empty v then err no_value else ok v

-- `settings.empty()`
abbrev pub is_nil : {V : Type 0} → Map V → Bool
is_nil [] = true
is_nil (e ∷ m) = false

module _ {F : Type 0} (std : Std F) where
  unfoldable pub settings_string_refused : Bytes → Bool
  unfolding lower starts_with
  settings_string_refused value =
      std.url_scheme value
      || std.scheme_relative value
      || starts_with (codes "/") value
      || starts_with (codes "~/") value
      || std.windows_absolute value
      || starts_with (codes "stm_") (lower value)
      || contains_text (codes "stream-key") (lower value)
      || contains_text (codes "secret") (lower value)
      || std.live_or_secret_key value
      || std.query_key value

  -- What the entries of one call may be: `known_keys`, `family` and `max_abs_number`.
  module _ (known_keys : List Bytes) (family : Bytes) (max_abs_number : ℕ) where
    unfoldable pub string_setting : Option Bytes × Bytes → Result (FilterSettingValue F × Bytes)
    unfolding settings_string_refused
    string_setting (none, t) = err (bad_string family)
    string_setting (some value, t) =
        if is_empty value || ltb 120 (length value) || settings_string_refused value
        then err (bad_string family)
        else ok (text value, t)

    unfoldable pub number_setting : Option F → Bytes → Result (FilterSettingValue F × Bytes)
    number_setting none t = err (not_primitive family)
    number_setting (some value) t =
        if not (std.is_finite value)
        then err (infinite family)
        else if std.above (std.fabs value) (pos max_abs_number)
        then err (too_large family)
        else ok (number value, t)

    unfoldable pub word_setting :
        Option Bytes → Option Bytes → Bytes → Result (FilterSettingValue F × Bytes)
    unfolding number_setting double_token
    word_setting (some t) is_false t' = ok (boolean true, t)
    word_setting none (some t) t' = ok (boolean false, t)
    word_setting none none t' = number_setting (std.stod (double_token t').0) (double_token t').1

    unfoldable pub setting_at : Bytes → Result (FilterSettingValue F × Bytes)
    unfolding string_setting word_setting after_prefix
    setting_at t =
        if heads b'"' t
        then string_setting (parse_json_string_token t)
        else word_setting (after_prefix (codes "true") t) (after_prefix (codes "false") t) t

    -- A key that may be set, and the text behind it.
    unfoldable pub known_key : Option Bytes × Bytes → Result (Bytes × Bytes)
    known_key (none, t) = err no_key
    known_key (some key, t) =
        if not (member key known_keys) then err (unknown family) else ok (key, t)

    -- One entry, and the text behind it.
    unfoldable pub entry : Bool → Bytes → Result ((Bytes × FilterSettingValue F) × Bytes)
    unfolding separated known_key colon setting_at ws
    entry first t = do
      start ← separated first t
      key ← known_key (parse_json_string_token start)
      value_text ← colon key.1
      value ← setting_at value_text
      end ← guard (is_empty (ws value.1) || heads b',' (ws value.1)) separate
      ok ((key.0, value.0), value.1)

    -- The loop; the empty message is for one that has no more rounds.
    unfoldable pub entries :
        ℕ → Bool → Bytes → Map (FilterSettingValue F) → Result (Map (FilterSettingValue F))
    unfolding entry ws insert
    entries zero first t settings = err []
    entries (suc fuel) first t settings =
        if is_empty (ws t)
        then ok settings
        else entry first (ws t) >>= λ e. entries fuel false e.1 (insert e.0.0 e.0.1 settings)

    unfoldable pub parse_settings_body : Bytes → Result (Map (FilterSettingValue F))
    unfolding entries
    parse_settings_body body = do
      settings ← entries (suc (length body)) true body []
      some_set ← guard (not (is_nil settings)) (nothing_set family)
      ok settings

  unfoldable pub settings_of :
      List Bytes → Bytes → ℕ → Option Bytes → Result (Map (FilterSettingValue F))
  settings_of known_keys family bound none =
      err (codes "settings must be an object of known " ++ family ++ codes " keys")
  settings_of known_keys family bound (some body) = parse_settings_body known_keys family bound body

  unfoldable pub parse_plugin_source_settings : Bytes → Result (Map (FilterSettingValue F))
  unfolding settings_of
  parse_plugin_source_settings request =
      settings_of known_plugin_source_setting_keys (codes "plugin-settings") 4294967295
        (extract_json_object_body request (codes "settings"))

  unfoldable pub parse_filter_settings : Bytes → Result (Map (FilterSettingValue F))
  unfolding settings_of
  parse_filter_settings request =
      settings_of known_filter_setting_keys (codes "filter-settings") 1000000
        (extract_json_object_body request (codes "settings"))
