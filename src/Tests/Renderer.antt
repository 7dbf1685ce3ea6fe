-- ===== src/Tests/Renderer.antt =====
-- A scene with a browser source, and one that a plugin cannot make, with whole numbers for `double`.
use streammate_studio_host.Prelude.{
  ◌≡◌, refl, subst, Bool, true, false, suc, [], ◌∷◌, ltb, Bytes, codes, contains_text, equal, All,
}
use streammate_studio_host.Prelude.Int.{ℤ, pos, negsuc}
use streammate_studio_host.Prelude.Result.{ok, err, Post}
use streammate_studio_host.Rpc.Reply.{answered, unavailable}
use streammate_studio_host.Rpc.Fields.{stoi, extract_json_string, extract_json_int}
use streammate_studio_host.Renderer.{Std, Libobs, SourceModel, RendererState, number, text}
use streammate_studio_host.Renderer.Mirror.{
  mirror_source_create, mirror_plugin_source_create, mirror_scene_load,
}
use streammate_studio_host.Renderer.Scenes.{load_scene, default_background}
use streammate_studio_host.Prelude.Ordered.{insert, member, less}
use streammate_studio_host.Rpc.Tokens.{parse_json_string_token}
use streammate_studio_host.Renderer.Create.{create_source}
use streammate_studio_host.Renderer.Settings.{
  parse_settings_body, known_filter_setting_keys, known_plugin_source_setting_keys,
}
use streammate_studio_host.Renderer.Steps.{
  Operation, loads_scene, creates_source, new_renderer, run, Reachable, at_launch, after,
}
use streammate_studio_host.Renderer.Sound.{Laws, IsSound, SameModel}
use streammate_studio_host.Renderer.Reached.{Reachable-IsSound, refused-SameModel}
use streammate_studio_host.Renderer.Allowed.{IsSetting, IsReason, parse_settings_body-Checked}
use streammate_studio_host.Renderer.Placed.{IsPlaced, create_source-IsPlaced}

abbrev less_int : ℤ → ℤ → Bool
less_int (pos n) (pos m) = ltb n m
less_int (pos n) (negsuc m) = false
less_int (negsuc n) (pos m) = true
less_int (negsuc n) (negsuc m) = ltb m n

abbrev abs : ℤ → ℤ
abs (pos n) = pos n
abs (negsuc n) = pos (suc n)

abbrev pub whole : Std ℤ
whole = record {
  of_int = λ n. n;
  below = less_int;
  above = λ x n. less_int n x;
  fabs = abs;
  is_finite = λ x. true;
  stod = stoi;
  url_scheme = contains_text (codes "://");
  scheme_relative = contains_text (codes " //");
  windows_absolute = λ value. false;
  live_or_secret_key = contains_text (codes "live_");
  query_key = contains_text (codes "key=");
}

whole-Laws : Laws whole
whole-Laws = record {
  zero_below = refl;
  zero_above = refl;
  one_below = refl;
  one_above = refl;
  zero_finite = refl;
  zero_bottom = refl;
  zero_top = refl;
}

abbrev pub willing : Libobs
willing = record {
  source_types = codes "shader" ∷ [];
  filter_types = [];
  scene_created = true;
  browser_registered = true;
  data_created = true;
  source_created = true;
  filter_created = true;
  item_added = λ id. true;
  has_filter = λ id. true;
  has_proc_handler = true;
}

abbrev unwilling : Libobs
unwilling = record willing { source_created = false }

abbrev first_load : Operation
first_load = loads_scene willing (codes "{\"sceneId\":\"s\",\"width\":64}")

abbrev browser_request : Bytes
browser_request = codes "{\"sceneId\":\"s\",\"sourceId\":\"a\",\"opacity\":3}"

abbrev first_source : Operation
first_source = creates_source willing browser_request

abbrev plugin_request : Bytes
plugin_request = codes "{\"sceneId\":\"s\",\"sourceId\":\"a\",\"kind\":\"shader\"}"

abbrev loaded : RendererState ℤ
loaded = record {
  scenes =
      (
        codes "s",
        record { id = codes "s"; width = 64; height = 72; background = default_background },
      )
      ∷ [];
  sources = [];
  filters = [];
  program_scene_id = codes "s";
  mirrors = record { obs_scenes = codes "s" ∷ []; obs_sources = []; obs_scene_items = [] };
}

loaded_first : (run whole first_load new_renderer).0 ≡ loaded
unfolding run load_scene extract_json_string extract_json_int insert mirror_scene_load member equal
loaded_first = refl

loaded-Reachable : Reachable whole loaded
loaded-Reachable = subst (Reachable whole) loaded_first (after first_load at_launch)

abbrev with_browser : RendererState ℤ
with_browser = (run whole first_source loaded).0

with_browser-Reachable : Reachable whole with_browser
with_browser-Reachable = after first_source loaded-Reachable

Reachable-IsSound_example : IsSound whole with_browser
Reachable-IsSound_example = Reachable-IsSound whole whole-Laws with_browser-Reachable

abbrev no_plugin : Bytes
no_plugin = codes "plugin source instantiation failed (no placeholder substituted)"

creation_refused :
    (run whole (creates_source unwilling plugin_request) loaded).1 ≡ unavailable no_plugin
unfolding run create_source extract_json_string contains_text member equal
    mirror_plugin_source_create
creation_refused = refl

refused-SameModel_example :
    SameModel whole loaded (run whole (creates_source unwilling plugin_request) loaded).0
refused-SameModel_example =
    refused-SameModel whole whole-Laws (creates_source unwilling plugin_request) 32603 no_plugin
      loaded-Reachable creation_refused

creation_answered : (create_source whole willing browser_request loaded).1 ≡ answered
unfolding create_source extract_json_string member equal mirror_source_create
creation_answered = refl

create_source-IsPlaced_example :
    (new : SourceModel ℤ) × IsPlaced whole willing browser_request loaded
      (create_source whole willing browser_request loaded).0
      new
create_source-IsPlaced_example =
    create_source-IsPlaced whole willing browser_request loaded creation_answered

abbrev color_text : Bytes
color_text = codes " \"color\" : 7, \"text\":\"hi\""

parse_settings_body-Checked_example :
    Post
      (All (IsSetting whole known_plugin_source_setting_keys (codes "plugin-settings") 4294967295))
      (IsReason (codes "plugin-settings"))
      (parse_settings_body whole known_plugin_source_setting_keys
        (codes "plugin-settings")
        4294967295
        color_text)
parse_settings_body-Checked_example =
    parse_settings_body-Checked whole known_plugin_source_setting_keys (codes "plugin-settings")
      4294967295 color_text

color_settings :
    parse_settings_body whole known_plugin_source_setting_keys
      (codes "plugin-settings")
      4294967295
      color_text
    ≡ ok ((codes "color", number (pos 7)) ∷ (codes "text", text (codes "hi")) ∷ [])
unfolding parse_settings_body parse_json_string_token member equal stoi contains_text less
color_settings = refl

unknown_setting :
    parse_settings_body whole known_filter_setting_keys
      (codes "filter-settings")
      1000000
      (codes "\"sharpness\":1,\"url\":2")
    ≡ err (codes "unknown filter-settings key (refused fail-closed)")
unfolding parse_settings_body parse_json_string_token member equal stoi
unknown_setting = refl
