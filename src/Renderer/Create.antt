-- ===== src/Renderer/Create.antt =====
-- `create_source` (src/studio_host.cpp).
use streammate_studio_host.Prelude.{
  ℕ, suc, max, Bool, true, false, not, Option, none, some, List, [], ◌∷◌, if◌then◌else◌, Bytes,
  codes, equal, is_empty, contains_text,
}
use streammate_studio_host.Prelude.Int.{pos}
use streammate_studio_host.Prelude.Result.{Result, ok, err, guard, ◌>>=◌}
use streammate_studio_host.Prelude.Ordered.{Map, insert, lookup, erase, member}
use streammate_studio_host.Rpc.Reply.{Reply, answered, invalid, unavailable}
use streammate_studio_host.Rpc.Fields.{
  extract_json_string, extract_json_bool, extract_json_int, value_start,
}
use streammate_studio_host.Renderer.{
  Std, Libobs, SceneModel, FilterSettingValue, SourceModel, FilterModel, RendererState, found,
}
use streammate_studio_host.Renderer.Mirror.{mirror_source_create, mirror_plugin_source_create}
use streammate_studio_host.Renderer.Settings.{double_token, parse_plugin_source_settings}

-- `value_or`
abbrev pub value_or {ℓ} : {A : Type ℓ} → Option A → A → A
value_or none default = default
value_or (some a) default = a

abbrev pub default_to : Bytes → Bytes → Bytes
default_to value default = if is_empty value then default else value

-- What a request for a plugin's kind says besides.
pub record PluginPart (F : Type 0) : Type 0 where
  pub settings : Map (FilterSettingValue F)
  pub filter_kind : Bytes
  pub filter_id : Bytes

abbrev pub is_browser : Bytes → Bool
is_browser kind = equal kind (codes "browser")

-- `restore_replaced` for one of the two maps: the entry that was replaced comes back.
unfoldable pub restored : {V : Type 0} → Bytes → Option V → Map V → Map V
restored id none m = erase id m
restored id (some v) m = insert id v m

module _ {F : Type 0} where
  unfoldable pub next_position : Bytes → Map (SourceModel F) → ℕ
  next_position scene_id [] = 0
  next_position scene_id ((id, source) ∷ sources) =
      let rest = next_position scene_id sources in
      if equal source.scene_id scene_id then max (suc source.position) rest else rest

  abbrev pub default_filter : FilterModel F
  default_filter = record {
    id = codes "color-correction";
    kind = codes "color_filter_v2";
    label = codes "Color Correction";
    enabled = true;
    settings = [];
  }

  abbrev pub plugin_filters : SourceModel F → List (FilterModel F)
  plugin_filters source =
      if is_empty source.plugin_filter_id
      then []
      else record {
        id = source.plugin_filter_id;
        kind = source.plugin_filter_kind;
        label = source.plugin_filter_id;
        enabled = true;
        settings = [];
      }
        ∷ []

  abbrev pub initial_filters : SourceModel F → List (FilterModel F)
  initial_filters source =
      if source.is_plugin_kind then plugin_filters source else default_filter ∷ []

  -- The model with a new source in it.
  abbrev pub with_source : SourceModel F → RendererState F → RendererState F
  with_source source s = record s {
    sources = insert source.id source s.sources;
    filters = insert source.id (initial_filters source) s.filters;
  }

  abbrev pub restore_replaced : Bytes → RendererState F → RendererState F → RendererState F
  restore_replaced id before s = record s {
    sources = restored id (lookup id before.sources) s.sources;
    filters = restored id (lookup id before.filters) s.filters;
  }

  abbrev pub mirror_create : Libobs → SourceModel F → RendererState F → RendererState F × Bool
  mirror_create o source s =
      let out =
        if source.is_plugin_kind
        then mirror_plugin_source_create o source s.mirrors
        else mirror_source_create o source s.mirrors in
      (record s { mirrors = out.0 }, out.1)

  abbrev pub no_instance : SourceModel F → Bytes
  no_instance source =
      if source.is_plugin_kind
      then codes "plugin source instantiation failed (no placeholder substituted)"
      else codes
          "browser source instantiation failed: obs-browser (CEF) is unavailable in this build (no placeholder substituted)"

  unfoldable pub settle :
      SourceModel F → RendererState F → RendererState F × Bool → RendererState F × Reply
  settle source before out =
      if out.1
      then (out.0, answered)
      else (restore_replaced source.id before out.0, unavailable (no_instance source))

  unfoldable pub place : Libobs → SourceModel F → RendererState F → RendererState F × Reply
  unfolding settle
  place o source s = settle source s (mirror_create o source (with_source source s))

module _ {F : Type 0} (std : Std F) where
  unfoldable pub extract_json_double : Bytes → Bytes → Option F
  unfolding value_start double_token
  extract_json_double json key = elim (value_start json key) [
    | none ↦ none
    | some at ↦ std.stod (double_token at).0
  ]

  -- `std::clamp(value, 0.0, 1.0)`
  unfoldable pub clamp : F → F
  clamp value =
      if std.below value (pos 0)
      then std.of_int (pos 0)
      else if std.above value (pos 1)
      then std.of_int (pos 1)
      else value

  unfoldable pub filter_checked : Libobs → Bytes → Bytes → Result (Unit {0})
  filter_checked o filter_kind filter_id =
      if not (is_empty filter_kind)
      then (if not (member filter_kind o.filter_types)
          then err (codes "pluginFilterKind is not a loaded user-plugin filter type")
          else guard (not (is_empty filter_id))
              (codes "filterId is required with pluginFilterKind"))
      else guard (is_empty filter_id) (codes "filterId requires pluginFilterKind")

  -- The checks for a kind that is not the browser's.
  unfoldable pub plugin_part : Libobs → Bytes → Bytes → Result (PluginPart F)
  unfolding filter_checked parse_plugin_source_settings
  plugin_part o request kind =
      let filter_kind = extract_json_string request (codes "pluginFilterKind") in
      let filter_id = extract_json_string request (codes "filterId") in
      do
        settings ←
            (if contains_text (codes "\"settings\"") request
              then parse_plugin_source_settings std request
              else ok [])
        not_rerouted ←
            guard (not (contains_text (codes "\"rerouteAudio\"") request))
              (codes "rerouteAudio is only valid for browser sources")
        loaded ←
            guard (member kind o.source_types)
              (codes "kind is not a loaded user-plugin source type")
        filter ← filter_checked o filter_kind filter_id
        ok (record { settings = settings; filter_kind = filter_kind; filter_id = filter_id })

  unfoldable pub kind_checked : Libobs → Bytes → Bytes → Result (PluginPart F)
  unfolding plugin_part
  kind_checked o request kind =
      if is_browser kind
      then ok (record { settings = []; filter_kind = []; filter_id = [] })
      else plugin_part o request kind

  unfoldable pub new_source : Bytes → Bytes → Bytes → SceneModel → PluginPart F → ℕ → SourceModel F
  unfolding extract_json_double clamp
  new_source request id kind scene plugin position = record {
    id = id;
    scene_id = extract_json_string request (codes "sceneId");
    kind = kind;
    url = extract_json_string request (codes "url");
    x = value_or (extract_json_int request (codes "x")) (pos 0);
    y = value_or (extract_json_int request (codes "y")) (pos 0);
    width = value_or (extract_json_int request (codes "width")) (pos scene.width);
    height = value_or (extract_json_int request (codes "height")) (pos scene.height);
    opacity = clamp (value_or (extract_json_double request (codes "opacity")) (std.of_int (pos 1)));
    muted = value_or (extract_json_bool request (codes "muted")) false;
    visible = true;
    position = position;
    volume_db = std.of_int (pos 0);
    media_action = codes "stop";
    browser_refresh_count = 0;
    reroute_audio = value_or (extract_json_bool request (codes "rerouteAudio")) false;
    is_plugin_kind = not (is_browser kind);
    plugin_settings = plugin.settings;
    plugin_filter_kind = plugin.filter_kind;
    plugin_filter_id = plugin.filter_id;
  }

  unfoldable pub create_checked :
      Libobs
      → Bytes
      → Bytes
      → Bytes
      → SceneModel
      → Result (PluginPart F)
      → RendererState F
      → RendererState F × Reply
  unfolding next_position new_source place
  create_checked o request id kind scene (err why) s = (s, invalid why)
  create_checked o request id kind scene (ok plugin) s =
      place o
        (new_source request id kind scene plugin
          (next_position (extract_json_string request (codes "sceneId")) s.sources))
        s

  unfoldable pub create_in :
      Libobs → Bytes → Option SceneModel → RendererState F → RendererState F × Reply
  unfolding create_checked kind_checked
  create_in o request none s = (s, invalid (codes "scene not loaded"))
  create_in o request (some scene) s =
      let id = extract_json_string request (codes "sourceId") in
      let kind = default_to (extract_json_string request (codes "kind")) (codes "browser") in
      if is_empty id
      then (s, invalid (codes "sourceId is required"))
      else create_checked o request id kind scene (kind_checked o request kind) s

  unfoldable pub create_source : Libobs → Bytes → RendererState F → RendererState F × Reply
  unfolding create_in found
  create_source o request s =
      create_in o request (found (extract_json_string request (codes "sceneId")) s.scenes) s
