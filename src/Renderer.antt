-- ===== src/Renderer.antt =====
-- `class RendererState` of src/studio_host.cpp in a build with libobs: its scenes, sources and filters,
-- and the mirrors of them that libobs holds. `double`, `std::stod` and the regular expressions of
-- `settings_string_refused` are parameters. Not modelled: the JSON texts of the answers, the pixels of
-- the captures, and the calls of libobs that neither answer nor are kept track of. `position` and
-- `browser_refresh_count` have no upper bound here.
pub mod Mirror
pub mod Settings
pub mod Create
pub mod Scenes
pub mod Edits
pub mod Requests
pub mod Steps
pub mod Sound
pub mod Kept
pub mod Bounded
pub mod Loaded
pub mod Mirrored
pub mod Created
pub mod Reached
pub mod Shrinks
pub mod Allowed
pub mod Live
pub mod Placed
use streammate_studio_host.Prelude.{ℕ, Bool, Option, none, List, Bytes, is_empty, if◌then◌else◌}
use streammate_studio_host.Prelude.Int.{ℤ, pos, negsuc}
use streammate_studio_host.Prelude.Ordered.{Map, lookup}

-- `double` with what the code asks of it: `x < n`, `x > n`, `std::fabs`, `std::isfinite`, `std::stod`
-- (`none` where it throws); and the regular expressions, each with the code's name for it.
pub record Std (F : Type 0) : Type 0 where
  pub of_int : ℤ → F
  pub below : F → ℤ → Bool
  pub above : F → ℤ → Bool
  pub fabs : F → F
  pub is_finite : F → Bool
  pub stod : Bytes → Option F
  pub url_scheme : Bytes → Bool
  pub scheme_relative : Bytes → Bool
  pub windows_absolute : Bytes → Bool
  pub live_or_secret_key : Bytes → Bool
  pub query_key : Bytes → Bool

-- The types that user plugins have registered, and what libobs answers while one request is served.
-- A pointer that it returns is a Boolean: whether it is not null.
pub record Libobs : Type 0 where
  pub source_types : List Bytes
  pub filter_types : List Bytes
  pub scene_created : Bool
  pub browser_registered : Bool
  pub data_created : Bool
  pub source_created : Bool
  pub filter_created : Bool
  pub item_added : Bytes → Bool
  pub has_filter : Bytes → Bool
  pub has_proc_handler : Bool

pub record Rgba : Type 0 where
  pub r : ℕ
  pub g : ℕ
  pub b : ℕ
  pub a : ℕ

pub record SceneModel : Type 0 where
  pub id : Bytes
  pub width : ℕ
  pub height : ℕ
  pub background : Rgba

-- `FilterSettingKind` with the member that it names.
pub data FilterSettingValue (F : Type 0) : Type 0 where
  number : F → FilterSettingValue F
  boolean : Bool → FilterSettingValue F
  text : Bytes → FilterSettingValue F

pub record SourceModel (F : Type 0) : Type 0 where
  pub id : Bytes
  pub scene_id : Bytes
  pub kind : Bytes
  pub url : Bytes
  pub x : ℤ
  pub y : ℤ
  pub width : ℤ
  pub height : ℤ
  pub opacity : F
  pub muted : Bool
  pub visible : Bool
  pub position : ℕ
  pub volume_db : F
  pub media_action : Bytes
  pub browser_refresh_count : ℕ
  pub reroute_audio : Bool
  pub is_plugin_kind : Bool
  pub plugin_settings : Map (FilterSettingValue F)
  pub plugin_filter_kind : Bytes
  pub plugin_filter_id : Bytes

pub record FilterModel (F : Type 0) : Type 0 where
  pub id : Bytes
  pub kind : Bytes
  pub label : Bytes
  pub enabled : Bool
  pub settings : Map (FilterSettingValue F)

-- `obs_scenes_`, `obs_sources_` and `obs_scene_items_`: their keys.
pub record Mirrors : Type 0 where
  pub obs_scenes : List Bytes
  pub obs_sources : List Bytes
  pub obs_scene_items : List Bytes

pub record RendererState (F : Type 0) : Type 0 where
  pub scenes : Map SceneModel
  pub sources : Map (SourceModel F)
  pub filters : Map (List (FilterModel F))
  pub program_scene_id : Bytes
  pub mirrors : Mirrors

-- `id.empty() || m.find(id) == m.end()` is the test for `none`.
unfoldable pub found : {V : Type 0} → Bytes → Map V → Option V
unfolding lookup
found id m = if is_empty id then none else lookup id m
