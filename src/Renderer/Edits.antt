-- ===== src/Renderer/Edits.antt =====
-- What a request may do to one source or to one filter (src/studio_host.cpp).
use streammate_studio_host.Prelude.{
  ℕ, suc, Bool, true, false, not, ◌||◌, Option, none, some, [], ◌∷◌, ◌==◌, ltb, if◌then◌else◌,
  Bytes, codes, equal, contains_text,
}
use streammate_studio_host.Prelude.Int.{ℤ, pos, negsuc}
use streammate_studio_host.Prelude.Result.{Result, ok, err}
use streammate_studio_host.Prelude.Ordered.{Map, insert}
use streammate_studio_host.Rpc.Reply.{Reply, invalid, unavailable}
use streammate_studio_host.Rpc.Fields.{extract_json_string, extract_json_bool, extract_json_int}
use streammate_studio_host.Plugins.Portable.{is_safe_protocol_id}
use streammate_studio_host.Renderer.{Std, FilterSettingValue, SourceModel, FilterModel}
use streammate_studio_host.Renderer.Create.{value_or, default_to, extract_json_double, clamp}

-- A request leaves what it was to change, with a reply, or it replaces it.
pub data Edit (A : Type 0) : Type 0 where
  stays : Reply → Edit A
  becomes : A → Edit A

abbrev pub not_found : Reply
not_found = invalid (codes "source not found")

abbrev pub no_source : Reply
no_source = unavailable (codes "libobs source unavailable")

abbrev pub no_filter : Reply
no_filter = unavailable (codes "libobs filter unavailable")

-- `kMaxSceneItemPosition`
abbrev pub max_scene_item_position : ℕ
max_scene_item_position = 1000000

unfoldable pub bounded_position : Option ℤ → Option ℕ
bounded_position (some (pos n)) = if ltb max_scene_item_position n then none else some n
bounded_position _ = none

abbrev pub positive_or_absent : Option ℤ → Bool
positive_or_absent none = true
positive_or_absent (some (pos n)) = not (n == 0)
positive_or_absent (some (negsuc n)) = false

abbrev bad_volume : Reply
bad_volume = invalid (codes "volumeDb must be a finite number between -100 and 26")

abbrev pub is_media_action : Bytes → Bool
is_media_action action =
    equal action (codes "play")
    || equal action (codes "pause")
    || equal action (codes "restart")
    || equal action (codes "stop")

module _ {F : Type 0} where
  unfoldable pub mute_edit : Bytes → Bool → SourceModel F → Edit (SourceModel F)
  mute_edit request mirrored source =
      if not mirrored
      then stays no_source
      else becomes
          (record source { muted = value_or (extract_json_bool request (codes "muted")) true })

  unfoldable pub visible_edit : Option Bool → Bool → SourceModel F → Edit (SourceModel F)
  visible_edit none mirrored source = stays (invalid (codes "visible is required"))
  visible_edit (some visible) mirrored source =
      if not mirrored
      then stays (unavailable (codes "libobs scene item unavailable"))
      else becomes (record source { visible = visible })

  unfoldable pub position_edit : Option ℕ → Bool → SourceModel F → Edit (SourceModel F)
  position_edit none mirrored source =
      stays (invalid (codes "position must be a bounded non-negative integer"))
  position_edit (some position) mirrored source =
      if not mirrored
      then stays (unavailable (codes "libobs scene item unavailable"))
      else becomes (record source { position = position })

  unfoldable pub order_edit : Bytes → Bool → SourceModel F → Edit (SourceModel F)
  unfolding position_edit is_safe_protocol_id bounded_position
  order_edit request mirrored source =
      if not (contains_text (codes "\"idempotencyToken\"") request)
      then stays (invalid (codes "idempotencyToken is required"))
      else if not (is_safe_protocol_id (extract_json_string request (codes "idempotencyToken")))
      then stays (invalid (codes "idempotencyToken is invalid"))
      else position_edit (bounded_position (extract_json_int request (codes "position"))) mirrored
          source

  -- Every field is checked before one is set.
  unfoldable pub transform_edit : Bytes → SourceModel F → Edit (SourceModel F)
  transform_edit request source =
      let width = extract_json_int request (codes "width") in
      let height = extract_json_int request (codes "height") in
      if not (positive_or_absent width)
      then stays (invalid (codes "transform width must be positive"))
      else if not (positive_or_absent height)
      then stays (invalid (codes "transform height must be positive"))
      else becomes (record source {
        x = value_or (extract_json_int request (codes "x")) source.x;
        y = value_or (extract_json_int request (codes "y")) source.y;
        width = value_or width source.width;
        height = value_or height source.height;
      })

  unfoldable pub media_edit : Bytes → Bool → SourceModel F → Edit (SourceModel F)
  media_edit action mirrored source =
      if not (is_media_action action)
      then stays (invalid (codes "action must be one of play, pause, restart, stop"))
      else if not mirrored
      then stays no_source
      else becomes (record source { media_action = action })

  unfoldable pub refresh_edit : Bool → SourceModel F → Edit (SourceModel F)
  refresh_edit mirrored source =
      if not mirrored
      then stays (unavailable (codes "libobs browser refresh unavailable"))
      else becomes (record source { browser_refresh_count = suc source.browser_refresh_count })

  unfoldable pub enabled_edit : Option Bool → Bool → FilterModel F → Edit (FilterModel F)
  enabled_edit none mirrored filter = stays (invalid (codes "enabled is required"))
  enabled_edit (some enabled) mirrored filter =
      if not mirrored then stays no_filter else becomes (record filter { enabled = enabled })

  -- The loop over the entries of one map into another.
  unfoldable pub merged :
      Map (FilterSettingValue F) → Map (FilterSettingValue F) → Map (FilterSettingValue F)
  unfolding insert
  merged [] settings = settings
  merged ((key, value) ∷ entries) settings = merged entries (insert key value settings)

  unfoldable pub settings_edit :
      Result (Map (FilterSettingValue F)) → Bool → FilterModel F → Edit (FilterModel F)
  unfolding merged
  settings_edit (err why) mirrored filter = stays (invalid why)
  settings_edit (ok entries) mirrored filter =
      if not mirrored
      then stays no_filter
      else becomes (record filter { settings = merged entries filter.settings })

module _ {F : Type 0} (std : Std F) where
  unfoldable pub updated : Bytes → SourceModel F → SourceModel F
  unfolding extract_json_double clamp
  updated request source = record source {
    url = default_to (extract_json_string request (codes "url")) source.url;
    x = value_or (extract_json_int request (codes "x")) source.x;
    y = value_or (extract_json_int request (codes "y")) source.y;
    width = value_or (extract_json_int request (codes "width")) source.width;
    height = value_or (extract_json_int request (codes "height")) source.height;
    opacity = elim (extract_json_double std request (codes "opacity")) [
      | none ↦ source.opacity
      | some value ↦ clamp std value
    ];
  }

  -- `*volume_db <= -100.0` is the negation of the order that `Std` has, since the value is finite.
  unfoldable pub volume_edit : Option F → Bool → SourceModel F → Edit (SourceModel F)
  volume_edit none mirrored source = stays bad_volume
  volume_edit (some volume) mirrored source =
      if not (std.is_finite volume) || std.below volume (negsuc 99) || std.above volume (pos 26)
      then stays bad_volume
      else if not mirrored
      then stays no_source
      else becomes
          (record source { volume_db = volume; muted = not (std.above volume (negsuc 99)) })
