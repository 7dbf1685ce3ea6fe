-- ===== src/Renderer/Requests.antt =====
-- The requests on the sources, scene items and filters that exist (src/studio_host.cpp).
use streammate_studio_host.Prelude.{
  not, ◌||◌, Option, none, some, List, [], ◌∷◌, if◌then◌else◌, Bytes, codes, equal, is_empty,
  is_some,
}
use streammate_studio_host.Prelude.Ordered.{insert, lookup, erase}
use streammate_studio_host.Rpc.Reply.{Reply, answered, invalid}
use streammate_studio_host.Rpc.Fields.{extract_json_string, extract_json_bool}
use streammate_studio_host.Renderer.{Std, Libobs, SourceModel, FilterModel, RendererState, found}
use streammate_studio_host.Renderer.Mirror.{
  release_obs_source, source_mirrored, item_mirrored, filter_mirrored, mirror_filter_settings,
  mirror_refresh_browser,
}
use streammate_studio_host.Renderer.Settings.{parse_filter_settings}
use streammate_studio_host.Renderer.Create.{extract_json_double}
use streammate_studio_host.Renderer.Edits.{
  Edit, stays, becomes, not_found, mute_edit, visible_edit, order_edit, transform_edit, media_edit,
  refresh_edit, enabled_edit, settings_edit, updated, volume_edit,
}

abbrev pub source_id_of : Bytes → Bytes
source_id_of request = extract_json_string request (codes "sourceId")

abbrev pub scene_id_of : Bytes → Bytes
scene_id_of request = extract_json_string request (codes "sceneId")

module _ {F : Type 0} where
  -- What an edit of the source with an id leaves.
  unfoldable pub edited : Bytes → Edit (SourceModel F) → RendererState F → RendererState F × Reply
  edited id (stays why) s = (s, why)
  edited id (becomes source) s = (record s { sources = insert id source s.sources }, answered)

  unfoldable pub at_found :
      Bytes
      → (SourceModel F → Edit (SourceModel F))
      → Option (SourceModel F)
      → RendererState F
      → RendererState F × Reply
  unfolding edited
  at_found id edit none s = (s, not_found)
  at_found id edit (some source) s = edited id (edit source) s

  -- `source_id.empty() || it == sources_.end()`
  unfoldable pub at_source :
      Bytes → (SourceModel F → Edit (SourceModel F)) → RendererState F → RendererState F × Reply
  unfolding at_found found
  at_source id edit s = at_found id edit (found id s.sources) s

  unfoldable pub at_found_item :
      Bytes
      → Bytes
      → (SourceModel F → Edit (SourceModel F))
      → Bytes
      → Option (SourceModel F)
      → RendererState F
      → RendererState F × Reply
  unfolding edited
  at_found_item scene_id id edit absent none s = (s, invalid absent)
  at_found_item scene_id id edit absent (some source) s =
      if not (equal source.scene_id scene_id)
      then (s, invalid absent)
      else edited id (edit source) s

  -- The guards of `set_item_visible`, `order_edit` and `transform_edit`.
  unfoldable pub at_item :
      Bytes
      → Bytes
      → (SourceModel F → Edit (SourceModel F))
      → Bytes
      → RendererState F
      → RendererState F × Reply
  unfolding at_found_item found is_some
  at_item scene_id id edit absent s =
      if not (is_some (found scene_id s.scenes))
      then (s, invalid (codes "scene not loaded"))
      else at_found_item scene_id id edit absent (found id s.sources) s

  -- `find_filter` in a list, with the list that its reference is a part of.
  unfoldable pub in_list :
      Bytes
      → (FilterModel F → Edit (FilterModel F))
      → List (FilterModel F)
      → Edit (List (FilterModel F))
  in_list id edit [] = stays (invalid (codes "filter not found"))
  in_list id edit (filter ∷ filters) =
      let behind = in_list id edit filters in
      if equal filter.id id
      then (elim (edit filter) [ stays why ↦ stays why | becomes f ↦ becomes (f ∷ filters) ])
      else (elim behind [ stays why ↦ stays why | becomes fs ↦ becomes (filter ∷ fs) ])

  unfoldable pub filters_edited :
      Bytes → Edit (List (FilterModel F)) → RendererState F → RendererState F × Reply
  filters_edited id (stays why) s = (s, why)
  filters_edited id (becomes fs) s = (record s { filters = insert id fs s.filters }, answered)

  unfoldable pub at_filters :
      Bytes
      → Bytes
      → (FilterModel F → Edit (FilterModel F))
      → Option (List (FilterModel F))
      → RendererState F
      → RendererState F × Reply
  unfolding in_list filters_edited
  at_filters id filter_id edit none s = (s, invalid (codes "filter not found"))
  at_filters id filter_id edit (some fs) s = filters_edited id (in_list filter_id edit fs) s

  unfoldable pub at_filter :
      Bytes
      → Bytes
      → (FilterModel F → Edit (FilterModel F))
      → RendererState F
      → RendererState F × Reply
  unfolding at_filters found is_some
  at_filter id filter_id edit s =
      if not (is_some (found id s.sources)) || is_empty filter_id
      then (s, invalid (codes "filter not found"))
      else at_filters id filter_id edit (lookup id s.filters) s

  unfoldable pub set_item_visible : Bytes → RendererState F → RendererState F × Reply
  unfolding at_item item_mirrored visible_edit
  set_item_visible request s =
      let id = extract_json_string request (codes "itemId") in
      at_item (scene_id_of request) id
        (visible_edit (extract_json_bool request (codes "visible"))
          (item_mirrored (scene_id_of request) id s.mirrors))
        (codes "scene item not found") s

  unfoldable pub set_item_order : Bytes → RendererState F → RendererState F × Reply
  unfolding at_item item_mirrored order_edit
  set_item_order request s =
      let id = extract_json_string request (codes "itemId") in
      at_item (scene_id_of request) id
        (order_edit request (item_mirrored (scene_id_of request) id s.mirrors))
        (codes "scene item not found") s

  unfoldable pub item_transform : Bytes → RendererState F → RendererState F × Reply
  unfolding at_item transform_edit
  item_transform request s =
      at_item (scene_id_of request) (source_id_of request) (transform_edit request)
        (codes "source not found") s

  unfoldable pub mute_source : Bytes → RendererState F → RendererState F × Reply
  unfolding at_source source_mirrored mute_edit
  mute_source request s =
      at_source (source_id_of request)
        (mute_edit request (source_mirrored (source_id_of request) s.mirrors)) s

  unfoldable pub media_control : Bytes → RendererState F → RendererState F × Reply
  unfolding at_source source_mirrored media_edit
  media_control request s =
      at_source (source_id_of request)
        (media_edit (extract_json_string request (codes "action"))
          (source_mirrored (source_id_of request) s.mirrors))
        s

  unfoldable pub refresh_browser : Libobs → Bytes → RendererState F → RendererState F × Reply
  unfolding at_source mirror_refresh_browser refresh_edit
  refresh_browser o request s =
      at_source (source_id_of request)
        (refresh_edit (mirror_refresh_browser o (source_id_of request) s.mirrors)) s

  unfoldable pub set_filter_enabled : Libobs → Bytes → RendererState F → RendererState F × Reply
  unfolding at_filter filter_mirrored enabled_edit
  set_filter_enabled o request s =
      let id = extract_json_string request (codes "filterId") in
      at_filter (source_id_of request) id
        (enabled_edit (extract_json_bool request (codes "enabled"))
          (filter_mirrored o (source_id_of request) id s.mirrors))
        s

  unfoldable pub remove_source : Bytes → RendererState F → RendererState F × Reply
  unfolding found is_some release_obs_source erase
  remove_source request s =
      let id = source_id_of request in
      if not (is_some (found id s.sources)) then (s, not_found) else (
        record s {
          mirrors = release_obs_source id s.mirrors;
          filters = erase id s.filters;
          sources = erase id s.sources;
        },
        answered,
      )

module _ {F : Type 0} (std : Std F) where
  unfoldable pub set_filter_settings : Libobs → Bytes → RendererState F → RendererState F × Reply
  unfolding at_filter mirror_filter_settings settings_edit parse_filter_settings
  set_filter_settings o request s =
      let id = extract_json_string request (codes "filterId") in
      at_filter (source_id_of request) id
        (settings_edit (parse_filter_settings std request)
          (mirror_filter_settings o (source_id_of request) id s.mirrors))
        s

  unfoldable pub update_source : Bytes → RendererState F → RendererState F × Reply
  unfolding at_source updated
  update_source request s =
      at_source (source_id_of request) (λ source. becomes (updated std request source)) s

  unfoldable pub set_audio_volume : Bytes → RendererState F → RendererState F × Reply
  unfolding at_source source_mirrored volume_edit extract_json_double
  set_audio_volume request s =
      at_source (source_id_of request)
        (volume_edit std (extract_json_double std request (codes "volumeDb"))
          (source_mirrored (source_id_of request) s.mirrors))
        s
