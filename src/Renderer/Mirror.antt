-- ===== src/Renderer/Mirror.antt =====
-- The mirrors of scenes, sources and scene items that libobs holds (src/studio_host.cpp).
use streammate_studio_host.Prelude.{
  Bool, true, false, not, ◌&&◌, List, [], ◌∷◌, ◌++◌, if◌then◌else◌, Bytes, equal, is_empty, is_some,
  after_prefix,
}
use streammate_studio_host.Prelude.Ordered.{Map, add, member}
use streammate_studio_host.Renderer.{Libobs, SourceModel, Mirrors}

-- `starts_with` and `ends_with`
unfoldable pub starts_with : Bytes → Bytes → Bool
unfolding after_prefix is_some
starts_with prefix text = is_some (after_prefix prefix text)

unfoldable pub ends_with : Bytes → Bytes → Bool
unfolding equal
ends_with [] suffix = is_empty suffix
ends_with (c ∷ text) suffix = if equal (c ∷ text) suffix then true else ends_with text suffix

-- The loop that erases the keys that pass a test.
unfoldable pub without : (Bytes → Bool) → List Bytes → List Bytes
without test [] = []
without test (k ∷ s) = let behind = without test s in if test k then behind else k ∷ behind

unfoldable pub scene_item_key : Bytes → Bytes → Bytes
scene_item_key scene_id source_id = scene_id ++ 10 ∷ source_id

unfoldable pub release_obs_source : Bytes → Mirrors → Mirrors
unfolding without ends_with
release_obs_source source_id m = record m {
  obs_scene_items = without (λ key. ends_with key (10 ∷ source_id)) m.obs_scene_items;
  obs_sources = without (equal source_id) m.obs_sources;
}

unfoldable pub purge_obs_scene_items : Bytes → Mirrors → Mirrors
unfolding without starts_with
purge_obs_scene_items scene_id m = record m {
  obs_scene_items = without (starts_with (scene_id ++ 10 ∷ [])) m.obs_scene_items;
}

unfoldable pub released_scene : Bytes → Mirrors → Mirrors
unfolding purge_obs_scene_items member without
released_scene scene_id m =
    if member scene_id m.obs_scenes
    then record (purge_obs_scene_items scene_id m) {
      obs_scenes = without (equal scene_id) m.obs_scenes;
    }
    else m

module _ {F : Type 0} where
  -- The loop of `mirror_scene_load` over the sources.
  unfoldable pub add_items :
      Libobs → Bytes → List Bytes → Map (SourceModel F) → List Bytes → List Bytes
  unfolding member add scene_item_key
  add_items o scene_id live [] items = items
  add_items o scene_id live ((id, source) ∷ sources) items = add_items o scene_id live sources (
      if equal source.scene_id scene_id && member id live && o.item_added id
      then add (scene_item_key scene_id id) items
      else items)

  unfoldable pub mirror_scene_load : Libobs → Bytes → Map (SourceModel F) → Mirrors → Mirrors
  unfolding released_scene add_items
  mirror_scene_load o scene_id sources m =
      let m' = released_scene scene_id m in
      if not o.scene_created then m' else record m' {
        obs_scenes = add scene_id m'.obs_scenes;
        obs_scene_items = add_items o scene_id m'.obs_sources sources m'.obs_scene_items;
      }

  unfoldable pub mirror_source_create : Libobs → SourceModel F → Mirrors → Mirrors × Bool
  unfolding release_obs_source
  mirror_source_create o model m =
      if not (member model.scene_id m.obs_scenes)
      then (m, false)
      else if not o.browser_registered
      then (m, false)
      else if not o.data_created
      then (m, false)
      else if not o.source_created
      then (m, false)
      else if not (o.item_added model.id)
      then (release_obs_source model.id m, false)
      else (
        record (release_obs_source model.id m) {
          obs_sources = add model.id (release_obs_source model.id m).obs_sources;
          obs_scene_items =
              add (scene_item_key model.scene_id model.id)
                (release_obs_source model.id m).obs_scene_items;
        },
        true,
      )

  -- The mirrors with the new source, and with its item if there is one.
  unfoldable pub with_plugin_source : Libobs → SourceModel F → Mirrors → Mirrors
  with_plugin_source o model m = record m {
    obs_sources = add model.id m.obs_sources;
    obs_scene_items =
        if o.item_added model.id
        then add (scene_item_key model.scene_id model.id) m.obs_scene_items
        else m.obs_scene_items;
  }

  unfoldable pub unfilterable : SourceModel F → Mirrors → Mirrors
  unfolding release_obs_source
  unfilterable model m =
      let m' = release_obs_source model.id m in
      record m' {
        obs_sources = without (equal model.id) m'.obs_sources;
        obs_scene_items =
            without (equal (scene_item_key model.scene_id model.id)) m'.obs_scene_items;
      }

  unfoldable pub mirror_plugin_source_create : Libobs → SourceModel F → Mirrors → Mirrors × Bool
  unfolding with_plugin_source unfilterable
  mirror_plugin_source_create o model m =
      let made = with_plugin_source o model (release_obs_source model.id m) in
      if not (member model.scene_id m.obs_scenes)
      then (m, false)
      else if not o.data_created
      then (release_obs_source model.id m, false)
      else if not o.source_created
      then (release_obs_source model.id m, false)
      else if not (is_empty model.plugin_filter_kind)
          && not (is_empty model.plugin_filter_id)
          && not o.filter_created
      then (unfilterable model made, false)
      else (made, true)

-- `mirror_mute_source`, `mirror_audio_volume` and `mirror_media_control`; `mirror_item_visible` and
-- `mirror_item_order`; `mirror_filter_enabled`; `mirror_filter_settings`; `mirror_refresh_browser`:
-- whether they succeed.
unfoldable pub source_mirrored : Bytes → Mirrors → Bool
source_mirrored source_id m = member source_id m.obs_sources

unfoldable pub item_mirrored : Bytes → Bytes → Mirrors → Bool
item_mirrored scene_id item_id m = member (scene_item_key scene_id item_id) m.obs_scene_items

unfoldable pub filter_mirrored : Libobs → Bytes → Bytes → Mirrors → Bool
unfolding source_mirrored
filter_mirrored o source_id filter_id m = source_mirrored source_id m && o.has_filter filter_id

unfoldable pub mirror_filter_settings : Libobs → Bytes → Bytes → Mirrors → Bool
unfolding filter_mirrored
mirror_filter_settings o source_id filter_id m =
    filter_mirrored o source_id filter_id m && o.data_created

unfoldable pub mirror_refresh_browser : Libobs → Bytes → Mirrors → Bool
unfolding source_mirrored
mirror_refresh_browser o source_id m = source_mirrored source_id m && o.has_proc_handler
