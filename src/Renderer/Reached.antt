-- ===== src/Renderer/Reached.antt =====
-- What every reachable renderer satisfies, and what a refused request leaves.
use streammate_studio_host.Prelude.{◌≡◌, refl, subst, ℕ, Bytes, codes}
use streammate_studio_host.Rpc.Reply.{refused}
use streammate_studio_host.Rpc.Fields.{extract_json_string, extract_json_bool}
use streammate_studio_host.Renderer.{Std, RendererState}
use streammate_studio_host.Renderer.Create.{extract_json_double}
use streammate_studio_host.Renderer.Steps.{
  Operation, loads_scene, sets_program, creates_source, updates_source, mutes_source, sets_visible,
  sets_order, sets_filter_enabled, sets_filter_settings, sets_volume, controls_media,
  refreshes_browser, transforms_item, removes_source, run, Reachable, at_launch, after,
}
use streammate_studio_host.Renderer.Mirror.{source_mirrored, item_mirrored, mirror_refresh_browser}
use streammate_studio_host.Renderer.Edits.{becomes, updated}
use streammate_studio_host.Renderer.Requests.{
  set_item_visible, set_item_order, item_transform, mute_source, media_control, refresh_browser,
  set_filter_enabled, set_filter_settings, update_source, set_audio_volume, source_id_of,
  scene_id_of,
}
use streammate_studio_host.Renderer.Sound.{Laws, IsSound, SameModel, Honest, Good}
use streammate_studio_host.Renderer.Kept.{at_source-Good, at_item-Good, at_filter-Good}
use streammate_studio_host.Renderer.Bounded.{
  mute_edit-Keeping, visible_edit-Keeping, order_edit-Keeping, transform_edit-Keeping,
  media_edit-Keeping, refresh_edit-Keeping, updated-Keeping, volume_edit-Keeping,
}
use streammate_studio_host.Renderer.Loaded.{load_scene-Good, set_program-Good, remove_source-Good}
use streammate_studio_host.Renderer.Created.{create_source-Good}

module _ {F : Type 0} (std : Std F) (laws : Laws std) where
  run-Good : (op : Operation) (s : RendererState F) → IsSound std s → Good std s (run std op s)
  unfolding run set_item_visible set_item_order item_transform mute_source media_control
      refresh_browser set_filter_enabled set_filter_settings update_source set_audio_volume
  run-Good (loads_scene o request) s h = load_scene-Good std o request s h
  run-Good (sets_program o request) s h = set_program-Good std request s h
  run-Good (creates_source o request) s h = create_source-Good std laws o request s h
  run-Good (updates_source o request) s h =
      at_source-Good std (source_id_of request) (λ source. becomes (updated std request source)) s
        (updated-Keeping std laws request) h
  run-Good (mutes_source o request) s h =
      at_source-Good std (source_id_of request) _ s
        (mute_edit-Keeping std request (source_mirrored (source_id_of request) s.mirrors)) h
  run-Good (sets_visible o request) s h =
      let id = extract_json_string request (codes "itemId") in
      at_item-Good std (scene_id_of request) id _ (codes "scene item not found") s
        (visible_edit-Keeping std (extract_json_bool request (codes "visible"))
          (item_mirrored (scene_id_of request) id s.mirrors))
        h
  run-Good (sets_order o request) s h =
      let id = extract_json_string request (codes "itemId") in
      at_item-Good std (scene_id_of request) id _ (codes "scene item not found") s
        (order_edit-Keeping std request (item_mirrored (scene_id_of request) id s.mirrors)) h
  run-Good (sets_filter_enabled o request) s h = at_filter-Good std (source_id_of request) _ _ s h
  run-Good (sets_filter_settings o request) s h = at_filter-Good std (source_id_of request) _ _ s h
  run-Good (sets_volume o request) s h =
      at_source-Good std (source_id_of request) _ s
        (volume_edit-Keeping std (extract_json_double std request (codes "volumeDb"))
          (source_mirrored (source_id_of request) s.mirrors))
        h
  run-Good (controls_media o request) s h =
      at_source-Good std (source_id_of request) _ s
        (media_edit-Keeping std (extract_json_string request (codes "action"))
          (source_mirrored (source_id_of request) s.mirrors))
        h
  run-Good (refreshes_browser o request) s h =
      at_source-Good std (source_id_of request) _ s
        (refresh_edit-Keeping std (mirror_refresh_browser o (source_id_of request) s.mirrors)) h
  run-Good (transforms_item o request) s h =
      at_item-Good std (scene_id_of request) (source_id_of request) _ (codes "source not found") s
        (transform_edit-Keeping std request) h
  run-Good (removes_source o request) s h = remove_source-Good std request s h

  -- Whatever requests a renderer has served and whatever libobs has answered: every scene fits the
  -- capture's limits, every source and scene stands under its own id, every source is in a scene that is loaded, with an
  -- opacity between 0 and 1 and a finite volume between -100 and 26, the program is empty or loaded,
  -- sources and filter lists have the same ids in ascending order, and every source that is mirrored
  -- is one of the model. The order of `double` is assumed at the bounds that the code compares with.
  pub Reachable-IsSound : {s : RendererState F} → Reachable std s → IsSound std s
  Reachable-IsSound at_launch = record {
    scenes = tt;
    sources = tt;
    program = refl;
    paired = refl;
    order = tt;
    mirrored = tt;
  }
  Reachable-IsSound (after {s = s} op r) = (run-Good op s (Reachable-IsSound r)).0

  -- A request that is refused leaves the scenes, the sources, the filters and the program of a
  -- reachable renderer as they were, also where libobs fails behind the first change to them.
  pub refused-SameModel :
      {s : RendererState F} (op : Operation) (code : ℕ) (message : Bytes)
      → Reachable std s
      → (run std op s).1 ≡ refused code message
      → SameModel std s (run std op s).0
  refused-SameModel {s} op code message r e =
      subst (Honest std s (run std op s).0) e (run-Good op s (Reachable-IsSound r)).1
