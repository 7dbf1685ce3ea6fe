-- ===== src/Renderer/Steps.antt =====
-- The requests that change a renderer, and the states that they bring it to. The requests that only
-- read (`list_filters`, `list_scenes` and the captures) change nothing.
use streammate_studio_host.Prelude.{[], Bytes}
use streammate_studio_host.Rpc.Reply.{Reply}
use streammate_studio_host.Renderer.{Std, Libobs, RendererState}
use streammate_studio_host.Renderer.Create.{create_source}
use streammate_studio_host.Renderer.Scenes.{load_scene, set_program}
use streammate_studio_host.Renderer.Requests.{
  set_item_visible, set_item_order, item_transform, mute_source, media_control, refresh_browser,
  set_filter_enabled, set_filter_settings, update_source, set_audio_volume, remove_source,
}

-- A request, and what libobs answers while it is served.
pub data Operation : Type 0 where
  loads_scene sets_program creates_source updates_source mutes_source sets_visible sets_order
        sets_filter_enabled sets_filter_settings sets_volume controls_media refreshes_browser
        transforms_item removes_source :
      Libobs → Bytes → Operation

abbrev pub new_renderer : {F : Type 0} → RendererState F
new_renderer = record {
  scenes = [];
  sources = [];
  filters = [];
  program_scene_id = [];
  mirrors = record { obs_scenes = []; obs_sources = []; obs_scene_items = [] };
}

module _ {F : Type 0} (std : Std F) where
  unfoldable pub run : Operation → RendererState F → RendererState F × Reply
  run (loads_scene o request) s = load_scene o request s
  run (sets_program o request) s = set_program request s
  run (creates_source o request) s = create_source std o request s
  run (updates_source o request) s = update_source std request s
  run (mutes_source o request) s = mute_source request s
  run (sets_visible o request) s = set_item_visible request s
  run (sets_order o request) s = set_item_order request s
  run (sets_filter_enabled o request) s = set_filter_enabled o request s
  run (sets_filter_settings o request) s = set_filter_settings std o request s
  run (sets_volume o request) s = set_audio_volume std request s
  run (controls_media o request) s = media_control request s
  run (refreshes_browser o request) s = refresh_browser o request s
  run (transforms_item o request) s = item_transform request s
  run (removes_source o request) s = remove_source request s

  pub data Reachable : RendererState F → Type 0 where
    at_launch : Reachable new_renderer
    after : {s : RendererState F} (op : Operation) → Reachable s → Reachable (run op s).0
