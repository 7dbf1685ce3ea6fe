-- ===== src/Server/Table.antt =====
-- `build_command_table`, `is_safe_method_name` and `handle_message` (src/studio_host.cpp).
use streammate_studio_host.Prelude.{
  Bool, true, false, ◌&&◌, ◌||◌, List, [], ◌∷◌, ◌==◌, if◌then◌else◌, Bytes, codes, equal, is_digit,
  leb, ℕ,
}
use streammate_studio_host.Rpc.Fields.{extract_json_string}
use streammate_studio_host.Rpc.Reply.{refused, answered}
use streammate_studio_host.Output.Control.{configure, start, stop, subscribe}
use streammate_studio_host.Recording.{
  Outcome, start_record, stop_record, start_replay, save_replay, stop_replay,
}
use streammate_studio_host.Renderer.{Std}
use streammate_studio_host.Renderer.Steps.{
  run, loads_scene, sets_program, creates_source, updates_source, mutes_source, sets_visible,
  sets_order, sets_filter_enabled, sets_filter_settings, sets_volume, controls_media,
  refreshes_browser, transforms_item, removes_source, Operation,
}
use streammate_studio_host.Renderer.Requests.{source_id_of}
use streammate_studio_host.Server.{
  Answers, Frame, reply, Host, send_renderer_result, send_overlay_result, send_output_result,
  send_record_result,
}
use streammate_studio_host.Server.Overlays.{has, create, apply, remove_overlay}

abbrev is_alpha : ℕ → Bool
is_alpha c = (leb b'A' c && leb c b'Z') || (leb b'a' c && leb c b'z')

unfoldable pub all_name : Bytes → Bool
all_name [] = true
all_name (c ∷ t) = (is_alpha c || is_digit c || c == b'.') && all_name t

unfoldable pub is_safe_method_name : Bytes → Bool
unfolding all_name
is_safe_method_name [] = false
is_safe_method_name (c ∷ t) = is_alpha c && all_name t

-- A handler's answers, request and host, and what it leaves and sends.
abbrev pub CommandHandler : Type 0 → Type 0
CommandHandler F = Answers → Bytes → Host F → Host F × List Frame

module _ {F : Type 0} where
  -- A request that changes nothing that is modelled.
  unfoldable pub reads : CommandHandler F
  reads a request h = (h, reply a.unmodelled ∷ [])

  unfoldable pub answers_ok : CommandHandler F
  answers_ok a request h = (h, reply answered ∷ [])

  unfoldable pub shuts_down : CommandHandler F
  shuts_down a request h = (record h { stopped = true }, reply answered ∷ [])

  unfoldable pub configures_output : CommandHandler F
  configures_output a request h = send_output_result h (configure request h.output)

  unfoldable pub starts_output : CommandHandler F
  starts_output a request h = send_output_result h (start request a.outside h.output)

  unfoldable pub stops_output : CommandHandler F
  stops_output a request h = send_output_result h (stop request h.output)

  unfoldable pub subscribes : CommandHandler F
  subscribes a request h = send_output_result h (subscribe request a.now h.output)

  abbrev pub recorded : Host F → Outcome → Host F × List Frame
  recorded h out = send_record_result h out.controller out.reply

  unfoldable pub starts_recording : CommandHandler F
  unfolding send_record_result
  starts_recording a request h = recorded h (start_record a.disk request h.records)

  unfoldable pub stops_recording : CommandHandler F
  unfolding send_record_result
  stops_recording a request h = recorded h (stop_record a.disk request h.records)

  unfoldable pub starts_buffer : CommandHandler F
  unfolding send_record_result
  starts_buffer a request h = recorded h (start_replay a.disk request h.records)

  unfoldable pub saves_buffer : CommandHandler F
  unfolding send_record_result
  saves_buffer a request h = recorded h (save_replay a.disk request h.records)

  unfoldable pub stops_buffer : CommandHandler F
  unfolding send_record_result
  stops_buffer a request h = recorded h (stop_replay request h.records)

  -- `record_status` and `replay_status` answer without an error, and they journal nothing: what the
  -- sending may find pending is the event of an earlier answer.
  unfoldable pub reports_status : CommandHandler F
  unfolding send_record_result
  reports_status a request h = send_record_result h h.records answered

module _ {F : Type 0} (std : Std F) where
  unfoldable pub renders : (Answers → Bytes → Operation) → CommandHandler F
  renders op a request h = send_renderer_result h (run std (op a request) h.renderer)

  -- The requests on sources go to the overlays if they have the id.
  unfoldable pub removes : CommandHandler F
  unfolding renders
  removes a request h =
      if has (source_id_of request) h.overlays
      then send_overlay_result h (remove_overlay request h.overlays)
      else renders (λ a request. removes_source a.libobs request) a request h

  unfoldable pub updates : CommandHandler F
  unfolding renders
  updates a request h =
      if has (source_id_of request) h.overlays
      then send_overlay_result h (apply a.overlay_error request h.overlays)
      else renders (λ a request. updates_source a.libobs request) a request h

  unfoldable pub creates : CommandHandler F
  unfolding renders
  creates a request h =
      if equal (extract_json_string request (codes "kind")) (codes "native-overlay")
      then send_overlay_result h (create request h.overlays)
      else renders (λ a request. creates_source a.libobs request) a request h

  abbrev pub command_table : List (Bytes × CommandHandler F)
  command_table =
      (codes "host.hello", answers_ok)
      ∷ (codes "host.health", answers_ok)
      ∷ (codes "host.exerciseTccPrompts", reads)
      ∷ (codes "scene.load", renders λ a request. loads_scene a.libobs request)
      ∷ (codes "scene.setProgram", renders λ a request. sets_program a.libobs request)
      ∷ (codes "scene.list", reads)
      ∷ (codes "scene.itemTransform", renders λ a request. transforms_item a.libobs request)
      ∷ (codes "sceneItem.setVisible", renders λ a request. sets_visible a.libobs request)
      ∷ (codes "sceneItem.setOrder", renders λ a request. sets_order a.libobs request)
      ∷ (codes "source.remove", removes)
      ∷ (codes "source.create", creates)
      ∷ (codes "source.update", updates)
      ∷ (codes "source.mute", renders λ a request. mutes_source a.libobs request)
      ∷ (codes "filter.list", reads)
      ∷ (codes "filter.setEnabled", renders λ a request. sets_filter_enabled a.libobs request)
      ∷ (codes "filter.setSettings", renders λ a request. sets_filter_settings a.libobs request)
      ∷ (codes "audio.setVolume", renders λ a request. sets_volume a.libobs request)
      ∷ (codes "media.control", renders λ a request. controls_media a.libobs request)
      ∷ (codes "source.refreshBrowser", renders λ a request. refreshes_browser a.libobs request)
      ∷ (codes "scene.captureFrame", reads)
      ∷ (codes "program.captureFrame", reads)
      ∷ (codes "program.captureAudio", reads)
      ∷ (codes "source.captureFrame", reads)
      ∷ (codes "import.scan", reads)
      ∷ (codes "import.load", reads)
      ∷ (codes "import.report", reads)
      ∷ (codes "plugins.discover", reads)
      ∷ (codes "plugins.report", reads)
      ∷ (codes "output.configure", configures_output)
      ∷ (codes "output.start", starts_output)
      ∷ (codes "output.stop", stops_output)
      ∷ (codes "output.status", reads)
      ∷ (codes "stats.subscribe", subscribes)
      ∷ (codes "record.start", starts_recording)
      ∷ (codes "record.stop", stops_recording)
      ∷ (codes "record.status", reports_status)
      ∷ (codes "replay.start", starts_buffer)
      ∷ (codes "replay.save", saves_buffer)
      ∷ (codes "replay.stop", stops_buffer)
      ∷ (codes "replay.status", reports_status)
      ∷ (codes "host.shutdown", shuts_down)
      ∷ []

  unfoldable pub dispatch :
      List (Bytes × CommandHandler F) → Bytes → Answers → Bytes → Host F → Host F × List Frame
  dispatch [] method a request h = (h, reply (refused 32601 (codes "method not found")) ∷ [])
  dispatch ((name, handler) ∷ entries) method a request h =
      let rest = dispatch entries method a request h in
      if equal method name then handler a request h else rest

  unfoldable pub handle_message : Answers → Bytes → Host F → Host F × List Frame
  unfolding dispatch
  handle_message a request h =
      dispatch command_table (extract_json_string request (codes "method")) a request h
