-- ===== src/Server.antt =====
-- `class ControlServer` of src/studio_host.cpp: its components, its command table and its dispatch.
-- The requests that change nothing that is modelled (the captures, the lists, the other statuses, the
-- importer and the plugin reports) are answered by `Answers`. Not modelled: the sockets, the waits, the
-- log and the texts of the frames.
pub mod Overlays
pub mod Headers
pub mod Table
pub mod Session
pub mod Composed
pub mod Served
use streammate_studio_host.Prelude.{Bool, false, Option, none, some, List, [], ◌∷◌, Bytes, ℕ}
use streammate_studio_host.Prelude.Ordered.{Map}
use streammate_studio_host.Rpc.Reply.{Reply, refused, answered}
use streammate_studio_host.Output.{OutputController, launched}
use streammate_studio_host.Output.Control.{Outside}
use streammate_studio_host.Output.Tick.{Event as OutputEvent}
use streammate_studio_host.Recording.{
  World, Controller, Outcome, take_event, new_controller, Event as RecordEvent,
}
use streammate_studio_host.Renderer.{Libobs, RendererState}
use streammate_studio_host.Renderer.Steps.{new_renderer}

-- `NativeOverlayManager::Entry`: the state of its rasterizer is the sequence of actions that it was
-- given, the last one first.
pub record OverlayEntry : Type 0 where
  pub scene_id : Bytes
  pub actions : List Bytes

-- What everything outside the model answers to one request: also whether the rasterizer refuses an
-- action, and how.
pub record Answers : Type 0 where
  pub libobs : Libobs
  pub outside : Outside
  pub disk : World
  pub now : ℕ
  pub overlay_error : Option Bytes
  pub unmodelled : Reply

pub data Frame : Type 0 where
  reply : Reply → Frame
  host_started host_ready heartbeat : Frame
  record_event : RecordEvent → Frame
  output_event : OutputEvent → Frame

-- The members of `ControlServer` that requests change, and `g_stop`.
pub record Host (F : Type 0) : Type 0 where
  pub renderer : RendererState F
  pub overlays : Map OverlayEntry
  pub output : OutputController
  pub records : Controller
  pub stopped : Bool

abbrev pub launched_host : {F : Type 0} → Bool → Host F
launched_host allowed = record {
  renderer = new_renderer;
  overlays = [];
  output = launched allowed;
  records = new_controller;
  stopped = false;
}

module _ {F : Type 0} where
  -- `send_renderer_result` and `send_output_result`: one frame each.
  abbrev pub send_renderer_result : Host F → RendererState F × Reply → Host F × List Frame
  send_renderer_result h out = (record h { renderer = out.0 }, reply out.1 ∷ [])

  abbrev pub send_overlay_result : Host F → Map OverlayEntry × Reply → Host F × List Frame
  send_overlay_result h out = (record h { overlays = out.0 }, reply out.1 ∷ [])

  abbrev pub send_output_result : Host F → OutputController × Reply → Host F × List Frame
  send_output_result h out = (record h { output = out.0 }, reply out.1 ∷ [])

  unfoldable pub journaled : Host F → Controller × Option RecordEvent → Host F × List Frame
  journaled h (c, none) = (record h { records = c }, reply answered ∷ [])
  journaled h (c, some event) = (record h { records = c }, reply answered ∷ record_event event ∷ [])

  -- The event that an answer has left behind is sent behind the reply.
  unfoldable pub send_record_result : Host F → Controller → Reply → Host F × List Frame
  unfolding journaled
  send_record_result h c (refused code message) =
      (record h { records = c }, reply (refused code message) ∷ [])
  send_record_result h c answered = journaled h (take_event c)
