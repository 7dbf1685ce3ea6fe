-- ===== src/Output.antt =====
-- Streaming outputs: `class OutputController` of src/studio_host.cpp in the build with libobs. The
-- fields with an `obs_` pointer or a socket say whether one is held. What libobs, the sockets and the
-- clock do is an argument of the operations. Not modelled: the JSON texts of the replies and events,
-- `started_at_` and `error_pending_` (which nothing reads) and the ids of the actual encoders.
pub mod Endpoint
pub mod Control
pub mod Tick
pub mod Custody
pub mod Flags
pub mod Reachable
pub mod Replies
use streammate_studio_host.Prelude.{
  min, ℕ, ◌+◌, ◌-◌, Bool, true, false, not, ◌&&◌, ◌||◌, Option, none, some, [], ◌∷◌, leb,
  if◌then◌else◌, Bytes, codes,
}
use streammate_studio_host.Output.Endpoint.{EndpointPreview, no_endpoint}

pub record OutputStats : Type 0 where
  pub rendered_frames : ℕ
  pub encoded_frames : ℕ
  pub dropped_frames : ℕ
  pub severe_frames : ℕ
  pub congestion_percent : ℕ

abbrev pub no_stats : OutputStats
no_stats = record {
  rendered_frames = 0;
  encoded_frames = 0;
  dropped_frames = 0;
  severe_frames = 0;
  congestion_percent = 0;
}

-- What libobs counts for a live output, where a negative count is 0; the congestion is rounded to a
-- percentage.
pub record Counts : Type 0 where
  pub total_frames : ℕ
  pub dropped_frames : ℕ
  pub congestion_percent : ℕ

-- `update_live_stats` with an output.
abbrev pub counted : Counts → OutputStats
counted n = record {
  rendered_frames = n.total_frames;
  encoded_frames = n.total_frames;
  dropped_frames = n.dropped_frames;
  severe_frames = n.dropped_frames;
  congestion_percent = min n.congestion_percent 100;
}

-- What `start_live` creates in libobs, but for the service.
pub record LiveOutput : Type 0 where
  pub active : Bool
  pub output : Bool
  pub video_encoder : Bool
  pub audio_encoder : Bool
  pub fallback_scene : Bool

abbrev pub no_live : LiveOutput
no_live = record {
  active = false;
  output = false;
  video_encoder = false;
  audio_encoder = false;
  fallback_scene = false;
}

-- The atomics that the signal handlers set; the code is kept as whether it is OBS_OUTPUT_SUCCESS.
pub record Signals : Type 0 where
  pub stop_pending : Bool
  pub stop_success : Bool
  pub reconnect_pending : Bool

abbrev pub no_signals : Signals
no_signals = record { stop_pending = false; stop_success = true; reconnect_pending = false }

pub record OutputController : Type 0 where
  pub configured : Bool
  pub running : Bool
  pub stats_subscribed : Bool
  pub allow_live_egress : Bool
  pub launch_allow_live_egress : Bool
  pub panic_audio_hard_muted : Bool
  pub started_pending : Bool
  pub stopped_pending : Bool
  pub stats_interval : ℕ
  pub ingest : Bool
  pub output_id : Bytes
  pub endpoint : Bytes
  pub endpoint_preview : EndpointPreview
  pub requested_video_encoder : Bytes
  pub requested_audio_encoder : Bytes
  pub stream_key : Bytes
  pub stats : OutputStats
  pub last_frame_at : ℕ
  pub last_stats_at : ℕ
  pub live : LiveOutput
  pub service : Bool
  pub signals : Signals

-- A new controller behind `set_launch_allow_live_egress`.
abbrev pub launched : Bool → OutputController
launched allowed = record {
  configured = false;
  running = false;
  stats_subscribed = false;
  allow_live_egress = false;
  launch_allow_live_egress = allowed;
  panic_audio_hard_muted = false;
  started_pending = false;
  stopped_pending = false;
  stats_interval = 1000;
  ingest = false;
  output_id = [];
  endpoint = [];
  endpoint_preview = no_endpoint;
  requested_video_encoder = codes "videotoolbox_h264";
  requested_audio_encoder = codes "aac";
  stream_key = [];
  stats = no_stats;
  last_frame_at = 0;
  last_stats_at = 0;
  live = no_live;
  service = false;
  signals = no_signals;
}

abbrev pub close_ingest : OutputController → OutputController
close_ingest s = record s { ingest = false }

abbrev pub stop_live_output : OutputController → OutputController
stop_live_output s = record s { live = no_live }

abbrev pub clear_stream_key : OutputController → OutputController
clear_stream_key s = record s { stream_key = []; service = false }

-- What `stop` and `fail_output` have in common.
abbrev pub shut_down : OutputController → OutputController
shut_down s =
    record (clear_stream_key (stop_live_output (close_ingest (record s { running = false })))) {
      panic_audio_hard_muted = false;
    }

-- `output_stop_signal` and `output_reconnect_signal`, from the threads of libobs.
abbrev pub output_stop_signal : Bool → OutputController → OutputController
output_stop_signal success s = record s {
  signals = record s.signals { stop_pending = true; stop_success = success };
}

abbrev pub output_reconnect_signal : OutputController → OutputController
output_reconnect_signal s = record s { signals = record s.signals { reconnect_pending = true } }
