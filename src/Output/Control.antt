-- ===== src/Output/Control.antt =====
-- `configure`, `start`, `start_live`, `stop` and `subscribe` of `OutputController`.
use streammate_studio_host.Prelude.{
  ℕ, zero, suc, min, max, Bool, true, false, not, ◌&&◌, ◌||◌, Option, none, some, if◌then◌else◌,
  Bytes, codes, equal, is_empty,
}
use streammate_studio_host.Prelude.Int.{ℤ, pos, negsuc}
use streammate_studio_host.Rpc.Fields.{extract_json_string, extract_json_bool, extract_json_int}
use streammate_studio_host.Rpc.Reply.{Reply, answered, invalid, unavailable}
use streammate_studio_host.Output.{
  Counts, counted, OutputController, no_stats, no_signals, close_ingest, stop_live_output,
  clear_stream_key, shut_down, LiveOutput,
}
use streammate_studio_host.Output.Endpoint.{parse_rtmp_endpoint}

-- What the sockets, libobs and the clock (in milliseconds) say to a start.
pub record Outside : Type 0 where
  pub now : ℕ
  pub socket_created : Bool
  pub connected : Bool
  pub output_created : Bool
  pub service_created : Bool
  pub video_encoder_created : Bool
  pub audio_encoder_created : Bool
  pub has_scene : Bool
  pub scene_created : Bool
  pub output_started : Bool
  pub counts : Counts

-- `value_or(false)`
abbrev or_false : Option Bool → Bool
or_false none = false
or_false (some b) = b

abbrev pub wants_live : Bytes → Bool
wants_live request = or_false (extract_json_bool request (codes "allowLiveEgress"))

abbrev or_default : Bytes → Bytes → Bytes
or_default value default = if is_empty value then default else value

-- The endpoint of a request, taken over if there is one; `none` for one that is not valid.
unfoldable pub with_endpoint : Bytes → OutputController → Option OutputController
with_endpoint endpoint s =
    if is_empty endpoint
    then some s
    else if not (parse_rtmp_endpoint endpoint).valid
    then none
    else some (record s { endpoint = endpoint; endpoint_preview = parse_rtmp_endpoint endpoint })

abbrev pub bad_endpoint : Reply
bad_endpoint = invalid (codes "endpoint must be an rtmp URL")

-- `live_egress_launch_gate`: whether it refuses.
abbrev pub gate_refuses : Bytes → OutputController → Bool
gate_refuses request s = wants_live request && not s.launch_allow_live_egress

abbrev pub gate_refusal : Reply
gate_refusal = invalid (codes "live egress requires the --allow-live-egress launch flag")

abbrev pub configured_from : Bytes → OutputController → OutputController
configured_from request s = record s {
  output_id = extract_json_string request (codes "outputId");
  configured = true;
  allow_live_egress = wants_live request;
  requested_video_encoder =
      or_default (extract_json_string request (codes "videoEncoder")) (codes "videotoolbox_h264");
  requested_audio_encoder =
      or_default (extract_json_string request (codes "audioEncoder")) (codes "aac");
}

unfoldable pub configure_with :
    Bytes → OutputController → Option OutputController → OutputController × Reply
configure_with request s none = (s, bad_endpoint)
configure_with request s (some s') = (configured_from request s', answered)

unfoldable pub configure : Bytes → OutputController → OutputController × Reply
configure request s =
    if is_empty (extract_json_string request (codes "outputId"))
    then (s, invalid (codes "outputId is required"))
    else if gate_refuses request s
    then (s, gate_refusal)
    else configure_with request s (with_endpoint (extract_json_string request (codes "endpoint")) s)

-- The state in front of the first call of libobs in `start_live`.
abbrev pub cleared : OutputController → OutputController
cleared s = record (clear_stream_key (stop_live_output (close_ingest s))) {
  stats = no_stats;
  signals = no_signals;
}

abbrev pub running_with : Bytes → ℕ → OutputController → OutputController
running_with key now s = record s {
  stream_key = key;
  running = true;
  stopped_pending = false;
  started_pending = true;
  last_frame_at = now;
  last_stats_at = now;
  panic_audio_hard_muted = true;
}

-- What is held when `obs_output_start` is called; `ensure_live_source` binds a scene of its own if
-- there is none.
abbrev pub wired : Outside → LiveOutput
wired o = record {
  active = false;
  output = true;
  video_encoder = true;
  audio_encoder = true;
  fallback_scene = not o.has_scene;
}

unfoldable pub start_live : Bytes → Outside → OutputController → OutputController × Reply
start_live key o s =
    if is_empty key
    then (s, invalid (codes "streamKey is required"))
    else if not s.endpoint_preview.valid
    then (s, bad_endpoint)
    else if not o.output_created
    then (cleared s, unavailable (codes "live egress output unavailable"))
    else if not o.service_created
    then (stop_live_output (cleared s), unavailable (codes "live egress service unavailable"))
    else if not (o.video_encoder_created && o.audio_encoder_created)
    then (
      clear_stream_key (stop_live_output (cleared s)),
      unavailable (codes "live egress encoder unavailable"),
    )
    else if not (o.has_scene || o.scene_created)
    then (
      clear_stream_key (stop_live_output (cleared s)),
      unavailable (codes "live egress source unavailable"),
    )
    else if not o.output_started
    then (
      clear_stream_key (stop_live_output (record (cleared s) { live = wired o; service = true })),
      unavailable (codes "live egress start failed"),
    )
    else (
      record (running_with key o.now (cleared s)) {
        live = record (wired o) { active = true };
        service = true;
        stats = counted o.counts;
      },
      answered,
    )

-- The local lane of `start`.
unfoldable pub start_local : Bytes → Outside → OutputController → OutputController × Reply
start_local key o s =
    if not s.endpoint_preview.valid || not s.endpoint_preview.loopback
    then (
      s,
      invalid
          (codes "output.start only permits a local fake RTMP ingest endpoint in this scaffold"),
    )
    else if is_empty key
    then (s, invalid (codes "streamKey is required"))
    else if not o.socket_created
    then (stop_live_output (close_ingest s), unavailable (codes "fake ingest socket create failed"))
    else if not o.connected
    then (
      clear_stream_key (stop_live_output (close_ingest s)),
      unavailable (codes "fake ingest connect failed"),
    )
    else (
      record (running_with key o.now (stop_live_output (close_ingest s))) {
        ingest = true;
        stats = no_stats;
      },
      answered,
    )

-- `if (!configured_)`
abbrev pub ensure_configured : Bytes → OutputController → OutputController
ensure_configured id s = if s.configured then s else record s { output_id = id; configured = true }

-- `start` behind the endpoint.
unfoldable pub start_configured : Bytes → Outside → OutputController → OutputController × Reply
start_configured request o s =
    if not (equal (extract_json_string request (codes "outputId")) s.output_id)
    then (s, invalid (codes "output is not configured"))
    else if s.allow_live_egress && s.launch_allow_live_egress
    then start_live (extract_json_string request (codes "streamKey")) o s
    else start_local (extract_json_string request (codes "streamKey")) o s

unfoldable pub start_with :
    Bytes → Outside → OutputController → Option OutputController → OutputController × Reply
start_with request o s none = (s, bad_endpoint)
start_with request o s (some s') =
    start_configured request o
      (ensure_configured (extract_json_string request (codes "outputId")) s')

unfoldable pub start : Bytes → Outside → OutputController → OutputController × Reply
start request o s =
    if is_empty (extract_json_string request (codes "outputId"))
    then (s, invalid (codes "outputId is required"))
    else if gate_refuses request s
    then (s, gate_refusal)
    else start_with request o s (with_endpoint (extract_json_string request (codes "endpoint")) s)

-- `stop` names another output than the one that is configured.
abbrev pub names_other : Bytes → Bytes → Bool
names_other id own = not (is_empty id) && not (is_empty own) && not (equal id own)

unfoldable pub stop : Bytes → OutputController → OutputController × Reply
stop request s =
    if names_other (extract_json_string request (codes "outputId")) s.output_id
    then (s, invalid (codes "output is not configured"))
    else (record (shut_down s) { stopped_pending = s.running || s.stopped_pending }, answered)

-- `std::clamp(interval, 50, 10000)`, with 1000 for an interval that is missing or not positive.
unfoldable pub interval_of : Option ℤ → ℕ
interval_of none = 1000
interval_of (some (negsuc n)) = 1000
interval_of (some (pos zero)) = 1000
interval_of (some (pos (suc n))) = max 50 (min (suc n) 10000)

unfoldable pub subscribe : Bytes → ℕ → OutputController → OutputController × Reply
unfolding interval_of
subscribe request now s = (
  record s {
    stats_interval = interval_of (extract_json_int request (codes "intervalMs"));
    stats_subscribed = true;
    last_stats_at = now;
  },
  answered,
)
