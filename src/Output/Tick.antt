-- ===== src/Output/Tick.antt =====
-- `tick` of `OutputController`: one round of the control server's loop.
use streammate_studio_host.Prelude.{
  ℕ, ◌+◌, ◌-◌, Bool, true, false, not, ◌&&◌, ◌||◌, List, [], ◌∷◌, ◌++◌, leb, if◌then◌else◌, Bytes,
  codes,
}
use streammate_studio_host.Output.{
  OutputController, Counts, counted, stop_live_output, clear_stream_key, shut_down,
}

-- The frames that `tick` and `fail_output` send.
pub data Event : Type 0 where
  stats_sample output_started output_stopped : Event
  output_error : Bytes → Event

-- The clock in milliseconds, the sockets, and the counts of libobs.
pub record Round : Type 0 where
  pub now : ℕ
  pub chunk_sent : Bool
  pub ingest_disconnected : Bool
  pub counts : Counts

abbrev fail_output : Bytes → OutputController → OutputController × List Event
fail_output reason s = (shut_down s, output_error reason ∷ [])

-- The end of `tick`: the sample that is due and the pending events.
abbrev sampled : Round → OutputController → OutputController × List Event
sampled o s =
    if s.stats_subscribed && leb s.stats_interval (o.now - s.last_stats_at)
    then (record s { last_stats_at = o.now }, stats_sample ∷ [])
    else (s, [])

abbrev pub pending : OutputController → List Event
pending s =
    (if s.started_pending then output_started ∷ [] else [])
    ++ (if s.stopped_pending then output_stopped ∷ [] else [])

unfoldable pub emit : Round → OutputController → OutputController × List Event
emit o s =
    let out = sampled o s in
    (record out.0 { started_pending = false; stopped_pending = false }, out.1 ++ pending s)

unfoldable pub update_live_stats : Round → OutputController → OutputController
update_live_stats o s = if not s.live.output then s else record s { stats = counted o.counts }

-- The signals are read with `exchange`: each is seen once.
unfoldable pub tick_live : Round → OutputController → OutputController × List Event
unfolding update_live_stats
tick_live o s =
    if s.signals.reconnect_pending
    then fail_output (codes "live egress reconnect refused")
        (record s { signals = record s.signals { reconnect_pending = false } })
    else if s.signals.stop_pending && not s.signals.stop_success
    then fail_output (codes "live egress disconnected")
        (record s { signals = record s.signals { stop_pending = false; stop_success = true } })
    else if s.signals.stop_pending
    then emit o
        (record (clear_stream_key (
          stop_live_output (record s {
            signals = record s.signals { stop_pending = false; stop_success = true };
            running = false;
          }))) { panic_audio_hard_muted = false; stopped_pending = true })
    else emit o (update_live_stats o s)

abbrev pub frame_due : Round → OutputController → Bool
frame_due o s = leb 33 (o.now - s.last_frame_at)

abbrev pub with_frame : Round → OutputController → OutputController
with_frame o s = record s {
  stats = record s.stats {
    rendered_frames = s.stats.rendered_frames + 1;
    encoded_frames = s.stats.encoded_frames + 1;
  };
  last_frame_at = o.now;
}

-- Without a socket no chunk can be sent, and the ingest counts as disconnected.
unfoldable pub tick_local : Round → OutputController → OutputController × List Event
tick_local o s =
    if frame_due o s && not (s.ingest && o.chunk_sent)
    then fail_output (codes "fake ingest disconnected") (with_frame o s)
    else if not s.ingest || o.ingest_disconnected
    then fail_output (codes "fake ingest disconnected")
        (if frame_due o s then with_frame o s else s)
    else emit o (if frame_due o s then with_frame o s else s)

unfoldable pub tick : Round → OutputController → OutputController × List Event
tick o s =
    if not s.running then (s, []) else if s.live.active then tick_live o s else tick_local o s
