-- ===== src/Output/Replies.antt =====
-- What a reply of `start` says, and what `tick` reports.
use streammate_studio_host.Prelude.{
  ℕ, ◌<◌, ◌≡◌, ◌≢◌, refl, ◌⊎◌, inl, inr, Bool, true, false, not, ◌&&◌, ◌||◌, Option, none, some,
  List, [], ◌∷◌, ◌++◌, Bytes, codes, equal, is_empty, if◌then◌else◌, arith, if_holds,
}
use streammate_studio_host.Prelude.Int.{pos}
use streammate_studio_host.Rpc.Fields.{extract_json_string}
use streammate_studio_host.Output.{OutputController}
use streammate_studio_host.Output.Endpoint.{is_loopback}
use streammate_studio_host.Output.Control.{
  Outside, with_endpoint, start_live, start_local, start_configured, start_with, start, stop,
  gate_refuses, names_other,
}
use streammate_studio_host.Rpc.Reply.{Reply, answered}
use streammate_studio_host.Output.Tick.{
  Event, Round, stats_sample, output_started, output_stopped, output_error, tick, tick_live,
  tick_local, emit, frame_due, pending, update_live_stats,
}
use streammate_studio_host.Output.Custody.{
  IsKept, KeepsSome, with_endpoint-KeepsSome, ensure_configured-IsKept,
}

-- Behind a start: it is live with both flags of the gate set, or it is connected to an endpoint on a
-- loopback host, at a port that a `uint16_t` holds.
abbrev pub IsStarted : OutputController → Type 0
IsStarted t =
    (t.running ≡ true)
    × (t.stream_key ≢ [])
    × (((t.live.active ≡ true) × (t.allow_live_egress ≡ true) × (t.launch_allow_live_egress ≡ true))
        ⊎ ((t.ingest ≡ true)
            × (is_loopback t.endpoint_preview.host ≡ true)
            × ((n : ℕ) × (t.endpoint_preview.port ≡ pos n) × (0 < n) × (n < 65536))))

abbrev Answers : OutputController × Reply → Type 0
Answers out = out.1 ≡ answered → IsStarted out.0

is_empty-ne : (s : Bytes) → is_empty s ≡ false → s ≢ []
is_empty-ne [] h e = cc
is_empty-ne (c ∷ s) h e = cc

start_live-Answers :
    (key : Bytes) (o : Outside) (s : OutputController)
    → s.allow_live_egress ≡ true
    → s.launch_allow_live_egress ≡ true
    → Answers (start_live key o s)
unfolding start_live
start_live-Answers key o s a l =
    if_holds Answers (is_empty key) (λ e r. cc)
      λ filled.
        if_holds Answers (not s.endpoint_preview.valid) (λ e r. cc)
          λ e.
            if_holds Answers (not o.output_created) (λ e r. cc)
              λ e.
                if_holds Answers (not o.service_created) (λ e r. cc)
                  λ e.
                    if_holds Answers (not (o.video_encoder_created && o.audio_encoder_created))
                      (λ e r. cc)
                      λ e.
                        if_holds Answers (not (o.has_scene || o.scene_created)) (λ e r. cc)
                          λ e.
                            if_holds Answers (not o.output_started) (λ e r. cc)
                              λ e r. (refl, is_empty-ne key filled, inl (refl, a, l))

start_local-Answers :
    (key : Bytes) (o : Outside) (s : OutputController) → IsKept s → Answers (start_local key o s)
unfolding start_local
start_local-Answers key o s k =
    if_holds Answers (not s.endpoint_preview.valid || not s.endpoint_preview.loopback) (λ e r. cc)
      λ local.
        if_holds Answers (is_empty key) (λ e r. cc)
          λ filled.
            if_holds Answers (not o.socket_created) (λ e r. cc)
              λ e.
                if_holds Answers (not o.connected) (λ e r. cc)
                  λ e r.
                    let (n, port, low, high, loop) = k.endpoint (ground arith) in
                    (
                      refl,
                      is_empty-ne key filled,
                      inr (refl, ground arith, (n, port, low, omega arith)),
                    )

start_configured-Answers :
    (request : Bytes) (o : Outside) (s : OutputController)
    → IsKept s
    → Answers (start_configured request o s)
unfolding start_configured
start_configured-Answers request o s k =
    let key = extract_json_string request (codes "streamKey") in
    if_holds Answers (not (equal (extract_json_string request (codes "outputId")) s.output_id))
      (λ e r. cc)
      λ e.
        if_holds Answers (s.allow_live_egress && s.launch_allow_live_egress)
          (λ both. start_live-Answers key o s (ground arith) (ground arith))
          λ e. start_local-Answers key o s k

start_with-Answers :
    (request : Bytes) (o : Outside) (s : OutputController) (found : Option OutputController)
    → KeepsSome found
    → Answers (start_with request o s found)
unfolding start_with
start_with-Answers request o s none h = λ r. cc
start_with-Answers request o s (some s') h =
    start_configured-Answers request o _ (ensure_configured-IsKept _ s' h)

-- A start that is answered runs, with a stream key, and it is live with both flags of the egress gate
-- set, or else connected to an endpoint on a loopback host, at a port from 1 to 65535.
pub start-answered :
    (request : Bytes) (o : Outside) (s : OutputController)
    → IsKept s
    → (start request o s).1 ≡ answered
    → IsStarted (start request o s).0
unfolding start
start-answered request o s k =
    let endpoint = extract_json_string request (codes "endpoint") in
    if_holds Answers (is_empty (extract_json_string request (codes "outputId"))) (λ e r. cc)
      λ e.
        if_holds Answers (gate_refuses request s) (λ e r. cc)
          λ e.
            start_with-Answers request o s (with_endpoint endpoint s)
              (with_endpoint-KeepsSome endpoint s k)

abbrev Silent : Round → OutputController → OutputController × Reply → Type 0
Silent o s out =
    out.1 ≡ answered
    → s.running ≡ true
    → (tick o out.0 ≡ (out.0, [])) × (out.0.stopped_pending ≡ true)

-- A stop of a running output that is answered is not reported by any round behind it: the round sends
-- nothing and leaves the controller as it is, with the event still pending.
pub stop-tick :
    (request : Bytes) (o : Round) (s : OutputController)
    → (stop request s).1 ≡ answered
    → s.running ≡ true
    → (tick o (stop request s).0 ≡ ((stop request s).0, []))
      × ((stop request s).0.stopped_pending ≡ true)
unfolding stop tick
stop-tick request o s =
    if_holds (Silent o s) (names_other (extract_json_string request (codes "outputId")) s.output_id)
      (λ e r. cc) λ e r was. (refl, rw was)

-- Whether the frames tell the client that the output has ended.
unfoldable pub reports_end : List Event → Bool
reports_end [] = false
reports_end (output_stopped ∷ events) = true
reports_end (output_error reason ∷ events) = true
reports_end (_ ∷ events) = reports_end events

reports_end-append : (xs ys : List Event) → reports_end ys ≡ true → reports_end (xs ++ ys) ≡ true
unfolding reports_end
reports_end-append [] ys h = h
reports_end-append (stats_sample ∷ xs) ys h = reports_end-append xs ys h
reports_end-append (output_started ∷ xs) ys h = reports_end-append xs ys h
reports_end-append (output_stopped ∷ xs) ys h = refl
reports_end-append (output_error reason ∷ xs) ys h = refl

pending-reports_end :
    (s : OutputController) → s.stopped_pending ≡ true → reports_end (pending s) ≡ true
pending-reports_end s h =
    reports_end-append (if s.started_pending then output_started ∷ [] else []) _
      (rw h (unfold reports_end in refl))

-- What `tick` must show: an output that no longer runs is reported as ended.
abbrev Ends : OutputController × List Event → Type 0
Ends out = out.0.running ≡ false → reports_end out.1 ≡ true

emit-Ends :
    (o : Round) (s : OutputController)
    → (s.running ≡ true) ⊎ (s.stopped_pending ≡ true)
    → Ends (emit o s)
unfolding emit
emit-Ends o s (inl e) = λ n. absurd (ground arith)
emit-Ends o s (inr e) = λ n. reports_end-append _ _ (pending-reports_end s e)

tick_live-Ends : (o : Round) (s : OutputController) → s.running ≡ true → Ends (tick_live o s)
unfolding tick_live update_live_stats reports_end
tick_live-Ends o s r =
    if_holds Ends s.signals.reconnect_pending (λ e. λ n. refl)
      λ e.
        if_holds Ends (s.signals.stop_pending && not s.signals.stop_success) (λ e. λ n. refl)
          λ e.
            if_holds Ends s.signals.stop_pending (λ e. emit-Ends o _ (inr refl))
              λ e. emit-Ends o _ (inl (ground arith))

tick_local-Ends : (o : Round) (s : OutputController) → s.running ≡ true → Ends (tick_local o s)
unfolding tick_local reports_end
tick_local-Ends o s r =
    if_holds Ends (frame_due o s && not (s.ingest && o.chunk_sent)) (λ e. λ n. refl)
      λ e.
        if_holds Ends (not s.ingest || o.ingest_disconnected) (λ e. λ n. refl)
          λ e. emit-Ends o _ (inl (ground arith))

-- A round that ends a running output tells the client: it sends an error or the event that the output
-- has stopped.
pub tick-reports_end :
    (o : Round) (s : OutputController)
    → s.running ≡ true
    → (tick o s).0.running ≡ false
    → reports_end (tick o s).1 ≡ true
unfolding tick
tick-reports_end o s r =
    if_holds Ends (not s.running) (λ e. absurd (ground arith))
      λ e. if_holds Ends s.live.active (λ e. tick_live-Ends o s r) λ e. tick_local-Ends o s r
