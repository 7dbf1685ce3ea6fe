-- ===== src/Output/Reachable.antt =====
-- The states that requests, rounds of the control server and signals of libobs can bring an output to.
use streammate_studio_host.Prelude.{
  ℕ, ◌-◌, leb, List, ◌≡◌, refl, ◌∙◌, Bool, true, false, not, ◌&&◌, ◌||◌, if◌then◌else◌, Bytes,
  codes, arith, if_holds, ◌⊎◌, inl, inr, is_empty, Option, none, some,
}
use streammate_studio_host.Rpc.Reply.{Reply}
use streammate_studio_host.Rpc.Fields.{extract_json_string}
use streammate_studio_host.Output.{
  Signals, OutputController, launched, shut_down, output_stop_signal, output_reconnect_signal,
}
use streammate_studio_host.Output.Control.{
  configure_with, with_endpoint, Outside, configure, start, stop, subscribe, names_other,
  wants_live, gate_refuses,
}
use streammate_studio_host.Output.Tick.{
  Round, tick, tick_live, tick_local, emit, Event, update_live_stats, frame_due, with_frame,
}
use streammate_studio_host.Output.Flags.{SameFlags, start-SameFlags}
use streammate_studio_host.Output.Custody.{IsKept, Keeps, configure-Keeps, start-Keeps}

-- One step of a controller, with any request and whatever the world answers.
pub data Step (s : OutputController) : OutputController → Type 0 where
  configures : (request : Bytes) → Step s (configure request s).0
  starts : (request : Bytes) (o : Outside) → Step s (start request o s).0
  stops : (request : Bytes) → Step s (stop request s).0
  subscribes : (request : Bytes) (now : ℕ) → Step s (subscribe request now s).0
  ticks : (o : Round) → Step s (tick o s).0
  stop_signals : (success : Bool) → Step s (output_stop_signal success s)
  reconnect_signals : Step s (output_reconnect_signal s)

-- The states that a host launched with the flag `allowed` can reach.
pub data Reachable (allowed : Bool) : OutputController → Type 0 where
  at_launch : Reachable allowed (launched allowed)
  after : {s s' : OutputController} → Reachable allowed s → Step s s' → Reachable allowed s'

shut_down-IsKept : (s : OutputController) → IsKept s → IsKept (shut_down s)
shut_down-IsKept s k = record {
  key = λ e. refl;
  service = λ e. refl;
  ingest = λ e. refl;
  unlive = λ e. refl;
  live_running = λ e. cc;
  live_ingest = λ e. cc;
  live_launched = λ e. cc;
  armed = k.armed;
  endpoint = k.endpoint;
}

stop-Keeps : (request : Bytes) (s : OutputController) → IsKept s → Keeps (stop request s)
unfolding stop
stop-Keeps request s k =
    if_holds Keeps (names_other (extract_json_string request (codes "outputId")) s.output_id)
      (λ e. k)
      λ e.
        let d = shut_down-IsKept s k in
        record {
          key = d.key;
          service = d.service;
          ingest = d.ingest;
          unlive = d.unlive;
          live_running = d.live_running;
          live_ingest = d.live_ingest;
          live_launched = d.live_launched;
          armed = d.armed;
          endpoint = d.endpoint;
        }

-- The fields that the invariant does not name may change at will.
abbrev SameCustody : OutputController → OutputController → Type 0
SameCustody s s' =
    (s'.running ≡ s.running)
    × (s'.stream_key ≡ s.stream_key)
    × (s'.service ≡ s.service)
    × (s'.ingest ≡ s.ingest)
    × (s'.live ≡ s.live)
    × (s'.allow_live_egress ≡ s.allow_live_egress)
    × (s'.launch_allow_live_egress ≡ s.launch_allow_live_egress)
    × (s'.endpoint_preview ≡ s.endpoint_preview)

SameCustody-IsKept : (s s' : OutputController) → SameCustody s s' → IsKept s → IsKept s'
SameCustody-IsKept s s' (r, y, v, i, l, a, g, e) k = record {
  key = rw (r, y) k.key;
  service = rw (r, v) k.service;
  ingest = rw (r, i) k.ingest;
  unlive = rw l k.unlive;
  live_running = rw (l, r) k.live_running;
  live_ingest = rw (l, i) k.live_ingest;
  live_launched = rw (l, g) k.live_launched;
  armed = rw (a, g) k.armed;
  endpoint = rw e k.endpoint;
}

signals-IsKept : (s : OutputController) (x : Signals) → IsKept s → IsKept (record s { signals = x })
signals-IsKept s x k = SameCustody-IsKept s _ (refl, refl, refl, refl, refl, refl, refl, refl) k

emit-SameCustody : (o : Round) (s : OutputController) → SameCustody s (emit o s).0
unfolding emit
emit-SameCustody o s =
    if_holds
      (λ (out : OutputController × List Event).
        SameCustody s (record out.0 { started_pending = false; stopped_pending = false }))
      (s.stats_subscribed && leb s.stats_interval (o.now - s.last_stats_at))
      (λ e. (refl, refl, refl, refl, refl, refl, refl, refl))
      λ e. (refl, refl, refl, refl, refl, refl, refl, refl)

emit-Keeps : (o : Round) (s : OutputController) → IsKept s → Keeps (emit o s)
emit-Keeps o s k = SameCustody-IsKept s (emit o s).0 (emit-SameCustody o s) k

update_live_stats-IsKept :
    (o : Round) (s : OutputController) → IsKept s → IsKept (update_live_stats o s)
unfolding update_live_stats
update_live_stats-IsKept o s k =
    if_holds IsKept (not s.live.output) (λ e. k)
      λ e. SameCustody-IsKept s _ (refl, refl, refl, refl, refl, refl, refl, refl) k

tick_live-Keeps :
    (o : Round) (s : OutputController) → s.live.active ≡ true → IsKept s → Keeps (tick_live o s)
unfolding tick_live
tick_live-Keeps o s active k =
    if_holds Keeps s.signals.reconnect_pending (λ e. shut_down-IsKept _ (signals-IsKept s _ k))
      λ e.
        if_holds Keeps (s.signals.stop_pending && not s.signals.stop_success)
          (λ e. shut_down-IsKept _ (signals-IsKept s _ k))
          λ e.
            if_holds Keeps s.signals.stop_pending
              (λ e. emit-Keeps o _ (record {
                key = λ e. refl;
                service = λ e. refl;
                ingest = λ e. k.live_ingest active;
                unlive = λ e. refl;
                live_running = λ e. cc;
                live_ingest = λ e. cc;
                live_launched = λ e. cc;
                armed = k.armed;
                endpoint = k.endpoint;
              }))
              λ e. emit-Keeps o _ (update_live_stats-IsKept o s k)

with_frame-IsKept : (o : Round) (s : OutputController) → IsKept s → IsKept (with_frame o s)
with_frame-IsKept o s k = SameCustody-IsKept s _ (refl, refl, refl, refl, refl, refl, refl, refl) k

framed-IsKept :
    (o : Round) (s : OutputController)
    → IsKept s
    → IsKept (if frame_due o s then with_frame o s else s)
framed-IsKept o s k = if_holds IsKept (frame_due o s) (λ e. with_frame-IsKept o s k) (λ e. k)

tick_local-Keeps : (o : Round) (s : OutputController) → IsKept s → Keeps (tick_local o s)
unfolding tick_local
tick_local-Keeps o s k =
    if_holds Keeps (frame_due o s && not (s.ingest && o.chunk_sent))
      (λ e. shut_down-IsKept _ (with_frame-IsKept o s k))
      λ e.
        if_holds Keeps (not s.ingest || o.ingest_disconnected)
          (λ e. shut_down-IsKept _ (framed-IsKept o s k)) λ e. emit-Keeps o _ (framed-IsKept o s k)

tick-Keeps : (o : Round) (s : OutputController) → IsKept s → Keeps (tick o s)
unfolding tick
tick-Keeps o s k =
    if_holds Keeps (not s.running) (λ e. k)
      λ e.
        if_holds Keeps s.live.active (λ active. tick_live-Keeps o s active k)
          (λ e. tick_local-Keeps o s k)

Step-IsKept : {s s' : OutputController} → Step s s' → IsKept s → IsKept s'
unfolding subscribe
Step-IsKept {s} (configures request) k = configure-Keeps request s k
Step-IsKept {s} (starts request o) k = start-Keeps request o s k
Step-IsKept {s} (stops request) k = stop-Keeps request s k
Step-IsKept {s} (subscribes request now) k =
    SameCustody-IsKept s _ (refl, refl, refl, refl, refl, refl, refl, refl) k
Step-IsKept {s} (ticks o) k = tick-Keeps o s k
Step-IsKept {s} (stop_signals success) k = signals-IsKept s _ k
Step-IsKept {s} reconnect_signals k = signals-IsKept s _ k

launched-IsKept : (allowed : Bool) → IsKept (launched allowed)
launched-IsKept allowed = record {
  key = λ e. refl;
  service = λ e. refl;
  ingest = λ e. refl;
  unlive = λ e. refl;
  live_running = λ e. cc;
  live_ingest = λ e. cc;
  live_launched = λ e. cc;
  armed = λ e. cc;
  endpoint = λ e. cc;
}

-- What a step may do to the two flags of the egress gate: a request to configure may set the one for
-- the output to what it asks for, if the gate lets it pass.
abbrev pub IsArming : {s s' : OutputController} → Step s s' → Type 0
IsArming {s} {s'} (configures request) =
    (s'.allow_live_egress ≡ wants_live request)
    × (wants_live request && not s.launch_allow_live_egress ≡ false)
IsArming (starts request o) = ⊥
IsArming (stops request) = ⊥
IsArming (subscribes request now) = ⊥
IsArming (ticks o) = ⊥
IsArming (stop_signals success) = ⊥
IsArming reconnect_signals = ⊥

configure-launch :
    (request : Bytes) (s : OutputController)
    → (configure request s).0.launch_allow_live_egress ≡ s.launch_allow_live_egress
unfolding configure configure_with with_endpoint
configure-launch request s = ground arith

configure-arms :
    (request : Bytes) (s : OutputController)
    → ((configure request s).0.allow_live_egress ≡ s.allow_live_egress)
      ⊎ ((configure request s).0.allow_live_egress ≡ wants_live request)
        × (wants_live request && not s.launch_allow_live_egress ≡ false)
unfolding configure configure_with
configure-arms request s =
    let Arms : OutputController × Reply → Type 0 = λ out.
      (out.0.allow_live_egress ≡ s.allow_live_egress)
      ⊎ (out.0.allow_live_egress ≡ wants_live request)
        × (wants_live request && not s.launch_allow_live_egress ≡ false) in
    if_holds Arms (is_empty (extract_json_string request (codes "outputId"))) (λ e. inl refl)
      λ named.
        if_holds Arms (gate_refuses request s) (λ e. inl refl)
          λ passed. taken passed (with_endpoint (extract_json_string request (codes "endpoint")) s)
  where
    taken :
        gate_refuses request s ≡ false
        → (found : Option OutputController)
        → ((configure_with request s found).0.allow_live_egress ≡ s.allow_live_egress)
          ⊎ ((configure_with request s found).0.allow_live_egress ≡ wants_live request)
            × (wants_live request && not s.launch_allow_live_egress ≡ false)
    taken passed none = inl refl
    taken passed (some s') = inr (refl, passed)

tick-SameFlags : (o : Round) (s : OutputController) → SameFlags s (tick o s).0
unfolding tick tick_live tick_local emit update_live_stats
tick-SameFlags o s = (ground arith, ground arith)

stop-SameFlags : (request : Bytes) (s : OutputController) → SameFlags s (stop request s).0
unfolding stop
stop-SameFlags request s = (ground arith, ground arith)

-- Nothing that happens to an output, be it a request, a round of the server's loop or a signal of
-- libobs, changes the launch flag; and nothing changes the output's own flag of the egress gate but a
-- request to configure, which sets it to what the request asks for and arms it under the launch flag
-- only.
pub Step-arms :
    {s s' : OutputController} (m : Step s s')
    → (s'.launch_allow_live_egress ≡ s.launch_allow_live_egress)
      × ((s'.allow_live_egress ≡ s.allow_live_egress) ⊎ IsArming m)
unfolding subscribe
Step-arms {s} (configures request) = (configure-launch request s, configure-arms request s)
Step-arms {s} (starts request o) = let (l, a) = start-SameFlags request o s in (l, inl a)
Step-arms {s} (stops request) = let (l, a) = stop-SameFlags request s in (l, inl a)
Step-arms {s} (subscribes request now) = (refl, inl refl)
Step-arms {s} (ticks o) = let (l, a) = tick-SameFlags o s in (l, inl a)
Step-arms {s} (stop_signals success) = (refl, inl refl)
Step-arms {s} reconnect_signals = (refl, inl refl)

-- In every state that requests, rounds and signals can reach, an output that does not run holds no
-- stream key, service, socket or object of libobs; one that is live runs with no local ingest; live
-- egress is armed or active only if the launch flag is set, which is the one that the host was
-- launched with; and a valid endpoint has a port from 1 to 65535.
pub Reachable-IsKept :
    (allowed : Bool) {s : OutputController}
    → Reachable allowed s
    → IsKept s × (s.launch_allow_live_egress ≡ allowed)
Reachable-IsKept allowed at_launch = (launched-IsKept allowed, refl)
Reachable-IsKept allowed (after path step) =
    let (k, e) = Reachable-IsKept allowed path in (Step-IsKept step k, (Step-arms step).0 ∙ e)
