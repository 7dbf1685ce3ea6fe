-- ===== src/Output/Custody.antt =====
-- What an output holds in each state that the control server can bring it to.
use streammate_studio_host.Prelude.{
  ◌≡◌, refl, true, false, not, ◌&&◌, ◌||◌, Option, none, some, [], Bytes, codes, equal, is_empty,
  arith, if_holds,
}
use streammate_studio_host.Rpc.Fields.{extract_json_string}
use streammate_studio_host.Output.{
  OutputController, launched, no_live, close_ingest, stop_live_output, clear_stream_key,
}
use streammate_studio_host.Output.Endpoint.{
  IsEndpoint, parse_rtmp_endpoint, parse_rtmp_endpoint-IsEndpoint,
}
use streammate_studio_host.Output.Control.{
  Outside, with_endpoint, configure_with, configure, start_live, start_local, start_configured,
  start_with, start, gate_refuses, cleared, ensure_configured,
}

-- Nothing of a stream is held unless it runs: no key, no service and no socket; without a live output
-- nothing of libobs is held; a live output runs with no local ingest, and it needs the launch flag,
-- as the armed flag does.
pub record IsKept (s : OutputController) : Type 0 where
  pub key : s.running ≡ false → s.stream_key ≡ []
  pub service : s.running ≡ false → s.service ≡ false
  pub ingest : s.running ≡ false → s.ingest ≡ false
  pub unlive : s.live.active ≡ false → s.live ≡ no_live
  pub live_running : s.live.active ≡ true → s.running ≡ true
  pub live_ingest : s.live.active ≡ true → s.ingest ≡ false
  pub live_launched : s.live.active ≡ true → s.launch_allow_live_egress ≡ true
  pub armed : s.allow_live_egress ≡ true → s.launch_allow_live_egress ≡ true
  pub endpoint : IsEndpoint s.endpoint_preview

-- A state whose reply or events are put aside.
abbrev pub Keeps {ℓ} : {A : Type ℓ} → OutputController × A → Type 0
Keeps out = IsKept out.0

close-IsKept : (s : OutputController) → IsKept s → IsKept (stop_live_output (close_ingest s))
close-IsKept s k = record {
  key = k.key;
  service = k.service;
  ingest = λ e. refl;
  unlive = λ e. refl;
  live_running = λ e. cc;
  live_ingest = λ e. cc;
  live_launched = λ e. cc;
  armed = k.armed;
  endpoint = k.endpoint;
}

clear-IsKept : (s : OutputController) → IsKept s → IsKept (clear_stream_key s)
clear-IsKept s k = record {
  key = λ e. refl;
  service = λ e. refl;
  ingest = k.ingest;
  unlive = k.unlive;
  live_running = k.live_running;
  live_ingest = k.live_ingest;
  live_launched = k.live_launched;
  armed = k.armed;
  endpoint = k.endpoint;
}

abbrev pub KeepsSome : Option OutputController → Type 0
KeepsSome none = Unit
KeepsSome (some s) = IsKept s

pub with_endpoint-KeepsSome :
    (endpoint : Bytes) (s : OutputController) → IsKept s → KeepsSome (with_endpoint endpoint s)
unfolding with_endpoint
with_endpoint-KeepsSome endpoint s k =
    if_holds KeepsSome (is_empty endpoint) (λ e. k)
      λ e.
        if_holds KeepsSome (not (parse_rtmp_endpoint endpoint).valid) (λ e. tt)
          λ e. record {
            key = k.key;
            service = k.service;
            ingest = k.ingest;
            unlive = k.unlive;
            live_running = k.live_running;
            live_ingest = k.live_ingest;
            live_launched = k.live_launched;
            armed = k.armed;
            endpoint = parse_rtmp_endpoint-IsEndpoint endpoint;
          }

configure_with-Keeps :
    (request : Bytes) (s : OutputController) (o : Option OutputController)
    → IsKept s
    → KeepsSome o
    → ((s' : OutputController) → o ≡ some s' → gate_refuses request s' ≡ false)
    → Keeps (configure_with request s o)
unfolding configure_with
configure_with-Keeps request s none k h g = k
configure_with-Keeps request s (some s') k h g = record {
  key = h.key;
  service = h.service;
  ingest = h.ingest;
  unlive = h.unlive;
  live_running = h.live_running;
  live_ingest = h.live_ingest;
  live_launched = h.live_launched;
  armed = λ e. ground (arith, g s' refl);
  endpoint = h.endpoint;
}

pub with_endpoint-launch :
    (endpoint : Bytes) (s s' : OutputController)
    → with_endpoint endpoint s ≡ some s'
    → s'.launch_allow_live_egress ≡ s.launch_allow_live_egress
unfolding with_endpoint
with_endpoint-launch endpoint s s' e = ground arith

pub configure-Keeps :
    (request : Bytes) (s : OutputController) → IsKept s → Keeps (configure request s)
unfolding configure
configure-Keeps request s k =
    let endpoint = extract_json_string request (codes "endpoint") in
    if_holds Keeps (is_empty (extract_json_string request (codes "outputId"))) (λ e. k)
      λ e.
        if_holds Keeps (gate_refuses request s) (λ e. k)
          λ unrefused.
            configure_with-Keeps request s (with_endpoint endpoint s) k
              (with_endpoint-KeepsSome endpoint s k)
              λ s' e. rw (with_endpoint-launch endpoint s s' e) unrefused

cleared-IsKept : (s : OutputController) → IsKept s → IsKept (cleared s)
cleared-IsKept s k = record {
  key = λ e. refl;
  service = λ e. refl;
  ingest = λ e. refl;
  unlive = λ e. refl;
  live_running = λ e. cc;
  live_ingest = λ e. cc;
  live_launched = λ e. cc;
  armed = k.armed;
  endpoint = k.endpoint;
}

start_live-Keeps :
    (key : Bytes) (o : Outside) (s : OutputController)
    → s.launch_allow_live_egress ≡ true
    → IsKept s
    → Keeps (start_live key o s)
unfolding start_live
start_live-Keeps key o s launched k =
    let c = cleared-IsKept s k in
    if_holds Keeps (is_empty key) (λ e. k)
      λ e.
        if_holds Keeps (not s.endpoint_preview.valid) (λ e. k)
          λ e.
            if_holds Keeps (not o.output_created) (λ e. c)
              λ e.
                if_holds Keeps (not o.service_created) (λ e. c)
                  λ e.
                    if_holds Keeps (not (o.video_encoder_created && o.audio_encoder_created))
                      (λ e. c)
                      λ e.
                        if_holds Keeps (not (o.has_scene || o.scene_created)) (λ e. c)
                          λ e.
                            if_holds Keeps (not o.output_started) (λ e. c)
                              λ e. record {
                                key = λ e. cc;
                                service = λ e. cc;
                                ingest = λ e. refl;
                                unlive = λ e. cc;
                                live_running = λ e. refl;
                                live_ingest = λ e. refl;
                                live_launched = λ e. launched;
                                armed = k.armed;
                                endpoint = k.endpoint;
                              }

start_local-Keeps :
    (key : Bytes) (o : Outside) (s : OutputController) → IsKept s → Keeps (start_local key o s)
unfolding start_local
start_local-Keeps key o s k =
    let c = close-IsKept s k in
    if_holds Keeps (not s.endpoint_preview.valid || not s.endpoint_preview.loopback) (λ e. k)
      λ e.
        if_holds Keeps (is_empty key) (λ e. k)
          λ e.
            if_holds Keeps (not o.socket_created) (λ e. c)
              λ e.
                if_holds Keeps (not o.connected) (λ e. clear-IsKept _ c)
                  λ e. record {
                    key = λ e. cc;
                    service = λ e. cc;
                    ingest = λ e. cc;
                    unlive = λ e. refl;
                    live_running = λ e. refl;
                    live_ingest = λ e. cc;
                    live_launched = λ e. cc;
                    armed = k.armed;
                    endpoint = k.endpoint;
                  }

pub ensure_configured-IsKept :
    (id : Bytes) (s : OutputController) → IsKept s → IsKept (ensure_configured id s)
ensure_configured-IsKept id s k =
    if_holds IsKept s.configured (λ e. k)
      λ e. record {
        key = k.key;
        service = k.service;
        ingest = k.ingest;
        unlive = k.unlive;
        live_running = k.live_running;
        live_ingest = k.live_ingest;
        live_launched = k.live_launched;
        armed = k.armed;
        endpoint = k.endpoint;
      }

start_configured-Keeps :
    (request : Bytes) (o : Outside) (s : OutputController)
    → IsKept s
    → Keeps (start_configured request o s)
unfolding start_configured
start_configured-Keeps request o s k =
    let key = extract_json_string request (codes "streamKey") in
    if_holds Keeps (not (equal (extract_json_string request (codes "outputId")) s.output_id))
      (λ e. k)
      λ e.
        if_holds Keeps (s.allow_live_egress && s.launch_allow_live_egress)
          (λ both. start_live-Keeps key o s (ground arith) k) λ e. start_local-Keeps key o s k

start_with-Keeps :
    (request : Bytes) (o : Outside) (s : OutputController) (found : Option OutputController)
    → IsKept s
    → KeepsSome found
    → Keeps (start_with request o s found)
unfolding start_with
start_with-Keeps request o s none k h = k
start_with-Keeps request o s (some s') k h =
    start_configured-Keeps request o _ (ensure_configured-IsKept _ s' h)

pub start-Keeps :
    (request : Bytes) (o : Outside) (s : OutputController) → IsKept s → Keeps (start request o s)
unfolding start
start-Keeps request o s k =
    let endpoint = extract_json_string request (codes "endpoint") in
    if_holds Keeps (is_empty (extract_json_string request (codes "outputId"))) (λ e. k)
      λ e.
        if_holds Keeps (gate_refuses request s) (λ e. k)
          λ e.
            start_with-Keeps request o s (with_endpoint endpoint s) k
              (with_endpoint-KeepsSome endpoint s k)
