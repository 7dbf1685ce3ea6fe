-- ===== src/Output/Flags.antt =====
-- `start` and the two flags of the egress gate.
use streammate_studio_host.Prelude.{
  ◌≡◌, refl, ◌∙◌, not, ◌&&◌, Option, none, some, Bytes, codes, equal, is_empty, arith, if_holds,
}
use streammate_studio_host.Rpc.Fields.{extract_json_string}
use streammate_studio_host.Output.{OutputController}
use streammate_studio_host.Output.Endpoint.{parse_rtmp_endpoint}
use streammate_studio_host.Output.Control.{
  Outside, with_endpoint, start_live, start_local, start_configured, start_with, start,
  gate_refuses, ensure_configured,
}

-- The two flags of the egress gate.
abbrev pub SameFlags : OutputController → OutputController → Type 0
SameFlags s t =
    (t.launch_allow_live_egress ≡ s.launch_allow_live_egress)
    × (t.allow_live_egress ≡ s.allow_live_egress)

abbrev Flagged {ℓ} : {A : Type ℓ} → OutputController → OutputController × A → Type 0
Flagged s out = SameFlags s out.0

start_live-Flagged :
    (key : Bytes) (o : Outside) (s : OutputController) → Flagged s (start_live key o s)
unfolding start_live
start_live-Flagged key o s = (ground arith, ground arith)

start_local-Flagged :
    (key : Bytes) (o : Outside) (s : OutputController) → Flagged s (start_local key o s)
unfolding start_local
start_local-Flagged key o s = (ground arith, ground arith)

start_configured-Flagged :
    (request : Bytes) (o : Outside) (s : OutputController)
    → Flagged s (start_configured request o s)
unfolding start_configured
start_configured-Flagged request o s =
    let key = extract_json_string request (codes "streamKey") in
    if_holds (Flagged s) (not (equal (extract_json_string request (codes "outputId")) s.output_id))
      (λ e. (refl, refl))
      λ e.
        if_holds (Flagged s) (s.allow_live_egress && s.launch_allow_live_egress)
          (λ e. start_live-Flagged key o s) λ e. start_local-Flagged key o s

FlaggedSome : OutputController → Option OutputController → Type 0
FlaggedSome s none = Unit
FlaggedSome s (some t) = SameFlags s t

with_endpoint-FlaggedSome :
    (endpoint : Bytes) (s : OutputController) → FlaggedSome s (with_endpoint endpoint s)
unfolding with_endpoint FlaggedSome
with_endpoint-FlaggedSome endpoint s =
    if_holds (FlaggedSome s) (is_empty endpoint) (λ e. (refl, refl))
      λ e.
        if_holds (FlaggedSome s) (not (parse_rtmp_endpoint endpoint).valid) (λ e. tt)
          λ e. (refl, refl)

start_with-Flagged :
    (request : Bytes) (o : Outside) (s : OutputController) (found : Option OutputController)
    → FlaggedSome s found
    → Flagged s (start_with request o s found)
unfolding start_with FlaggedSome
start_with-Flagged request o s none h = (refl, refl)
start_with-Flagged request o s (some t) (l, a) =
    let t' = ensure_configured (extract_json_string request (codes "outputId")) t in
    let (l', a') =
      if_holds (SameFlags t) t.configured {x = t} (λ e. (refl, refl)) (λ e. (refl, refl)) in
    let (l'', a'') = start_configured-Flagged request o t' in (l'' ∙ l' ∙ l, a'' ∙ a' ∙ a)

pub start-SameFlags :
    (request : Bytes) (o : Outside) (s : OutputController) → SameFlags s (start request o s).0
unfolding start
start-SameFlags request o s =
    let endpoint = extract_json_string request (codes "endpoint") in
    if_holds (Flagged s) (is_empty (extract_json_string request (codes "outputId")))
      (λ e. (refl, refl))
      λ e.
        if_holds (Flagged s) (gate_refuses request s) (λ e. (refl, refl))
          λ e.
            start_with-Flagged request o s (with_endpoint endpoint s)
              (with_endpoint-FlaggedSome endpoint s)
