-- ===== src/Server/Served.antt =====
-- What the clients of a server can do: only with the launch's token anything, and then nothing but
-- what the components do on their own.
use streammate_studio_host.Prelude.{
  ◌≡◌, refl, ap, Option-cases, ◌≢◌, Bool, true, not, Option, none, some, List, [], ◌∷◌, ◌++◌, Bytes,
  codes, equal_iff, if_holds, take, arith, Bool-cases, inl, inr, is_some, map,
}
use streammate_studio_host.Prelude.Ordered.{lookup}
use streammate_studio_host.Output.{OutputController}
use streammate_studio_host.Output.Tick.{tick}
use streammate_studio_host.Output.Reachable
use streammate_studio_host.Renderer.{Std}
use streammate_studio_host.Renderer.Steps
use streammate_studio_host.Server.{Frame, output_event, Host, launched_host}
use streammate_studio_host.Server.Headers.{parse_headers}
use streammate_studio_host.Server.Session.{
  Incoming, nothing, closed, message, Pulse, not_due, sent, lost, Signal, is_bearer, stops,
  reconnects, signalled, Turn, Client, c_string, authorized, is_bearer, at_pulse, finish_turn,
  turn_with, converse, handle_request, handle_received, handle_client,
}
use streammate_studio_host.Server.Table.{handle_message}
use streammate_studio_host.Server.Composed.{Parts, handle_message-Served}

-- The hosts that clients can bring a launch with a token and a launch flag to.
pub data Reached {F : Type 0} (std : Std F) (token : Bytes) (allowed : Bool) : Host F → Type 0 where
  at_launch : Reached std token allowed (launched_host allowed)
  after :
      {h : Host F} (client : Client)
      → Reached std token allowed h
      → Reached std token allowed (handle_client std token client h).0

signalled-Reachable :
    (allowed : Bool) (signals : List Signal) (s : OutputController)
    → Reachable.Reachable allowed s
    → Reachable.Reachable allowed (signalled signals s)
unfolding signalled
signalled-Reachable allowed [] s r = r
signalled-Reachable allowed (stops success ∷ rest) s r =
    signalled-Reachable allowed rest _ (Reachable.after r (Reachable.stop_signals success))
signalled-Reachable allowed (reconnects ∷ rest) s r =
    signalled-Reachable allowed rest _ (Reachable.after r Reachable.reconnect_signals)

module _ {F : Type 0} (std : Std F) (allowed : Bool) where
  at_pulse-Parts :
      (x : Pulse) (out : Host F × List Frame)
      → Parts std allowed out.0
      → Parts std allowed (at_pulse x out).0.0
  unfolding at_pulse
  at_pulse-Parts not_due out p = p
  at_pulse-Parts sent out p = p
  at_pulse-Parts lost out p = p

  finish_turn-Parts :
      (t : Turn) (h : Host F) (frames : List Frame)
      → Parts std allowed h
      → Parts std allowed (finish_turn t (h, frames)).0.0
  unfolding finish_turn
  finish_turn-Parts t h frames p =
      at_pulse-Parts t.pulse
        (
          record h { output = (tick t.round h.output).0 },
          frames ++ map output_event (tick t.round h.output).1,
        )
        (record {
          renderer = p.renderer;
          output = Reachable.after p.output (Reachable.ticks t.round);
        })

  turn_with-Parts :
      (x : Incoming) (t : Turn) (h : Host F)
      → Parts std allowed h
      → Parts std allowed (turn_with std x t h).0.0
  unfolding turn_with
  turn_with-Parts nothing t h p = finish_turn-Parts t h [] p
  turn_with-Parts closed t h p = p
  turn_with-Parts (message text) t h p =
      let out = handle_message std t.answers text h in
      finish_turn-Parts t out.0 out.1 ((handle_message-Served std allowed t.answers text h).0 p)

  converse-Parts :
      (turns : List Turn) (h : Host F)
      → Parts std allowed h
      → Parts std allowed (converse std turns h).0
  unfolding converse
  converse-Parts [] h p = p
  converse-Parts (t ∷ turns) h p =
      let Good : Host F × List Frame → Type 0 = λ out. Parts std allowed out.0 in
      let heard = record h { output = signalled t.signals h.output } in
      let next = turn_with-Parts t.incoming t heard (record {
        renderer = p.renderer;
        output = signalled-Reachable allowed t.signals _ p.output;
      }) in
      if_holds Good h.stopped (λ e. p)
        λ e.
          if_holds Good (turn_with std t.incoming t heard).1
            (λ e. converse-Parts turns (turn_with std t.incoming t heard).0.0 next) λ e. next

  handle_request-Parts :
      (token received : Bytes) (client : Client) (h : Host F)
      → Parts std allowed h
      → Parts std allowed (handle_request std token received client h).0
  unfolding handle_request
  handle_request-Parts token received client h p =
      let Good : Host F × List Frame → Type 0 = λ out. Parts std allowed out.0 in
      if_holds Good (not (authorized token (parse_headers (c_string (take 8191 received)))))
        (λ e. p)
        λ e. if_holds Good (not client.accepted) (λ e. p) λ e. converse-Parts client.turns h p

  handle_client-Parts :
      (token : Bytes) (client : Client) (h : Host F)
      → Parts std allowed h
      → Parts std allowed (handle_client std token client h).0
  unfolding handle_client
  handle_client-Parts token client h p = received_by client.received
    where
      received_by :
          (received : Option Bytes)
          → Parts std allowed (handle_received std token received client h).0
      received_by none = p
      received_by (some received) = handle_request-Parts token received client h p

  -- However many clients a server has served, whatever they sent and however the messages of the
  -- renderer, the overlays, the output and the recordings were mixed with the rounds of the server's
  -- loop: its renderer is in a state that requests to a renderer alone can lead to, and its output in
  -- one that requests, rounds and signals of an output alone can lead to, launched with the same flag.
  pub Reached-Parts :
      (token : Bytes) {h : Host F} → Reached std token allowed h → Parts std allowed h
  Reached-Parts token at_launch = record {
    renderer = Steps.at_launch;
    output = Reachable.at_launch;
  }
  Reached-Parts token (after client r) = handle_client-Parts token client _ (Reached-Parts token r)

-- What the headers of a connection say of its key and its token.
pub record IsAuthorized (token : Bytes) (client : Client) : Type 0 where
  pub packet : Bytes
  pub received : client.received ≡ some packet
  pub key :
      is_some (lookup (codes "sec-websocket-key") (parse_headers (c_string (take 8191 packet))))
      ≡ true
  pub bearer :
      lookup (codes "authorization") (parse_headers (c_string (take 8191 packet)))
      ≡ some (codes "Bearer " ++ token)

is_bearer-eq :
    (token : Bytes) (value : Option Bytes)
    → is_bearer token value ≡ true
    → value ≡ some (codes "Bearer " ++ token)
unfolding is_bearer
is_bearer-eq token none e = cc
is_bearer-eq token (some value) e = ap some ((equal_iff value (codes "Bearer " ++ token)).0 e)

authorized-IsAuthorized :
    (token packet : Bytes) (client : Client)
    → client.received ≡ some packet
    → authorized token (parse_headers (c_string (take 8191 packet))) ≡ true
    → IsAuthorized token client
unfolding authorized
authorized-IsAuthorized token packet client r e =
    let headers = parse_headers (c_string (take 8191 packet)) in
    record {
      packet = packet;
      received = r;
      key = ground arith;
      bearer = is_bearer-eq token (lookup (codes "authorization") headers) (ground arith);
    }

module _ {F : Type 0} (std : Std F) where
  handle_request-IsAuthorized :
      (token packet : Bytes) (client : Client) (h : Host F)
      → client.received ≡ some packet
      → handle_request std token packet client h ≢ (h, [])
      → IsAuthorized token client
  unfolding handle_request
  handle_request-IsAuthorized token packet client h r n =
      elim (Bool-cases (authorized token (parse_headers (c_string (take 8191 packet))))) [
        | inl e ↦ authorized-IsAuthorized token packet client r e
        | inr e ↦ absurd (n (rw e refl))
      ]

  -- A connection that gets any answer but the refusal, or that changes anything, has sent a key and
  -- the header `authorization` with exactly the token of the launch in its first packet.
  pub handle_client-IsAuthorized :
      (token : Bytes) (client : Client) (h : Host F)
      → handle_client std token client h ≢ (h, [])
      → IsAuthorized token client
  unfolding handle_client handle_received
  handle_client-IsAuthorized token client h n = elim (Option-cases client.received) [
    | inl e ↦ absurd (n (rw e refl))
    | inr (packet, e) ↦ handle_request-IsAuthorized token packet client h e (λ same. n (rw e same))
  ]
