-- ===== src/Server/Session.antt =====
-- `handle_client` and the loop of `run` (src/studio_host.cpp).
use streammate_studio_host.Prelude.{
  Bool, true, false, not, ◌&&◌, Option, none, some, List, [], ◌∷◌, ◌++◌, ◌==◌, if◌then◌else◌, Bytes,
  codes, equal, is_some, take, map,
}
use streammate_studio_host.Prelude.Ordered.{Map, lookup}
use streammate_studio_host.Output.{OutputController, output_stop_signal, output_reconnect_signal}
use streammate_studio_host.Output.Tick.{tick}
use streammate_studio_host.Output.Tick
use streammate_studio_host.Renderer.{Std}
use streammate_studio_host.Server.{
  Answers, Frame, host_started, host_ready, heartbeat, output_event, Host,
}
use streammate_studio_host.Server.Headers.{parse_headers}
use streammate_studio_host.Server.Table.{handle_message}

-- What a round of the loop finds: no frame, a frame that ends the connection, or a text; what a
-- heartbeat that is due meets.
pub data Incoming : Type 0 where
  nothing closed : Incoming
  message : Bytes → Incoming

pub data Pulse : Type 0 where
  not_due sent lost : Pulse

-- The callbacks of libobs that come in between two rounds.
pub data Signal : Type 0 where
  stops : Bool → Signal
  reconnects : Signal

pub record Turn : Type 0 where
  pub signals : List Signal
  pub incoming : Incoming
  pub answers : Answers
  pub round : Tick.Round
  pub pulse : Pulse

-- A connection: the bytes of its first packet, whether the handshake can be sent, and its rounds.
pub record Client : Type 0 where
  pub received : Option Bytes
  pub accepted : Bool
  pub turns : List Turn

unfoldable pub signalled : List Signal → OutputController → OutputController
signalled [] s = s
signalled (stops success ∷ rest) s = signalled rest (output_stop_signal success s)
signalled (reconnects ∷ rest) s = signalled rest (output_reconnect_signal s)

-- `std::string(buffer)` ends at the first zero byte of at most 8191.
unfoldable pub c_string : Bytes → Bytes
c_string [] = []
c_string (c ∷ t) = let behind = c_string t in if c == 0 then [] else c ∷ behind

-- The value of the header `authorization` that the launch's token asks for.
unfoldable pub is_bearer : Bytes → Option Bytes → Bool
unfolding equal
is_bearer token none = false
is_bearer token (some value) = equal value (codes "Bearer " ++ token)

-- The three tests of the handshake.
unfoldable pub authorized : Bytes → Map Bytes → Bool
unfolding lookup is_some is_bearer
authorized token headers =
    is_some (lookup (codes "sec-websocket-key") headers)
    && is_bearer token (lookup (codes "authorization") headers)

module _ {F : Type 0} where
  -- The heartbeat at the end of a round. The flag is whether the loop goes on.
  unfoldable pub at_pulse : Pulse → Host F × List Frame → (Host F × List Frame) × Bool
  at_pulse not_due out = (out, true)
  at_pulse sent out = ((out.0, out.1 ++ heartbeat ∷ []), true)
  at_pulse lost out = (out, false)

  -- `tick` behind what a round has read, and the heartbeat.
  unfoldable pub finish_turn : Turn → Host F × List Frame → (Host F × List Frame) × Bool
  unfolding at_pulse
  finish_turn t (h, frames) =
      let out = tick t.round h.output in
      at_pulse t.pulse (record h { output = out.0 }, frames ++ map output_event out.1)

module _ {F : Type 0} (std : Std F) where
  unfoldable pub turn_with : Incoming → Turn → Host F → (Host F × List Frame) × Bool
  unfolding finish_turn
  turn_with nothing t h = finish_turn t (h, [])
  turn_with closed t h = ((h, []), false)
  turn_with (message text) t h = finish_turn t (handle_message std t.answers text h)

  unfoldable pub converse : List Turn → Host F → Host F × List Frame
  unfolding turn_with signalled
  converse [] h = (h, [])
  converse (t ∷ turns) h =
      let out = turn_with t.incoming t (record h { output = signalled t.signals h.output }) in
      let rest = converse turns out.0.0 in
      if h.stopped then (h, []) else if out.1 then (rest.0, out.0.1 ++ rest.1) else out.0

  unfoldable pub handle_request : Bytes → Bytes → Client → Host F → Host F × List Frame
  unfolding converse authorized parse_headers c_string
  handle_request token received client h =
      if not (authorized token (parse_headers (c_string (take 8191 received))))
      then (h, [])
      else if not client.accepted
      then (h, [])
      else let out = converse client.turns h in (out.0, host_started ∷ host_ready ∷ out.1)

  unfoldable pub handle_received : Bytes → Option Bytes → Client → Host F → Host F × List Frame
  unfolding handle_request
  handle_received token none client h = (h, [])
  handle_received token (some received) client h = handle_request token received client h

  unfoldable pub handle_client : Bytes → Client → Host F → Host F × List Frame
  unfolding handle_received
  handle_client token client h = handle_received token client.received client h
