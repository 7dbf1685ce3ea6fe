-- ===== src/Server/Composed.antt =====
-- The components of a server behave as they do on their own, and every message has one reply.
use streammate_studio_host.Prelude.{
  ◌≡◌, refl, Bool, true, false, Option, none, some, List, [], ◌∷◌, Bytes, codes, equal, All,
  if_holds,
}
use streammate_studio_host.Rpc.Reply.{Reply, refused, answered}
use streammate_studio_host.Rpc.Fields.{extract_json_string}
use streammate_studio_host.Recording.{
  Controller, Outcome, Event, start_record, stop_record, start_replay, save_replay, stop_replay,
}
use streammate_studio_host.Output.Reachable
use streammate_studio_host.Renderer.{Std}
use streammate_studio_host.Renderer.Steps
use streammate_studio_host.Renderer.Steps.{
  Operation, updates_source, creates_source, removes_source,
}
use streammate_studio_host.Renderer.Requests.{source_id_of}
use streammate_studio_host.Server.{
  Answers, Frame, reply, record_event, Host, send_record_result, journaled,
}
use streammate_studio_host.Server.Overlays.{has}
use streammate_studio_host.Server.Table.{
  CommandHandler, reads, reports_status, answers_ok, shuts_down, configures_output, starts_output,
  stops_output, subscribes, starts_recording, stops_recording, starts_buffer, saves_buffer,
  stops_buffer, renders, removes, updates, creates, command_table, dispatch, handle_message,
  recorded,
}

-- One reply, and behind it at most the event of a recording or a replay.
unfoldable pub one_reply : List Frame → Bool
one_reply (reply r ∷ []) = true
one_reply (reply answered ∷ record_event event ∷ []) = true
one_reply _ = false

-- What holds of an entry, in front of what holds of those behind it.
infixr 5 ◌and_then◌
abbrev ◌and_then◌ : {A B : Type 0} → A → B → A × B
a and_then b = (a, b)

module _ {F : Type 0} (std : Std F) (allowed : Bool) where
  -- The renderer and the output are in states that their own requests, rounds and signals lead to.
  pub record Parts (h : Host F) : Type 0 where
    pub renderer : Steps.Reachable std h.renderer
    pub output : Reachable.Reachable allowed h.output

  abbrev pub Served : Host F → Host F × List Frame → Type 0
  Served h out = (Parts h → Parts out.0) × (one_reply out.1 ≡ true)

  abbrev Serves : CommandHandler F → Type 0
  Serves handler = (a : Answers) (request : Bytes) (h : Host F) → Served h (handler a request h)

  renders-Serves : (op : Answers → Bytes → Operation) → Serves (renders std op)
  unfolding renders one_reply
  renders-Serves op a request h =
      (λ p. record { renderer = Steps.after (op a request) p.renderer; output = p.output }, refl)

  reads-Serves : Serves reads
  unfolding reads one_reply
  reads-Serves a request h = (λ p. p, refl)

  answers_ok-Serves : Serves answers_ok
  unfolding answers_ok one_reply
  answers_ok-Serves a request h = (λ p. p, refl)

  shuts_down-Serves : Serves shuts_down
  unfolding shuts_down one_reply
  shuts_down-Serves a request h = (λ p. record { renderer = p.renderer; output = p.output }, refl)

  removes-Serves : Serves (removes std)
  unfolding removes one_reply
  removes-Serves a request h =
      if_holds (Served h) (has (source_id_of request) h.overlays)
        (λ e. (λ p. record { renderer = p.renderer; output = p.output }, refl))
        λ e. renders-Serves (λ a request. removes_source a.libobs request) a request h

  updates-Serves : Serves (updates std)
  unfolding updates one_reply
  updates-Serves a request h =
      if_holds (Served h) (has (source_id_of request) h.overlays)
        (λ e. (λ p. record { renderer = p.renderer; output = p.output }, refl))
        λ e. renders-Serves (λ a request. updates_source a.libobs request) a request h

  creates-Serves : Serves (creates std)
  unfolding creates one_reply
  creates-Serves a request h =
      if_holds (Served h)
        (equal (extract_json_string request (codes "kind")) (codes "native-overlay"))
        (λ e. (λ p. record { renderer = p.renderer; output = p.output }, refl))
        λ e. renders-Serves (λ a request. creates_source a.libobs request) a request h

  configures_output-Serves : Serves configures_output
  unfolding configures_output one_reply
  configures_output-Serves a request h = (
    λ p. record {
      renderer = p.renderer;
      output = Reachable.after p.output (Reachable.configures request);
    },
    refl,
  )

  starts_output-Serves : Serves starts_output
  unfolding starts_output one_reply
  starts_output-Serves a request h = (
    λ p. record {
      renderer = p.renderer;
      output = Reachable.after p.output (Reachable.starts request a.outside);
    },
    refl,
  )

  stops_output-Serves : Serves stops_output
  unfolding stops_output one_reply
  stops_output-Serves a request h = (
    λ p. record {
      renderer = p.renderer;
      output = Reachable.after p.output (Reachable.stops request);
    },
    refl,
  )

  subscribes-Serves : Serves subscribes
  unfolding subscribes one_reply
  subscribes-Serves a request h = (
    λ p. record {
      renderer = p.renderer;
      output = Reachable.after p.output (Reachable.subscribes request a.now);
    },
    refl,
  )

  send_record_result-Served :
      (h : Host F) (c : Controller) (r : Reply) → Served h (send_record_result h c r)
  unfolding send_record_result journaled one_reply
  send_record_result-Served h c (refused code why) =
      (λ p. record { renderer = p.renderer; output = p.output }, refl)
  send_record_result-Served h c answered = told c.pending_event
    where
      told :
          (event : Option Event) → Served h (journaled h (record c { pending_event = none }, event))
      told none = (λ p. record { renderer = p.renderer; output = p.output }, refl)
      told (some event) = (λ p. record { renderer = p.renderer; output = p.output }, refl)

  recorded-Served : (h : Host F) (out : Outcome) → Served h (recorded h out)
  recorded-Served h out = send_record_result-Served h out.controller out.reply

  starts_recording-Serves : Serves starts_recording
  unfolding starts_recording
  starts_recording-Serves a request h = recorded-Served h (start_record a.disk request h.records)

  stops_recording-Serves : Serves stops_recording
  unfolding stops_recording
  stops_recording-Serves a request h = recorded-Served h (stop_record a.disk request h.records)

  starts_buffer-Serves : Serves starts_buffer
  unfolding starts_buffer
  starts_buffer-Serves a request h = recorded-Served h (start_replay a.disk request h.records)

  saves_buffer-Serves : Serves saves_buffer
  unfolding saves_buffer
  saves_buffer-Serves a request h = recorded-Served h (save_replay a.disk request h.records)

  stops_buffer-Serves : Serves stops_buffer
  unfolding stops_buffer
  stops_buffer-Serves a request h = recorded-Served h (stop_replay request h.records)

  reports_status-Serves : Serves reports_status
  unfolding reports_status
  reports_status-Serves a request h = send_record_result-Served h h.records answered

  command_table-Serves : All (λ (e : Bytes × CommandHandler F). Serves e.1) (command_table std)
  command_table-Serves =
      answers_ok-Serves
      and_then answers_ok-Serves
      and_then reads-Serves
      and_then renders-Serves _
      and_then renders-Serves _
      and_then reads-Serves
      and_then renders-Serves _
      and_then renders-Serves _
      and_then renders-Serves _
      and_then removes-Serves
      and_then creates-Serves
      and_then updates-Serves
      and_then renders-Serves _
      and_then reads-Serves
      and_then renders-Serves _
      and_then renders-Serves _
      and_then renders-Serves _
      and_then renders-Serves _
      and_then renders-Serves _
      and_then reads-Serves
      and_then reads-Serves
      and_then reads-Serves
      and_then reads-Serves
      and_then reads-Serves
      and_then reads-Serves
      and_then reads-Serves
      and_then reads-Serves
      and_then reads-Serves
      and_then configures_output-Serves
      and_then starts_output-Serves
      and_then stops_output-Serves
      and_then reads-Serves
      and_then subscribes-Serves
      and_then starts_recording-Serves
      and_then stops_recording-Serves
      and_then reports_status-Serves
      and_then starts_buffer-Serves
      and_then saves_buffer-Serves
      and_then stops_buffer-Serves
      and_then reports_status-Serves
      and_then shuts_down-Serves
      and_then tt

  dispatch-Served :
      (entries : List (Bytes × CommandHandler F)) (method : Bytes) (a : Answers) (request : Bytes)
      (h : Host F)
      → All (λ e. Serves e.1) entries
      → Served h (dispatch std entries method a request h)
  unfolding dispatch one_reply
  dispatch-Served [] method a request h s = (λ p. p, refl)
  dispatch-Served ((name, handler) ∷ entries) method a request h (s, ss) =
      if_holds (Served h) (equal method name) (λ e. s a request h)
        λ e. dispatch-Served entries method a request h ss

  pub handle_message-Served :
      (a : Answers) (request : Bytes) (h : Host F) → Served h (handle_message std a request h)
  unfolding handle_message
  handle_message-Served a request h =
      dispatch-Served (command_table std) (extract_json_string request (codes "method")) a request h
        command_table-Serves
