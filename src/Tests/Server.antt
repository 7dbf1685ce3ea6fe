-- ===== src/Tests/Server.antt =====
-- A client with the launch's token that loads a scene.
use streammate_studio_host.Prelude.{
  ◌≡◌, refl, ap, ◌≢◌, Bool, ◌&&◌, true, none, some, [], ◌∷◌, Bytes, codes, List,
}
use streammate_studio_host.Prelude.Int.{ℤ}
use streammate_studio_host.Prelude.Ordered.{less}
use streammate_studio_host.Rpc.Reply.{answered}
use streammate_studio_host.Server.{Answers, Host, host_started, host_ready, launched_host}
use streammate_studio_host.Server.Table.{command_table, is_safe_method_name, CommandHandler}
use streammate_studio_host.Server.Session.{Client, message, sent, stops, handle_client}
use streammate_studio_host.Server.Composed.{Parts}
use streammate_studio_host.Server.Served.{
  after, at_launch, Reached-Parts, IsAuthorized, handle_client-IsAuthorized,
}
use streammate_studio_host.Tests.Output.{working, cut_off}
use streammate_studio_host.Tests.Recording.{linkless}
use streammate_studio_host.Tests.Renderer.{whole, willing}

abbrev calm : Answers
calm = record {
  libobs = willing;
  outside = working;
  disk = linkless;
  now = 40;
  overlay_error = none;
  unmodelled = answered;
}

abbrev packet : Bytes
packet = codes "G\nSec-WebSocket-Key: k\nAuthorization: Bearer t\n"

abbrev loading : Client
loading = record {
  received = some packet;
  accepted = true;
  turns =
      record {
        signals = stops true ∷ [];
        incoming = message (codes "{\"id\":1,\"method\":\"scene.load\",\"sceneId\":\"s\"}");
        answers = calm;
        round = cut_off;
        pulse = sent;
      }
      ∷ [];
}

abbrev host : Host ℤ
host = launched_host true

Reached-Parts_example : Parts whole true (handle_client whole (codes "t") loading host).0
Reached-Parts_example = Reached-Parts whole true (codes "t") (after loading at_launch)

abbrev silent : Client
silent = record { received = some packet; accepted = true; turns = [] }

silent_frames : (handle_client whole (codes "t") silent host).1 ≡ host_started ∷ host_ready ∷ []
unfolding handle_client less
silent_frames = refl

silent_served : handle_client whole (codes "t") silent host ≢ (host, [])
silent_served e = cc (silent_frames, ap (λ out. out.1) e)

handle_client-IsAuthorized_example : IsAuthorized (codes "t") silent
handle_client-IsAuthorized_example =
    handle_client-IsAuthorized whole (codes "t") silent host silent_served

-- No name of the table makes the constructor throw.
abbrev safe_names : List (Bytes × CommandHandler ℤ) → Bool
safe_names [] = true
safe_names ((name, handler) ∷ entries) = is_safe_method_name name && safe_names entries

names_are_safe : safe_names (command_table whole) ≡ true
unfolding is_safe_method_name
names_are_safe = refl
