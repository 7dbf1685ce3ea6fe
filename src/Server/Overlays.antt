-- ===== src/Server/Overlays.antt =====
-- `NativeOverlayManager` and `extract_json_object` (src/studio_host.cpp).
use streammate_studio_host.Prelude.{
  Bool, not, Option, none, some, [], ◌∷◌, ◌++◌, if◌then◌else◌, Bytes, codes, is_empty, is_some,
}
use streammate_studio_host.Prelude.Maybe.{◌>>=◌}
use streammate_studio_host.Prelude.Ordered.{Map, insert, lookup, erase}
use streammate_studio_host.Scanner.Number.{ws}
use streammate_studio_host.Rpc.Fields.{extract_json_string, at_colon}
use streammate_studio_host.Rpc.Tokens.{tail, body_at}
use streammate_studio_host.Rpc.Reply.{Reply, answered, invalid}
use streammate_studio_host.Server.{OverlayEntry}

with_braces : Option Bytes → Bytes
with_braces none = []
with_braces (some body) = b'{' ∷ (body ++ b'}' ∷ [])

unfoldable pub extract_json_object : Bytes → Bytes → Bytes
unfolding at_colon body_at ws with_braces
extract_json_object json key = with_braces (do at ← at_colon json key; body_at (ws (tail at)))

abbrev source_id_of : Bytes → Bytes
source_id_of request = extract_json_string request (codes "sourceId")

abbrev missing : Reply
missing = invalid (codes "source not found")

unfoldable pub has : Bytes → Map OverlayEntry → Bool
unfolding lookup is_some
has id sources = is_some (lookup id sources)

unfoldable pub create : Bytes → Map OverlayEntry → Map OverlayEntry × Reply
unfolding has insert
create request sources =
    if is_empty (source_id_of request)
    then (sources, invalid (codes "sourceId is required"))
    else if has (source_id_of request) sources
    then (sources, invalid (codes "source already exists"))
    else (
      insert (source_id_of request)
          (record { scene_id = extract_json_string request (codes "sceneId"); actions = [] })
          sources,
      answered,
    )

refusal : Bytes → Reply
refusal error = invalid (if is_empty error then codes "unsupported overlay action" else error)

rastered : Option Bytes → Reply
unfolding refusal
rastered none = answered
rastered (some error) = refusal error

apply_found :
    Option Bytes → Bytes → Option OverlayEntry → Map OverlayEntry → Map OverlayEntry × Reply
unfolding insert extract_json_object rastered
apply_found error request none sources = (sources, missing)
apply_found error request (some entry) sources =
    let action = extract_json_object request (codes "overlayAction") in
    let kept =
      insert (source_id_of request) (record entry { actions = action ∷ entry.actions }) sources in
    if is_empty action
    then (sources, invalid (codes "overlayAction object is required"))
    else (kept, rastered error)

-- The rasterizer refuses an action with an error, or takes it.
unfoldable pub apply : Option Bytes → Bytes → Map OverlayEntry → Map OverlayEntry × Reply
unfolding apply_found lookup
apply error request sources =
    apply_found error request (lookup (source_id_of request) sources) sources

unfoldable pub remove_overlay : Bytes → Map OverlayEntry → Map OverlayEntry × Reply
unfolding has erase
remove_overlay request sources =
    if not (has (source_id_of request) sources)
    then (sources, missing)
    else (erase (source_id_of request) sources, answered)
