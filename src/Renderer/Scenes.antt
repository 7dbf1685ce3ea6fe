-- ===== src/Renderer/Scenes.antt =====
-- `load_scene`, `set_program` and `parse_color` (src/studio_host.cpp).
use streammate_studio_host.Prelude.{
  ℕ, ◌+◌, ◌-◌, ◌*◌, not, ◌&&◌, ◌||◌, Option, none, some, [], ◌∷◌, ◌==◌, leb, ltb, if◌then◌else◌,
  Bytes, codes, is_empty, is_some,
}
use streammate_studio_host.Prelude.Int.{ℤ, pos}
use streammate_studio_host.Prelude.Ordered.{insert}
use streammate_studio_host.Rpc.Reply.{Reply, answered, invalid}
use streammate_studio_host.Rpc.Fields.{extract_json_string, extract_json_int}
use streammate_studio_host.Renderer.{Libobs, Rgba, SceneModel, RendererState, found}
use streammate_studio_host.Renderer.Mirror.{mirror_scene_load}
use streammate_studio_host.Renderer.Create.{value_or}

-- `hex_digit`, with `none` for -1.
unfoldable pub hex_digit : ℕ → Option ℕ
hex_digit c =
    if leb b'0' c && leb c b'9'
    then some (c - b'0')
    else if leb b'a' c && leb c b'f'
    then some (10 + c - b'a')
    else if leb b'A' c && leb c b'F'
    then some (10 + c - b'A')
    else none

unfoldable pub hex_byte : Option ℕ → Option ℕ → ℕ → ℕ
hex_byte (some hi) (some lo) fallback = hi * 16 + lo
hex_byte _ _ fallback = fallback

unfoldable pub parse_hex_byte : ℕ → ℕ → ℕ → ℕ
unfolding hex_digit hex_byte
parse_hex_byte high low fallback = hex_byte (hex_digit high) (hex_digit low) fallback

abbrev pub default_background : Rgba
default_background = record { r = 32; g = 48; b = 64; a = 255 }

unfoldable pub parse_color : Bytes → Rgba
unfolding parse_hex_byte
parse_color (c ∷ r1 ∷ r0 ∷ g1 ∷ g0 ∷ b1 ∷ b0 ∷ []) =
    if c == b'#'
    then record {
      r = parse_hex_byte r1 r0 32;
      g = parse_hex_byte g1 g0 48;
      b = parse_hex_byte b1 b0 64;
      a = 255;
    }
    else default_background
parse_color _ = default_background

-- The limits of an offscreen capture.
unfoldable pub dimensions : ℤ → ℤ → Option (ℕ × ℕ)
dimensions (pos w) (pos h) =
    if w == 0 || h == 0 || ltb 128 w || ltb 72 h || ltb 10000 (w * h) then none else some (w, h)
dimensions _ _ = none

abbrev pub background_of : Bytes → Rgba
background_of value = if is_empty value then default_background else parse_color value

module _ {F : Type 0} where
  -- A scene that is loaded, under its id.
  abbrev pub with_scene : Libobs → SceneModel → RendererState F → RendererState F
  with_scene o scene s = record s {
    scenes = insert scene.id scene s.scenes;
    program_scene_id = if is_empty s.program_scene_id then scene.id else s.program_scene_id;
    mirrors = mirror_scene_load o scene.id s.sources s.mirrors;
  }

  unfoldable pub load_sized :
      Libobs → Bytes → Option (ℕ × ℕ) → RendererState F → RendererState F × Reply
  load_sized o request none s =
      (s, invalid (codes "scene dimensions exceed local offscreen capture limits"))
  load_sized o request (some (width, height)) s = (
    with_scene o
        (record {
          id = extract_json_string request (codes "sceneId");
          width = width;
          height = height;
          background = background_of (extract_json_string request (codes "background"));
        })
        s,
    answered,
  )

  unfoldable pub load_scene : Libobs → Bytes → RendererState F → RendererState F × Reply
  unfolding load_sized dimensions
  load_scene o request s =
      if is_empty (extract_json_string request (codes "sceneId"))
      then (s, invalid (codes "sceneId is required"))
      else load_sized o request
          (dimensions (value_or (extract_json_int request (codes "width")) (pos 128))
            (value_or (extract_json_int request (codes "height")) (pos 72)))
          s

  unfoldable pub set_program : Bytes → RendererState F → RendererState F × Reply
  unfolding found is_some
  set_program request s =
      if not (is_some (found (extract_json_string request (codes "sceneId")) s.scenes))
      then (s, invalid (codes "scene not loaded"))
      else (record s { program_scene_id = extract_json_string request (codes "sceneId") }, answered)
