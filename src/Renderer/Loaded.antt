-- ===== src/Renderer/Loaded.antt =====
-- `load_scene`, `set_program` and `remove_source` keep the invariant.
use streammate_studio_host.Prelude.{
  ◌≡◌, refl, sym, subst, true, not, ◌||◌, Option, none, some, List, [], ◌∷◌, ℕ, ltb, ◌==◌, ◌*◌, ◌≤◌,
  Bytes, codes, equal, equal_iff, is_empty, is_some, All, if_holds, if◌then◌else◌, arith,
}
use streammate_studio_host.Prelude.Int.{ℤ, pos, negsuc}
use streammate_studio_host.Prelude.Ordered.{Map, insert, lookup, erase}
use streammate_studio_host.Prelude.Ordered.Laws.{lookup-insert, lookup-erase}
use streammate_studio_host.Prelude.Ordered.Order.{erase-Ascending, All-erase}
use streammate_studio_host.Prelude.Ordered.Restore.{insert-All, lookup-insert_some, keys-erase_both}
use streammate_studio_host.Rpc.Fields.{extract_json_string, extract_json_int}
use streammate_studio_host.Renderer.{
  Std, Libobs, SceneModel, SourceModel, Mirrors, RendererState, found,
}
use streammate_studio_host.Renderer.Mirror.{
  without, mirror_scene_load, released_scene, release_obs_source, purge_obs_scene_items,
}
use streammate_studio_host.Renderer.Create.{value_or}
use streammate_studio_host.Renderer.Scenes.{
  dimensions, with_scene, load_sized, load_scene, set_program,
}
use streammate_studio_host.Renderer.Requests.{remove_source, source_id_of}
use streammate_studio_host.Renderer.Sound.{
  IsCapturable, SceneKept, SourceKept, IsProgram, IsMirrored, IsSound, Good, same,
  SourceKept-insert,
}

abbrev FitsCapture : Option (ℕ × ℕ) → Type 0
FitsCapture none = Unit
FitsCapture (some (w, h)) = (1 ≤ w) × (w ≤ 128) × (1 ≤ h) × (h ≤ 72)

dimensions-FitsCapture : (w h : ℤ) → FitsCapture (dimensions w h)
unfolding dimensions
dimensions-FitsCapture (pos w) (pos h) =
    if_holds FitsCapture (w == 0 || h == 0 || ltb 128 w || ltb 72 h || ltb 10000 (w * h)) (λ e. tt)
      λ e. (ground arith, ground arith, ground arith, ground arith)
dimensions-FitsCapture (pos w) (negsuc h) = tt
dimensions-FitsCapture (negsuc w) h = tt

pub lookup-insert_own :
    {V : Type 0} (k : Bytes) (v : V) (m : Map V) → is_some (lookup k (insert k v m)) ≡ true
unfolding is_some
lookup-insert_own k v m = ground (arith, lookup-insert k k v m, equal_iff k k)

-- Loading a scene leaves the mirrors of the sources.
obs_sources-mirror_scene_load :
    {F : Type 0} (o : Libobs) (id : Bytes) (sources : Map (SourceModel F)) (m : Mirrors)
    → (mirror_scene_load o id sources m).obs_sources ≡ m.obs_sources
unfolding mirror_scene_load released_scene purge_obs_scene_items
obs_sources-mirror_scene_load o id sources m = ground arith

module _ {F : Type 0} (std : Std F) where
  IsProgram-insert :
      (own id : Bytes) (scene : SceneModel) (scenes : Map SceneModel)
      → IsProgram std own scenes
      → IsProgram std (if is_empty own then id else own) (insert id scene scenes)
  IsProgram-insert [] id scene scenes h = ground (arith, lookup-insert_own id scene scenes)
  IsProgram-insert (c ∷ own) id scene scenes h =
      ground (arith, lookup-insert_some id (c ∷ own) scene scenes)

  with_scene-IsSound :
      (o : Libobs) (scene : SceneModel) (s : RendererState F)
      → IsCapturable scene
      → IsSound std s
      → IsSound std (with_scene o scene s)
  with_scene-IsSound o scene s c h = record {
    scenes = insert-All SceneKept scene.id scene s.scenes (refl, c) h.scenes;
    sources = SourceKept-insert std scene.id scene s.scenes s.sources h.sources;
    program = IsProgram-insert s.program_scene_id scene.id scene s.scenes h.program;
    paired = h.paired;
    order = h.order;
    mirrored =
        subst (All (IsMirrored std s.sources))
          (sym (obs_sources-mirror_scene_load o scene.id s.sources s.mirrors)) h.mirrored;
  }

  load_sized-Good :
      (o : Libobs) (request : Bytes) (size : Option (ℕ × ℕ)) (s : RendererState F)
      → FitsCapture size
      → IsSound std s
      → Good std s (load_sized o request size s)
  unfolding load_sized
  load_sized-Good o request none s c h = (h, same std s)
  load_sized-Good o request (some (width, height)) s c h = (with_scene-IsSound o _ s c h, tt)

  pub load_scene-Good :
      (o : Libobs) (request : Bytes) (s : RendererState F)
      → IsSound std s
      → Good std s (load_scene o request s)
  unfolding load_scene
  load_scene-Good o request s h =
      if_holds (Good std s) (is_empty (extract_json_string request (codes "sceneId")))
        (λ e. (h, same std s))
        λ e.
          let width = value_or (extract_json_int request (codes "width")) (pos 128) in
          let height = value_or (extract_json_int request (codes "height")) (pos 72) in
          load_sized-Good o request _ s (dimensions-FitsCapture width height) h

  pub set_program-Good :
      (request : Bytes) (s : RendererState F) → IsSound std s → Good std s (set_program request s)
  unfolding set_program found
  set_program-Good request s h =
      let id = extract_json_string request (codes "sceneId") in
      if_holds (Good std s) (not (is_some (found id s.scenes))) (λ e. (h, same std s))
        λ e. (
          record {
            scenes = h.scenes;
            sources = h.sources;
            program = ground arith;
            paired = h.paired;
            order = h.order;
            mirrored = h.mirrored;
          },
          tt,
        )

  IsMirrored-erase :
      (id : Bytes) (sources : Map (SourceModel F)) (live : List Bytes)
      → All (IsMirrored std sources) live
      → All (IsMirrored std (erase id sources)) (without (equal id) live)
  unfolding without
  IsMirrored-erase id sources [] h = tt
  IsMirrored-erase id sources (j ∷ live) (hj, h) =
      if_holds (All (IsMirrored std (erase id sources))) (equal id j)
        (λ e. IsMirrored-erase id sources live h)
        λ e. (rw (lookup-erase id j sources, e) hj, IsMirrored-erase id sources live h)

  pub remove_source-Good :
      (request : Bytes) (s : RendererState F) → IsSound std s → Good std s (remove_source request s)
  unfolding remove_source release_obs_source
  remove_source-Good request s h =
      let id = source_id_of request in
      if_holds (Good std s) (not (is_some (found id s.sources))) (λ e. (h, same std s))
        λ e. (
          record {
            scenes = h.scenes;
            sources = All-erase (SourceKept std s.scenes) id s.sources h.sources;
            program = h.program;
            paired = keys-erase_both id s.filters s.sources h.paired;
            order = erase-Ascending id s.sources h.order;
            mirrored = IsMirrored-erase id s.sources s.mirrors.obs_sources h.mirrored;
          },
          tt,
        )
