-- ===== src/Renderer/Created.antt =====
-- `create_source` keeps the invariant, and a refusal restores what the new source had replaced.
use streammate_studio_host.Prelude.{
  ◌≡◌, refl, sym, ap, ◌∙◌, subst, Option, none, some, Bytes, codes, is_empty, is_some, All,
  if_holds, inl, inr, Option-cases,
}
use streammate_studio_host.Prelude.Result.{Result, ok, err}
use streammate_studio_host.Prelude.Ordered.{Map, insert, lookup}
use streammate_studio_host.Prelude.Ordered.Laws.{keys, Ascending}
use streammate_studio_host.Prelude.Ordered.Order.{insert-Ascending}
use streammate_studio_host.Prelude.Ordered.Restore.{
  insert-All, insert-insert, insert_same, erase-insert, keys-insert_both,
}
use streammate_studio_host.Rpc.Reply.{unavailable}
use streammate_studio_host.Rpc.Fields.{extract_json_string}
use streammate_studio_host.Renderer.{
  Std, Libobs, SceneModel, SourceModel, Mirrors, RendererState, found,
}
use streammate_studio_host.Renderer.Create.{
  PluginPart, restored, initial_filters, with_source, restore_replaced, mirror_create, settle,
  no_instance, place, new_source, create_checked, create_in, create_source, kind_checked,
}
use streammate_studio_host.Renderer.Sound.{
  Laws, SourceKept, IsMirrored, IsSound, Good, same, IsMirrored-insert, found-eq,
}
use streammate_studio_host.Renderer.Bounded.{clamp-IsOpacity}
use streammate_studio_host.Renderer.Loaded.{lookup-insert_own}
use streammate_studio_host.Renderer.Mirrored.{mirror_create-OnlyNew}

-- The entry that an insertion replaces comes back.
pub restored-insert :
    {V : Type 0} (k : Bytes) (v : V) (m : Map V)
    → Ascending (keys m)
    → restored k (lookup k m) (insert k v m) ≡ m
unfolding restored
restored-insert k v m a = elim (Option-cases (lookup k m)) [
  | inl e ↦ rw e (erase-insert k v m e)
  | inr (w, e) ↦ rw e (insert-insert k w v m ∙ insert_same k w m a e)
]

module _ {F : Type 0} (std : Std F) where
  with_source-IsSound :
      (source : SourceModel F) (s : RendererState F)
      → SourceKept std s.scenes (source.id, source)
      → IsSound std s
      → IsSound std (with_source source s)
  with_source-IsSound source s k h = record {
    scenes = h.scenes;
    sources = insert-All (SourceKept std s.scenes) source.id source s.sources k h.sources;
    program = h.program;
    paired =
        keys-insert_both source.id (initial_filters source) source s.filters s.sources h.paired;
    order = insert-Ascending source.id source s.sources h.order;
    mirrored = IsMirrored-insert std source.id source s.sources _ h.mirrored;
  }

  -- After a refusal by libobs.
  restore_replaced-Good :
      (source : SourceModel F) (s : RendererState F) (m : Mirrors)
      → All (IsMirrored std s.sources) m.obs_sources
      → IsSound std s
      → Good std s (
        restore_replaced source.id s (record (with_source source s) { mirrors = m }),
        unavailable (no_instance source),
      )
  restore_replaced-Good source s m live h =
      let id = source.id in
      let e = restored-insert id source s.sources h.order in
      let up = subst Ascending (sym h.paired) h.order in
      let f = restored-insert id (initial_filters source) s.filters up in
      (
        record {
          scenes = h.scenes;
          sources = subst (All (SourceKept std s.scenes)) (sym e) h.sources;
          program = h.program;
          paired = ap keys f ∙ h.paired ∙ sym (ap keys e);
          order = subst (λ m. Ascending (keys m)) (sym e) h.order;
          mirrored = subst (λ m'. All (IsMirrored std m') m.obs_sources) (sym e) live;
        },
        (refl, e, f, refl),
      )

  place-Good :
      (o : Libobs) (source : SourceModel F) (s : RendererState F)
      → SourceKept std s.scenes (source.id, source)
      → IsSound std s
      → Good std s (place o source s)
  unfolding place settle
  place-Good o source s k h =
      let out = mirror_create o source (with_source source s) in
      let new = with_source-IsSound source s k h in
      if_holds (Good std s) out.1
        (λ made. (
          record {
            scenes = new.scenes;
            sources = new.sources;
            program = new.program;
            paired = new.paired;
            order = new.order;
            mirrored =
                mirror_create-OnlyNew (IsMirrored std (with_source source s).sources) source o
                  (with_source source s) new.mirrored
                  (λ e. lookup-insert_own source.id source s.sources);
          },
          tt,
        ))
        λ failed.
          restore_replaced-Good source s out.0.mirrors
            (mirror_create-OnlyNew (IsMirrored std s.sources) source o (with_source source s)
              h.mirrored λ e. cc)
            h

  pub create_source-Good :
      Laws std
      → (o : Libobs) (request : Bytes) (s : RendererState F) → IsSound std s
      → Good std s (create_source std o request s)
  unfolding create_source create_in create_checked new_source is_some
  create_source-Good laws o request s h =
      in_scene (found scene_id s.scenes) λ scene e. found-eq scene_id scene s.scenes e
    where
      scene_id : Bytes
      scene_id = extract_json_string request (codes "sceneId")

      placed :
          (scene : SceneModel) (kind : Bytes) (plugin : Result (PluginPart F))
          → lookup scene_id s.scenes ≡ some scene
          → Good std s (
              create_checked std o request
                (extract_json_string request (codes "sourceId"))
                kind
                scene
                plugin
                s)
      placed scene kind (err why) e = (h, same std s)
      placed scene kind (ok plugin) e =
          place-Good o _ s
            (
              refl,
              rw e refl,
              clamp-IsOpacity std laws _,
              (laws.zero_finite, laws.zero_bottom, laws.zero_top),
            )
            h

      in_scene :
          (scene : Option SceneModel)
          → ((x : SceneModel) → scene ≡ some x → lookup scene_id s.scenes ≡ some x)
          → Good std s (create_in std o request scene s)
      in_scene none e = (h, same std s)
      in_scene (some scene) e =
          if_holds (Good std s) (is_empty (extract_json_string request (codes "sourceId")))
            (λ b. (h, same std s)) λ b. placed scene _ (kind_checked std o request _) (e scene refl)
