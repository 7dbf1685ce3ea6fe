-- ===== src/Renderer/Kept.antt =====
-- Edits of sources and filters keep the invariant.
use streammate_studio_host.Prelude.{
  ◌≡◌, refl, sym, ◌∙◌, subst, not, ◌||◌, Option, none, some, List, Bytes, equal, is_empty, is_some,
  if_holds,
}
use streammate_studio_host.Prelude.Ordered.{lookup}
use streammate_studio_host.Prelude.Ordered.Laws.{Ascending}
use streammate_studio_host.Prelude.Ordered.Order.{insert-Ascending}
use streammate_studio_host.Prelude.Ordered.Restore.{insert-All, keys-insert_same}
use streammate_studio_host.Rpc.Reply.{Reply}
use streammate_studio_host.Renderer.{Std, SourceModel, FilterModel, RendererState, found}
use streammate_studio_host.Renderer.Edits.{Edit, stays, becomes}
use streammate_studio_host.Renderer.Requests.{
  edited, at_found, at_source, at_found_item, at_item, in_list, filters_edited, at_filters,
  at_filter,
}
use streammate_studio_host.Renderer.Sound.{
  IsOpacity, IsVolume, SourceKept, IsSound, same, Good, Honest-same, IsMirrored-insert,
  lookup-Entry, found-eq,
}

module _ {F : Type 0} (std : Std F) where
  -- An edit leaves the source in its scene, under its id.
  abbrev pub EditKept : SourceModel F → Edit (SourceModel F) → Type 0
  EditKept source (stays why) = Unit
  EditKept source (becomes source') =
      (source'.id ≡ source.id)
      × (source'.scene_id ≡ source.scene_id)
      × IsOpacity std source'.opacity
      × IsVolume std source'.volume_db

  abbrev pub Bounded : SourceModel F → Type 0
  Bounded source = IsOpacity std source.opacity × IsVolume std source.volume_db

  abbrev pub Keeping : (SourceModel F → Edit (SourceModel F)) → Type 0
  Keeping edit = (source : SourceModel F) → Bounded source → EditKept source (edit source)

  pub unchanged-Good : (s : RendererState F) (reply : Reply) → IsSound std s → Good std s (s, reply)
  unchanged-Good s reply h = (h, Honest-same std s reply)

  edited-Good :
      (id : Bytes) (source : SourceModel F) (edit : Edit (SourceModel F)) (s : RendererState F)
      → lookup id s.sources ≡ some source
      → EditKept source edit
      → IsSound std s
      → Good std s (edited id edit s)
  unfolding edited
  edited-Good id source (stays why) s e k h = unchanged-Good s why h
  edited-Good id source (becomes source') s e (same_id, same_scene, o, v) h =
      let (own, placed, o', v') = lookup-Entry (SourceKept std s.scenes) id source _ h.sources e in
      (
        record {
          scenes = h.scenes;
          sources =
              insert-All (SourceKept std s.scenes) id source' s.sources
                (own ∙ sym same_id, rw same_scene placed, o, v) h.sources;
          program = h.program;
          paired = h.paired ∙ sym (keys-insert_same id source source' s.sources h.order e);
          order = insert-Ascending id source' s.sources h.order;
          mirrored = IsMirrored-insert std id source' s.sources _ h.mirrored;
        },
        tt,
      )

  edited_bounded-Good :
      (id : Bytes) (source : SourceModel F) (edit : SourceModel F → Edit (SourceModel F))
      (s : RendererState F)
      → lookup id s.sources ≡ some source
      → Keeping edit
      → IsSound std s
      → Good std s (edited id (edit source) s)
  edited_bounded-Good id source edit s e k h =
      let (own, placed, o, v) = lookup-Entry (SourceKept std s.scenes) id source _ h.sources e in
      edited-Good id source (edit source) s e (k source (o, v)) h

  at_found-Good :
      (id : Bytes) (edit : SourceModel F → Edit (SourceModel F)) (at : Option (SourceModel F))
      (s : RendererState F)
      → ((source : SourceModel F) → at ≡ some source → lookup id s.sources ≡ some source)
      → Keeping edit
      → IsSound std s
      → Good std s (at_found id edit at s)
  unfolding at_found
  at_found-Good id edit none s e k h = (h, same std s)
  at_found-Good id edit (some source) s e k h =
      edited_bounded-Good id source edit s (e source refl) k h

  pub at_source-Good :
      (id : Bytes) (edit : SourceModel F → Edit (SourceModel F)) (s : RendererState F)
      → Keeping edit
      → IsSound std s
      → Good std s (at_source id edit s)
  unfolding at_source
  at_source-Good id edit s k h =
      at_found-Good id edit (found id s.sources) s (λ source e. found-eq id source s.sources e) k h

  at_found_item-Good :
      (scene_id id : Bytes) (edit : SourceModel F → Edit (SourceModel F)) (absent : Bytes)
      (at : Option (SourceModel F)) (s : RendererState F)
      → ((source : SourceModel F) → at ≡ some source → lookup id s.sources ≡ some source)
      → Keeping edit
      → IsSound std s
      → Good std s (at_found_item scene_id id edit absent at s)
  unfolding at_found_item
  at_found_item-Good scene_id id edit absent none s e k h = (h, same std s)
  at_found_item-Good scene_id id edit absent (some source) s e k h =
      if_holds (Good std s) (not (equal source.scene_id scene_id)) (λ b. (h, same std s))
        λ b. edited_bounded-Good id source edit s (e source refl) k h

  pub at_item-Good :
      (scene_id id : Bytes) (edit : SourceModel F → Edit (SourceModel F)) (absent : Bytes)
      (s : RendererState F)
      → Keeping edit
      → IsSound std s
      → Good std s (at_item scene_id id edit absent s)
  unfolding at_item
  at_item-Good scene_id id edit absent s k h =
      if_holds (Good std s) (not (is_some (found scene_id s.scenes))) (λ b. (h, same std s))
        λ b.
          at_found_item-Good scene_id id edit absent (found id s.sources) s
            (λ source e. found-eq id source s.sources e) k h

  filters_edited-Good :
      (id : Bytes) (fs : List (FilterModel F)) (edit : Edit (List (FilterModel F)))
      (s : RendererState F)
      → lookup id s.filters ≡ some fs
      → IsSound std s
      → Good std s (filters_edited id edit s)
  unfolding filters_edited
  filters_edited-Good id fs (stays why) s e h = unchanged-Good s why h
  filters_edited-Good id fs (becomes fs') s e h = (
    record {
      scenes = h.scenes;
      sources = h.sources;
      program = h.program;
      paired =
          keys-insert_same id fs fs' s.filters (subst Ascending (sym h.paired) h.order) e
          ∙ h.paired;
      order = h.order;
      mirrored = h.mirrored;
    },
    tt,
  )

  at_filters-Good :
      (id filter_id : Bytes) (edit : FilterModel F → Edit (FilterModel F))
      (at : Option (List (FilterModel F))) (s : RendererState F)
      → lookup id s.filters ≡ at
      → IsSound std s
      → Good std s (at_filters id filter_id edit at s)
  unfolding at_filters
  at_filters-Good id filter_id edit none s e h = (h, same std s)
  at_filters-Good id filter_id edit (some fs) s e h =
      filters_edited-Good id fs (in_list filter_id edit fs) s e h

  pub at_filter-Good :
      (id filter_id : Bytes) (edit : FilterModel F → Edit (FilterModel F)) (s : RendererState F)
      → IsSound std s
      → Good std s (at_filter id filter_id edit s)
  unfolding at_filter
  at_filter-Good id filter_id edit s h =
      if_holds (Good std s) (not (is_some (found id s.sources)) || is_empty filter_id)
        (λ b. (h, same std s)) λ b. at_filters-Good id filter_id edit (lookup id s.filters) s refl h
