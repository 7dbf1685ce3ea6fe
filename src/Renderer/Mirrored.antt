-- ===== src/Renderer/Mirrored.antt =====
-- Which sources are mirrored after a creation, or an attempt at one.
use streammate_studio_host.Prelude.{
  ◌≡◌, refl, Bool, true, false, not, ◌&&◌, List, [], ◌∷◌, Bytes, equal, equal_iff, is_empty, All,
  if_holds, arith,
}
use streammate_studio_host.Prelude.Ordered.{add, member}
use streammate_studio_host.Prelude.Ordered.Order.{All-add}
use streammate_studio_host.Renderer.{Libobs, SourceModel, Mirrors, RendererState}
use streammate_studio_host.Renderer.Mirror.{
  without, release_obs_source, mirror_source_create, mirror_plugin_source_create,
  with_plugin_source, unfilterable,
}
use streammate_studio_host.Renderer.Create.{mirror_create}

without-All :
    (P : Bytes → Type 0) (test : Bytes → Bool) (s : List Bytes) → All P s → All P (without test s)
unfolding without
without-All P test [] h = tt
without-All P test (k ∷ s) (hk, h) =
    if_holds (All P) (test k) (λ e. without-All P test s h) λ e. (hk, without-All P test s h)

-- A key that is erased need not have the property.
without_other-All :
    (P : Bytes → Type 0) (k : Bytes) (s : List Bytes)
    → All (λ j. equal k j ≡ false → P j) s
    → All P (without (equal k) s)
unfolding without
without_other-All P k [] h = tt
without_other-All P k (j ∷ s) (hj, h) =
    if_holds (All P) (equal k j) (λ e. without_other-All P k s h)
      λ e. (hj e, without_other-All P k s h)

with_other :
    (P : Bytes → Type 0) (k : Bytes) (s : List Bytes)
    → All P s
    → All (λ j. equal k j ≡ false → P j) s
with_other P k [] h = tt
with_other P k (j ∷ s) (hj, h) = (λ e. hj, with_other P k s h)

added_erased-All :
    (P : Bytes → Type 0) (k : Bytes) (s : List Bytes)
    → All P s
    → All P (without (equal k) (add k s))
added_erased-All P k s h =
    without_other-All P k (add k s)
      (All-add (λ j. equal k j ≡ false → P j) k s (λ e. absurd (own e)) (with_other P k s h))
  where
    own : ¬ (equal k k ≡ false)
    own e = ground (arith, equal_iff k k)

module _ {F : Type 0} (P : Bytes → Type 0) (model : SourceModel F) where
  -- The mirrors have no new source but the one that is created.
  abbrev OnlyNew : Mirrors × Bool → Type 0
  OnlyNew out = (out.1 ≡ true → P model.id) → All P out.0.obs_sources

  mirror_source_create-OnlyNew :
      (o : Libobs) (m : Mirrors) → All P m.obs_sources → OnlyNew (mirror_source_create o model m)
  unfolding mirror_source_create release_obs_source
  mirror_source_create-OnlyNew o m h =
      if_holds OnlyNew (not (member model.scene_id m.obs_scenes)) (λ e _. h)
        λ e.
          if_holds OnlyNew (not o.browser_registered) (λ e _. h)
            λ e.
              if_holds OnlyNew (not o.data_created) (λ e _. h)
                λ e.
                  if_holds OnlyNew (not o.source_created) (λ e _. h)
                    λ e.
                      if_holds OnlyNew (not (o.item_added model.id))
                        (λ e _. without-All P (equal model.id) m.obs_sources h)
                        λ e new.
                          All-add P model.id _ (new refl) (without-All P (equal model.id) _ h)

  mirror_plugin_source_create-OnlyNew :
      (o : Libobs) (m : Mirrors)
      → All P m.obs_sources
      → OnlyNew (mirror_plugin_source_create o model m)
  unfolding mirror_plugin_source_create release_obs_source with_plugin_source unfilterable
  mirror_plugin_source_create-OnlyNew o m h =
      let released = without-All P (equal model.id) m.obs_sources h in
      if_holds OnlyNew (not (member model.scene_id m.obs_scenes)) (λ e _. h)
        λ e.
          if_holds OnlyNew (not o.data_created) (λ e _. released)
            λ e.
              if_holds OnlyNew (not o.source_created) (λ e _. released)
                λ e.
                  if_holds OnlyNew
                    (not (is_empty model.plugin_filter_kind)
                      && not (is_empty model.plugin_filter_id)
                      && not o.filter_created)
                    (λ e _. without-All P (equal model.id) _ (
                      added_erased-All P model.id (without (equal model.id) m.obs_sources)
                        released))
                    λ e new. All-add P model.id _ (new refl) released

  pub mirror_create-OnlyNew :
      (o : Libobs) (s : RendererState F)
      → All P s.mirrors.obs_sources
      → ((mirror_create o model s).1 ≡ true → P model.id)
      → All P (mirror_create o model s).0.mirrors.obs_sources
  mirror_create-OnlyNew o s h =
      if_holds OnlyNew model.is_plugin_kind (λ e. mirror_plugin_source_create-OnlyNew o s.mirrors h)
        λ e. mirror_source_create-OnlyNew o s.mirrors h
