-- ===== src/Renderer/Live.antt =====
-- The position of a new source, and what success says of its mirror.
use streammate_studio_host.Prelude.{
  ◌≡◌, Bool, true, not, ◌&&◌, List, [], ◌∷◌, ℕ, suc, max, ◌<◌, ◌≤◌, Bytes, equal, equal_iff,
  is_empty, All, if_holds, arith, inl, inr, ◌⊎◌,
}
use streammate_studio_host.Prelude.Ordered.{Map, add, member}
use streammate_studio_host.Prelude.Ordered.Laws.{member-add}
use streammate_studio_host.Renderer.{Libobs, SourceModel, Mirrors, RendererState}
use streammate_studio_host.Renderer.Mirror.{
  mirror_source_create, mirror_plugin_source_create, with_plugin_source,
}
use streammate_studio_host.Renderer.Create.{mirror_create, next_position}

added : (id : Bytes) (s : List Bytes) → member id (add id s) ≡ true
added id s = ground (arith, member-add id id s, equal_iff id id)

module _ {F : Type 0} where
  -- Every source of the scene lies below the position.
  abbrev pub AllBelow : Bytes → ℕ → Map (SourceModel F) → Type 0
  AllBelow scene_id position =
      All (λ e. equal e.1.scene_id scene_id ≡ true → e.1.position < position)

  AllBelow-weaken :
      (scene_id : Bytes) (p q : ℕ) (sources : Map (SourceModel F))
      → p ≤ q
      → AllBelow scene_id p sources
      → AllBelow scene_id q sources
  AllBelow-weaken scene_id p q [] le h = tt
  AllBelow-weaken scene_id p q (e ∷ sources) le (hj, h) =
      (λ own. omega (arith, hj own), AllBelow-weaken scene_id p q sources le h)

  pub next_position-AllBelow :
      (scene_id : Bytes) (sources : Map (SourceModel F))
      → AllBelow scene_id (next_position scene_id sources) sources
  unfolding next_position
  next_position-AllBelow scene_id [] = tt
  next_position-AllBelow scene_id ((id, source) ∷ sources) =
      let rest = next_position-AllBelow scene_id sources in
      let p = next_position scene_id sources in
      if_holds (λ n. AllBelow scene_id n ((id, source) ∷ sources)) (equal source.scene_id scene_id)
        (λ e. (
          λ own. omega arith,
          AllBelow-weaken scene_id p (max (suc source.position) p) sources (omega arith) rest,
        ))
        λ e. (λ own. cc, rest)

  -- What an answer says of the mirrors.
  abbrev pub IsLive : Libobs → SourceModel F → Mirrors × Bool → Type 0
  IsLive o model out =
      out.1 ≡ true
      → (member model.id out.0.obs_sources ≡ true)
        × (o.source_created ≡ true)
        × ((model.is_plugin_kind ≡ true) ⊎ (o.browser_registered ≡ true))

  mirror_source_create-IsLive :
      (o : Libobs) (model : SourceModel F) (m : Mirrors)
      → IsLive o model (mirror_source_create o model m)
  unfolding mirror_source_create
  mirror_source_create-IsLive o model m =
      if_holds (IsLive o model) (not (member model.scene_id m.obs_scenes)) (λ e b. cc)
        λ e.
          if_holds (IsLive o model) (not o.browser_registered) (λ e b. cc)
            λ registered.
              if_holds (IsLive o model) (not o.data_created) (λ e b. cc)
                λ e.
                  if_holds (IsLive o model) (not o.source_created) (λ e b. cc)
                    λ made.
                      if_holds (IsLive o model) (not (o.item_added model.id)) (λ e b. cc)
                        λ e b. (added model.id _, ground arith, inr (ground arith))

  mirror_plugin_source_create-IsLive :
      (o : Libobs) (model : SourceModel F) (m : Mirrors)
      → model.is_plugin_kind ≡ true
      → IsLive o model (mirror_plugin_source_create o model m)
  unfolding mirror_plugin_source_create with_plugin_source
  mirror_plugin_source_create-IsLive o model m p =
      if_holds (IsLive o model) (not (member model.scene_id m.obs_scenes)) (λ e b. cc)
        λ e.
          if_holds (IsLive o model) (not o.data_created) (λ e b. cc)
            λ e.
              if_holds (IsLive o model) (not o.source_created) (λ e b. cc)
                λ made.
                  if_holds (IsLive o model)
                    (not (is_empty model.plugin_filter_kind)
                      && not (is_empty model.plugin_filter_id)
                      && not o.filter_created)
                    (λ e b. cc) λ e b. (added model.id _, ground arith, inl p)

  pub mirror_create-IsLive :
      (o : Libobs) (model : SourceModel F) (s : RendererState F)
      → IsLive o model ((mirror_create o model s).0.mirrors, (mirror_create o model s).1)
  mirror_create-IsLive o model s =
      if_holds (λ (out : Mirrors × Bool). IsLive o model (out.0, out.1)) model.is_plugin_kind
        (λ p. mirror_plugin_source_create-IsLive o model s.mirrors p)
        λ e. mirror_source_create-IsLive o model s.mirrors
