-- ===== src/Renderer/Placed.antt =====
-- Where `create_source` puts a source, and that it is a real one.
use streammate_studio_host.Prelude.{
  ◌≡◌, refl, Bool, true, not, Option, none, some, [], Bytes, codes, equal_iff, is_empty, if_holds,
  if◌then◌else◌, contains_text, arith, inl, inr, ◌⊎◌,
}
use streammate_studio_host.Prelude.Result.{
  Result, ok, err, guard, ◌>>=◌, Post, Post-bind, Post-guard,
}
use streammate_studio_host.Prelude.Ordered.{insert, lookup, member}
use streammate_studio_host.Prelude.Ordered.Laws.{lookup-insert}
use streammate_studio_host.Rpc.Reply.{Reply, answered}
use streammate_studio_host.Rpc.Fields.{extract_json_string}
use streammate_studio_host.Renderer.{Std, Libobs, SceneModel, SourceModel, RendererState, found}
use streammate_studio_host.Renderer.Mirror.{source_mirrored}
use streammate_studio_host.Renderer.Settings.{parse_plugin_source_settings}
use streammate_studio_host.Renderer.Create.{
  PluginPart, with_source, mirror_create, settle, place, new_source, next_position, create_checked,
  create_in, create_source, default_to, kind_checked, plugin_part, filter_checked, is_browser,
}
use streammate_studio_host.Renderer.Live.{AllBelow, next_position-AllBelow, mirror_create-IsLive}

abbrev Anything : Bytes → Type 0
Anything why = Unit

module _ {F : Type 0} (std : Std F) where
  -- A kind that passes its checks is the browser's or one that a plugin has registered.
  abbrev IsKind : Libobs → Bytes → Type 0
  IsKind o kind = (is_browser kind ≡ true) ⊎ (member kind o.source_types ≡ true)

  kind_checked-IsKind :
      (o : Libobs) (request kind : Bytes)
      → Post (λ _. IsKind o kind) Anything (kind_checked std o request kind)
  unfolding kind_checked plugin_part
  kind_checked-IsKind o request kind =
      if_holds (Post (λ _. IsKind o kind) Anything) (is_browser kind) (λ e. inl e)
        λ e.
          behind
            (if contains_text (codes "\"settings\"") request
              then parse_plugin_source_settings std request
              else ok [])
            _
            λ settings.
              behind
                (guard (not (contains_text (codes "\"rerouteAudio\"") request))
                  (codes "rerouteAudio is only valid for browser sources"))
                _
                λ plain.
                  Post-bind Anything (λ _. member kind o.source_types ≡ true) (λ _. IsKind o kind)
                    (guard (member kind o.source_types)
                      (codes "kind is not a loaded user-plugin source type"))
                    _ (Post-guard Anything (member kind o.source_types) _ tt)
                    λ loaded known.
                      behind
                        (filter_checked std o
                          (extract_json_string request (codes "pluginFilterKind"))
                          (extract_json_string request (codes "filterId")))
                        _ λ filter. inr known
    where
      behind :
          {A : Type 0} (r : Result A) (f : A → Result (PluginPart F))
          → ((a : A) → Post (λ _. IsKind o kind) Anything (f a))
          → Post (λ _. IsKind o kind) Anything (r >>= f)
      behind (ok a) f h = h a
      behind (err why) f h = tt

  -- The source that an answer is about: in the model and in the mirrors, above all others of its
  -- scene, and of a type that is registered.
  pub record IsPlaced (o : Libobs) (request : Bytes) (s s' : RendererState F) (new : SourceModel F)
      : Type 0 where
    pub stored : lookup (extract_json_string request (codes "sourceId")) s'.sources ≡ some new
    pub scene : new.scene_id ≡ extract_json_string request (codes "sceneId")
    pub above : AllBelow new.scene_id new.position s.sources
    pub mirrored :
        source_mirrored (extract_json_string request (codes "sourceId")) s'.mirrors ≡ true
    pub created : o.source_created ≡ true
    pub registered :
        (member new.kind o.source_types ≡ true)
        ⊎ ((is_browser new.kind ≡ true) × (o.browser_registered ≡ true))

  abbrev Places : Libobs → Bytes → RendererState F → RendererState F × Reply → Type 0
  Places o request s out = out.1 ≡ answered → (new : SourceModel F) × IsPlaced o request s out.0 new

  place-Places :
      (o : Libobs) (request kind : Bytes) (scene : SceneModel) (plugin : PluginPart F)
      (s : RendererState F)
      → IsKind o kind
      → Places o request s (
          place o
            (new_source std request
              (extract_json_string request (codes "sourceId"))
              kind
              scene
              plugin
              (next_position (extract_json_string request (codes "sceneId")) s.sources))
            s)
  unfolding place settle new_source source_mirrored
  place-Places o request kind scene plugin s k =
      if_holds (Places o request s) out.1
        (λ made e.
          let (live, created, real) = mirror_create-IsLive o source (with_source source s) made in
          (
            source,
            record {
              stored = found_own;
              scene = refl;
              above = next_position-AllBelow source.scene_id s.sources;
              mirrored = live;
              created = created;
              registered = registered_kind k real;
            },
          ))
        λ failed e. cc
    where
      source : SourceModel F
      source =
          new_source std request (extract_json_string request (codes "sourceId")) kind scene plugin
            (next_position (extract_json_string request (codes "sceneId")) s.sources)

      out : RendererState F × Bool
      out = mirror_create o source (with_source source s)

      found_own : lookup source.id (insert source.id source s.sources) ≡ some source
      found_own =
          ground (
            arith,
            lookup-insert source.id source.id source s.sources,
            equal_iff source.id source.id,
          )

      registered_kind :
          IsKind o kind
          → (not (is_browser kind) ≡ true) ⊎ (o.browser_registered ≡ true)
          → (member kind o.source_types ≡ true)
            ⊎ ((is_browser kind ≡ true) × (o.browser_registered ≡ true))
      registered_kind (inr known) real = inl known
      registered_kind (inl browser) (inl plugin) = absurd (ground arith)
      registered_kind (inl browser) (inr registered) = inr (browser, registered)

  create_checked-Places :
      (o : Libobs) (request kind : Bytes) (scene : SceneModel) (plugin : Result (PluginPart F))
      (s : RendererState F)
      → Post (λ _. IsKind o kind) Anything plugin
      → Places o request s (
          create_checked std o request
            (extract_json_string request (codes "sourceId"))
            kind
            scene
            plugin
            s)
  unfolding create_checked
  create_checked-Places o request kind scene (err why) s k = λ e. cc
  create_checked-Places o request kind scene (ok plugin) s k =
      place-Places o request kind scene plugin s k

  create_in-Places :
      (o : Libobs) (request : Bytes) (scene : Option SceneModel) (s : RendererState F)
      → Places o request s (create_in std o request scene s)
  unfolding create_in
  create_in-Places o request none s = λ e. cc
  create_in-Places o request (some scene) s =
      let kind = default_to (extract_json_string request (codes "kind")) (codes "browser") in
      if_holds (Places o request s) (is_empty (extract_json_string request (codes "sourceId")))
        (λ b e. cc)
        λ b. create_checked-Places o request kind scene _ s (kind_checked-IsKind o request kind)

  -- A source that is answered as created stands in the model under its id, in the scene that was
  -- asked for, at a position above every source that the scene had; libobs has created it and it is
  -- mirrored; and its kind is one that a plugin has registered, or it is a browser source and libobs
  -- knows that type: nothing takes the place of a type that is missing.
  pub create_source-IsPlaced :
      (o : Libobs) (request : Bytes) (s : RendererState F)
      → (create_source std o request s).1 ≡ answered
      → (new : SourceModel F) × IsPlaced o request s (create_source std o request s).0 new
  unfolding create_source
  create_source-IsPlaced o request s =
      create_in-Places o request (found (extract_json_string request (codes "sceneId")) s.scenes) s
