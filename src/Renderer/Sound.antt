-- ===== src/Renderer/Sound.antt =====
-- The invariant of a renderer, and what an answer or a refusal may leave.
use streammate_studio_host.Prelude.{
  ◌≡◌, refl, true, false, ◌||◌, some, [], ◌∷◌, ◌≤◌, List, Bytes, is_empty, is_some, All, arith,
  subst, Bool-cases, inl, inr, equal, equal_iff,
}
use streammate_studio_host.Prelude.Int.{pos, negsuc}
use streammate_studio_host.Prelude.Ordered.{Map, insert, lookup}
use streammate_studio_host.Prelude.Ordered.Laws.{keys, Ascending}
use streammate_studio_host.Prelude.Ordered.Restore.{lookup-insert_some}
use streammate_studio_host.Rpc.Reply.{Reply, refused, answered}
use streammate_studio_host.Renderer.{Std, SceneModel, SourceModel, RendererState, found}

-- The limits of an offscreen capture.
abbrev pub IsCapturable : SceneModel → Type 0
IsCapturable scene =
    (1 ≤ scene.width) × (scene.width ≤ 128) × (1 ≤ scene.height) × (scene.height ≤ 72)

abbrev pub SceneKept : Bytes × SceneModel → Type 0
SceneKept (id, scene) = (id ≡ scene.id) × IsCapturable scene

-- What the code relies on of the order of `double` at the bounds that it uses.
pub record Laws {F : Type 0} (std : Std F) : Type 0 where
  pub zero_below : std.below (std.of_int (pos 0)) (pos 0) ≡ false
  pub zero_above : std.above (std.of_int (pos 0)) (pos 1) ≡ false
  pub one_below : std.below (std.of_int (pos 1)) (pos 0) ≡ false
  pub one_above : std.above (std.of_int (pos 1)) (pos 1) ≡ false
  pub zero_finite : std.is_finite (std.of_int (pos 0)) ≡ true
  pub zero_bottom : std.below (std.of_int (pos 0)) (negsuc 99) ≡ false
  pub zero_top : std.above (std.of_int (pos 0)) (pos 26) ≡ false

module _ {F : Type 0} (std : Std F) where
  abbrev pub IsOpacity : F → Type 0
  IsOpacity value = (std.below value (pos 0) ≡ false) × (std.above value (pos 1) ≡ false)

  abbrev pub IsVolume : F → Type 0
  IsVolume value =
      (std.is_finite value ≡ true)
      × (std.below value (negsuc 99) ≡ false)
      × (std.above value (pos 26) ≡ false)

  -- A source stands under its own id, in a scene that is loaded.
  abbrev pub SourceKept : Map SceneModel → Bytes × SourceModel F → Type 0
  SourceKept scenes (id, source) =
      (id ≡ source.id)
      × (is_some (lookup source.scene_id scenes) ≡ true)
      × IsOpacity source.opacity
      × IsVolume source.volume_db

  abbrev pub IsProgram : Bytes → Map SceneModel → Type 0
  IsProgram id scenes = (is_empty id || is_some (lookup id scenes)) ≡ true

  abbrev pub IsMirrored : Map (SourceModel F) → Bytes → Type 0
  IsMirrored sources id = is_some (lookup id sources) ≡ true

  pub record IsSound (s : RendererState F) : Type 0 where
    pub scenes : All SceneKept s.scenes
    pub sources : All (SourceKept s.scenes) s.sources
    pub program : IsProgram s.program_scene_id s.scenes
    pub paired : keys s.filters ≡ keys s.sources
    pub order : Ascending (keys s.sources)
    pub mirrored : All (IsMirrored s.sources) s.mirrors.obs_sources

  -- The model, which is all but the mirrors.
  abbrev pub SameModel : RendererState F → RendererState F → Type 0
  SameModel s s' =
      (s'.scenes ≡ s.scenes)
      × (s'.sources ≡ s.sources)
      × (s'.filters ≡ s.filters)
      × (s'.program_scene_id ≡ s.program_scene_id)

  -- A refusal leaves the model as it was.
  abbrev pub Honest : RendererState F → RendererState F → Reply → Type 0
  Honest s s' answered = Unit
  Honest s s' (refused code message) = SameModel s s'

  abbrev pub Good : RendererState F → RendererState F × Reply → Type 0
  Good s out = IsSound out.0 × Honest s out.0 out.1

  abbrev pub same : (s : RendererState F) → SameModel s s
  same s = (refl, refl, refl, refl)

  pub Honest-same : (s : RendererState F) (reply : Reply) → Honest s s reply
  Honest-same s answered = tt
  Honest-same s (refused code message) = same s

  -- Another scene leaves the scenes of the sources loaded.
  pub SourceKept-insert :
      (id : Bytes) (scene : SceneModel) (scenes : Map SceneModel) (sources : Map (SourceModel F))
      → All (SourceKept scenes) sources
      → All (SourceKept (insert id scene scenes)) sources
  SourceKept-insert id scene scenes [] h = tt
  SourceKept-insert id scene scenes ((j, source) ∷ sources) ((k, l, o, v), h) = (
    (k, lookup-insert_some id source.scene_id scene scenes l, o, v),
    SourceKept-insert id scene scenes sources h,
  )

  -- Another source leaves the mirrored ones known.
  pub IsMirrored-insert :
      (id : Bytes) (source : SourceModel F) (sources : Map (SourceModel F)) (live : List Bytes)
      → All (IsMirrored sources) live
      → All (IsMirrored (insert id source sources)) live
  IsMirrored-insert id source sources [] h = tt
  IsMirrored-insert id source sources (j ∷ live) (hj, h) =
      (lookup-insert_some id j source sources hj, IsMirrored-insert id source sources live h)

-- What is found under a key has what all entries have.
pub lookup-Entry :
    {V : Type 0} (P : Bytes × V → Type 0) (k : Bytes) (v : V) (m : Map V)
    → All P m
    → lookup k m ≡ some v
    → P (k, v)
unfolding lookup
lookup-Entry P k v [] h e = cc
lookup-Entry P k v ((j, w) ∷ m) (hj, h) e = elim (Bool-cases (equal j k)) [
  | inl same_key ↦ subst P (ground (arith, equal_iff j k)) hj
  | inr other ↦ lookup-Entry P k v m h (ground arith)
]

pub found-eq :
    {V : Type 0} (k : Bytes) (v : V) (m : Map V) → found k m ≡ some v → lookup k m ≡ some v
unfolding found
found-eq k v m e = ground arith
