-- ===== src/Renderer/Bounded.antt =====
-- Each edit of a source keeps its place and its bounds.
use streammate_studio_host.Prelude.{
  refl, Bool, not, ◌||◌, Option, none, some, ℕ, Bytes, codes, if_holds, if◌then◌else◌, arith,
  contains_text,
}
use streammate_studio_host.Prelude.Int.{pos, negsuc}
use streammate_studio_host.Rpc.Fields.{extract_json_string, extract_json_int}
use streammate_studio_host.Plugins.Portable.{is_safe_protocol_id}
use streammate_studio_host.Renderer.{Std, SourceModel}
use streammate_studio_host.Renderer.Create.{clamp}
use streammate_studio_host.Renderer.Edits.{
  Edit, becomes, mute_edit, visible_edit, order_edit, position_edit, transform_edit, media_edit,
  refresh_edit, updated, volume_edit, is_media_action, positive_or_absent, bounded_position,
}
use streammate_studio_host.Renderer.Sound.{Laws, IsOpacity}
use streammate_studio_host.Renderer.Kept.{EditKept, Keeping}

module _ {F : Type 0} (std : Std F) where
  -- The end of an edit that has passed its checks.
  guarded-EditKept :
      (source : SourceModel F) (b : Bool) (why edit : Edit (SourceModel F))
      → EditKept std source why
      → EditKept std source edit
      → EditKept std source (if b then why else edit)
  guarded-EditKept source b why edit w k = if_holds (EditKept std source) b (λ e. w) λ e. k

  pub mute_edit-Keeping :
      (request : Bytes) (mirrored : Bool) → Keeping std (mute_edit request mirrored)
  unfolding mute_edit
  mute_edit-Keeping request mirrored source (o, v) =
      guarded-EditKept source (not mirrored) _ _ tt (refl, refl, o, v)

  pub visible_edit-Keeping :
      (visible : Option Bool) (mirrored : Bool) → Keeping std (visible_edit visible mirrored)
  unfolding visible_edit
  visible_edit-Keeping none mirrored source h = tt
  visible_edit-Keeping (some visible) mirrored source (o, v) =
      guarded-EditKept source (not mirrored) _ _ tt (refl, refl, o, v)

  position_edit-Keeping :
      (position : Option ℕ) (mirrored : Bool) → Keeping std (position_edit position mirrored)
  unfolding position_edit
  position_edit-Keeping none mirrored source h = tt
  position_edit-Keeping (some position) mirrored source (o, v) =
      guarded-EditKept source (not mirrored) _ _ tt (refl, refl, o, v)

  pub order_edit-Keeping :
      (request : Bytes) (mirrored : Bool) → Keeping std (order_edit request mirrored)
  unfolding order_edit
  order_edit-Keeping request mirrored source h =
      if_holds (EditKept std source) (not (contains_text (codes "\"idempotencyToken\"") request))
        (λ e. tt)
        λ e.
          if_holds (EditKept std source)
            (not (is_safe_protocol_id (extract_json_string request (codes "idempotencyToken"))))
            (λ e. tt)
            λ e.
              position_edit-Keeping (bounded_position (extract_json_int request (codes "position")))
                mirrored source h

  pub transform_edit-Keeping : (request : Bytes) → Keeping std (transform_edit request)
  unfolding transform_edit
  transform_edit-Keeping request source (o, v) =
      if_holds (EditKept std source)
        (not (positive_or_absent (extract_json_int request (codes "width")))) (λ e. tt)
        λ e.
          guarded-EditKept source
            (not (positive_or_absent (extract_json_int request (codes "height")))) _ _ tt
            (refl, refl, o, v)

  pub media_edit-Keeping :
      (action : Bytes) (mirrored : Bool) → Keeping std (media_edit action mirrored)
  unfolding media_edit
  media_edit-Keeping action mirrored source (o, v) =
      if_holds (EditKept std source) (not (is_media_action action)) (λ e. tt)
        λ e. guarded-EditKept source (not mirrored) _ _ tt (refl, refl, o, v)

  pub refresh_edit-Keeping : (mirrored : Bool) → Keeping std (refresh_edit mirrored)
  unfolding refresh_edit
  refresh_edit-Keeping mirrored source (o, v) =
      guarded-EditKept source (not mirrored) _ _ tt (refl, refl, o, v)

  pub clamp-IsOpacity : Laws std → (value : F) → IsOpacity std (clamp std value)
  unfolding clamp
  clamp-IsOpacity laws value =
      if_holds (IsOpacity std) (std.below value (pos 0)) (λ e. (laws.zero_below, laws.zero_above))
        λ low.
          if_holds (IsOpacity std) (std.above value (pos 1)) (λ e. (laws.one_below, laws.one_above))
            λ high. (low, high)

  clamped-IsOpacity :
      Laws std
      → (value : Option F) (own : F) → IsOpacity std own
      → IsOpacity std (elim value [ none ↦ own | some x ↦ clamp std x ])
  clamped-IsOpacity laws none own h = h
  clamped-IsOpacity laws (some x) own h = clamp-IsOpacity laws x

  pub updated-Keeping :
      Laws std → (request : Bytes) → Keeping std (λ source. becomes (updated std request source))
  unfolding updated
  updated-Keeping laws request source (o, v) =
      (refl, refl, clamped-IsOpacity laws _ source.opacity o, v)

  pub volume_edit-Keeping :
      (volume : Option F) (mirrored : Bool) → Keeping std (volume_edit std volume mirrored)
  unfolding volume_edit
  volume_edit-Keeping none mirrored source h = tt
  volume_edit-Keeping (some volume) mirrored source (o, v) =
      if_holds (EditKept std source)
        (not (std.is_finite volume) || std.below volume (negsuc 99) || std.above volume (pos 26))
        (λ e. tt)
        λ within.
          guarded-EditKept source (not mirrored) _ _ tt
            (refl, refl, o, (ground arith, ground arith, ground arith))
