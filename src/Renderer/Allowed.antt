-- ===== src/Renderer/Allowed.antt =====
-- The settings that a request may set, and how a refusal names what is wrong.
use streammate_studio_host.Prelude.{
  ◌≡◌, refl, ap, Bool, true, false, not, ◌||◌, Option, none, some, List, [], ◌∷◌, ◌++◌, ℕ, zero,
  suc, ◌≤◌, ◌<◌, ltb, Bytes, codes, is_empty, length, length-append, All, if_holds, arith,
  after_prefix, after_prefix-eq,
}
use streammate_studio_host.Prelude.Int.{pos}
use streammate_studio_host.Prelude.Result.{Result, guard, Post, Post-bind}
use streammate_studio_host.Prelude.Ordered.{Map, insert, member}
use streammate_studio_host.Prelude.Ordered.Restore.{insert-All}
use streammate_studio_host.Scanner.Number.{ws}
use streammate_studio_host.Rpc.Tokens.{parse_json_string_token, tail}
use streammate_studio_host.Renderer.{Std, FilterSettingValue, number, boolean, text}
use streammate_studio_host.Renderer.Settings.{
  heads, double_token, separated, colon, separate, no_key, no_pair, no_value, unknown, bad_string,
  infinite, too_large, not_primitive, nothing_set, settings_string_refused, string_setting,
  number_setting, word_setting, setting_at, known_key, entry, entries, is_nil, parse_settings_body,
}
use streammate_studio_host.Renderer.Shrinks.{
  length-ws, length-double_token, Shorter, parse_json_string_token-Shorter,
}

-- The messages of the scanner. There is none for a loop that has no more rounds.
pub data IsReason (family : Bytes) : Bytes → Type 0 where
  not_separated : IsReason family separate
  not_a_key : IsReason family no_key
  not_a_pair : IsReason family no_pair
  without_value : IsReason family no_value
  not_known : IsReason family (unknown family)
  refused_string : IsReason family (bad_string family)
  not_finite : IsReason family (infinite family)
  out_of_range : IsReason family (too_large family)
  nested : IsReason family (not_primitive family)
  without_key : IsReason family (nothing_set family)

length-tail : (t : Bytes) → length (tail t) ≤ length t
length-tail [] = omega arith
length-tail (c ∷ t) = omega arith

module _ {F : Type 0} (std : Std F) (known_keys : List Bytes) (family : Bytes)
    (max_abs_number : ℕ) where
  -- Numbers are finite and bounded; strings are of 1 to 120 bytes and not of a shape that is refused.
  abbrev pub IsValue : FilterSettingValue F → Type 0
  IsValue (number x) =
      (std.is_finite x ≡ true) × (std.above (std.fabs x) (pos max_abs_number) ≡ false)
  IsValue (boolean b) = Unit
  IsValue (text s) =
      (is_empty s ≡ false) × (length s ≤ 120) × (settings_string_refused std s ≡ false)

  abbrev pub IsSetting : Bytes × FilterSettingValue F → Type 0
  IsSetting (key, value) = (member key known_keys ≡ true) × IsValue value

  abbrev Checked {ℓ} : {A : Type ℓ} → (A → Type 0) → Result A → Type 0
  Checked P r = Post P (IsReason family) r

  separated-Checked :
      (first : Bool) (t : Bytes) → Checked (λ start. length start ≤ length t) (separated first t)
  unfolding separated
  separated-Checked true t =
      if_holds (Checked (λ start. length start ≤ length t)) (heads b',' t) (λ e. not_separated)
        λ e. omega arith
  separated-Checked false t =
      if_holds (Checked (λ start. length start ≤ length t)) (not (heads b',' t))
        (λ e. not_separated)
        λ e.
          if_holds (Checked (λ start. length start ≤ length t))
            (is_empty (ws (tail t)) || heads b',' (ws (tail t))) (λ e. not_separated)
            λ e. omega (arith, length-ws (tail t), length-tail t)

  colon-Checked : (t : Bytes) → Checked (λ v. length v ≤ length t) (colon t)
  unfolding colon
  colon-Checked t =
      if_holds (Checked (λ v. length v ≤ length t)) (not (heads b':' (ws t))) (λ e. not_a_pair)
        λ e.
          if_holds (Checked (λ v. length v ≤ length t)) (is_empty (ws (tail (ws t))))
            (λ e. without_value)
            λ e. omega (arith, length-ws t, length-ws (tail (ws t)), length-tail (ws t))

  -- A value that may be set, and at most so many bytes behind it.
  abbrev ValueWithin : ℕ → FilterSettingValue F × Bytes → Type 0
  ValueWithin n (value, rest) = IsValue value × (length rest ≤ n)

  string_setting-Checked :
      (t : Bytes) (out : Option Bytes × Bytes)
      → Shorter t out
      → Checked (ValueWithin (length t)) (string_setting std known_keys family max_abs_number out)
  unfolding string_setting
  string_setting-Checked t (none, rest) h = refused_string
  string_setting-Checked t (some value, rest) h =
      if_holds (Checked (ValueWithin (length t)))
        (is_empty value || ltb 120 (length value) || settings_string_refused std value)
        (λ e. refused_string) λ e. ((ground arith, ground arith, ground arith), omega arith)

  number_setting-Checked :
      (n : ℕ) (value : Option F) (rest : Bytes)
      → length rest ≤ n
      → Checked (ValueWithin n) (number_setting std known_keys family max_abs_number value rest)
  unfolding number_setting
  number_setting-Checked n none rest h = nested
  number_setting-Checked n (some value) rest h =
      if_holds (Checked (ValueWithin n)) (not (std.is_finite value)) (λ e. not_finite)
        λ finite.
          if_holds (Checked (ValueWithin n)) (std.above (std.fabs value) (pos max_abs_number))
            (λ e. out_of_range) λ bounded. ((ground arith, bounded), h)

  -- What follows a prefix is no longer than the text.
  abbrev Behind : Bytes → Option Bytes → Type 0
  Behind t none = Unit
  Behind t (some rest) = length rest ≤ length t

  after_prefix-Behind : (word t : Bytes) → Behind t (after_prefix word t)
  after_prefix-Behind word t = shorter (after_prefix word t) λ rest e. after_prefix-eq word t e
    where
      shorter :
          (o : Option Bytes) → ((rest : Bytes) → o ≡ some rest → t ≡ word ++ rest) → Behind t o
      shorter none h = tt
      shorter (some rest) h = omega (arith, ap length (h rest refl), length-append word rest)

  word_setting-Checked :
      (is_true is_false : Option Bytes) (t : Bytes)
      → Behind t is_true
      → Behind t is_false
      → Checked
          (ValueWithin (length t))
          (word_setting std known_keys family max_abs_number is_true is_false t)
  unfolding word_setting
  word_setting-Checked (some rest) is_false t h g = (tt, h)
  word_setting-Checked none (some rest) t h g = (tt, g)
  word_setting-Checked none none t h g =
      number_setting-Checked (length t) (std.stod (double_token t).0) _ (length-double_token t)

  setting_at-Checked :
      (t : Bytes)
      → Checked (ValueWithin (length t)) (setting_at std known_keys family max_abs_number t)
  unfolding setting_at
  setting_at-Checked t =
      if_holds (Checked (ValueWithin (length t))) (heads b'"' t)
        (λ e.
          string_setting-Checked t (parse_json_string_token t) (parse_json_string_token-Shorter t))
        λ e.
          word_setting-Checked (after_prefix (codes "true") t) (after_prefix (codes "false") t) t
            (after_prefix-Behind (codes "true") t) (after_prefix-Behind (codes "false") t)

  known_key-Checked :
      (t : Bytes) (out : Option Bytes × Bytes)
      → Shorter t out
      → Checked
          (λ key. (member key.0 known_keys ≡ true) × (length key.1 < length t))
          (known_key std known_keys family max_abs_number out)
  unfolding known_key
  known_key-Checked t (none, rest) h = not_a_key
  known_key-Checked t (some key, rest) h =
      if_holds
        (Checked
          (λ (key : Bytes × Bytes). (member key.0 known_keys ≡ true) × (length key.1 < length t)))
        (not (member key known_keys)) (λ e. not_known) λ e. (ground arith, h)

  -- An entry that may be set, behind which the text is shorter.
  abbrev EntryWithin : Bytes → (Bytes × FilterSettingValue F) × Bytes → Type 0
  EntryWithin t e = IsSetting e.0 × (length e.1 < length t)

  entry-Checked :
      (first : Bool) (t : Bytes)
      → Checked (EntryWithin t) (entry std known_keys family max_abs_number first t)
  unfolding entry
  entry-Checked first t =
      Post-bind (IsReason family) (λ start. length start ≤ length t) (EntryWithin t)
        (separated first t) _ (separated-Checked first t)
        λ start h.
          Post-bind (IsReason family)
            (λ key. (member key.0 known_keys ≡ true) × (length key.1 < length start))
            (EntryWithin t)
            (known_key std known_keys family max_abs_number (parse_json_string_token start)) _
            (known_key-Checked start (parse_json_string_token start)
              (parse_json_string_token-Shorter start))
            λ key k.
              Post-bind (IsReason family) (λ v. length v ≤ length key.1) (EntryWithin t)
                (colon key.1) _ (colon-Checked key.1)
                λ value_text c.
                  Post-bind (IsReason family) (ValueWithin (length value_text)) (EntryWithin t)
                    (setting_at std known_keys family max_abs_number value_text) _
                    (setting_at-Checked value_text)
                    λ value v.
                      Post-bind (IsReason family) (λ end. Unit {0}) (EntryWithin t)
                        (guard (is_empty (ws value.1) || heads b',' (ws value.1)) separate) _
                        (separator-Checked (is_empty (ws value.1) || heads b',' (ws value.1)))
                        λ end e. ((k.0, v.0), omega (arith, k.1, v.1))
    where
      separator-Checked : (b : Bool) → Checked (λ end. Unit {0}) (guard b separate)
      separator-Checked true = tt
      separator-Checked false = not_separated

  entries-Checked :
      (fuel : ℕ) (first : Bool) (t : Bytes) (settings : Map (FilterSettingValue F))
      → length t < fuel
      → All IsSetting settings
      → Checked (All IsSetting) (entries std known_keys family max_abs_number fuel first t settings)
  unfolding entries
  entries-Checked zero first t settings f h = absurd (omega arith)
  entries-Checked (suc fuel) first t settings f h =
      if_holds (Checked (All IsSetting)) (is_empty (ws t)) (λ e. h)
        λ more.
          Post-bind (IsReason family) (EntryWithin (ws t)) (All IsSetting)
            (entry std known_keys family max_abs_number first (ws t)) _ (entry-Checked first (ws t))
            λ e k.
              entries-Checked fuel false e.1 (insert e.0.0 e.0.1 settings)
                (omega (arith, k.1, length-ws t)) (insert-All IsSetting e.0.0 e.0.1 settings k.0 h)

  -- The settings that are taken over have keys of the allowlist only, and values that the code
  -- lets through: finite and bounded numbers, truth values, and strings of 1 to 120 bytes whose
  -- shape is not refused. A refusal carries one of ten messages, so that the loop always ends
  -- within one round more than the text has bytes.
  pub parse_settings_body-Checked :
      (body : Bytes)
      → Post
          (All IsSetting)
          (IsReason family)
          (parse_settings_body std known_keys family max_abs_number body)
  unfolding parse_settings_body
  parse_settings_body-Checked body =
      Post-bind (IsReason family) (All IsSetting) (All IsSetting)
        (entries std known_keys family max_abs_number (suc (length body)) true body []) _
        (entries-Checked (suc (length body)) true body [] (omega arith) tt)
        λ settings h.
          Post-bind (IsReason family) (λ some_set. Unit {0}) (All IsSetting)
            (guard (not (is_nil settings)) (nothing_set family)) _
            (some-Checked (not (is_nil settings))) λ some_set e. h
    where
      some-Checked : (b : Bool) → Checked (λ end. Unit {0}) (guard b (nothing_set family))
      some-Checked true = tt
      some-Checked false = without_key
