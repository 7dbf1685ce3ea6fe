-- ===== src/Plugins/Portable.antt =====
-- src/user_plugin_portability.h, and `is_safe_protocol_id` of src/studio_host.cpp.
use streammate_studio_host.Prelude.{
  Bool, true, false, not, ◌&&◌, ◌||◌, [], ◌∷◌, ◌==◌, ltb, leb, if◌then◌else◌, Bytes, is_digit,
  length,
}

-- `std::isalnum` in the C locale.
abbrev pub is_alnum : Prim.Native.Nat.ℕ → Bool
is_alnum c = is_digit c || (leb b'A' c && leb c b'Z') || (leb b'a' c && leb c b'z')

unfoldable pub portable_charset : Bytes → Bool
portable_charset [] = true
portable_charset (c ∷ s) =
    let rest = portable_charset s in
    if not (is_alnum c || c == b'.' || c == b'_' || c == b'-') then false else rest

-- The two predicates differ in the bound alone.
unfoldable pub is_portable_type_id : Bytes → Bool
is_portable_type_id [] = false
is_portable_type_id (c ∷ s) =
    if ltb 64 (length (c ∷ s))
    then false
    else if not (is_alnum c)
    then false
    else portable_charset (c ∷ s)

unfoldable pub is_portable_module_name : Bytes → Bool
is_portable_module_name [] = false
is_portable_module_name (c ∷ s) =
    if ltb 120 (length (c ∷ s))
    then false
    else if not (is_alnum c)
    then false
    else portable_charset (c ∷ s)

unfoldable pub is_safe_protocol_id : Bytes → Bool
is_safe_protocol_id [] = false
is_safe_protocol_id (c ∷ s) = if ltb 255 (length (c ∷ s)) then false else portable_charset (c ∷ s)
