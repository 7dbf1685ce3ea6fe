-- ===== src/Scanner/Value.antt =====
-- `skip_value` of `ManifestScanner` (src/studio_host.cpp). Its `depth` is modelled by the levels
-- that are left, 65 at depth 0: at depth 65 none is left, and the value is refused.
use streammate_studio_host.Prelude.{
  ℕ, zero, suc, Bool, true, false, ◌||◌, Option, none, some, [], ◌∷◌, ◌==◌, if◌then◌else◌, Bytes,
  codes, is_digit, length,
}
use streammate_studio_host.Prelude.Maybe.{◌>>=◌}
use streammate_studio_host.Scanner.{consume, literal, string}
use streammate_studio_host.Scanner.Number.{ws, number}

-- `true`, `false`, `null` or a number.
skip_scalar : Bytes → Option Bytes
skip_scalar [] = none
skip_scalar (c ∷ t) =
    let (is_true, t1) = literal (codes "true") (c ∷ t) in
    let (is_false, t2) = literal (codes "false") t1 in
    let (is_null, t3) = literal (codes "null") t2 in
    if is_true
    then some t1
    else if is_false
    then some t2
    else if is_null
    then some t3
    else if c == b'-' || is_digit c
    then number t3
    else none

-- In an object, the key and the colon in front of a value.
member_key : Bool → Bytes → Option Bytes
member_key false t = some t
member_key true t = do
  (key, t) ← string t
  let found = consume b':' t
  if found.0 then some found.1 else none

-- The loop over the values of an array or an object; one unit of fuel for each round.
unfoldable pub skip_items : (Bytes → Option Bytes) → ℕ → Bool → ℕ → Bytes → Option Bytes
unfolding member_key
skip_items value zero object close t = none
skip_items value (suc fuel) object close t = do
  t ← member_key object t
  t ← value t
  let comma = consume b',' t
  let closed = consume close comma.1
  let rest = skip_items value fuel object close comma.1
  if comma.0 then rest else if closed.0 then some closed.1 else none

-- Behind the opening bracket.
skip_container : (Bytes → Option Bytes) → Bool → ℕ → Bytes → Option Bytes
skip_container value object close t =
    let empty = consume close t in
    if empty.0 then some empty.1 else skip_items value (suc (length empty.1)) object close empty.1

skip_from : (Bytes → Option Bytes) → Bytes → Option Bytes
unfolding skip_scalar skip_container
skip_from value [] = none
skip_from value (c ∷ t) =
    if c == b'"'
    then (do r ← string (c ∷ t); some r.1)
    else if c == b'{'
    then skip_container value true b'}' t
    else if c == b'['
    then skip_container value false b']' t
    else skip_scalar (c ∷ t)

unfoldable pub skip_levels : ℕ → Bytes → Option Bytes
unfolding skip_from
skip_levels zero t = none
skip_levels (suc levels) t = skip_from (skip_levels levels) (ws t)

unfoldable pub skip_value : Bytes → Option Bytes
unfolding skip_levels
skip_value = skip_levels 65
