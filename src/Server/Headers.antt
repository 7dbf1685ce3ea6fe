-- ===== src/Server/Headers.antt =====
-- `trim`, `lower`, `std::getline` and `parse_headers` (src/studio_host.cpp).
use streammate_studio_host.Prelude.{
  Bool, ◌&&◌, ◌||◌, Option, none, some, List, [], ◌∷◌, ◌==◌, if◌then◌else◌, Bytes, is_empty, ℕ,
}
use streammate_studio_host.Prelude.Ordered.{Map, insert}
use streammate_studio_host.Renderer.Settings.{lower}

abbrev is_front : ℕ → Bool
is_front c = c == b' ' || c == 9 || c == 13

abbrev is_back : ℕ → Bool
is_back c = is_front c || c == 10

unfoldable pub trim_front : Bytes → Bytes
trim_front [] = []
trim_front (c ∷ t) = let behind = trim_front t in if is_front c then behind else c ∷ t

unfoldable pub trim_back : Bytes → Bytes
trim_back [] = []
trim_back (c ∷ t) =
    let behind = trim_back t in if is_empty behind && is_back c then [] else c ∷ behind

unfoldable pub trim : Bytes → Bytes
unfolding trim_front trim_back
trim value = trim_back (trim_front value)

-- The lines that `std::getline` reads: no line is read behind a final newline.
unfoldable pub lines : Bytes → List Bytes
lines [] = []
lines (c ∷ t) = if c == 10 then [] ∷ lines t else in_front c (lines t)
  where
    in_front : ℕ → List Bytes → List Bytes
    in_front c [] = (c ∷ []) ∷ []
    in_front c (line ∷ rest) = (c ∷ line) ∷ rest

-- A line at its first colon.
unfoldable pub at_first_colon : Bytes → Option (Bytes × Bytes)
at_first_colon [] = none
at_first_colon (c ∷ t) = if c == b':' then some ([], t) else behind c (at_first_colon t)
  where
    behind : ℕ → Option (Bytes × Bytes) → Option (Bytes × Bytes)
    behind c none = none
    behind c (some (name, value)) = some (c ∷ name, value)

unfoldable pub with_header : Option (Bytes × Bytes) → Map Bytes → Map Bytes
unfolding trim lower insert
with_header none headers = headers
with_header (some (name, value)) headers = insert (lower (trim name)) (trim value) headers

unfoldable pub headers_of : List Bytes → Map Bytes → Map Bytes
unfolding with_header at_first_colon
headers_of [] headers = headers
headers_of (line ∷ rest) headers = headers_of rest (with_header (at_first_colon line) headers)

abbrev behind_first : List Bytes → List Bytes
behind_first [] = []
behind_first (line ∷ rest) = rest

unfoldable pub parse_headers : Bytes → Map Bytes
unfolding headers_of lines
parse_headers request = headers_of (behind_first (lines request)) []
