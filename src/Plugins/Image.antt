-- ===== src/Plugins/Image.antt =====
-- The architectures of a plugin's binary: `read_u32_at`, `cpu_type_label`, `parse_macho_archs` and
-- `parse_pe_archs` (src/studio_host.cpp). The outer `none` is a read past the end of the bytes, the
-- inner one is `std::nullopt`.
pub mod Safe
use streammate_studio_host.Prelude.{
  ℕ, zero, suc, ◌+◌, ◌-◌, ◌*◌, ◌^◌, Bool, true, false, not, ◌&&◌, ◌||◌, Option, none, some, List,
  [], ◌∷◌, ◌++◌, ◌==◌, ltb, if◌then◌else◌, Bytes, codes, length, get_elem?,
}
use streammate_studio_host.Prelude.Maybe.{◌>>=◌}
use streammate_studio_host.Prelude.Ordered.{member}

abbrev pub Archs : Type 0
Archs = Option (Option (List Bytes))

abbrev pub not_an_image : Archs
not_an_image = some none

abbrev word : Bool → ℕ → ℕ → ℕ → ℕ → ℕ
word true a b c d = ((a * 256 + b) * 256 + c) * 256 + d
word false a b c d = ((d * 256 + c) * 256 + b) * 256 + a

unfoldable pub read_u32_at : Bytes → ℕ → Bool → Option ℕ
read_u32_at bytes at big_endian = do
  a ← get_elem? bytes at
  b ← get_elem? bytes (at + 1)
  c ← get_elem? bytes (at + 2)
  d ← get_elem? bytes (at + 3)
  some (word big_endian a b c d)

unfoldable pub cpu_type_label : ℕ → Bytes
cpu_type_label cputype =
    if cputype == 0x0100000C
    then codes "arm64"
    else if cputype == 0x01000007
    then codes "x86_64"
    else codes "unknown"

abbrev pub is_thin64 : ℕ → Bool
is_thin64 magic = magic == 0xFEEDFACF || magic == 0xCFFAEDFE

abbrev pub is_thin32 : ℕ → Bool
is_thin32 magic = magic == 0xFEEDFACE || magic == 0xCEFAEDFE

abbrev pub is_fat : ℕ → Bool
is_fat magic = magic == 0xCAFEBABE || magic == 0xCAFEBABF

unfoldable pub thin_archs : Bytes → ℕ → Archs
thin_archs bytes magic =
    if ltb (length bytes) (if is_thin64 magic then 32 else 28) then not_an_image else (do
      cputype ← read_u32_at bytes 4 (magic == 0xCFFAEDFE || magic == 0xCEFAEDFE)
      some (some (cpu_type_label cputype ∷ [])))

-- The loop over the table; the counter is the number of entries left.
unfoldable pub fat_entries : Bytes → Bool → ℕ → ℕ → ℕ → List Bytes → Archs
fat_entries bytes big_endian size at zero archs = some (some archs)
fat_entries bytes big_endian size at (suc left) archs = do
  cputype ← read_u32_at bytes at big_endian
  let label = cpu_type_label cputype
  let kept = if member label archs then archs else archs ++ label ∷ []
  fat_entries bytes big_endian size (at + size) left kept

abbrev pub entry_size : ℕ → ℕ
entry_size magic = if magic == 0xCAFEBABF then 32 else 20

unfoldable pub fat_table : Bytes → Bool → ℕ → ℕ → Archs
fat_table bytes big_endian size nfat =
    if nfat == 0 || ltb 128 nfat
    then not_an_image
    else if ltb (length bytes) (8 + nfat * size)
    then not_an_image
    else fat_entries bytes big_endian size 8 nfat []

unfoldable pub fat_archs : Bytes → Bool → ℕ → Archs
fat_archs bytes big_endian magic = do
  nfat ← read_u32_at bytes 4 big_endian
  fat_table bytes big_endian (entry_size magic) nfat

-- Behind the two readings of the magic number.
unfoldable pub macho_archs : Bytes → ℕ → ℕ → Archs
macho_archs bytes magic_le magic_be =
    if is_thin64 magic_le || is_thin32 magic_le
    then thin_archs bytes magic_le
    else if is_fat magic_be
    then fat_archs bytes true magic_be
    else if is_fat magic_le
    then fat_archs bytes false magic_le
    else not_an_image

unfoldable pub parse_macho_archs : Bytes → Archs
parse_macho_archs bytes = if ltb (length bytes) 8 then not_an_image else (do
  magic_le ← read_u32_at bytes 0 false
  magic_be ← read_u32_at bytes 0 true
  macho_archs bytes magic_le magic_be)

-- `bytes[i] == c` for a byte that is read.
unfoldable pub has_byte : Bytes → ℕ → ℕ → Option Bool
has_byte bytes i c = do b ← get_elem? bytes i; some (b == c)

unfoldable pub machine_label : ℕ → Bytes
machine_label machine =
    if machine == 0x8664
    then codes "x86_64"
    else if machine == 0xAA64
    then codes "arm64"
    else codes "unknown"

-- From the PE signature on.
unfoldable pub coff_archs : Bytes → ℕ → Archs
unfolding has_byte
coff_archs bytes at = do
  p ← has_byte bytes at b'P'
  e ← has_byte bytes (at + 1) b'E'
  z ← has_byte bytes (at + 2) 0
  y ← has_byte bytes (at + 3) 0
  low ← get_elem? bytes (at + 4)
  high ← get_elem? bytes (at + 5)
  if not (p && e && z && y)
      then not_an_image
      else some (some (machine_label (high * 256 + low) ∷ []))

unfoldable pub pe_archs : Bytes → ℕ → Archs
pe_archs bytes at =
    if ltb at 64 || ltb (length bytes) at || ltb (length bytes - at) 24
    then not_an_image
    else coff_archs bytes at

unfoldable pub parse_pe_archs : Bytes → Archs
unfolding has_byte
parse_pe_archs bytes = if ltb (length bytes) 64 then not_an_image else (do
  m ← has_byte bytes 0 b'M'
  z ← has_byte bytes 1 b'Z'
  at ← read_u32_at bytes 0x3C false
  if not (m && z) then not_an_image else pe_archs bytes at)
