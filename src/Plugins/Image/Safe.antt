-- ===== src/Plugins/Image/Safe.antt =====
-- The parsers of binaries read inside the bytes that they are given.
use streammate_studio_host.Prelude.{
  ℕ, zero, suc, ◌+◌, ◌-◌, ◌*◌, ◌≤◌, ◌<◌, ◌≡◌, ◌≢◌, refl, ◌⊎◌, inl, inr, Bool, true, false, not,
  ◌&&◌, ◌||◌, none, some, List, [], ◌∷◌, ◌++◌, ◌==◌, ltb, if◌then◌else◌, Bytes, codes, length,
  get_elem?, All, All-append, arith, if_holds,
}
use streammate_studio_host.Prelude.Maybe.{◌>>=◌}
use streammate_studio_host.Prelude.Ordered.{member}
use streammate_studio_host.Plugins.Image.{
  Archs, read_u32_at, cpu_type_label, is_thin64, is_thin32, is_fat, thin_archs, fat_entries,
  entry_size, fat_table, fat_archs, macho_archs, parse_macho_archs, has_byte, machine_label,
  coff_archs, pe_archs, parse_pe_archs,
}

abbrev pub IsLabel : Bytes → Type 0
IsLabel label = (label ≡ codes "arm64") ⊎ ((label ≡ codes "x86_64") ⊎ (label ≡ codes "unknown"))

-- No read past the end; an image has at least one architecture, and each is one of three labels.
abbrev pub IsSafe : Archs → Type 0
IsSafe none = ⊥
IsSafe (some none) = Unit
IsSafe (some (some archs)) = (archs ≢ []) × All IsLabel archs

get_elem?-some : (bytes : Bytes) (i : ℕ) → i < length bytes → (b : ℕ) × (get_elem? bytes i ≡ some b)
get_elem?-some [] i h = absurd (omega arith)
get_elem?-some (c ∷ bytes) zero h = (c, refl)
get_elem?-some (c ∷ bytes) (suc i) h = get_elem?-some bytes i (omega arith)

-- A read inside the bytes goes on.
byte-IsSafe :
    (bytes : Bytes) (i : ℕ) (next : ℕ → Archs)
    → i < length bytes
    → ((b : ℕ) → IsSafe (next b))
    → IsSafe (get_elem? bytes i >>= next)
byte-IsSafe bytes i next h k = let (b, e) = get_elem?-some bytes i h in rw e (k b)

word-IsSafe :
    (bytes : Bytes) (at : ℕ) (big_endian : Bool) (next : ℕ → Archs)
    → at + 4 ≤ length bytes
    → ((n : ℕ) → IsSafe (next n))
    → IsSafe (read_u32_at bytes at big_endian >>= next)
unfolding read_u32_at
word-IsSafe bytes at big_endian next h k =
    let (a, e0) = get_elem?-some bytes at (omega arith) in
    let (b, e1) = get_elem?-some bytes (at + 1) (omega arith) in
    let (c, e2) = get_elem?-some bytes (at + 2) (omega arith) in
    let (d, e3) = get_elem?-some bytes (at + 3) (omega arith) in rw (e0, e1, e2, e3) (k _)

cpu_type_label-IsLabel : (cputype : ℕ) → IsLabel (cpu_type_label cputype)
unfolding cpu_type_label
cpu_type_label-IsLabel cputype =
    if_holds IsLabel (cputype == 0x0100000C) (λ e. inl refl)
      λ e. if_holds IsLabel (cputype == 0x01000007) (λ e. inr (inl refl)) λ e. inr (inr refl)

machine_label-IsLabel : (machine : ℕ) → IsLabel (machine_label machine)
unfolding machine_label
machine_label-IsLabel machine =
    if_holds IsLabel (machine == 0x8664) (λ e. inr (inl refl))
      λ e. if_holds IsLabel (machine == 0xAA64) (λ e. inl refl) λ e. inr (inr refl)

singleton-IsSafe : (label : Bytes) → IsLabel label → IsSafe (some (some (label ∷ [])))
singleton-IsSafe label h = ((λ e. cc), (h, tt))

thin_archs-IsSafe : (bytes : Bytes) (magic : ℕ) → IsSafe (thin_archs bytes magic)
unfolding thin_archs
thin_archs-IsSafe bytes magic =
    if_holds IsSafe (ltb (length bytes) (if is_thin64 magic then 32 else 28)) (λ e. tt)
      λ e.
        word-IsSafe bytes 4 _ _ (ground arith)
          λ n. singleton-IsSafe (cpu_type_label n) (cpu_type_label-IsLabel n)

kept-IsLabel :
    (label : Bytes) (archs : List Bytes)
    → IsLabel label
    → All IsLabel archs
    → All IsLabel (if member label archs then archs else archs ++ label ∷ [])
kept-IsLabel label archs h hs =
    if_holds (All IsLabel) (member label archs) (λ e. hs) λ e. All-append IsLabel archs _ hs (h, tt)

kept-ne :
    (label : Bytes) (archs : List Bytes)
    → (if member label archs then archs else archs ++ label ∷ []) ≢ []
unfolding member
kept-ne label [] = λ e. cc
kept-ne label (a ∷ archs) =
    if_holds (λ (kept : List Bytes). kept ≢ []) (member label (a ∷ archs)) (λ e n. cc) λ e n. cc

fat_entries-IsSafe :
    (bytes : Bytes) (big_endian : Bool) (size at left : ℕ) (archs : List Bytes)
    → 4 ≤ size
    → at + left * size ≤ length bytes
    → All IsLabel archs
    → (left ≡ 0 → archs ≢ [])
    → IsSafe (fat_entries bytes big_endian size at left archs)
unfolding fat_entries
fat_entries-IsSafe bytes big_endian size at zero archs s h ls ne = (ne refl, ls)
fat_entries-IsSafe bytes big_endian size at (suc left) archs s h ls ne =
    word-IsSafe bytes at big_endian _ (omega arith) λ n.
      fat_entries-IsSafe bytes big_endian size (at + size) left _ s (omega arith)
        (kept-IsLabel (cpu_type_label n) archs (cpu_type_label-IsLabel n) ls)
        λ e. kept-ne (cpu_type_label n) archs

fat_table-IsSafe :
    (bytes : Bytes) (big_endian : Bool) (size nfat : ℕ)
    → 4 ≤ size
    → IsSafe (fat_table bytes big_endian size nfat)
unfolding fat_table
fat_table-IsSafe bytes big_endian size nfat s =
    if_holds IsSafe (nfat == 0 || ltb 128 nfat) (λ e. tt)
      λ some_entries.
        if_holds IsSafe (ltb (length bytes) (8 + nfat * size)) (λ e. tt)
          λ e.
            fat_entries-IsSafe bytes big_endian size 8 nfat [] s (ground arith) tt
              λ z. absurd (ground arith)

fat_archs-IsSafe :
    (bytes : Bytes) (big_endian : Bool) (magic : ℕ)
    → 8 ≤ length bytes
    → IsSafe (fat_archs bytes big_endian magic)
unfolding fat_archs
fat_archs-IsSafe bytes big_endian magic h =
    word-IsSafe bytes 4 big_endian _ (omega arith)
      λ n. fat_table-IsSafe bytes big_endian (entry_size magic) n (ground arith)

macho_archs-IsSafe :
    (bytes : Bytes) (magic_le magic_be : ℕ)
    → 8 ≤ length bytes
    → IsSafe (macho_archs bytes magic_le magic_be)
unfolding macho_archs
macho_archs-IsSafe bytes magic_le magic_be h =
    if_holds IsSafe (is_thin64 magic_le || is_thin32 magic_le)
      (λ e. thin_archs-IsSafe bytes magic_le)
      λ e.
        if_holds IsSafe (is_fat magic_be) (λ e. fat_archs-IsSafe bytes true magic_be h)
          λ e.
            if_holds IsSafe (is_fat magic_le) (λ e. fat_archs-IsSafe bytes false magic_le h) λ e. tt

-- Whatever the bytes of a file are, the Mach-O parser reads inside them, and an image that it accepts
-- has at least one architecture, each arm64, x86_64 or unknown.
pub parse_macho_archs-IsSafe : (bytes : Bytes) → IsSafe (parse_macho_archs bytes)
unfolding parse_macho_archs
parse_macho_archs-IsSafe bytes =
    if_holds IsSafe (ltb (length bytes) 8) (λ e. tt)
      λ e. word-IsSafe bytes 0 false _ (ground arith) λ le.
        word-IsSafe bytes 0 true _ (ground arith)
          λ be. macho_archs-IsSafe bytes le be (ground arith)

test-IsSafe :
    (bytes : Bytes) (i c : ℕ) (next : Bool → Archs)
    → i < length bytes
    → ((b : Bool) → IsSafe (next b))
    → IsSafe (has_byte bytes i c >>= next)
unfolding has_byte
test-IsSafe bytes i c next h k = let (b, e) = get_elem?-some bytes i h in rw e (k (b == c))

coff_archs-IsSafe : (bytes : Bytes) (at : ℕ) → at + 24 ≤ length bytes → IsSafe (coff_archs bytes at)
unfolding coff_archs
coff_archs-IsSafe bytes at h = test-IsSafe bytes at b'P' _ (omega arith) λ p.
    test-IsSafe bytes (at + 1) b'E' _ (omega arith) λ e.
      test-IsSafe bytes (at + 2) 0 _ (omega arith) λ z.
        test-IsSafe bytes (at + 3) 0 _ (omega arith) λ y.
          byte-IsSafe bytes (at + 4) _ (omega arith) λ low.
            byte-IsSafe bytes (at + 5) _ (omega arith) λ high.
              if_holds IsSafe (not (p && e && z && y)) (λ no. tt)
                λ yes. singleton-IsSafe _ (machine_label-IsLabel (high * 256 + low))

pe_archs-IsSafe : (bytes : Bytes) (at : ℕ) → IsSafe (pe_archs bytes at)
unfolding pe_archs
pe_archs-IsSafe bytes at =
    if_holds IsSafe (ltb at 64 || ltb (length bytes) at || ltb (length bytes - at) 24) (λ e. tt)
      λ e. coff_archs-IsSafe bytes at (ground arith)

-- Whatever the bytes of a file are, the PE parser reads inside them, and an image that it accepts has
-- one architecture, arm64, x86_64 or unknown.
pub parse_pe_archs-IsSafe : (bytes : Bytes) → IsSafe (parse_pe_archs bytes)
unfolding parse_pe_archs
parse_pe_archs-IsSafe bytes =
    if_holds IsSafe (ltb (length bytes) 64) (λ e. tt)
      λ e. test-IsSafe bytes 0 b'M' _ (ground arith) λ m.
        test-IsSafe bytes 1 b'Z' _ (ground arith) λ z.
          word-IsSafe bytes 0x3C false _ (ground arith)
            λ at. if_holds IsSafe (not (m && z)) (λ no. tt) λ yes. pe_archs-IsSafe bytes at
