-- ===== src/Plugins/Probe.antt =====
-- `probe_user_plugin_binary` (src/studio_host.cpp).
use streammate_studio_host.Prelude.{
  ◌⊎◌, inl, inr, ℕ, ◌-◌, ◌*◌, ◌<◌, ◌≤◌, min, ◌≡◌, refl, sym, ap, ◌∙◌, Bool, true, false, not,
  Option, none, some, List, [], ◌∷◌, ◌++◌, append_assoc, append-nil, ltb, ltb→lt, length-take,
  if◌then◌else◌, Bytes, is_empty, length, take, All, if_holds, arith, zero, suc,
}
use streammate_studio_host.Encodings.Sha256.{Sha256Stream, new_stream, update, finish_hex}
use streammate_studio_host.Encodings.Chunks.{updates, concat, finish_hex-updates}
use streammate_studio_host.Encodings.Standard.{sha256, hex_digest}
use streammate_studio_host.Encodings.Digest.{sha256_hex_of_bytes-hex_digest}

-- What the file system says of a file: its size unless that fails, whether it opens, its bytes in the
-- chunks that are read, and whether a read fails.
pub record BinaryFile : Type 0 where
  pub size : Option ℕ
  pub opens : Bool
  pub chunks : List Bytes
  pub bad : Bool

-- An empty digest is one that is not taken.
pub record BinaryProbe : Type 0 where
  pub readable : Bool
  pub too_large : Bool
  pub digest : Bytes
  pub header : Bytes

-- `kBinaryHeaderWindowBytes` and `kMaxHashedBinaryBytes`
abbrev pub header_window : ℕ
header_window = 65536

abbrev pub max_hashed : ℕ
max_hashed = 536870912

abbrev unreadable : BinaryProbe
unreadable = record { readable = false; too_large = false; digest = []; header = [] }

unfoldable pub with_window : Bytes → Bytes → Bytes
with_window header chunk =
    if ltb (length header) header_window
    then header ++ take (min (length chunk) (header_window - length header)) chunk
    else header

unfoldable pub probe_loop : List Bytes → Sha256Stream → Bytes → Sha256Stream × Bytes
unfolding with_window
probe_loop [] s header = (s, header)
probe_loop (chunk ∷ chunks) s header =
    let rest = probe_loop chunks (update chunk s) (with_window header chunk) in
    if is_empty chunk then (s, header) else rest

-- The probe of a file that is not over the ceiling.
unfoldable pub hashed : BinaryFile → BinaryProbe
unfolding probe_loop
hashed file =
    let out = probe_loop file.chunks new_stream [] in
    record {
      readable = not file.bad;
      too_large = false;
      digest = if file.bad then [] else finish_hex out.0;
      header = out.1;
    }

unfoldable pub probe_sized : Option ℕ → BinaryFile → BinaryProbe
unfolding hashed
probe_sized none file = unreadable
probe_sized (some size) file =
    if not file.opens
    then unreadable
    else if ltb max_hashed size
    then record {
      readable = not file.bad;
      too_large = true;
      digest = [];
      header = take header_window (concat file.chunks);
    }
    else hashed file

unfoldable pub probe_user_plugin_binary : BinaryFile → BinaryProbe
unfolding probe_sized
probe_user_plugin_binary file = probe_sized file.size file

-- A read gives some bytes.
abbrev pub AllRead : List Bytes → Type 0
AllRead = All (λ chunk. is_empty chunk ≡ false)

take-append : (n : ℕ) (a b : Bytes) → take n (a ++ b) ≡ take n a ++ take (n - length a) b
take-append zero a b = let e : 0 ≡ 0 - length a = omega arith in ap (λ k. take k b) e
take-append (suc n) [] b = let e : suc n ≡ suc n - 0 = omega arith in ap (λ k. take k b) e
take-append (suc n) (c ∷ a) b =
    let e : n - length a ≡ suc n - suc (length a) = omega arith in
    ap (λ x. c ∷ x) (take-append n a b ∙ ap (λ k. take n a ++ take k b) e)

take-min : (n : ℕ) (a : Bytes) → take (min (length a) n) a ≡ take n a
take-min zero a = let e : min (length a) 0 ≡ 0 = omega arith in ap (λ k. take k a) e
take-min (suc n) [] = let e : min 0 (suc n) ≡ 0 = omega arith in ap (λ k. take k []) e
take-min (suc n) (c ∷ a) =
    let e : min (suc (length a)) (suc n) ≡ suc (min (length a) n) = omega arith in
    ap (λ k. take k (c ∷ a)) e ∙ ap (λ x. c ∷ x) (take-min n a)

take-all : (n : ℕ) (a : Bytes) → length a ≤ n → take n a ≡ a
take-all zero [] h = refl
take-all zero (c ∷ a) h = absurd (omega arith)
take-all (suc n) [] h = refl
take-all (suc n) (c ∷ a) h = ap (λ x. c ∷ x) (take-all n a (omega arith))

-- One chunk more in a window of any size.
window-take :
    (n : ℕ) (done chunk : Bytes)
    → (if ltb (length (take n done)) n
        then take n done ++ take (min (length chunk) (n - length (take n done))) chunk
        else take n done)
      ≡ take n (done ++ chunk)
window-take n done chunk =
    if_holds (λ x. x ≡ take n (done ++ chunk)) (ltb (length (take n done)) n)
      (λ room.
        let e : n - length (take n done) ≡ n - length done =
          omega (arith, length-take n done, ltb→lt (length (take n done)) n room) in
        ap (λ x. take n done ++ x)
          (take-min (n - length (take n done)) chunk ∙ ap (λ k. take k chunk) e)
        ∙ sym (take-append n done chunk))
      λ full.
        let e : 0 ≡ n - length done = ground (arith, length-take n done) in
        sym (append-nil (take n done))
        ∙ ap (λ k. take n done ++ take k chunk) e
        ∙ sym (take-append n done chunk)

probe_loop-eq :
    (chunks : List Bytes) (s : Sha256Stream) (done : Bytes)
    → AllRead chunks
    → probe_loop chunks s (take header_window done)
      ≡ (updates chunks s, take header_window (done ++ concat chunks))
unfolding probe_loop updates with_window
probe_loop-eq [] s done h = ap (λ x. (s, take header_window x)) (sym (append-nil done))
probe_loop-eq (chunk ∷ chunks) s done (some_bytes, h) =
    if_holds
      (λ out.
        out
        ≡ (updates chunks (update chunk s), take header_window (done ++ concat (chunk ∷ chunks))))
      (is_empty chunk) (λ none_read. cc)
      λ e.
        ap (probe_loop chunks (update chunk s)) (window-take header_window done chunk)
        ∙ probe_loop-eq chunks (update chunk s) (done ++ chunk) h
        ∙ ap (λ x. (updates chunks (update chunk s), take header_window x))
            (append_assoc done chunk (concat chunks))

-- The header window is the front of the file; a file of more than 512 MiB is marked and has no
-- digest, and any other has the digest of its bytes.
abbrev pub IsProbed : BinaryFile → BinaryProbe → Type 0
IsProbed file p =
    (p.header ≡ take 65536 (concat file.chunks))
    × (n : ℕ) × (file.size ≡ some n)
    × ((512 * 1024 * 1024 < n) × (p.too_large ≡ true) × (p.digest ≡ [])
        ⊎ (n ≤ 512 * 1024 * 1024)
          × (p.too_large ≡ false)
          × (p.digest ≡ hex_digest (sha256 (concat file.chunks))))

hashed-IsProbed :
    (file : BinaryFile)
    → AllRead file.chunks
    → (hashed file).readable ≡ true
    → ((hashed file).header ≡ take 65536 (concat file.chunks))
      × ((hashed file).digest ≡ hex_digest (sha256 (concat file.chunks)))
unfolding hashed
hashed-IsProbed file h r =
    let loop = probe_loop-eq file.chunks new_stream [] h in
    let good : file.bad ≡ false = ground arith in
    (
      ap (λ out. out.1) loop,
      rw good (
          ap (λ out. finish_hex out.0) loop
          ∙ finish_hex-updates file.chunks
          ∙ sha256_hex_of_bytes-hex_digest (concat file.chunks)),
    )

hashed-small : (file : BinaryFile) → (hashed file).too_large ≡ false
unfolding hashed
hashed-small file = refl

probe_sized-IsProbed :
    (size : Option ℕ) (file : BinaryFile)
    → file.size ≡ size
    → AllRead file.chunks
    → (probe_sized size file).readable ≡ true
    → IsProbed file (probe_sized size file)
unfolding probe_sized
probe_sized-IsProbed none file e h = λ r. cc
probe_sized-IsProbed (some size) file s h =
    if_holds (λ (p : BinaryProbe). p.readable ≡ true → IsProbed file p) (not file.opens) (λ e r. cc)
      λ e.
        if_holds (λ (p : BinaryProbe). p.readable ≡ true → IsProbed file p) (ltb max_hashed size)
          (λ over r. (refl, size, s, inl (ltb→lt max_hashed size over, refl, refl)))
          λ under r.
            let (header, digest) = hashed-IsProbed file h r in
            let fits : size ≤ 512 * 1024 * 1024 = ground arith in
            (header, size, s, inr (fits, hashed-small file, digest))

-- Of a file that a probe calls readable, the window of the header is the first 64 KiB, however long
-- the chunks are in which it is read. A file whose size is over 512 MiB is marked as too large and has
-- no digest; any other is not, and its digest is the SHA-256 of all its bytes, as the standard
-- describes it. Every chunk has at least a byte.
pub probe_user_plugin_binary-IsProbed :
    (file : BinaryFile)
    → AllRead file.chunks
    → (probe_user_plugin_binary file).readable ≡ true
    → IsProbed file (probe_user_plugin_binary file)
unfolding probe_user_plugin_binary
probe_user_plugin_binary-IsProbed file h r = probe_sized-IsProbed file.size file refl h r
