-- ===== src/Tests/Encodings.antt =====
-- The theorems on the digests, base64, the frames and the probe at concrete inputs.
use streammate_studio_host.Prelude.{
  ◌≡◌, refl, true, false, some, [], ◌∷◌, ◌++◌, Bytes, codes, arith,
}
use streammate_studio_host.Encodings.Sha256.{
  new_stream, update, padded, finish_hex, sha256_hex_of_bytes,
}
use streammate_studio_host.Encodings.Chunks.{updates, finish_hex-updates}
use streammate_studio_host.Encodings.Standard.{sha256, hex_digest}
use streammate_studio_host.Encodings.Compression.{hash}
use streammate_studio_host.Encodings.Digest.{padded-update, sha256_hex_of_bytes-hex_digest}
use streammate_studio_host.Encodings.Base64.{base64, decoded, decoded-base64}
use streammate_studio_host.Encodings.Frames.{
  Mask, read_text_frame, send_text_frame, client_frame, read_text_frame-send_text_frame,
  read_text_frame-client_frame,
}
use streammate_studio_host.Plugins.Probe.{
  BinaryFile, probe_user_plugin_binary, IsProbed, probe_user_plugin_binary-IsProbed,
}

abbrev abc : Bytes
abc = b'a' ∷ b'b' ∷ b'c' ∷ []

sha256_hex_of_bytes_test :
    sha256_hex_of_bytes abc
    ≡ codes "ba7816bf8f01cfea414140de5dae2223b00361a396177a9cb410ff61f20015ad"
unfolding sha256_hex_of_bytes streammate_studio_host.Encodings.Sha256.process_block
sha256_hex_of_bytes_test = refl

base64_test : base64 (b'a' ∷ b'b' ∷ []) ≡ codes "YWI="
unfolding base64
base64_test = refl

finish_hex-updates_example :
    finish_hex (updates ((b'a' ∷ []) ∷ (b'b' ∷ b'c' ∷ []) ∷ []) new_stream)
    ≡ sha256_hex_of_bytes abc
finish_hex-updates_example = finish_hex-updates ((b'a' ∷ []) ∷ (b'b' ∷ b'c' ∷ []) ∷ [])

padded-update_example :
    (hash (padded (update abc new_stream)).h ≡ sha256 abc)
    × ((padded (update abc new_stream)).buffer ≡ [])
padded-update_example = padded-update abc

sha256_hex_of_bytes-hex_digest_example : sha256_hex_of_bytes abc ≡ hex_digest (sha256 abc)
sha256_hex_of_bytes-hex_digest_example = sha256_hex_of_bytes-hex_digest abc

decoded-base64_example : decoded (base64 abc) ≡ some abc
decoded-base64_example = decoded-base64 abc (omega arith, (omega arith, (omega arith, tt)))

read_text_frame-send_text_frame_example :
    read_text_frame (send_text_frame abc ++ 1 ∷ []) ≡ some (abc, 1 ∷ [])
read_text_frame-send_text_frame_example = read_text_frame-send_text_frame abc (1 ∷ []) (omega arith)

abbrev mask : Mask
mask = record { m0 = 17; m1 = 255; m2 = 0; m3 = 90 }

read_text_frame-client_frame_example :
    read_text_frame (client_frame mask abc ++ 1 ∷ []) ≡ some (abc, 1 ∷ [])
read_text_frame-client_frame_example =
    read_text_frame-client_frame mask abc (1 ∷ [])
      (omega arith, omega arith, omega arith, omega arith)
      (omega arith, (omega arith, (omega arith, tt))) (omega arith)

abbrev file : BinaryFile
file = record {
  size = some 3;
  opens = true;
  chunks = (b'a' ∷ []) ∷ (b'b' ∷ b'c' ∷ []) ∷ [];
  bad = false;
}

readable : (probe_user_plugin_binary file).readable ≡ true
unfolding probe_user_plugin_binary
readable = refl

probe_user_plugin_binary-IsProbed_example : IsProbed file (probe_user_plugin_binary file)
probe_user_plugin_binary-IsProbed_example =
    probe_user_plugin_binary-IsProbed file (refl, (refl, tt)) readable
