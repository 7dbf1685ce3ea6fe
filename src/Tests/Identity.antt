-- ===== src/Tests/Identity.antt =====
-- The theorems on echoed ids at concrete inputs.
use streammate_studio_host.Prelude.{◌≡◌, refl, [], ◌∷◌, Bytes, codes, equal}
use streammate_studio_host.Json.Escape.{json_escape, escape_byte}
use streammate_studio_host.Rpc.Fields.{find, find_byte, skip_blank}
use streammate_studio_host.Rpc.Identity.{
  sanitize_json_string_token, extract_json_id, is_short_escape, is_hex,
}
use streammate_studio_host.Rpc.Identity.StringBody.{
  IsStringBody, reads, IsIdText, sanitize_json_string_token-IsStringBody, extract_json_id-IsIdText,
}
use streammate_studio_host.Rpc.Identity.Untouched.{sanitize_json_string_token-same}

-- A line feed, a backslash with no escape behind it, and an escape.
abbrev smuggled : Bytes
smuggled = 10 ∷ b'\\' ∷ b'x' ∷ b'\\' ∷ b'n' ∷ []

sanitize_test : sanitize_json_string_token smuggled ≡ codes "\\n\\\\x\\n"
unfolding sanitize_json_string_token json_escape escape_byte is_short_escape
sanitize_test = refl

extract_json_id_test : extract_json_id (codes "{\"id\": -12.5e3 }") ≡ codes "-12.5e3"
unfolding extract_json_id find find_byte skip_blank equal
extract_json_id_test = refl

extract_json_id_null_test : extract_json_id (codes "{\"id\": 012}") ≡ codes "null"
unfolding extract_json_id find find_byte skip_blank equal
extract_json_id_null_test = refl

sanitize_json_string_token-IsStringBody_example : IsStringBody (sanitize_json_string_token smuggled)
sanitize_json_string_token-IsStringBody_example = sanitize_json_string_token-IsStringBody smuggled

abbrev escapes : Bytes
escapes = b'\\' ∷ b'u' ∷ b'0' ∷ b'0' ∷ b'e' ∷ b'9' ∷ b'\\' ∷ b'"' ∷ b'a' ∷ []

escapes-IsStringBody : IsStringBody escapes
unfolding reads is_short_escape is_hex
escapes-IsStringBody = refl

sanitize_json_string_token-same_example : sanitize_json_string_token escapes ≡ escapes
sanitize_json_string_token-same_example =
    sanitize_json_string_token-same escapes escapes-IsStringBody

extract_json_id-IsIdText_example : IsIdText (extract_json_id (codes "{\"id\": \"a\\q\"}"))
extract_json_id-IsIdText_example = extract_json_id-IsIdText (codes "{\"id\": \"a\\q\"}")
