-- ===== src/Tests/Launch.antt =====
-- Runs of the manifest's parser, and the scanner's and the parser's theorems at concrete texts.
use streammate_studio_host.Prelude.{[], ◌∷◌, ◌≡◌, refl, false, codes}
use streammate_studio_host.Prelude.{some, ◌++◌, arith}
use streammate_studio_host.Prelude.Result.{ok, err, Post}
use streammate_studio_host.Json.Escape.{json_escape}
use streammate_studio_host.Scanner.Strings.{string-json_escape}
use streammate_studio_host.Manifest.Checks.{IsReason, IsSafeManifest}
use streammate_studio_host.Manifest.Sound.{parse_manifest_text-Checked}
use streammate_studio_host.Scanner.{hex4_value}
use streammate_studio_host.Scanner.Utf8.{append_utf8}
use streammate_studio_host.Manifest.{
  parse_root, parse_roots, root_loop, root_value, parse_refs, contains,
}
use streammate_studio_host.Manifest.Parse.{parse_manifest_text, key_value}
use streammate_studio_host.Manifest.{is_module_ref, is_absolute_manifest_path, duplicate_key}
use streammate_studio_host.Manifest.Parse.{all_absolute}
use streammate_studio_host.Prelude.{equal, after_prefix}
use streammate_studio_host.Scanner.{consume, literal, string, eof}
use streammate_studio_host.Scanner.Number.{integer}
use streammate_studio_host.Scanner.Value.{skip_value, skip_items}

full_manifest :
    parse_manifest_text (
      codes
        " {\"version\": 1, \"roots\":[{\"binaryDir\":\"/p\\u00e9\",\"x\":[1,{\"y\":null}]}], \"retry\":[\"module:a\"]}")
    ≡ ok (record {
      roots = record { binary_dir = b'/' ∷ b'p' ∷ 0xC3 ∷ 0xA9 ∷ []; data_dir = [] } ∷ [];
      has_selected = false;
      selected = [];
      exclude = [];
      retry = codes "module:a" ∷ [];
    })
unfolding parse_manifest_text key_value parse_root parse_roots root_loop root_value parse_refs
    contains is_module_ref is_absolute_manifest_path all_absolute equal after_prefix consume literal
    string eof integer skip_value skip_items hex4_value append_utf8
full_manifest = refl

duplicate : parse_manifest_text (codes "{\"version\":1,\"version\":1}") ≡ err duplicate_key
unfolding parse_manifest_text key_value contains equal consume string integer
duplicate = refl

string-json_escape_example :
    string (b'"' ∷ (json_escape (b'"' ∷ 10 ∷ 1 ∷ b'z' ∷ []) ++ b'"' ∷ codes ",1"))
    ≡ some (b'"' ∷ 10 ∷ 1 ∷ b'z' ∷ [], codes ",1")
string-json_escape_example =
    string-json_escape (b'"' ∷ 10 ∷ 1 ∷ b'z' ∷ []) (codes ",1") (omega arith)

parse_manifest_text-Checked_example :
    Post IsSafeManifest IsReason
      (parse_manifest_text (codes "{\"version\":1,\"roots\":[{\"binaryDir\":\"/p\"}]}"))
parse_manifest_text-Checked_example =
    parse_manifest_text-Checked (codes "{\"version\":1,\"roots\":[{\"binaryDir\":\"/p\"}]}")
