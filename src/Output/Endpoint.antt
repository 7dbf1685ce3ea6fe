-- ===== src/Output/Endpoint.antt =====
-- `EndpointPreview` and `parse_rtmp_endpoint` (src/studio_host.cpp).
pub mod Url
use streammate_studio_host.Prelude.{
  ℕ, ◌≤◌, ◌<◌, ◌≡◌, refl, Bool, true, false, not, ◌&&◌, ◌||◌, Option, none, some, [], ◌∷◌, ◌==◌,
  ltb, leb, if◌then◌else◌, Bytes, codes, equal, is_empty, after_prefix, arith,
}
use streammate_studio_host.Prelude.Int.{ℤ, pos, negsuc}
use streammate_studio_host.Rpc.Fields.{stoi}

pub record EndpointPreview : Type 0 where
  pub host : Bytes
  pub port : ℤ
  pub valid : Bool
  pub loopback : Bool

abbrev pub no_endpoint : EndpointPreview
no_endpoint = record { host = []; port = pos 1935; valid = false; loopback = false }

-- `substr(0, find(b))`: the text in front of the first `b`, or all of it.
until : ℕ → Bytes → Bytes
until b [] = []
until b (c ∷ text) = let more = c ∷ until b text in if c == b then [] else more

-- The text in front of the last `b` and the text behind it (`rfind`).
split_last : ℕ → Bytes → Option (Bytes × Bytes)
split_last b [] = none
split_last b (c ∷ text) = elim (split_last b text) [
  | some (front, behind) ↦ some (c ∷ front, behind)
  | none ↦ if c == b then some ([], text) else none
]

behind_credentials : Bytes → Bytes
unfolding split_last
behind_credentials authority = elim (split_last b'@' authority) [
  | some (front, behind) ↦ behind
  | none ↦ authority
]

-- `port > 0 && port <= 65535`
abbrev pub is_port : ℤ → Bool
is_port (pos n) = ltb 0 n && leb n 65535
is_port (negsuc n) = false

abbrev named : Bytes → Bytes
named host = if equal host (codes "localhost") then codes "127.0.0.1" else host

abbrev pub is_loopback : Bytes → Bool
is_loopback host =
    equal host (codes "127.0.0.1") || equal host (codes "::1") || equal host (codes "[::1]")

preview : Bytes → Option ℤ → EndpointPreview
preview host none = no_endpoint
preview host (some port) = record {
  host = named host;
  port = port;
  valid = not (is_empty (named host)) && is_port port;
  loopback = is_loopback (named host);
}

at_port : Bytes → Option (Bytes × Bytes) → EndpointPreview
unfolding preview
at_port authority none = preview authority (some (pos 1935))
at_port authority (some (host, digits)) = preview host (stoi digits)

of_authority : Bytes → EndpointPreview
unfolding split_last at_port
of_authority authority =
    if is_empty authority then no_endpoint else at_port authority (split_last b':' authority)

behind_scheme : Option Bytes → EndpointPreview
unfolding of_authority until behind_credentials
behind_scheme none = no_endpoint
behind_scheme (some rest) = of_authority (behind_credentials (until b'/' rest))

unfoldable pub parse_rtmp_endpoint : Bytes → EndpointPreview
unfolding behind_scheme
parse_rtmp_endpoint endpoint = behind_scheme (after_prefix (codes "rtmp://") endpoint)

-- The port is from 1 to 65535, and the endpoint counts as local just for a loopback host.
abbrev pub HasPort : EndpointPreview → Type 0
HasPort e = (n : ℕ) × (e.port ≡ pos n) × (0 < n) × (n ≤ 65535) × (e.loopback ≡ is_loopback e.host)

abbrev pub IsEndpoint : EndpointPreview → Type 0
IsEndpoint e = e.valid ≡ true → HasPort e

preview-IsEndpoint : (host : Bytes) (port : Option ℤ) → IsEndpoint (preview host port)
unfolding preview
preview-IsEndpoint host none h = cc
preview-IsEndpoint host (some (negsuc n)) h = absurd (ground arith)
preview-IsEndpoint host (some (pos n)) h = (n, refl, ground arith, ground arith, refl)

at_port-IsEndpoint :
    (authority : Bytes) (found : Option (Bytes × Bytes)) → IsEndpoint (at_port authority found)
unfolding at_port
at_port-IsEndpoint authority none = preview-IsEndpoint authority (some (pos 1935))
at_port-IsEndpoint authority (some (host, digits)) = preview-IsEndpoint host (stoi digits)

of_authority-IsEndpoint : (authority : Bytes) → IsEndpoint (of_authority authority)
unfolding of_authority
of_authority-IsEndpoint [] = λ h. cc
of_authority-IsEndpoint (c ∷ authority) =
    at_port-IsEndpoint (c ∷ authority) (split_last b':' (c ∷ authority))

behind_scheme-IsEndpoint : (rest : Option Bytes) → IsEndpoint (behind_scheme rest)
unfolding behind_scheme
behind_scheme-IsEndpoint none = λ h. cc
behind_scheme-IsEndpoint (some rest) =
    of_authority-IsEndpoint (behind_credentials (until b'/' rest))

pub parse_rtmp_endpoint-IsEndpoint : (endpoint : Bytes) → IsEndpoint (parse_rtmp_endpoint endpoint)
unfolding parse_rtmp_endpoint
parse_rtmp_endpoint-IsEndpoint endpoint =
    behind_scheme-IsEndpoint (after_prefix (codes "rtmp://") endpoint)
