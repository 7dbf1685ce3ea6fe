-- ===== src/Output/Endpoint/Url.antt =====
-- What `parse_rtmp_endpoint` makes of a URL that is put together from its parts.
use streammate_studio_host.Prelude.{
  ℕ, ◌^◌, ◌≤◌, ◌<◌, ◌≡◌, ◌≢◌, ◌↔◌, ◌⊎◌, refl, sym, ap, subst, ◌∙◌, true, false, ◌&&◌, Option, none,
  some, [], ◌∷◌, ◌++◌, ◌==◌, leb, if◌then◌else◌, Bytes, All, All-append, codes, equal, equal_iff,
  after_prefix, arith, append_assoc,
}
use streammate_studio_host.Prelude.Int.{pos}
use streammate_studio_host.Rpc.Fields.{stoi}
use streammate_studio_host.Rpc.Fields.Decimal.{AllDecimal, decimal, stoi-decimal}
use streammate_studio_host.Output.Endpoint.{
  EndpointPreview, parse_rtmp_endpoint, behind_scheme, of_authority, behind_credentials, until,
  split_last, at_port, preview,
}

-- A text without a byte.
abbrev pub Lacks : ℕ → Bytes → Type 0
Lacks b = All (λ c. (c == b) ≡ false)

until-Lacks : (b : ℕ) (text rest : Bytes) → Lacks b text → until b (text ++ b ∷ rest) ≡ text
unfolding until
until-Lacks b [] rest h = ground arith
until-Lacks b (c ∷ text) rest (n, h) = rw n (ap (λ x. c ∷ x) (until-Lacks b text rest h))

split_last-Lacks : (b : ℕ) (text : Bytes) → Lacks b text → split_last b text ≡ none
unfolding split_last
split_last-Lacks b [] h = refl
split_last-Lacks b (c ∷ text) (n, h) = rw (split_last-Lacks b text h, n) refl

split_last-append :
    (b : ℕ) (front behind : Bytes)
    → Lacks b behind
    → split_last b (front ++ b ∷ behind) ≡ some (front, behind)
unfolding split_last
split_last-append b [] behind h =
    let same : (b == b) ≡ true = ground arith in rw (split_last-Lacks b behind h, same) refl
split_last-append b (c ∷ front) behind h = rw (split_last-append b front behind h) refl

of_authority-split :
    (host digits : Bytes)
    → Lacks b':' digits
    → of_authority (host ++ b':' ∷ digits) ≡ preview host (stoi digits)
unfolding of_authority at_port
of_authority-split [] digits h = rw (split_last-append b':' [] digits h) refl
of_authority-split (c ∷ host) digits h = rw (split_last-append b':' (c ∷ host) digits h) refl

-- Digits are none of the bytes that separate the parts.
AllDecimal-Lacks :
    (b : ℕ)
    → ((c : ℕ) → (leb b'0' c && leb c b'9') ≡ true → (c == b) ≡ false)
    → (digits : Bytes) → AllDecimal digits
    → Lacks b digits
AllDecimal-Lacks b h [] d = tt
AllDecimal-Lacks b h (c ∷ digits) (d, ds) = (h c d, AllDecimal-Lacks b h digits ds)

-- What a URL with this host and this port is taken as: a host that is written localhost is the
-- address 127.0.0.1, the port has to be one, and just four ways to write the host are local.
abbrev pub IsTakenAs : Bytes → ℕ → EndpointPreview → Type 0
IsTakenAs host port e =
    (e.host ≡ (if equal host (codes "localhost") then codes "127.0.0.1" else host))
    × (e.port ≡ pos port)
    × ((e.valid ≡ true) ↔ ((host ≢ []) × (0 < port) × (port ≤ 65535)))
    × ((e.loopback ≡ true) ↔ (
        (host ≡ codes "localhost")
        ⊎ (host ≡ codes "127.0.0.1")
        ⊎ (host ≡ codes "::1")
        ⊎ (host ≡ codes "[::1]")))

preview-IsTakenAs : (host : Bytes) (port : ℕ) → IsTakenAs host port (preview host (some (pos port)))
unfolding preview equal
preview-IsTakenAs [] port = (refl, refl, ground arith, ground arith)
preview-IsTakenAs (c ∷ host) port = (
  refl,
  refl,
  ground (arith, equal_iff (c ∷ host) (codes "localhost")),
  ground (
    arith,
    equal_iff (c ∷ host) (codes "localhost"),
    equal_iff (c ∷ host) (codes "127.0.0.1"),
    equal_iff (c ∷ host) (codes "::1"),
    equal_iff (c ∷ host) (codes "[::1]"),
  ),
)

-- The credentials in front of the host, if there are any.
abbrev pub userinfo : Option Bytes → Bytes
userinfo none = []
userinfo (some user) = user ++ b'@' ∷ []

behind_credentials-userinfo :
    (user : Option Bytes) (authority : Bytes)
    → Lacks b'@' authority
    → behind_credentials (userinfo user ++ authority) ≡ authority
unfolding behind_credentials
behind_credentials-userinfo none authority h = rw (split_last-Lacks b'@' authority h) refl
behind_credentials-userinfo (some user) authority h =
    let found = split_last-append b'@' user authority h in
    subst (λ x. behind_credentials x ≡ authority) (sym (append_assoc user (b'@' ∷ []) authority))
      (subst
        (λ o.
          elim o [ some (front, behind) ↦ behind | none ↦ user ++ b'@' ∷ authority ] ≡ authority)
        (sym found) refl)

module _ (user : Option Bytes) (host : Bytes) (c : ℕ) (digits path : Bytes) where
  abbrev pub url : Bytes
  url = codes "rtmp://" ++ ((userinfo user ++ (host ++ b':' ∷ c ∷ digits)) ++ b'/' ∷ path)

  url-preview :
      Lacks b'/' (userinfo user)
      → Lacks b'/' host
      → Lacks b'@' host
      → AllDecimal (c ∷ digits)
      → parse_rtmp_endpoint url ≡ preview host (stoi (c ∷ digits))
  unfolding parse_rtmp_endpoint behind_scheme after_prefix
  url-preview u s a d =
      let slash = AllDecimal-Lacks b'/' (λ k h. ground arith) (c ∷ digits) d in
      let at = AllDecimal-Lacks b'@' (λ k h. ground arith) (c ∷ digits) d in
      let colon = AllDecimal-Lacks b':' (λ k h. ground arith) (c ∷ digits) d in
      let authority : Bytes = host ++ b':' ∷ c ∷ digits in
      ap (λ x. of_authority (behind_credentials x))
        (until-Lacks b'/' (userinfo user ++ authority) path (
          All-append (λ k. (k == b'/') ≡ false) (userinfo user) authority u
            (All-append (λ k. (k == b'/') ≡ false) host _ s (refl, slash))))
      ∙ ap of_authority (
          behind_credentials-userinfo user authority
            (All-append (λ k. (k == b'@') ≡ false) host _ a (refl, at)))
      ∙ of_authority-split host (c ∷ digits) colon

  -- A URL of rtmp with credentials or without, a host, decimal digits that an int holds, and any path
  -- is taken as that host and that port, whatever the credentials and the path hold (colons, at signs
  -- and other hosts too). It is valid exactly for a host that is not empty and a port from 1 to 65535,
  -- and it is local exactly for the four ways to write this machine.
  pub parse_rtmp_endpoint-IsTakenAs :
      Lacks b'/' (userinfo user)
      → Lacks b'/' host
      → Lacks b'@' host
      → AllDecimal (c ∷ digits)
      → decimal (c ∷ digits) 0 < 2 ^ 31
      → IsTakenAs host (decimal (c ∷ digits) 0) (parse_rtmp_endpoint url)
  parse_rtmp_endpoint-IsTakenAs u s a d small =
      subst (IsTakenAs host (decimal (c ∷ digits) 0))
        (sym (url-preview u s a d ∙ ap (preview host) (stoi-decimal c digits d small)))
        (preview-IsTakenAs host (decimal (c ∷ digits) 0))
