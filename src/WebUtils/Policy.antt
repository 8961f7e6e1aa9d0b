-- ===== src/WebUtils/Policy.antt =====
-- webutils/policy.go: which URLs the web tools may open. `url.Parse`, `netip.ParseAddr` and the
-- resolver are parameters; the tests of netip.Addr are written out for 32 and 128 bits.
pub mod Public
use groovy_agent.Base.{
  ℕ, zero, suc, ◌+◌, ◌-◌, ◌*◌, ◌/◌, ◌%◌, ◌^◌, ◌≡◌, refl, Bool, true, false, not, ◌&&◌, ◌||◌, Bytes,
  List, [], ◌∷◌, Option, none, some, length, same, ltb, leb, ◌==◌, codes, if◌then◌else◌, Result, ok,
  err, ◌>>=◌,
}
use groovy_agent.Strings.{trim_space}

-- `netip.Addr`: the number of the address, and for IPv6 whether it has a zone.
pub data Addr : Type 0 where
  invalid : Addr
  ipv4 : ℕ → Addr
  ipv6 : ℕ → Bool → Addr

-- `netip.Prefix`
pub data Prefix : Type 0 where
  prefix4 : ℕ → ℕ → Prefix
  prefix6 : ℕ → ℕ → Prefix

-- a.b.c.d
abbrev quad : ℕ → ℕ → ℕ → ℕ → ℕ
quad a b c d = ((a * 256 + b) * 256 + c) * 256 + d

-- An IPv6 address by its first four groups of 16 bits, and by the last.
abbrev groups : ℕ → ℕ → ℕ → ℕ → ℕ → ℕ
groups a b c d last = (((a * 2 ^ 16 + b) * 2 ^ 16 + c) * 2 ^ 16 + d) * 2 ^ 64 + last

-- The first `bits` of `width` bits agree.
unfoldable pub agree : ℕ → ℕ → ℕ → ℕ → Bool
agree width base bits a = a / 2 ^ (width - bits) == base / 2 ^ (width - bits)

-- `Prefix.Contains`, which takes no address with a zone and none of the other width.
unfoldable pub contains_addr : Prefix → Addr → Bool
unfolding agree
contains_addr (prefix4 base bits) (ipv4 a) = agree 32 base bits a
contains_addr (prefix6 base bits) (ipv6 a false) = agree 128 base bits a
contains_addr _ _ = false

-- `disallowedIPPrefixes`
abbrev pub disallowed_ip_prefixes : List Prefix
disallowed_ip_prefixes =
    prefix4 (quad 0 0 0 0) 8
    ∷ prefix4 (quad 10 0 0 0) 8
    ∷ prefix4 (quad 100 64 0 0) 10
    ∷ prefix4 (quad 127 0 0 0) 8
    ∷ prefix4 (quad 169 254 0 0) 16
    ∷ prefix4 (quad 172 16 0 0) 12
    ∷ prefix4 (quad 192 0 0 0) 24
    ∷ prefix4 (quad 192 0 2 0) 24
    ∷ prefix4 (quad 192 88 99 0) 24
    ∷ prefix4 (quad 192 168 0 0) 16
    ∷ prefix4 (quad 198 18 0 0) 15
    ∷ prefix4 (quad 198 51 100 0) 24
    ∷ prefix4 (quad 203 0 113 0) 24
    ∷ prefix4 (quad 224 0 0 0) 4
    ∷ prefix4 (quad 240 0 0 0) 4
    ∷ prefix6 (groups 0 0 0 0 0) 128
    ∷ prefix6 (groups 0 0 0 0 1) 128
    ∷ prefix6 (groups 0x64 0xff9b 1 0 0) 48
    ∷ prefix6 (groups 0x100 0 0 0 0) 64
    ∷ prefix6 (groups 0x2001 0 0 0 0) 32
    ∷ prefix6 (groups 0x2001 2 0 0 0) 48
    ∷ prefix6 (groups 0x2001 0xdb8 0 0 0) 32
    ∷ prefix6 (groups 0xfc00 0 0 0 0) 7
    ∷ prefix6 (groups 0xfe80 0 0 0 0) 10
    ∷ prefix6 (groups 0xff00 0 0 0 0) 8
    ∷ []

-- `Addr.Unmap`
mapped_low : ℕ
mapped_low = 0xffff * 2 ^ 32

unfoldable pub unmap : Addr → Addr
unfolding mapped_low
unmap (ipv6 a zone) =
    if leb mapped_low a && ltb a (mapped_low + 2 ^ 32) then ipv4 (a - mapped_low) else ipv6 a zone
unmap (ipv4 a) = ipv4 a
unmap invalid = invalid

-- `IsUnspecified`
is_unspecified : Addr → Bool
is_unspecified (ipv4 a) = a == 0
is_unspecified (ipv6 a zone) = a == 0 && not zone
is_unspecified invalid = false

-- `IsLoopback`, `IsMulticast`, `IsLinkLocalUnicast`, `IsLinkLocalMulticast` and `IsPrivate` of an
-- address that is unmapped.
is_special : Addr → Bool
unfolding agree
is_special invalid = false
is_special (ipv4 a) =
    agree 32 (quad 127 0 0 0) 8 a
    || agree 32 (quad 224 0 0 0) 4 a
    || agree 32 (quad 169 254 0 0) 16 a
    || agree 32 (quad 224 0 0 0) 24 a
    || agree 32 (quad 10 0 0 0) 8 a
    || agree 32 (quad 172 16 0 0) 12 a
    || agree 32 (quad 192 168 0 0) 16 a
is_special (ipv6 a zone) =
    a == 1
    || agree 128 (groups 0xff00 0 0 0 0) 8 a
    || agree 128 (groups 0xfe80 0 0 0 0) 10 a
    || (agree 128 (groups 0xff00 0 0 0 0) 8 a && a / 2 ^ 112 % 16 == 2)
    || agree 128 (groups 0xfc00 0 0 0 0) 7 a

unfoldable pub is_valid : Addr → Bool
is_valid invalid = false
is_valid _ = true

unfoldable pub any_contains : List Prefix → Addr → Bool
unfolding contains_addr
any_contains [] addr = false
any_contains (prefix ∷ rest) addr = contains_addr prefix addr || any_contains rest addr

-- `isPublicAddress`
unfoldable pub is_public_address : Addr → Bool
unfolding is_valid is_unspecified is_special unmap any_contains
is_public_address addr =
    if not (is_valid addr) || is_unspecified addr || is_special (unmap addr)
    then false
    else not (any_contains disallowed_ip_prefixes addr)

-- What `url.Parse` gives: the fields that are read here.
pub record Url : Type 0 where
  pub scheme : Bytes
  pub host : Bytes
  pub has_user : Bool
  pub hostname : Bytes

pub data UrlError : Type 0 where
  url_required url_too_long invalid_url must_be_https host_required : UrlError
  userinfo_not_allowed host_not_public host_no_public_address resolution_failed : UrlError

-- `url.Parse`, `netip.ParseAddr` and `LookupNetIP`
pub record Network : Type 0 where
  pub parse_url : Bytes → Option Url
  pub parse_addr : Bytes → Option Addr
  pub lookup : Bytes → Option (List Addr)

-- The loop over the addresses; `any` says that one was allowed.
unfoldable pub check_addresses : Bool → List Addr → Result UrlError (Unit {0})
unfolding is_public_address
check_addresses any [] = if any then ok tt else err host_no_public_address
check_addresses any (ip ∷ ips) =
    if is_public_address ip then check_addresses true ips else err host_not_public

resolved : Option (List Addr) → Result UrlError (Unit {0})
unfolding check_addresses
resolved none = err resolution_failed
resolved (some []) = err host_no_public_address
resolved (some (ip ∷ ips)) = check_addresses false (ip ∷ ips)

literal_or : Option Addr → Option (List Addr) → Result UrlError (Unit {0})
unfolding resolved is_public_address
literal_or (some addr) found = if is_public_address addr then ok tt else err host_not_public
literal_or none found = resolved found

-- `ensurePublicHost`
unfoldable pub ensure_public_host : Network → Bytes → Result UrlError (Unit {0})
unfolding literal_or
ensure_public_host N host = literal_or (N.parse_addr host) (N.lookup host)

abbrev max_url_length : ℕ
max_url_length = 4096

abbrev max_hostname_length : ℕ
max_hostname_length = 512

lower : ℕ → ℕ
lower c = if leb b'A' c && leb c b'Z' then c + 32 else c

-- `strings.EqualFold(text, "https")`: Unicode folds the long s, which takes two bytes, to s.
fold_from : Bytes → Bytes → Bool
unfolding lower
fold_from [] [] = true
fold_from [] (c ∷ text) = false
fold_from (p ∷ target) [] = false
fold_from (p ∷ target) (c ∷ []) = lower c == p && fold_from target []
fold_from (p ∷ target) (c ∷ d ∷ text) =
    let plain = fold_from target (d ∷ text) in
    let long = fold_from target text in
    if c == 0xc5 && d == 0xbf then p == b's' && long else lower c == p && plain

unfoldable pub is_https : Bytes → Bool
unfolding fold_from
is_https scheme = fold_from (codes "https") scheme

check_url : Network → Option Url → Result UrlError Url
unfolding is_https same
check_url N none = err invalid_url
check_url N (some parsed) =
    if not (is_https parsed.scheme)
    then err must_be_https
    else if same parsed.host []
    then err host_required
    else if parsed.has_user
    then err userinfo_not_allowed
    else if same parsed.hostname [] || ltb max_hostname_length (length parsed.hostname)
    then err host_required
    else ensure_public_host N parsed.hostname >>= λ _. ok parsed

-- `validateAndResolveURL`
unfoldable pub validate_and_resolve_url : Network → Bytes → Result UrlError Url
unfolding check_url same trim_space
validate_and_resolve_url N raw =
    let trimmed = trim_space raw in
    if same trimmed []
    then err url_required
    else if ltb max_url_length (length trimmed)
    then err url_too_long
    else check_url N (N.parse_url trimmed)

addresses_run :
    (is_public_address (ipv4 (quad 8 8 8 8)) ≡ true)
    × (is_public_address (ipv4 (quad 172 31 255 255)) ≡ false)
    × (is_public_address (ipv6 (groups 0xfe80 0 0 0 1) true) ≡ false)
    × (is_public_address (ipv6 (0xffff * 2 ^ 32 + quad 10 0 0 1) false) ≡ false)
    × (is_public_address (ipv6 (0xffff * 2 ^ 32 + quad 100 64 0 1) false) ≡ true)
unfolding is_public_address unmap agree is_valid any_contains contains_addr
addresses_run = (refl, refl, refl, refl, refl)
