-- ===== src/WebUtils/Policy/Public.antt =====
-- A URL that the policy lets through: its host is public.
use mathlib.Core.Path.{subst}
use groovy_agent.Base.{
  ℕ, ◌/◌, ◌≤◌, ◌≡◌, ◌≢◌, refl, ap, ◌⊎◌, inl, inr, Bool, true, false, not, ◌||◌, ◌==◌, Bytes, List,
  [], ◌∷◌, Option, none, some, length, same, same_iff, ltb, ltb_false→le, All, Bool-cases,
  if◌then◌else◌, ok, bind-eq-ok, ok-injective, arith,
}
use groovy_agent.Strings.{trim_space}
use groovy_agent.WebUtils.Policy.{
  Addr, invalid, ipv4, Prefix, prefix4, prefix6, quad, groups, ipv6, agree, contains_addr,
  disallowed_ip_prefixes, any_contains, is_valid, is_unspecified, is_special, unmap,
  is_public_address, Url, Network, check_addresses, resolved, literal_or, ensure_public_host,
  max_url_length, max_hostname_length, is_https, check_url, validate_and_resolve_url,
}

-- The loopback, multicast, link-local and private ranges, which RFC 1122, 5771, 3927, 1918, 4291 and
-- 4193 define.
abbrev pub special_ranges : List Prefix
special_ranges =
    prefix4 (quad 127 0 0 0) 8
    ∷ prefix4 (quad 224 0 0 0) 4
    ∷ prefix4 (quad 169 254 0 0) 16
    ∷ prefix4 (quad 10 0 0 0) 8
    ∷ prefix4 (quad 172 16 0 0) 12
    ∷ prefix4 (quad 192 168 0 0) 16
    ∷ prefix6 (groups 0 0 0 0 1) 128
    ∷ prefix6 (groups 0xff00 0 0 0 0) 8
    ∷ prefix6 (groups 0xfe80 0 0 0 0) 10
    ∷ prefix6 (groups 0xfc00 0 0 0 0) 7
    ∷ []

-- An address lies in a range, whatever its zone.
abbrev pub lies_in : Prefix → Addr → Bool
lies_in (prefix4 base bits) (ipv4 a) = agree 32 base bits a
lies_in (prefix6 base bits) (ipv6 a zone) = agree 128 base bits a
lies_in _ _ = false

-- A valid address that is not unspecified, that none of the disallowed prefixes contains, and that
-- lies in no special range, also when it is an IPv4 address written as an IPv6 one.
pub record IsPublic (addr : Addr) : Type 0 where
  pub valid : is_valid addr ≡ true
  pub specified : (addr ≢ ipv4 0) × (addr ≢ ipv6 0 false)
  pub ordinary : All (λ range. lies_in range (unmap addr) ≡ false) special_ranges
  pub outside : All (λ prefix. contains_addr prefix addr ≡ false) disallowed_ip_prefixes

any_contains-All :
    (prefixes : List Prefix) (addr : Addr)
    → any_contains prefixes addr ≡ false
    → All (λ prefix. contains_addr prefix addr ≡ false) prefixes
unfolding any_contains
any_contains-All [] addr h = tt
any_contains-All (prefix ∷ rest) addr h = (ground arith, any_contains-All rest addr (ground arith))

unspecified-eq :
    (addr : Addr) → is_unspecified addr ≡ false → (addr ≢ ipv4 0) × (addr ≢ ipv6 0 false)
unfolding is_unspecified
unspecified-eq addr h = ((λ e. cc (h, ap is_unspecified e)), λ e. cc (h, ap is_unspecified e))

special-All :
    (addr : Addr)
    → is_special addr ≡ false
    → All (λ range. lies_in range addr ≡ false) special_ranges
unfolding is_special agree
special-All invalid h =
    (refl, (refl, (refl, (refl, (refl, (refl, (refl, (refl, (refl, (refl, tt))))))))))
special-All (ipv4 a) h = (
  ground arith,
  (
    ground arith,
    (
      ground arith,
      (ground arith, (ground arith, (ground arith, (refl, (refl, (refl, (refl, tt))))))),
    ),
  ),
)
special-All (ipv6 a zone) h = (
  refl,
  (
    refl,
    (
      refl,
      (refl, (refl, (refl, (ground arith, (ground arith, (ground arith, (ground arith, tt))))))),
    ),
  ),
)

is_public_address-IsPublic : (addr : Addr) → is_public_address addr ≡ true → IsPublic addr
unfolding is_public_address
is_public_address-IsPublic addr h = record {
  valid = ground arith;
  specified = unspecified-eq addr (ground arith);
  ordinary = special-All (unmap addr) (ground arith);
  outside = any_contains-All disallowed_ip_prefixes addr (ground arith);
}

-- The addresses that the policy has seen for a host: the one it spells, or all that it resolves to,
-- of which there is one at least.
abbrev IsPublicHost : Network → Bytes → Type 0
IsPublicHost N host =
    ((addr : Addr) × (N.parse_addr host ≡ some addr) × IsPublic addr)
    ⊎ ((ips : List Addr) × (N.lookup host ≡ some ips) × (ips ≢ []) × All IsPublic ips)

check_addresses-All :
    (any : Bool) (ips : List Addr) → check_addresses any ips ≡ ok tt → All IsPublic ips
unfolding check_addresses
check_addresses-All any [] h = tt
check_addresses-All any (ip ∷ ips) h = elim (Bool-cases (is_public_address ip)) [
  | inl e ↦ (is_public_address-IsPublic ip e, check_addresses-All true ips (rw e at h))
  | inr e ↦ cc (h, e)
]

ensure_public_host-IsPublicHost :
    (N : Network) (host : Bytes) → ensure_public_host N host ≡ ok tt → IsPublicHost N host
unfolding ensure_public_host literal_or resolved
ensure_public_host-IsPublicHost N host h = go (N.parse_addr host) (N.lookup host) refl refl h
  where
    go :
        (literal : Option Addr) (found : Option (List Addr))
        → N.parse_addr host ≡ literal
        → N.lookup host ≡ found
        → literal_or literal found ≡ ok tt
        → IsPublicHost N host
    go (some addr) found p l k = elim (Bool-cases (is_public_address addr)) [
      | inl e ↦ inl (addr, p, is_public_address-IsPublic addr e)
      | inr e ↦ cc (k, e)
    ]
    go none none p l k = cc
    go none (some []) p l k = cc
    go none (some (ip ∷ ips)) p l k =
        inr (ip ∷ ips, l, (λ e. cc), check_addresses-All false (ip ∷ ips) k)

-- What the policy has checked of a URL that it gives out.
pub record Opens (N : Network) (raw : Bytes) (url : Url) : Type 0 where
  pub parsed : N.parse_url (trim_space raw) ≡ some url
  pub short : length (trim_space raw) ≤ max_url_length
  pub secure : is_https url.scheme ≡ true
  pub has_host : url.host ≢ []
  pub no_user : url.has_user ≡ false
  pub short_name : length url.hostname ≤ max_hostname_length
  pub public : IsPublicHost N url.hostname

abbrev Checked : Network → Url → Type 0
Checked N url =
    (is_https url.scheme ≡ true)
    × (same url.host [] ≡ false)
    × (url.has_user ≡ false)
    × (ltb max_hostname_length (length url.hostname) ≡ false)
    × (ensure_public_host N url.hostname ≡ ok tt)

check_url-ok :
    (N : Network) (found : Option Url) (url : Url)
    → check_url N found ≡ ok url
    → (found ≡ some url) × Checked N url
unfolding check_url
check_url-ok N none url h = cc
check_url-ok N (some parsed) url h =
    let (checked, e, last) =
      bind-eq-ok (ensure_public_host N parsed.hostname) (λ _. ok parsed) {last = url}
        (ground arith) in
    let it : parsed ≡ url = ok-injective last in
    subst (λ u. (some parsed ≡ some u) × Checked N u) it
      (refl, (ground arith, ground arith, ground arith, ground arith, e))

-- A URL that `validateAndResolveURL` gives out was parsed from a text of at most 4096 bytes, has the
-- scheme https, a host and no user, and its host name of at most 512 bytes is a public address or
-- resolves to one address at least and to public ones only: none is unspecified or in a disallowed
-- prefix, and none, an IPv4 address taken out of an IPv6 one, is a loopback, multicast, link-local
-- or private address.
pub validate_and_resolve_url-Opens :
    (N : Network) (raw : Bytes) (url : Url)
    → validate_and_resolve_url N raw ≡ ok url
    → Opens N raw url
unfolding validate_and_resolve_url
validate_and_resolve_url-Opens N raw url h =
    let (parsed, checked) = check_url-ok N (N.parse_url (trim_space raw)) url (ground arith) in
    let (secure, host, no_user, short_name, public) = checked in
    record {
      parsed = parsed;
      short = ltb_false→le max_url_length _ (ground arith);
      secure = secure;
      has_host = λ e. cc (host, (same_iff url.host []).1 e);
      no_user = no_user;
      short_name = ltb_false→le max_hostname_length _ short_name;
      public = ensure_public_host-IsPublicHost N url.hostname public;
    }

zero-this_network : (a : ℕ) → (a / 16777216 == 0) ≡ false → (a == 0) ≡ false
zero-this_network a h = ground arith

local-multicast : (a : ℕ) → (a / 268435456 == 14) ≡ false → (a / 256 == 14680064) ≡ false
local-multicast a h = ground arith

if_same : (b : Bool) → (if b then false else false) ≡ false
if_same true = refl
if_same false = refl

outside-special :
    (a : ℕ)
    → All (λ prefix. contains_addr prefix (ipv4 a) ≡ false) disallowed_ip_prefixes
    → (is_unspecified (ipv4 a) ≡ false) × (is_special (ipv4 a) ≡ false)
unfolding contains_addr is_unspecified is_special
outside-special a
      (
        p0,
        (
          p10,
          (p100, (p127, (p169, (p172, (q0, (q1, (q2, (p192, (r0, (r1, (r2, (p224, rest)))))))))))),
        ),
      ) =
    (zero-this_network a p0, rw (p127, p224, p169, local-multicast a p224, p10, p172, p192) refl)

-- For an IPv4 address the list of prefixes decides: the tests of netip.Addr exclude no more.
pub is_public_address-any_contains :
    (a : ℕ) → is_public_address (ipv4 a) ≡ not (any_contains disallowed_ip_prefixes (ipv4 a))
unfolding is_public_address is_valid unmap
is_public_address-any_contains a =
    elim (Bool-cases (any_contains disallowed_ip_prefixes (ipv4 a))) [
      | inl e ↦ rw e (if_same (is_unspecified (ipv4 a) || is_special (ipv4 a)))
      | inr e ↦
          let (some_host, plain) =
            outside-special a (any_contains-All disallowed_ip_prefixes (ipv4 a) e) in
          rw (some_host, plain) refl
    ]
