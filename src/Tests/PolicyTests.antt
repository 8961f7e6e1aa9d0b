-- ===== src/Tests/PolicyTests.antt =====
-- The theorems on the policy of the web tools at concrete inputs.
use groovy_agent.Base.{◌≡◌, refl, not, false, [], ◌∷◌, none, some, codes, same, ok}
use groovy_agent.Strings.{trim_space}
use groovy_agent.WebUtils.Policy.{
  ipv4, Url, Network, validate_and_resolve_url, is_public_address, any_contains,
  disallowed_ip_prefixes, ensure_public_host, check_addresses, is_https, is_valid, unmap,
  contains_addr, agree,
}
use groovy_agent.WebUtils.Policy.Public.{
  Opens, validate_and_resolve_url-Opens, is_public_address-any_contains,
}

abbrev example_url : Url
example_url = record {
  scheme = codes "HTTPS";
  host = codes "example.org";
  has_user = false;
  hostname = codes "example.org";
}

-- Every text is that URL, and its host has the address 93.184.216.34.
abbrev one_host : Network
one_host = record {
  parse_url = λ text. some example_url;
  parse_addr = λ host. none;
  lookup = λ host. some (ipv4 1572395042 ∷ []);
}

is_let_through : validate_and_resolve_url one_host (codes " https://example.org/") ≡ ok example_url
unfolding validate_and_resolve_url trim_space same ensure_public_host check_addresses is_https
    is_public_address is_valid unmap any_contains contains_addr agree
is_let_through = refl

validate_and_resolve_url-Opens_example : Opens one_host (codes " https://example.org/") example_url
validate_and_resolve_url-Opens_example =
    validate_and_resolve_url-Opens one_host (codes " https://example.org/") example_url
      is_let_through

is_public_address-any_contains_example :
    is_public_address (ipv4 1572395042)
    ≡ not (any_contains disallowed_ip_prefixes (ipv4 1572395042))
is_public_address-any_contains_example = is_public_address-any_contains 1572395042
