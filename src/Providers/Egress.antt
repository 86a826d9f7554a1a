-- ===== src/Providers/Egress.antt =====
-- src/tts_studio/providers/egress.py: the addresses of a provider that the Core may connect to.
use tts_studio.Base.{
  ℕ, String, Bool, true, not, ◌&&◌, ◌||◌, Option, none, some, List, [], ◌∷◌, map, is_some, str_eq,
  value_or, if◌then◌else◌,
}
use tts_studio.Base.Exec.{Result, ok, err, value_error, provider_egress}

-- What `urlsplit` gives; reading the port may raise.
pub record Url : Type 0 where
  pub scheme : String
  pub netloc : String
  pub query : String
  pub fragment : String
  pub username : Option String
  pub password : Option String
  pub port : Option (Option ℕ)
  pub hostname : Option String

-- The library: `urlsplit`, `str.lower`, `ip_address` and its tests, `getaddrinfo` with the address
-- texts of its answer, and `tuple` of a set. What raises is `none`.
pub record Net : Type 1 where
  pub Address : Type 0
  pub split : String → Option Url
  pub lower : String → String
  pub ip_address : String → Option Address
  pub is_global : Address → Bool
  pub is_loopback : Address → Bool
  pub text : Address → String
  pub getaddrinfo : String → ℕ → Option (List String)
  pub distinct : List Address → List Address

abbrev pub is_web : String → Bool
is_web scheme = str_eq scheme "http" || str_eq scheme "https"

-- The components that no target may have, and the one that it must.
abbrev pub is_unsupported : Url → Bool
is_unsupported u =
    is_some u.username
    || is_some u.password
    || not (str_eq u.query "")
    || not (str_eq u.fragment "")
    || str_eq u.netloc ""

module _ (net : Net) where
  -- `ip_address` of each text.
  unfoldable pub addresses_of : List String → Option (List net.Address)
  addresses_of [] = some []
  addresses_of (t ∷ ts) =
      let rest = addresses_of ts in
      elim (net.ip_address t) [
        | none ↦ none
        | some a ↦ elim rest [ none ↦ none | some bs ↦ some (a ∷ bs) ]
      ]

  unfoldable pub are_all : (net.Address → Bool) → List net.Address → Bool
  are_all test [] = true
  are_all test (a ∷ as') = test a && are_all test as'

  -- The tests of the addresses that were found.
  unfoldable pub permitted : String → List net.Address → Result (List net.Address)
  unfolding are_all
  permitted scheme [] = err provider_egress
  permitted scheme (a ∷ bs) =
      if (str_eq scheme "https" && not (are_all net.is_global (a ∷ bs)))
        || (str_eq scheme "http" && not (are_all net.is_loopback (a ∷ bs)))
      then err provider_egress
      else ok (a ∷ bs)

  abbrev pub default_port : String → Option ℕ → ℕ
  default_port scheme port = value_or (if str_eq scheme "https" then 443 else 80) port

  abbrev pub looked_up : String → Option (List String) → Result (List net.Address)
  looked_up scheme none = err provider_egress
  looked_up scheme (some ts) = elim (addresses_of ts) [
    | none ↦ err value_error
    | some bs ↦ permitted scheme (net.distinct bs)
  ]

  -- A host that is a name: only `localhost` may be reached by HTTP, and not by HTTPS.
  unfoldable pub named : String → String → Option ℕ → Bool → Result (List net.Address)
  unfolding addresses_of permitted
  named scheme host port resolve_dns =
      if (str_eq scheme "https" && str_eq (net.lower host) "localhost")
        || (str_eq scheme "http" && not (str_eq (net.lower host) "localhost"))
      then err provider_egress
      else if not resolve_dns
      then ok []
      else looked_up scheme (net.getaddrinfo host (default_port scheme port))

  unfoldable pub located : String → String → Option ℕ → Bool → Result (List net.Address)
  unfolding named permitted
  located scheme host port resolve_dns =
      if not (is_web scheme) || str_eq host ""
      then err provider_egress
      else elim (net.ip_address host) [
        | some a ↦ permitted scheme (a ∷ [])
        | none ↦ named scheme host port resolve_dns
      ]

  abbrev pub ported : Url → Bool → Option (Option ℕ) → Result (List net.Address)
  ported u resolve_dns none = err provider_egress
  ported u resolve_dns (some port) =
      located (net.lower u.scheme) (value_or "" u.hostname) port resolve_dns

  -- The addresses of `resolve_provider_addresses`, before they are written as text.
  unfoldable pub provider_addresses : String → Bool → Result (List net.Address)
  unfolding located
  provider_addresses url resolve_dns = elim (net.split url) [
    | none ↦ err value_error
    | some u ↦ if is_unsupported u then err provider_egress else ported u resolve_dns u.port
  ]

  unfoldable pub resolve_provider_addresses : String → Bool → Result (List String)
  unfolding provider_addresses
  resolve_provider_addresses url resolve_dns = elim (provider_addresses url resolve_dns) [
    | err e ↦ err e
    | ok bs ↦ ok (map net.text bs)
  ]

  -- `validate_provider_egress`.
  unfoldable pub validate_provider_egress : String → Bool → Result (Unit {0})
  unfolding resolve_provider_addresses
  validate_provider_egress url resolve_dns = elim (resolve_provider_addresses url resolve_dns) [
    | err e ↦ err e
    | ok bs ↦ ok tt
  ]
