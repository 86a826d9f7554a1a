-- ===== src/Providers/Policy.antt =====
-- Where the Core may connect to.
use tts_studio.Base.{
  ℕ, String, ◌≡◌, ◌≢◌, refl, sym, Bool, true, false, Option, none, some, List, [], ◌∷◌, arith, ◌⊎◌,
  inl, inr, Option-cases, eq_iff, value_or,
}
use mathlib.Core.Path.{subst}
use tts_studio.Base.Exec.{ok}
use tts_studio.Providers.Egress.{
  Url, Net, is_web, is_unsupported, addresses_of, are_all, permitted, named, located,
  provider_addresses, looked_up, default_port,
}

module _ (net : Net) where
  -- Some address, and all of them outside private networks, or all of them of this machine.
  abbrev pub IsPermitted : String → List net.Address → Type 0
  IsPermitted scheme [] = ⊥
  IsPermitted scheme (a ∷ bs) =
      ((scheme ≡ "https") × (are_all net net.is_global (a ∷ bs) ≡ true))
      ⊎ ((scheme ≡ "http") × (are_all net net.is_loopback (a ∷ bs) ≡ true))

  permitted_ok :
      (scheme : String) (found bs : List net.Address)
      → is_web scheme ≡ true
      → permitted net scheme found ≡ ok bs
      → (found ≡ bs) × IsPermitted scheme found
  unfolding permitted
  permitted_ok scheme [] bs w h = absurd (ground arith)
  permitted_ok scheme (a ∷ found) bs w h =
      (ground arith, ground (arith, eq_iff scheme "https", eq_iff scheme "http"))

  -- A name may be reached by HTTPS, and `localhost` only by HTTP.
  abbrev pub IsName : String → String → Type 0
  IsName scheme host =
      ((scheme ≡ "https") × (net.lower host ≢ "localhost"))
      ⊎ ((scheme ≡ "http") × (net.lower host ≡ "localhost"))

  -- What is accepted of a host: an address that is permitted, or a name that may be reached, whose
  -- addresses are permitted if they were looked up, and not known if not.
  abbrev pub IsTarget : String → String → Bool → List net.Address → Type 0
  IsTarget scheme host resolve_dns bs =
      ((a : net.Address) × (net.ip_address host ≡ some a) × (bs ≡ a ∷ []) × IsPermitted scheme bs)
      ⊎ ((net.ip_address host ≡ none)
          × IsName scheme host
          × (((resolve_dns ≡ true) × IsPermitted scheme bs) ⊎ ((resolve_dns ≡ false) × (bs ≡ []))))

  permitted-found :
      (scheme : String) (found bs : List net.Address)
      → is_web scheme ≡ true
      → permitted net scheme found ≡ ok bs
      → IsPermitted scheme bs
  permitted-found scheme found bs w h =
      let (e, p) = permitted_ok scheme found bs w h in subst (IsPermitted scheme) e p

  looked_up-IsPermitted :
      (scheme : String) (o : Option (List String)) (bs : List net.Address)
      → is_web scheme ≡ true
      → looked_up net scheme o ≡ ok bs
      → IsPermitted scheme bs
  looked_up-IsPermitted scheme none bs w h = absurd (ground arith)
  looked_up-IsPermitted scheme (some ts) bs w h = elim (Option-cases (addresses_of net ts)) [
    | inl e ↦ absurd (ground arith)
    | inr (found, e) ↦ permitted-found scheme (net.distinct found) bs w (ground arith)
  ]

  named-IsName :
      (scheme host : String) (port : Option ℕ) (r : Bool) (bs : List net.Address)
      → is_web scheme ≡ true
      → named net scheme host port r ≡ ok bs
      → IsName scheme host
  unfolding named
  named-IsName scheme host port r bs w h =
      ground
        (arith, eq_iff scheme "https", eq_iff scheme "http", eq_iff (net.lower host) "localhost")

  named_addresses :
      (scheme host : String) (port : Option ℕ) (r : Bool) (bs : List net.Address)
      → is_web scheme ≡ true
      → named net scheme host port r ≡ ok bs
      → ((r ≡ true) × IsPermitted scheme bs) ⊎ ((r ≡ false) × (bs ≡ []))
  unfolding named
  named_addresses scheme host port true bs w h = inl (
    refl,
    looked_up-IsPermitted scheme (net.getaddrinfo host (default_port net scheme port)) bs w
        (ground arith),
  )
  named_addresses scheme host port false bs w h = inr (refl, ground arith)

  located-IsTarget :
      (scheme host : String) (port : Option ℕ) (r : Bool) (bs : List net.Address)
      → located net scheme host port r ≡ ok bs
      → IsTarget scheme host r bs
  unfolding located
  located-IsTarget scheme host port r bs h =
      let w : is_web scheme ≡ true = ground arith in
      elim (Option-cases (net.ip_address host)) [
        | inl e ↦
            let n : named net scheme host port r ≡ ok bs = ground arith in
            inr
              (e, named-IsName scheme host port r bs w n, named_addresses scheme host port r bs w n)
        | inr (a, e) ↦
            let n : permitted net scheme (a ∷ []) ≡ ok bs = ground arith in
            let (same, p) = permitted_ok scheme (a ∷ []) bs w n in
            inl (a, e, sym same, permitted-found scheme (a ∷ []) bs w n)
      ]

  -- Every target that is accepted is a URL without user, password, query or fragment. Its host is an
  -- address, global for HTTPS and loopback for HTTP, or a name: `localhost` for HTTP and any other for
  -- HTTPS. If names are looked up, the name has one address at least, all of them global for HTTPS
  -- and loopback for HTTP.
  pub provider_addresses-IsPermitted :
      (url : String) (resolve_dns : Bool) (bs : List net.Address)
      → provider_addresses net url resolve_dns ≡ ok bs
      → (u : Url) × (net.split url ≡ some u)
        × (is_unsupported u ≡ false)
        × IsTarget (net.lower u.scheme) (value_or "" u.hostname) resolve_dns bs
  unfolding provider_addresses
  provider_addresses-IsPermitted url r bs h = elim (Option-cases (net.split url)) [
    | inl e ↦ absurd (ground arith)
    | inr (u, e) ↦ elim (Option-cases u.port) [
      | inl e' ↦ absurd (ground arith)
      | inr (port, e') ↦ (
        u,
        e,
        ground arith,
        located-IsTarget (net.lower u.scheme) (value_or "" u.hostname) port r bs (ground arith),
      )
    ]
  ]
