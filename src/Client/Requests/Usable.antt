-- ===== src/Client/Requests/Usable.antt =====
-- client/client.go: a client that NewClient returns, and the requests that it builds.
use go_ssf.Prelude.{
  true, false, ◌||◌, Option, none, some, List, [], ◌∷◌, String, ◌==◌, ◌≡◌, refl, subst, Bool-cases,
  inl, inr, arith,
}
use go_ssf.Errors.{Error, Result, ok, err}
use go_ssf.Client.Requests.{
  Url, Net, Doer, EndpointPaths, HttpClient, Settings, ClientOption, http_doer,
  authorization_header, endpoints, or_default, with_endpoints, apply_client_option, settle,
  check_doer, construct, parsed_base, new_client, default_settings,
}

abbrev pub IsText : String → Type 0
IsText p = (p == "") ≡ false

abbrev pub HasPaths : EndpointPaths → Type 0
HasPaths p =
    IsText p.config
    × IsText p.status
    × IsText p.add_subject
    × IsText p.remove_subject
    × IsText p.verify
    × IsText p.poll

or_default-IsText : (p d : String) → IsText d → IsText (or_default p d)
or_default-IsText p d h = elim (Bool-cases (p == "")) [
  | inl empty ↦ rw empty h
  | inr given ↦ rw given given
]

module _ {W : Type 0} where
  apply-HasPaths :
      (c : Settings W) (o : ClientOption W)
      → HasPaths c.paths
      → HasPaths (apply_client_option c o).paths
  unfolding apply_client_option with_endpoints
  apply-HasPaths c (http_doer d) h = h
  apply-HasPaths c (authorization_header t) h = h
  apply-HasPaths c (endpoints p) (a, b, e, f, g, h) = (
    or_default-IsText p.config c.paths.config a,
    or_default-IsText p.status c.paths.status b,
    or_default-IsText p.add_subject c.paths.add_subject e,
    or_default-IsText p.remove_subject c.paths.remove_subject f,
    or_default-IsText p.verify c.paths.verify g,
    or_default-IsText p.poll c.paths.poll h,
  )

  settle-HasPaths :
      (os : List (ClientOption W)) (c : Settings W)
      → HasPaths c.paths
      → HasPaths (settle c os).paths
  unfolding settle
  settle-HasPaths [] c h = h
  settle-HasPaths (o ∷ os) c h = settle-HasPaths os (apply_client_option c o) (apply-HasPaths c o h)

  -- What NewClient promises of a client's base URL and paths.
  abbrev pub IsUsable : HttpClient W → Type 0
  IsUsable c =
      ((c.base_url.scheme == "http") || (c.base_url.scheme == "https")) ≡ true
      × ((c.base_url.host == "") ≡ false)
      × HasPaths c.paths

  abbrev ResultUsable : Result (HttpClient W) → Type 0
  ResultUsable (ok c) = IsUsable c
  ResultUsable (err e) = Unit

  check_doer-IsUsable :
      (base : Url) (c : Settings W) (o : Option (Doer W)) (r : HttpClient W)
      → ((base.scheme == "http") || (base.scheme == "https")) ≡ true
      → (base.host == "") ≡ false
      → HasPaths c.paths
      → check_doer base c o ≡ ok r
      → IsUsable r
  unfolding check_doer
  check_doer-IsUsable base c none r web host paths h = ground (arith, h)
  check_doer-IsUsable base c (some d) r web host paths h =
      subst (λ x. ResultUsable x) h (web, host, paths)

  construct-IsUsable :
      (net : Net) (d : Doer W) (os : List (ClientOption W)) (base : Url) (r : HttpClient W)
      → construct net d os base ≡ ok r
      → IsUsable r
  unfolding construct
  construct-IsUsable net d os base r h =
      elim (Bool-cases ((base.scheme == "") || (base.host == ""))) [
        | inl missing ↦ let refused = rw missing at h in ground (arith, refused)
        | inr present ↦
            let allowed = rw present at h in
            elim (Bool-cases ((base.scheme == "http") || (base.scheme == "https"))) [
              | inr other ↦ let refused = rw other at allowed in ground (arith, refused)
              | inl web ↦
                  let c = settle (default_settings d) os in
                  check_doer-IsUsable base c c.doer r web (ground (arith, present))
                    (settle-HasPaths os (default_settings d) (refl, refl, refl, refl, refl, refl))
                    (rw web at allowed)
            ]
      ]

  parsed-IsUsable :
      (text : Error → String) (net : Net) (d : Doer W) (os : List (ClientOption W)) (p : Result Url)
      (r : HttpClient W)
      → parsed_base text net d os p ≡ ok r
      → IsUsable r
  unfolding parsed_base
  parsed-IsUsable text net d os (ok base) r h = construct-IsUsable net d os base r h
  parsed-IsUsable text net d os (err e) r h = ground (arith, h)

  -- A client that NewClient returns, with any options in any order, has a base URL with a host and the scheme
  -- http or https, and a path for each of the six endpoints that is not empty.
  pub new_client-IsUsable :
      (text : Error → String) (net : Net) (d : Doer W) (base_url : String)
      (os : List (ClientOption W)) (c : HttpClient W)
      → new_client text net d base_url os ≡ ok c
      → IsUsable c
  unfolding new_client
  new_client-IsUsable text net d base_url os c h = elim (Bool-cases (base_url == "")) [
    | inl empty ↦ let refused = rw empty at h in ground (arith, refused)
    | inr given ↦ parsed-IsUsable text net d os (net.parse base_url) c (rw given at h)
  ]
