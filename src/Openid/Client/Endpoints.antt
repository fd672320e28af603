-- ===== src/Openid/Client/Endpoints.antt =====
-- What the client has checked before it sends a user away.
use mathlib.Core.Path.{subst}
use minority_prophet_border.Prelude.{
  Bool-cases, Option, String, [], ap, inl, inr, none, refl, some, sym, true, ◌∙◌, ◌≡◌, List, ℕ, ◌∷◌,
  nat_eq, ◌≢◌,
}
use minority_prophet_border.Py.Value.{Fields, Value, str}
use minority_prophet_border.Openid.Http.{secure_endpoint, HttpResponse, json_body, metadata_urls}
use minority_prophet_border.Openid.Client.Discovery.{
  endpoints_of, challenge_of, issuer_of, Challenge,
}
use minority_prophet_border.Py.Result.{Result-cases, ok, Exn, Result, err}
use minority_prophet_border.Openid.Web.{Web}
use minority_prophet_border.Openid.Client.{
  Client, Peer, PendingAuthorization, get_request, post_json,
}
use minority_prophet_border.Openid.Client.Begin.{
  Begun, answered, authorize_at, discover, redirected, begin, record_pending, request_access,
}
use minority_prophet_border.Py.Stateful.{Step-cases}
use minority_prophet_border.Openid.Server.{answer}
use minority_prophet_border.Py.Table.{set_row}
use minority_prophet_border.Openid.Client.Metadata.{
  IsDiscovered, IsFound, IsIssuer, IsSecure, endpoints_of-IsDiscovered, issuer_of-IsIssuer, ok_same,
  secure_endpoint-IsSecure,
}

-- A pending authorization and the answers that it rests on, from the first of the resource, at `s`,
-- to the last, at `t`
pub record IsPending {World : Type 0} (w : Web) (peer : Peer World) (resource : String) (c : Client)
    (p : PendingAuthorization) (first : HttpResponse) (s t : World) : Type 0 where
  pub challenge : Challenge
  pub challenged : challenge_of w first.headers ≡ ok challenge
  pub described : HttpResponse
  pub u : World
  pub asked : peer.request (get_request challenge.metadata_url) s ≡ (ok described, u)
  pub metadata : Fields
  pub decoded : json_body w.base described ≡ ok metadata
  pub issuer : String
  pub chosen : IsIssuer w resource metadata issuer
  pub urls : String × String
  pub addressed : metadata_urls w issuer ≡ ok urls
  pub server : Fields
  pub found : IsFound w peer urls server u t
  pub discovered : IsDiscovered w issuer server p.token_endpoint
  pub bound : p.resource ≡ resource
  pub scoped : p.scope ≡ challenge.scope
  pub returns : p.redirect_uri ≡ c.redirect_uri

begun_same : {p q : PendingAuthorization} {a b : String} → redirected p a ≡ redirected q b → p ≡ q
begun_same {p = p} h = ap pending_of h
  where
    pending_of : Begun → PendingAuthorization
    pending_of (answered r) = p
    pending_of (redirected q url) = q

never : {A B : Type 0} {e : Exn} {a : A} {b c : B} → ◌≡◌ {A = Result A × B} (err e, b) (ok a, c) → ⊥
never k = cc (ap (λ x. x.0) k)

discover-IsFound :
    {World : Type 0} (w : Web) (peer : Peer World) (urls : String × String) (document : Fields)
    (u v : World)
    → discover w peer (urls.0 ∷ urls.1 ∷ []) u ≡ (ok (some document), v)
    → IsFound w peer urls document u v
unfolding discover
discover-IsFound {World} w peer urls document u v h =
    elim (Step-cases (peer.request (get_request urls.0) u)) [
      | inr (e, x, a) ↦ absurd (never (rw a at h))
      | inl (r, x, a) ↦ elim (Bool-cases (nat_eq r.status 200)) [
        | inl y ↦ elim (Result-cases (json_body w.base r)) [
          | inr (e, j) ↦ absurd (never (rw (a, y, j) at h))
          | inl (d, j) ↦
              let done = rw (a, y, j) at h in
              (
                r,
                j ∙ ap ok (same_document done),
                y,
                inl (a ∙ ap (λ z. (ok r, z)) (ap (λ z. z.1) done)),
              )
        ]
        | inr n ↦ elim (Step-cases (peer.request (get_request urls.1) x)) [
          | inr (e, z, b) ↦ absurd (never (rw (a, n, b) at h))
          | inl (q, z, b) ↦ elim (Bool-cases (nat_eq q.status 200)) [
            | inr m ↦ absurd (missing (rw (a, n, b, m) at h))
            | inl y ↦ elim (Result-cases (json_body w.base q)) [
              | inr (e, j) ↦ absurd (never (rw (a, n, b, y, j) at h))
              | inl (d, j) ↦
                  let done = rw (a, n, b, y, j) at h in
                  (
                    q,
                    j ∙ ap ok (same_document done),
                    y,
                    inr (r, x, a, n, b ∙ ap (λ z. (ok q, z)) (ap (λ z. z.1) done)),
                  )
            ]
          ]
        ]
      ]
    ]
  where
    same_document :
        {d e : Fields} {x y : World}
        → ◌≡◌ {A = Result (Option Fields) × World} (ok (some d), x) (ok (some e), y)
        → d ≡ e
    same_document k = cc (ap (λ z. z.0) k)

    missing :
        {d : Fields} {x y : World}
        → ◌≡◌ {A = Result (Option Fields) × World} (ok none, x) (ok (some d), y)
        → ⊥
    missing k = cc (ap (λ z. z.0) k)

module _ {World : Type 0} (w : Web) (peer : Peer World) (c : Client) (resource : String)
    (verifier_bytes state_bytes : List ℕ) where
  authorize_at-IsPending :
      (first : HttpResponse) (p : PendingAuthorization) (url : String) (s t : World)
      → authorize_at w peer c resource verifier_bytes state_bytes first s
        ≡ (ok (redirected p url), t)
      → IsPending w peer resource c p first s t
  unfolding authorize_at
  authorize_at-IsPending first p url s t h = elim (Result-cases (challenge_of w first.headers)) [
    | inr (e, q) ↦ absurd (never (rw q at h))
    | inl (challenge, q) ↦ elim (Step-cases (peer.request (get_request challenge.metadata_url) s)) [
      | inr (e, u, a) ↦ absurd (never (rw (q, a) at h))
      | inl (answer, u, a) ↦ elim (Result-cases (json_body w.base answer)) [
        | inr (e, j) ↦ absurd (never (rw (q, a, j) at h))
        | inl (metadata, j) ↦ elim (Result-cases (issuer_of w resource metadata)) [
          | inr (e, i) ↦ absurd (never (rw (q, a, j, i) at h))
          | inl (issuer, i) ↦ elim (Result-cases (metadata_urls w issuer)) [
            | inr (e, m) ↦ absurd (never (rw (q, a, j, i, m) at h))
            | inl (urls, m) ↦ elim (Step-cases (discover w peer (urls.0 ∷ urls.1 ∷ []) u)) [
              | inr (e, v, d) ↦ absurd (never (rw (q, a, j, i, m, d) at h))
              | inl (found, v, d) ↦ elim (Result-cases (endpoints_of w issuer found)) [
                | inr (e, k) ↦ absurd (never (rw (q, a, j, i, m, d, k) at h))
                | inl (endpoints, k) ↦
                    let done = rw (q, a, j, i, m, d, k) at h in
                    let same = begun_same (ok_same (ap (λ x. x.0) done)) in
                    let (server, present, discovered) =
                      endpoints_of-IsDiscovered w issuer found endpoints k in
                    subst (λ r. IsPending w peer resource c r first s t) same
                      (record {
                        challenge = challenge;
                        challenged = q;
                        described = answer;
                        u = u;
                        asked = a;
                        metadata = metadata;
                        decoded = j;
                        issuer = issuer;
                        chosen = issuer_of-IsIssuer w resource issuer metadata i;
                        urls = urls;
                        addressed = m;
                        server = server;
                        found = discover-IsFound w peer urls server u t (
                            d
                            ∙ ap (λ x. (ok x, v)) present
                            ∙ ap (λ x. (ok (some server), x)) (ap (λ x. x.1) done));
                        discovered = discovered;
                        bound = refl;
                        scoped = refl;
                        returns = refl;
                      })
              ]
            ]
          ]
        ]
      ]
    ]
  ]

module _ {World : Type 0} (w : Web) (peer : Peer World) (c : Client)
    (verifier_bytes state_bytes : List ℕ) where
  -- The resource has answered the request with status 401, and the authorization rests on that.
  abbrev pub IsAsked : Fields → PendingAuthorization → World → World → Type 0
  IsAsked request p s t =
      (first : HttpResponse) × (u : World) × (peer.request (post_json p.resource [] request) s
        ≡ (ok first, u))
      × (nat_eq first.status 401 ≡ true)
      × IsPending w peer p.resource c p first u t

  request_access-IsPending :
      (resource_url : Value) (request : Fields) (p : PendingAuthorization) (url : String)
      (s t : World)
      → request_access w peer c resource_url request verifier_bytes state_bytes s
        ≡ (ok (redirected p url), t)
      → (resource_url ≡ str p.resource) × IsSecure w p.resource × IsAsked request p s t
  unfolding request_access
  request_access-IsPending resource_url request p url s t h =
      elim (Result-cases (secure_endpoint w resource_url "MCP resource")) [
        | inr (e, q) ↦ absurd (never (rw q at h))
        | inl (resource, q) ↦ elim (Step-cases (peer.request (post_json resource [] request) s)) [
          | inr (e, u, a) ↦ absurd (never (rw (q, a) at h))
          | inl (first, u, a) ↦ elim (Bool-cases (nat_eq first.status 401)) [
            | inr n ↦ absurd (answers (ok_same (ap (λ x. x.0) (rw (q, a, n) at h))))
            | inl y ↦
                let pending =
                  authorize_at-IsPending w peer c resource verifier_bytes state_bytes first p url u
                    t (rw (q, a, y) at h) in
                let (given, secure) =
                  secure_endpoint-IsSecure w resource_url "MCP resource" resource q in
                (
                  given ∙ ap str (sym pending.bound),
                  subst (IsSecure w) (sym pending.bound) secure,
                  (
                    first,
                    u,
                    subst (λ r. peer.request (post_json r [] request) s ≡ (ok first, u))
                        (sym pending.bound) a,
                    y,
                    subst (λ r. IsPending w peer r c p first u t) (sym pending.bound) pending,
                  ),
                )
          ]
        ]
      ]
    where
      answers :
          {r : HttpResponse} {p : PendingAuthorization} {url : String}
          → answered r ≢ redirected p url
      answers k = cc

  -- `begin` sends a user away only with an authorization that is then pending under its state. Its
  -- resource is the requested one, has answered with status 401, and is named exactly by the
  -- metadata that the peer has for the address of that answer's challenge. Its token endpoint is an
  -- absolute HTTPS address without credentials, from a document with status 200 at one of the two
  -- well-known addresses of the very issuer that this metadata lists first; the document names that
  -- issuer and has PKCE with SHA-256. Nothing else of the client changes.
  pub begin-IsPending :
      (resource_url : Value) (request : Fields) (p : PendingAuthorization) (url : String)
      (d : Client) (s t : World)
      → begin w peer resource_url request verifier_bytes state_bytes c s
        ≡ (ok (redirected p url), (d, t))
      → (resource_url ≡ str p.resource)
        × IsSecure w p.resource
        × IsAsked request p s t
        × (d ≡ record c { pending = set_row p.state p c.pending })
  unfolding begin record_pending
  begin-IsPending resource_url request p url d s t h =
      elim (Step-cases
        (request_access w peer c resource_url request verifier_bytes state_bytes s)) [
          | inr (e, u, q) ↦ absurd (never (rw (q, record_pending) at h))
          | inl (answered r, u, q) ↦ absurd (cc (ap (λ x. x.0) (rw (q, record_pending) at h)))
          | inl (redirected r a, u, q) ↦
              let done = rw (q, record_pending) at h in
              let same = begun_same (ok_same (ap (λ x. x.0) done)) in
              let (given, secure, asked) =
                request_access-IsPending resource_url request r a s u q in
              (
                given ∙ ap (λ x. str x.resource) same,
                subst (λ x. IsSecure w x.resource) same secure,
                subst (λ x. IsAsked request x s t) same
                    (subst (IsAsked request r s) (ap (λ x. x.1.1) done) asked),
                sym (ap (λ x. x.1.0) done)
                    ∙ ap (λ x. record c { pending = set_row x.state x c.pending }) same,
              )
        ]
