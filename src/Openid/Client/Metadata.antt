-- ===== src/Openid/Client/Metadata.antt =====
-- What the client of border/openid_gateway.py has read of the metadata of a resource and of an
-- authorization server.
use mathlib.Core.Path.{subst}
use minority_prophet_border.Prelude.{
  Bool-cases, Option, String, [], ap, arith, false, inl, inr, none, refl, some, sym, true, ◌∙◌, ◌≡◌,
  nat_eq, ◌⊎◌,
}
use minority_prophet_border.Py.Value.{
  Fields, Value, arr, bool, float, get, get_or, int, list, null, obj, str, Items, cons, nil,
}
use minority_prophet_border.Openid.Http.{secure_endpoint, HttpResponse, json_body}
use minority_prophet_border.Openid.Client.Discovery.{
  Endpoints, endpoints_of, issuer_of, first_server,
}
use minority_prophet_border.Py.Result.{Result-cases, ok}
use minority_prophet_border.Openid.Web.{Url, Web, is_https, rstrip, shown}
use minority_prophet_border.Py.Contains.{contains_text}
use minority_prophet_border.Py.Equality.{value_eq}
use minority_prophet_border.Openid.Client.{Peer, get_request}
use minority_prophet_border.Py.Chain.{first_some, guarded}

abbrev pub IsSecure : Web → String → Type 0
IsSecure w url = (u : Url) × (w.urlparse url ≡ ok u) × (is_https u ≡ true)

pub ok_same : {A : Type 0} {x y : A} → ok x ≡ ok y → x ≡ y
ok_same e = cc

pub secure_endpoint-IsSecure :
    (w : Web) (v : Value) (name url : String)
    → secure_endpoint w v name ≡ ok url
    → (v ≡ str url) × IsSecure w url
unfolding secure_endpoint
secure_endpoint-IsSecure w (str s) name url h = elim (Result-cases (w.urlparse s)) [
  | inr (e, q) ↦ absurd (ground arith)
  | inl (u, q) ↦ elim (Bool-cases (is_https u)) [
    | inr n ↦ absurd (ground arith)
    | inl y ↦
        let same = ok_same (rw (q, y) at h) in (ap str same, (u, ap w.urlparse (sym same) ∙ q, y))
  ]
]
secure_endpoint-IsSecure w (obj d) name url h = absurd cc
secure_endpoint-IsSecure w (arr vs) name url h = absurd cc
secure_endpoint-IsSecure w (float r) name url h = absurd cc
secure_endpoint-IsSecure w (int n) name url h = absurd cc
secure_endpoint-IsSecure w (bool b) name url h = absurd cc
secure_endpoint-IsSecure w null name url h = absurd cc

-- Metadata of the issuer gives the endpoint, over HTTPS, and has PKCE with SHA-256.
pub record IsDiscovered (w : Web) (issuer : String) (metadata : Fields) (endpoint : String)
    : Type 0 where
  pub issued : value_eq (get metadata "issuer") (str issuer) ≡ true
  pub named : get metadata "token_endpoint" ≡ str endpoint
  pub secure : IsSecure w endpoint
  pub pkce :
      contains_text "S256" (get_or metadata "code_challenge_methods_supported" (list [])) ≡ ok true

pub endpoints_of-IsDiscovered :
    (w : Web) (issuer : String) (found : Option Fields) (endpoints : Endpoints)
    → endpoints_of w issuer found ≡ ok endpoints
    → (metadata : Fields) × (found ≡ some metadata) × IsDiscovered w issuer metadata endpoints.token
unfolding endpoints_of
endpoints_of-IsDiscovered w issuer none endpoints h = absurd cc
endpoints_of-IsDiscovered w issuer (some metadata) endpoints h =
    elim (Bool-cases (value_eq (get metadata "issuer") (str issuer))) [
      | inr n ↦ absurd (ground arith)
      | inl y ↦
          elim (Result-cases
            (secure_endpoint w (get metadata "authorization_endpoint") "authorization_endpoint")) [
              | inr (e, q) ↦ absurd (ground arith)
              | inl (a, q) ↦
                  elim (Result-cases
                    (secure_endpoint w (get metadata "token_endpoint") "token_endpoint")) [
                      | inr (e, p) ↦ absurd (ground arith)
                      | inl (b, p) ↦
                          elim (Result-cases (
                            contains_text "S256"
                              (get_or metadata "code_challenge_methods_supported" (list [])))) [
                                | inr (e, k) ↦ absurd (ground arith)
                                | inl (false, k) ↦ absurd (ground arith)
                                | inl (true, k) ↦
                                    let same = ap (λ x. x.token) (ok_same (rw (y, q, p, k) at h)) in
                                    let (named, secure) =
                                      secure_endpoint-IsSecure w _ "token_endpoint" b p in
                                    (
                                      metadata,
                                      refl,
                                      record {
                                        issued = y;
                                        named = named ∙ ap str same;
                                        secure = subst (IsSecure w) same secure;
                                        pkce = k;
                                      },
                                    )
                              ]
                    ]
            ]
    ]

-- The peer answers one of the two addresses with status 200 and this document: the second only
-- where it has answered the first with another status.
abbrev pub IsFound :
    {World : Type 0} → Web → Peer World → String × String → Fields → World → World → Type 0
IsFound {World} w peer urls document u v =
    (r : HttpResponse) × (json_body w.base r ≡ ok document)
    × (nat_eq r.status 200 ≡ true)
    × ((peer.request (get_request urls.0) u ≡ (ok r, v))
        ⊎ ((other : HttpResponse) × (between : World) × (peer.request (get_request urls.0) u
              ≡ (ok other, between))
            × (nat_eq other.status 200 ≡ false)
            × (peer.request (get_request urls.1) between ≡ (ok r, v))))

-- The issuer is the first authorization server that the metadata lists, without a slash at its end,
-- at an HTTPS address.
pub record IsIssuer (w : Web) (resource : String) (metadata : Fields) (issuer : String)
    : Type 0 where
  pub same : value_eq (get metadata "resource") (str resource) ≡ true
  pub server : Value
  pub others : Items
  pub listed : get metadata "authorization_servers" ≡ arr (cons server others)
  pub named : rstrip (nat_eq b'/') (shown w server) ≡ issuer
  pub secure : IsSecure w issuer

first_server-cons :
    (v server : Value)
    → first_server v ≡ ok server
    → (others : Items) × (v ≡ arr (cons server others))
first_server-cons (arr (cons v vs)) server h = (vs, ground arith)
first_server-cons (arr nil) server h = cc
first_server-cons null server h = cc
first_server-cons _ server h = cc

pub issuer_of-IsIssuer :
    (w : Web) (resource issuer : String) (metadata : Fields)
    → issuer_of w resource metadata ≡ ok issuer
    → IsIssuer w resource metadata issuer
unfolding issuer_of
issuer_of-IsIssuer w resource issuer metadata h =
    let (same, h1) = guarded (value_eq (get metadata "resource") (str resource)) _ _ h in
    let (server, e, h2) = first_some (first_server (get metadata "authorization_servers")) _ h1 in
    let (others, listed) = first_server-cons (get metadata "authorization_servers") server e in
    let (named, secure) = secure_endpoint-IsSecure w _ "authorization server issuer" issuer h2 in
    record {
      same = same;
      server = server;
      others = others;
      listed = listed;
      named = same_text named;
      secure = secure;
    }
  where
    same_text : {a b : String} → str a ≡ str b → a ≡ b
    same_text e = cc
