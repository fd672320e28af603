-- ===== src/Openid/Client/Issued.antt =====
-- What the client has checked before it stores a token.
use minority_prophet_border.Prelude.{
  Bool-cases, String, ap, arith, false, inl, inr, nat_eq, sym, true, ◌==◌, ◌∙◌, ◌≡◌, List,
  Option-cases, some, ◌⊎◌, Bool, refl, ◌||◌,
}
use minority_prophet_border.Openid.Http.{HttpResponse, json_body}
use minority_prophet_border.Openid.Client.Discovery.{
  keeps_scope, token_of, Callback, callback_of, token_text,
}
use minority_prophet_border.Openid.Web.{Web, shown, words}
use minority_prophet_border.Py.Value.{
  Fields, Value, arr, bool, float, get, int, null, obj, str, is_null, mem,
}
use minority_prophet_border.Py.Result.{Result-cases, ok, Exn, err, Result}
use minority_prophet_border.Py.Stateful.{Step-cases}
use minority_prophet_border.Py.Table.{row_of, set_row, without_row}
use minority_prophet_border.Openid.Client.Complete.{
  complete, exchange, redeem, redeem_callback, token_form, updated, store_token,
}
use minority_prophet_border.Openid.Client.{Client, Peer, PendingAuthorization, post_form}

-- The token is the one of a response with status 200 that names no scope, or the one asked for.
pub record IsToken (w : Web) (scope : String) (r : HttpResponse) (token : String) : Type 0 where
  pub document : Fields
  pub decoded : json_body w.base r ≡ ok document
  pub success : r.status ≡ 200
  pub named : get document "access_token" ≡ str token
  pub not_empty : (token == "") ≡ false
  pub scoped :
      (is_null (get document "scope") ≡ true)
      ⊎ (mem scope (words w.is_space (shown w (get document "scope"))) ≡ true)

ok_injective : {A : Type 0} {x y : A} → ok x ≡ ok y → x ≡ y
ok_injective e = cc

token_text-str :
    (v : Value) (token : String)
    → token_text v ≡ ok token
    → (v ≡ str token) × ((token == "") ≡ false)
token_text-str (str s) token h = elim (Bool-cases (s == "")) [
  | inl y ↦ absurd (cc (rw y at h))
  | inr n ↦ let same = ok_injective (rw n at h) in (ap str same, ap (λ x. x == "") (sym same) ∙ n)
]
token_text-str (obj d) token h = absurd cc
token_text-str (arr vs) token h = absurd cc
token_text-str (float r) token h = absurd cc
token_text-str (int n) token h = absurd cc
token_text-str (bool b) token h = absurd cc
token_text-str null token h = absurd cc

either_true : (a b : Bool) → (a || b) ≡ true → (a ≡ true) ⊎ (b ≡ true)
either_true true b h = inl refl
either_true false b h = inr h

keeps_scope-eq-true :
    (w : Web) (scope : String) (returned : Value)
    → keeps_scope w scope returned ≡ true
    → (is_null returned ≡ true) ⊎ (mem scope (words w.is_space (shown w returned)) ≡ true)
unfolding keeps_scope
keeps_scope-eq-true w scope returned h =
    either_true (is_null returned) (mem scope (words w.is_space (shown w returned))) h

token_of-IsToken :
    (w : Web) (scope : String) (r : HttpResponse) (token : String)
    → token_of w scope r ≡ ok token
    → IsToken w scope r token
unfolding token_of
token_of-IsToken w scope r token h = elim (Result-cases (json_body w.base r)) [
  | inr (e, q) ↦ absurd (ground arith)
  | inl (document, q) ↦ elim (Bool-cases (nat_eq r.status 200)) [
    | inr n ↦ absurd (ground arith)
    | inl y ↦ elim (Result-cases (token_text (get document "access_token"))) [
      | inr (e, p) ↦ absurd (ground arith)
      | inl (found, p) ↦ elim (Bool-cases (keeps_scope w scope (get document "scope"))) [
        | inr n ↦ absurd (ground arith)
        | inl k ↦
            let (named, not_empty) = token_text-str (get document "access_token") found p in
            let same = ok_injective (rw (q, y, p, k) at h) in
            record {
              document = document;
              decoded = q;
              success = ground arith;
              named = named ∙ ap str same;
              not_empty = ap (λ x. x == "") (sym same) ∙ not_empty;
              scoped = keeps_scope-eq-true w scope (get document "scope") k;
            }
      ]
    ]
  ]
]

-- A completion and the steps it rests on: the callback's state is pending with a resource, and the
-- token endpoint that is pending with it has answered the code with a token.
pub record IsCompletion {World : Type 0} (w : Web) (peer : Peer World) (url resource : String)
    (c d : Client) (s t : World) : Type 0 where
  pub callback : Callback
  pub p : PendingAuthorization
  pub extra : List (String × String)
  pub u : World
  pub response : HttpResponse
  pub token : String
  pub read : callback_of w c.redirect_uri url ≡ ok callback
  pub found : row_of callback.state c.pending ≡ some p
  pub has_code : (callback.code == "") ≡ false
  pub authenticated : peer.client_authentication p.token_endpoint s ≡ (ok extra, u)
  pub answered :
      peer.request
        (post_form p.token_endpoint (updated (token_form c.client_id p callback.code) extra))
        u
      ≡ (ok response, t)
  pub issued : IsToken w p.scope response token
  pub same : resource ≡ p.resource
  pub stored : d ≡ record c {
    pending = without_row callback.state c.pending;
    tokens = set_row resource token c.tokens;
  }

-- The steps put together, with what they end in
completion :
    {World : Type 0} {w : Web} {peer : Peer World} {url resource : String} {c d : Client}
    {s t v : World} (callback : Callback) (p : PendingAuthorization)
    (extra : List (String × String)) (u : World) (response : HttpResponse) (token : String)
    → callback_of w c.redirect_uri url ≡ ok callback
    → row_of callback.state c.pending ≡ some p
    → (callback.code == "") ≡ false
    → peer.client_authentication p.token_endpoint s ≡ (ok extra, u)
    → peer.request
        (post_form p.token_endpoint (updated (token_form c.client_id p callback.code) extra))
        u
      ≡ (ok response, v)
    → IsToken w p.scope response token
    → ◌≡◌ {A = Result String × (Client × World)}
        (
          ok p.resource,
          (
            record c {
              pending = without_row callback.state c.pending;
              tokens = set_row p.resource token c.tokens;
            },
            v,
          ),
        )
        (ok resource, (d, t))
    → IsCompletion w peer url resource c d s t
completion {c = c} callback p extra u response token read found has_code a b issued done =
    let same = ok_injective (ap (λ x. x.0) done) in
    record {
      callback = callback;
      p = p;
      extra = extra;
      u = u;
      response = response;
      token = token;
      read = read;
      found = found;
      has_code = has_code;
      authenticated = a;
      answered = b ∙ ap (λ x. (ok response, x)) (ap (λ x. x.1.1) done);
      issued = issued;
      same = sym same;
      stored =
          sym (ap (λ x. x.1.0) done)
          ∙ ap
              (λ r. record c {
                pending = without_row callback.state c.pending;
                tokens = set_row r token c.tokens;
              })
              same;
    }

-- `complete` returns a resource only where a response with status 200 from the pending token
-- endpoint has issued a token that is not empty, and whose answer either names no scope or names the
-- requested one among its scopes, in answer to the callback's code. The token is stored for the resource of the authorization that was pending under
-- the callback's state, which is no longer pending; nothing else of the client changes.
pub complete-IsCompletion :
    {World : Type 0} (w : Web) (peer : Peer World) (url resource : String) (c d : Client)
    (s t : World)
    → complete w peer url c s ≡ (ok resource, (d, t))
    → IsCompletion w peer url resource c d s t
unfolding complete redeem_callback exchange redeem store_token
complete-IsCompletion w peer url resource c d s t h =
    elim (Result-cases (callback_of w c.redirect_uri url)) [
      | inr (e, q) ↦ absurd (fails (rw q at h))
      | inl (callback, q) ↦ elim (Option-cases (row_of callback.state c.pending)) [
        | inl absent ↦ absurd (fails (rw (q, absent, redeem) at h))
        | inr (p, found) ↦ elim (Bool-cases (callback.code == "")) [
          | inl y ↦ absurd (fails (rw (q, found, redeem, y) at h))
          | inr has_code ↦ elim (Step-cases (peer.client_authentication p.token_endpoint s)) [
            | inr (e, u, a) ↦ absurd (fails (rw (q, found, redeem, has_code, a) at h))
            | inl (extra, u, a) ↦
                elim (Step-cases (
                  peer.request
                    (post_form p.token_endpoint
                      (updated (token_form c.client_id p callback.code) extra))
                    u)) [
                      | inr (e, v, b) ↦ absurd (fails (rw (q, found, redeem, has_code, a, b) at h))
                      | inl (response, v, b) ↦ elim (Result-cases (token_of w p.scope response)) [
                        | inr (e, k) ↦
                            absurd (fails (rw (q, found, redeem, has_code, a, b, k) at h))
                        | inl (token, k) ↦
                            let done = rw (q, found, redeem, has_code, a, b, k) at h in
                            completion {c = c} callback p extra u response token q found has_code a
                              b (token_of-IsToken w p.scope response token k) done
                      ]
                    ]
          ]
        ]
      ]
    ]
  where
    fails :
        {A B : Type 0} {e : Exn} {a : A} {b c : B} → ◌≡◌ {A = Result A × B} (err e, b) (ok a, c) → ⊥
    fails k = cc (ap (λ x. x.0) k)
