-- ===== src/Openid/Client/Once.antt =====
-- A state of an authorization is used at most once.
use mathlib.Core.Path.{subst}
use minority_prophet_border.Prelude.{
  Bool-cases, Option, String, code, inl, inr, none, refl, some, ◌==◌, ◌≡◌, List, Option-cases, [],
  ap, nat_eq, ◌∙◌, ◌∷◌, sym,
}
use minority_prophet_border.Openid.Client.Complete.{
  exchange, redeem, store_token, Use, calls, complete, completes, redeem_callback, use_all,
}
use minority_prophet_border.Openid.Client.{Client, Peer, PendingAuthorization, call, settle_call}
use minority_prophet_border.Py.Stateful.{Step-cases}
use minority_prophet_border.Openid.Web.{Web}
use minority_prophet_border.Openid.Client.Discovery.{Callback, callback_of}
use minority_prophet_border.Openid.Http.{HttpResponse}
use minority_prophet_border.Admission.Base.{refused}
use minority_prophet_border.Py.Result.{Result, err, ok}
use minority_prophet_border.Py.Value.{Fields}
use minority_prophet_border.Py.Table.{
  row_of, row_of-without_row-none, without_row, row_of-without_row, without_row_absent,
}

module _ {World : Type 0} (w : Web) (peer : Peer World) where
  settle_call_pending :
      (resource : String) (c : Client) (step : Result HttpResponse × World)
      → ((settle_call resource c step).1.0.pending ≡ c.pending)
        × ((settle_call resource c step).1.0.redirect_uri ≡ c.redirect_uri)
  unfolding settle_call
  settle_call_pending resource c (err e, t) = (refl, refl)
  settle_call_pending resource c (ok r, t) = elim (Bool-cases (nat_eq r.status 401)) [
    | inl y ↦ rw (y, settle_call) (refl, refl)
    | inr n ↦ rw (n, settle_call) (refl, refl)
  ]

  redeem_pending :
      (o : Option PendingAuthorization) (code : String) (c : Client) (s : World)
      → ((redeem w peer o code c s).1.0.pending ≡ c.pending)
        × ((redeem w peer o code c s).1.0.redirect_uri ≡ c.redirect_uri)
  unfolding redeem store_token
  redeem_pending none code c s = (refl, refl)
  redeem_pending (some p) code c s = elim (Bool-cases (code == "")) [
    | inl y ↦ rw (y, redeem) (refl, refl)
    | inr n ↦ elim (Step-cases (exchange w peer c.client_id p code s)) [
      | inl (token, t, q) ↦ rw (n, redeem, q) (refl, refl)
      | inr (e, t, q) ↦ rw (n, redeem, q) (refl, refl)
    ]
  ]

  call_pending :
      (resource : String) (request : Fields) (c : Client) (s : World)
      → ((call peer resource request c s).1.0.pending ≡ c.pending)
        × ((call peer resource request c s).1.0.redirect_uri ≡ c.redirect_uri)
  unfolding call
  call_pending resource request c s = elim (Option-cases (row_of resource c.tokens)) [
    | inl absent ↦ rw (absent, call) (refl, refl)
    | inr (token, q) ↦ rw (q, call) (settle_call_pending resource c _)
  ]

  -- No authorization is pending under the state, and callbacks come to the address.
  pub record IsSpent (state address : String) (c : Client) : Type 0 where
    pub absent : row_of state c.pending ≡ none
    pub same : c.redirect_uri ≡ address

  redeem_callback-IsSpent :
      (state address : String) (r : Result Callback) (c : Client) (s : World)
      → IsSpent state address c
      → IsSpent state address (redeem_callback w peer r c s).1.0
  unfolding redeem_callback
  redeem_callback-IsSpent state address (err e) c s h = h
  redeem_callback-IsSpent state address (ok callback) c s h =
      let d = record c { pending = without_row callback.state c.pending } in
      let (pending, same) = redeem_pending (row_of callback.state c.pending) callback.code d s in
      record {
        absent =
            ap (row_of state) pending
            ∙ row_of-without_row-none state callback.state c.pending h.absent;
        same = same ∙ h.same;
      }

  use_all-IsSpent :
      (state address : String) (us : List Use) (c : Client) (s : World)
      → IsSpent state address c
      → IsSpent state address (use_all w peer us c s).0
  unfolding complete
  use_all-IsSpent state address [] c s h = h
  use_all-IsSpent state address (completes url ∷ us) c s h =
      use_all-IsSpent state address us _ _
        (redeem_callback-IsSpent state address (callback_of w c.redirect_uri url) c s h)
  use_all-IsSpent state address (calls resource request ∷ us) c s h =
      let (pending, same) = call_pending resource request c s in
      use_all-IsSpent state address us _ _
        (record { absent = ap (row_of state) pending ∙ h.absent; same = same ∙ h.same })

  redeem_absent :
      {o : Option PendingAuthorization} {rows : List (String × PendingAuthorization)}
      (code : String) (d : Client) (t : World)
      → o ≡ none
      → rows ≡ d.pending
      → redeem w peer o code (record d { pending = rows }) t
        ≡ (err (refused "authorization callback state or code is invalid"), (d, t))
  unfolding redeem
  redeem_absent {rows = rows} code d t h k =
      ap (λ o. redeem w peer o code (record d { pending = rows }) t) h
      ∙ ap
          (λ ps. (
            err (refused "authorization callback state or code is invalid"),
            (record d { pending = ps }, t),
          ))
          k

  -- A callback that reached its authorization, whatever came of it, is refused when it comes again,
  -- after any completions and calls but a new beginning: nothing is asked of a peer, and the client
  -- is left as it was.
  pub complete_once :
      (url : String) (callback : Callback) (us : List Use) (c d : Client) (s t : World)
      → callback_of w c.redirect_uri url ≡ ok callback
      → use_all w peer (completes url ∷ us) c s ≡ (d, t)
      → complete w peer url d t
        ≡ (err (refused "authorization callback state or code is invalid"), (d, t))
  unfolding complete redeem_callback
  complete_once url callback us c d s t read history =
      let cleared = record c { pending = without_row callback.state c.pending } in
      let (pending, same) =
        redeem_pending (row_of callback.state c.pending) callback.code cleared s in
      let first : IsSpent callback.state c.redirect_uri
          (redeem_callback w peer (ok callback) c s).1.0 =
        record {
          absent = ap (row_of callback.state) pending ∙ row_of-without_row callback.state c.pending;
          same = same;
        } in
      let spent =
        subst (λ x. IsSpent callback.state c.redirect_uri x.0) history
          (use_all-IsSpent callback.state c.redirect_uri us _ _ (
            subst (λ r. IsSpent callback.state c.redirect_uri (redeem_callback w peer r c s).1.0)
              (sym read) first)) in
      ap (λ a. redeem_callback w peer (callback_of w a url) d t) spent.same
      ∙ ap (λ r. redeem_callback w peer r d t) read
      ∙ redeem_absent callback.code d t spent.absent
          (without_row_absent callback.state d.pending spent.absent)
