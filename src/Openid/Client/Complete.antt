-- ===== src/Openid/Client/Complete.antt =====
-- border/openid_gateway.py: `OAuthMcpClient.complete`.
use minority_prophet_border.Py.Stateful.{◌>>=◌, Stateful, lift}
use minority_prophet_border.Prelude.{
  List, Option, String, [], code, if◌then◌else◌, none, some, ◌==◌, ◌∷◌,
}
use minority_prophet_border.Py.Table.{row_of, set_row, without_row}
use minority_prophet_border.Openid.Client.{Client, Peer, PendingAuthorization, call, post_form}
use minority_prophet_border.Py.Result.{Result, err, ok}
use minority_prophet_border.Admission.Base.{refused}
use minority_prophet_border.Openid.Web.{Web}
use minority_prophet_border.Openid.Client.Discovery.{Callback, callback_of, token_of}
use minority_prophet_border.Py.Value.{Fields}

-- `form[key] = value`, in the place of a key that is there
unfoldable pub put_text : String → String → List (String × String) → List (String × String)
put_text key value [] = (key, value) ∷ []
put_text key value ((k, v) ∷ rest) =
    let more = put_text key value rest in if k == key then (key, value) ∷ rest else (k, v) ∷ more

-- `form.update(extra)`
abbrev pub updated : List (String × String) → List (String × String) → List (String × String)
unfolding put_text
updated form [] = form
updated form ((k, v) ∷ extra) = updated (put_text k v form) extra

abbrev pub token_form : String → PendingAuthorization → String → List (String × String)
token_form client_id p code =
    ("grant_type", "authorization_code")
    ∷ ("code", code)
    ∷ ("redirect_uri", p.redirect_uri)
    ∷ ("client_id", client_id)
    ∷ ("code_verifier", p.verifier)
    ∷ ("resource", p.resource)
    ∷ []

-- What a client does without beginning an authorization
pub data Use : Type 0 where
  completes : String → Use
  calls : String → Fields → Use

module _ {World : Type 0} where
  -- The exchange of a code for a token, with the endpoint that is pending
  unfoldable pub exchange :
      Web → Peer World → String → PendingAuthorization → String → Stateful World String
  exchange w peer client_id p code = do
    extra ← peer.client_authentication p.token_endpoint
    response ←
        peer.request (post_form p.token_endpoint (updated (token_form client_id p code) extra))
    lift (token_of w p.scope response)

  unfoldable pub store_token :
      PendingAuthorization → Client → Result String × World → Result String × (Client × World)
  store_token p c (err e, s) = (err e, (c, s))
  store_token p c (ok token, s) =
      (ok p.resource, (record c { tokens = set_row p.resource token c.tokens }, s))

  -- `pending` is what `pop` gave, and `c` the client after it.
  unfoldable pub redeem :
      Web
      → Peer World
      → Option PendingAuthorization
      → String
      → Client
      → World
      → Result String × (Client × World)
  redeem w peer none code c s =
      (err (refused "authorization callback state or code is invalid"), (c, s))
  redeem w peer (some p) code c s =
      if code == ""
      then (err (refused "authorization callback state or code is invalid"), (c, s))
      else store_token p c (exchange w peer c.client_id p code s)

  unfoldable pub redeem_callback :
      Web → Peer World → Result Callback → Client → World → Result String × (Client × World)
  redeem_callback w peer (err e) c s = (err e, (c, s))
  redeem_callback w peer (ok callback) c s =
      redeem w peer (row_of callback.state c.pending) callback.code
        (record c { pending = without_row callback.state c.pending }) s

  unfoldable pub complete :
      Web → Peer World → String → Client → World → Result String × (Client × World)
  complete w peer callback_url c s =
      redeem_callback w peer (callback_of w c.redirect_uri callback_url) c s

  abbrev pub use_client : Web → Peer World → Use → Client → World → Client × World
  use_client w peer (completes url) c s = (complete w peer url c s).1
  use_client w peer (calls resource request) c s = (call peer resource request c s).1

  abbrev pub use_all : Web → Peer World → List Use → Client → World → Client × World
  use_all w peer [] c s = (c, s)
  use_all w peer (u ∷ us) c s = let (d, t) = use_client w peer u c s in use_all w peer us d t
