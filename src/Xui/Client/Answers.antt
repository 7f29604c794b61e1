-- ===== src/Xui/Client/Answers.antt =====
-- When the panel accepted a change, of xui/client.py.
use vpn_control_panel.Prelude.{
  ℕ, ◌≡◌, refl, ◌++◌, ◌↔◌, Bool, true, false, not, ◌||◌, Option, none, some, Result, ok, err,
  raise_if, arith,
}
use vpn_control_panel.Text.{Str, codes}
use vpn_control_panel.Json.{Json, null, boolean, integer, float, text, array, object, JsonObject}
use vpn_control_panel.Action.{lift, continue, ◌>>=◌, bind_done}
use vpn_control_panel.Data.Models.{NodeRecord}
use vpn_control_panel.Xui.Client.{
  Http, Python, Request, Response, post_method, decoded_object, response_json, success,
  failed_status, url_for, send, of_transport, checked, post_json_success,
}

-- An answer that accepts: a JSON object with a status below 400 and a truthy `success`.
abbrev pub IsAccepting : Response → Type 0
IsAccepting r =
    (body : JsonObject) × (r.decoded ≡ some (object body))
    × (failed_status r.status_code ≡ false)
    × (success body ≡ true)

decoded_is_object :
    (status : ℕ) (o : Option Json) (body : JsonObject)
    → decoded_object status o ≡ ok body
    → o ≡ some (object body)
decoded_is_object status none body h = cc
decoded_is_object status (some (object o)) body h = let same : o ≡ body = cc in rw same refl
decoded_is_object status (some null) body h = cc
decoded_is_object status (some (boolean b)) body h = cc
decoded_is_object status (some (integer n)) body h = cc
decoded_is_object status (some (float b)) body h = cc
decoded_is_object status (some (text s)) body h = cc
decoded_is_object status (some (array items)) body h = cc

raise_if_none {ℓ} : {E : Type ℓ} (b : Bool) (e : E) → raise_if b e ≡ ok tt → b ≡ false
raise_if_none true e h = cc
raise_if_none false e h = refl

module _ (H : Http) (py : Python) (node : NodeRecord) where
  -- The request of a change, with its body.
  abbrev pub change_request : Str → Json → Request
  change_request path body = record {
    method = post_method;
    url = url_for node path;
    authorization = codes "Bearer " ++ node.api_token;
    body = some body;
  }

  accepting :
      (operation : Str) (r : Response) (w : H.World)
      → (checked H py node operation r w).0 ≡ ok tt
      → IsAccepting r
  unfolding response_json
  accepting operation r w h = bind_done (lift (response_json r)) _ w h λ body read done same.
      let quiet = raise_if_none (failed_status r.status_code || not (success body)) _ done in
      (body, decoded_is_object r.status_code r.decoded body read, ground arith, ground arith)

  accepted_back :
      (operation : Str) (r : Response) (w : H.World)
      → IsAccepting r
      → (checked H py node operation r w).0 ≡ ok tt
  unfolding response_json ◌>>=◌
  accepted_back operation r w (body, read, low, good) = rw (read, low, good) refl

  -- A change returns without an exception exactly when the request was answered, and the answer is
  -- a JSON object with a status below 400 and a truthy success field.
  pub post_json_success_iff :
      (path : Str) (body : Json) (operation : Str) (w : H.World)
      → ((post_json_success H py node path body operation w).0 ≡ ok tt)
        ↔ ((r : Response) × ((H.request (change_request path body) w).0 ≡ ok r) × IsAccepting r)
  unfolding post_json_success send ◌>>=◌
  post_json_success_iff path body operation w = (
    forth (H.request (change_request path body) w).0 refl,
    λ (r, e, good). rw e (accepted_back operation r _ good),
  )
    where
      forth :
          (r : Result Str Response)
          → (H.request (change_request path body) w).0 ≡ r
          → (continue
              (of_transport H py node r)
              (checked H py node operation)
              (H.request (change_request path body) w).1).0
            ≡ ok tt
          → (x : Response) × (r ≡ ok x) × IsAccepting x
      forth (ok x) e h = (x, refl, accepting operation x _ h)
      forth (err x) e h = cc
