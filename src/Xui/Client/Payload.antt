-- ===== src/Xui/Client/Payload.antt =====
-- `_writable_client_payload` of xui/client.py: what the update endpoint gets, made from a client as
-- the read endpoints show it. An object has each key once, as a dict does, so that dropping a key
-- drops every field of that name.
use vpn_control_panel.Prelude.{
  List, [], ◌∷◌, ◌≡◌, refl, ◌∙◌, false, not, Option, none, some, arith, map, filter, ◌==◌, nat_eq,
  list_eq, list_beq_iff, contains, if◌then◌else◌,
}
use vpn_control_panel.Text.{Str, codes, strip, split, is_empty}
use vpn_control_panel.Json.{
  Json, text, array, Items, nil, cons, JsonObject, end, field, get, put, truthy,
}

-- `object.pop(key, None)`
abbrev pub pop : Str → JsonObject → JsonObject
pop k end = end
pop k (field j v o) = let rest = pop k o in if j == k then rest else field j v rest

abbrev pub texts : List Str → Items
texts [] = nil
texts (s ∷ ss) = cons (text s) (texts ss)

-- The entries of an `allowedIPs` text, split at commas and line ends.
abbrev allowed_entries : Str → List Str
allowed_entries value =
    filter (λ s. not (is_empty s))
      (map strip (split b',' (map (λ c. if c == 10 then b',' else c) value)))

abbrev text_value : Option Json → Option Str
text_value (some (text value)) = some value
text_value other = none

abbrev with_allowed_ips : Option Str → JsonObject → JsonObject
with_allowed_ips none o = o
with_allowed_ips (some value) o = put (codes "allowedIPs") (array (texts (allowed_entries value))) o

-- `a or b`, of two lookups
abbrev pub or_value : Option Json → Option Json → Option Json
or_value a b = if truthy a then a else b

-- `uuid`, else `password`, else `auth`
abbrev pub identity : JsonObject → Option Json
identity o =
    or_value (or_value (get (codes "uuid") o) (get (codes "password") o)) (get (codes "auth") o)

abbrev with_id : Option Str → JsonObject → JsonObject
with_id none o = o
with_id (some []) o = o
with_id (some (c ∷ s)) o = put (codes "id") (text (c ∷ s)) o

unfoldable pub writable_client_payload : JsonObject → JsonObject
unfolding strip split
writable_client_payload client =
    let popped = pop (codes "inboundIds") (pop (codes "traffic") client) in
    let payload = with_allowed_ips (text_value (get (codes "allowedIPs") popped)) popped in
    with_id (text_value (identity payload)) payload

get-put :
    (k j : Str) (v : Json) (o : JsonObject)
    → get k (put j v o) ≡ (if j == k then some v else get k o)
get-put k j v end = refl
get-put k j v (field i w o) =
    ground (arith, list_beq_iff j k, list_beq_iff i k, list_beq_iff i j, get-put k j v o)

get-pop : (k j : Str) (o : JsonObject) → get k (pop j o) ≡ (if j == k then none else get k o)
get-pop k j end = ground arith
get-pop k j (field i w o) =
    ground (arith, list_beq_iff j k, list_beq_iff i k, list_beq_iff i j, get-pop k j o)

get-with_allowed_ips :
    (k : Str) (value : Option Str) (o : JsonObject)
    → (codes "allowedIPs" == k) ≡ false
    → get k (with_allowed_ips value o) ≡ get k o
get-with_allowed_ips k none o h = refl
get-with_allowed_ips k (some value) o h = get-put k (codes "allowedIPs") _ o ∙ rw h refl

get-with_id :
    (k : Str) (value : Option Str) (o : JsonObject)
    → (codes "id" == k) ≡ false
    → get k (with_id value o) ≡ get k o
get-with_id k none o h = refl
get-with_id k (some []) o h = refl
get-with_id k (some (c ∷ s)) o h = get-put k (codes "id") _ o ∙ rw h refl

abbrev popped : JsonObject → JsonObject
popped client = pop (codes "inboundIds") (pop (codes "traffic") client)

abbrev with_ips : JsonObject → JsonObject
with_ips client =
    with_allowed_ips (text_value (get (codes "allowedIPs") (popped client))) (popped client)

get-with_ips :
    (k : Str) (client : JsonObject)
    → (codes "allowedIPs" == k) ≡ false
    → (codes "inboundIds" == k) ≡ false
    → (codes "traffic" == k) ≡ false
    → get k (with_ips client) ≡ get k client
get-with_ips k client a i t =
    get-with_allowed_ips k _ (popped client) a
    ∙ (get-pop k (codes "inboundIds") (pop (codes "traffic") client)
        ∙ rw i (get-pop k (codes "traffic") client ∙ rw t refl))

identity-with_ips : (client : JsonObject) → identity (with_ips client) ≡ identity client
identity-with_ips client =
    rw
      (
        get-with_ips (codes "uuid") client refl refl refl,
        get-with_ips (codes "password") client refl refl refl,
        get-with_ips (codes "auth") client refl refl refl,
      )
      refl

outside :
    (x k : Str) (xs : List Str)
    → contains (x ∷ xs) k ≡ false
    → ((x == k) ≡ false) × (contains xs k ≡ false)
outside x k xs h = ground arith

-- What the update endpoint gets for a client whose secret, its uuid, password or auth, is a text:
-- no traffic and no inboundIds, the secret as its id, and every field that is none of these and
-- not allowedIPs as it was read.
pub writable_client_payload-fields :
    (client : JsonObject) (secret k : Str)
    → identity client ≡ some (text secret)
    → is_empty secret ≡ false
    → contains (codes "traffic" ∷ codes "inboundIds" ∷ codes "allowedIPs" ∷ codes "id" ∷ []) k
      ≡ false
    → (get (codes "traffic") (writable_client_payload client) ≡ none)
      × (get (codes "inboundIds") (writable_client_payload client) ≡ none)
      × (get (codes "id") (writable_client_payload client) ≡ some (text secret))
      × (get k (writable_client_payload client) ≡ get k client)
unfolding writable_client_payload
writable_client_payload-fields client [] k found given other = cc
writable_client_payload-fields client (c ∷ s) k found given other =
    let read : text_value (identity (with_ips client)) ≡ some (c ∷ s) =
      rw (identity-with_ips client, found) refl in
    let dropped : get (codes "traffic") (popped client) ≡ none =
      get-pop (codes "traffic") (codes "inboundIds") (pop (codes "traffic") client)
      ∙ get-pop (codes "traffic") (codes "traffic") client in
    let dropped' : get (codes "inboundIds") (popped client) ≡ none =
      get-pop (codes "inboundIds") (codes "inboundIds") (pop (codes "traffic") client) in
    let (t, other') =
      outside (codes "traffic") k (codes "inboundIds" ∷ codes "allowedIPs" ∷ codes "id" ∷ [])
        other in
    let (i, other'') =
      outside (codes "inboundIds") k (codes "allowedIPs" ∷ codes "id" ∷ []) other' in
    let (a, last) = outside (codes "allowedIPs") k (codes "id" ∷ []) other'' in
    let (d, nothing) = outside (codes "id") k [] last in
    (
      get-with_id (codes "traffic") _ (with_ips client) refl
          ∙ (get-with_allowed_ips (codes "traffic") _ (popped client) refl ∙ dropped),
      get-with_id (codes "inboundIds") _ (with_ips client) refl
          ∙ (get-with_allowed_ips (codes "inboundIds") _ (popped client) refl ∙ dropped'),
      rw read (get-put (codes "id") (codes "id") _ (with_ips client)),
      get-with_id k _ (with_ips client) d ∙ get-with_ips k client a i t,
    )
