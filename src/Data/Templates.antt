-- ===== src/Data/Templates.antt =====
-- `resolve_env_templates` of data/store.py: texts of the form ${{ env.NAME }} in data.json stand for
-- variables of the environment.
use vpn_control_panel.Prelude.{
  ℕ, [], ◌∷◌, ◌≡◌, refl, Bool, ◌&&◌, ◌||◌, Option, none, some, Result, ok, err, ◌>>=◌, bind_ok, leb,
  ◌==◌, nat_eq, list_eq, if◌then◌else◌,
}
use vpn_control_panel.Text.{Str, codes, is_space, lstrip, starts_with, remove_prefix}
use vpn_control_panel.Json.{
  Json, null, boolean, integer, float, text, array, object, Items, nil, cons, JsonObject, end,
  field,
}

abbrev is_letter : ℕ → Bool
is_letter c = (leb b'A' c && leb c b'Z') || ((leb b'a' c && leb c b'z') || c == b'_')

abbrev is_name_part : ℕ → Bool
is_name_part c = is_letter c || (leb b'0' c && leb c b'9')

-- The longest name in front, and what follows it.
abbrev span_name : Str → Str × Str
span_name [] = ([], [])
span_name (c ∷ s) =
    let (name, rest) = span_name s in if is_name_part c then (c ∷ name, rest) else ([], c ∷ s)

abbrev name_before : Str × Str → Option Str
name_before ([], rest) = none
name_before (c ∷ name, rest) =
    if is_letter c && lstrip is_space rest == codes "}}" then some (c ∷ name) else none

abbrev after_env : Str → Option Str
after_env s =
    if starts_with s (codes "env.")
    then name_before (span_name (remove_prefix s (codes "env.")))
    else none

-- The name in a template: `ENV_TEMPLATE_RE.fullmatch`
unfoldable pub template_name : Str → Option Str
unfolding is_space lstrip
template_name value =
    if starts_with value (codes "${{")
    then after_env (lstrip is_space (remove_prefix value (codes "${{")))
    else none

-- the variable that is not set
pub data TemplateError : Type 0 where
  not_set : Str → TemplateError

module _ (environ : Str → Option Str) where
  abbrev variable : Str → Option Str → Result TemplateError Json
  variable name none = err (not_set name)
  variable name (some value) = ok (text value)

  abbrev resolve_text : Str → Option Str → Result TemplateError Json
  resolve_text value none = ok (text value)
  resolve_text value (some name) = variable name (environ name)

  unfoldable mutual
    unfolding template_name

    pub resolve_env_templates : Json → Result TemplateError Json
    resolve_env_templates null = ok null
    resolve_env_templates (boolean b) = ok (boolean b)
    resolve_env_templates (integer n) = ok (integer n)
    resolve_env_templates (float b) = ok (float b)
    resolve_env_templates (text s) = resolve_text s (template_name s)
    resolve_env_templates (array items) = resolve_items items >>= λ r. ok (array r)
    resolve_env_templates (object o) = resolve_fields o >>= λ r. ok (object r)

    pub resolve_items : Items → Result TemplateError Items
    resolve_items nil = ok nil
    resolve_items (cons v items) =
        resolve_env_templates v >>= λ r. resolve_items items >>= λ rs. ok (cons r rs)

    pub resolve_fields : JsonObject → Result TemplateError JsonObject
    resolve_fields end = ok end
    resolve_fields (field k v o) =
        resolve_env_templates v >>= λ r. resolve_fields o >>= λ rs. ok (field k r rs)

  -- The values of the variables are no templates.
  abbrev pub ArePlain : Type 0
  ArePlain = (name value : Str) → environ name ≡ some value → template_name value ≡ none

  resolved_text :
      ArePlain
      → (s : Str) (j : Json) (o : Option Str) → template_name s ≡ o
      → resolve_text s o ≡ ok j
      → resolve_env_templates j ≡ ok j
  unfolding resolve_env_templates
  resolved_text plain s j none e h = let same : text s ≡ j = cc in rw (← same, e) refl
  resolved_text plain s j (some name) e h = stored (environ name) refl h
    where
      stored :
          (u : Option Str)
          → environ name ≡ u
          → variable name u ≡ ok j
          → resolve_env_templates j ≡ ok j
      stored none q k = cc
      stored (some value) q k =
          let same : text value ≡ j = cc in rw (← same, plain name value q) refl

  mutual
    unfolding resolve_env_templates

    resolved :
        ArePlain → (j r : Json) → resolve_env_templates j ≡ ok r → resolve_env_templates r ≡ ok r
    resolved plain null r h = let same : null ≡ r = cc in rw (← same) refl
    resolved plain (boolean b) r h = let same : boolean b ≡ r = cc in rw (← same) refl
    resolved plain (integer n) r h = let same : integer n ≡ r = cc in rw (← same) refl
    resolved plain (float b) r h = let same : float b ≡ r = cc in rw (← same) refl
    resolved plain (text s) r h = resolved_text plain s r (template_name s) refl h
    resolved plain (array items) r h =
        bind_ok (resolve_items items) _ h λ rs e k.
          let same : array rs ≡ r = cc in rw (← same, resolved_items plain items rs e) refl
    resolved plain (object o) r h =
        bind_ok (resolve_fields o) _ h
          λ rs e k. let same : object rs ≡ r = cc in rw (← same, resolved_fields plain o rs e) refl

    resolved_items :
        ArePlain → (items rs : Items) → resolve_items items ≡ ok rs → resolve_items rs ≡ ok rs
    resolved_items plain nil rs h = let same : nil ≡ rs = cc in rw (← same) refl
    resolved_items plain (cons v items) rs h = bind_ok (resolve_env_templates v) _ h λ r e k.
        bind_ok (resolve_items items) _ k λ qs f l.
          let same : cons r qs ≡ rs = cc in
          rw (← same, resolved plain v r e, resolved_items plain items qs f) refl

    resolved_fields :
        ArePlain → (o r : JsonObject) → resolve_fields o ≡ ok r → resolve_fields r ≡ ok r
    resolved_fields plain end r h = let same : end ≡ r = cc in rw (← same) refl
    resolved_fields plain (field k v o) r h = bind_ok (resolve_env_templates v) _ h λ q e g.
        bind_ok (resolve_fields o) _ g λ qs f l.
          let same : field k q qs ≡ r = cc in
          rw (← same, resolved plain v q e, resolved_fields plain o qs f) refl
