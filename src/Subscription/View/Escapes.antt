-- ===== src/Subscription/View/Escapes.antt =====
-- The escapes of subscription/service.py leave no character that opens a tag.
use vpn_control_panel.Prelude.{
  ℕ, [], ◌∷◌, ◌++◌, ◌≡◌, refl, Bool, true, false, ◌||◌, arith, contains, ◌==◌, nat_eq, nat_beq_iff,
}
use vpn_control_panel.Text.{Str, codes}
use vpn_control_panel.Subscription.View.{escaped, html_escape, json_script_escape}

contains-append_absent :
    (c : ℕ) (xs ys : Str)
    → contains xs c ≡ false
    → contains ys c ≡ false
    → contains (xs ++ ys) c ≡ false
contains-append_absent c [] ys h g = g
contains-append_absent c (x ∷ xs) ys h g =
    let (other, absent) = apart (x == c) (contains xs c) h in
    rw other (contains-append_absent c xs ys absent g)
  where
    apart : (a b : Bool) → (a || b) ≡ false → (a ≡ false) × (b ≡ false)
    apart a b h = (ground arith, ground arith)

-- A character that is one of the three does not come through, if no replacement has it.
escaped_absent :
    (d c : ℕ) (amp less more : Str)
    → contains (b'&' ∷ b'<' ∷ b'>' ∷ []) d ≡ true
    → contains amp d ≡ false
    → contains less d ≡ false
    → contains more d ≡ false
    → contains (escaped c amp less more) d ≡ false
escaped_absent d c amp less more h a l m = ground (
  arith,
  nat_beq_iff c d,
  nat_beq_iff c b'&',
  nat_beq_iff c b'<',
  nat_beq_iff c b'>',
  nat_beq_iff b'&' d,
  nat_beq_iff b'<' d,
  nat_beq_iff b'>' d,
)

step :
    (d c : ℕ) (amp less more rest : Str)
    → contains (b'&' ∷ b'<' ∷ b'>' ∷ []) d ≡ true
    → contains amp d ≡ false
    → contains less d ≡ false
    → contains more d ≡ false
    → contains rest d ≡ false
    → contains (escaped c amp less more ++ rest) d ≡ false
step d c amp less more rest h a l m r =
    contains-append_absent d (escaped c amp less more) rest
      (escaped_absent d c amp less more h a l m) r

-- Whatever the text is, escaped for a script it has no "<", ">" or "&", and escaped for HTML it has
-- no "<" or ">", so that neither can open a tag or end the script.
pub json_script_escape-contains :
    (s : Str)
    → (contains (json_script_escape s) b'<' ≡ false)
      × (contains (json_script_escape s) b'>' ≡ false)
      × (contains (json_script_escape s) b'&' ≡ false)
      × (contains (html_escape s) b'<' ≡ false)
      × (contains (html_escape s) b'>' ≡ false)
unfolding json_script_escape html_escape
json_script_escape-contains [] = (refl, refl, refl, refl, refl)
json_script_escape-contains (c ∷ s) =
    let (a, b, d, e, f) = json_script_escape-contains s in
    (
      step b'<' c (codes "\\u0026") (codes "\\u003c") (codes "\\u003e") (json_script_escape s) refl
          refl refl refl a,
      step b'>' c (codes "\\u0026") (codes "\\u003c") (codes "\\u003e") (json_script_escape s) refl
          refl refl refl b,
      step b'&' c (codes "\\u0026") (codes "\\u003c") (codes "\\u003e") (json_script_escape s) refl
          refl refl refl d,
      step b'<' c (codes "&amp;") (codes "&lt;") (codes "&gt;") (html_escape s) refl refl refl refl
          e,
      step b'>' c (codes "&amp;") (codes "&lt;") (codes "&gt;") (html_escape s) refl refl refl refl
          f,
    )
