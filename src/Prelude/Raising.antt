-- ===== src/Prelude/Raising.antt =====
-- Functions that may raise: a value, or the exception.
use mathlib.Core.Path.{◌≡◌, refl, sym, ◌∙◌}
use mathlib.Core.Bool.{Bool, true, false}
use mathlib.Core.List.{List, [], ◌∷◌, ◌++◌}
use mathlib.Core.Option.{Option, none, some}

pub data Result {ℓ κ} (E : Type ℓ) (A : Type κ) : Type (ℓ ⊔ κ) where
  ok : A → Result E A
  err : E → Result E A

-- The exception ends the chain.
abbrev pub ◌>>=◌ {ℓ κ ν} :
    {X : Type ℓ} {S : Type κ} {T : Type ν} → Result X S → (S → Result X T) → Result X T
err raised >>= next = err raised
ok value >>= next = next value

infixl 5 ◌>>=◌
-- `if test: raise e`
abbrev pub raise_if {ℓ} : {E : Type ℓ} → Bool → E → Result E (Unit {0})
raise_if true e = err e
raise_if false e = ok tt

infixl 5 ◌>>◌
abbrev pub ◌>>◌ {ℓ κ} : {X : Type ℓ} {T : Type κ} → Result X (Unit {0}) → Result X T → Result X T
check >> rest = check >>= λ done. rest

module _ {ℓ κ} {E : Type ℓ} {A : Type κ} where
  -- A step on every element; the first exception ends the loop.
  abbrev pub map_result {ν} : {B : Type ν} → (A → Result E B) → List A → Result E (List B)
  map_result f [] = ok []
  map_result f (x ∷ xs) = do y ← f x; ys ← map_result f xs; ok (y ∷ ys)

  -- A check of every element.
  abbrev pub for_each : (A → Result E (Unit {0})) → List A → Result E (Unit {0})
  for_each f [] = ok tt
  for_each f (x ∷ xs) = do f x; for_each f xs

  -- A field that may be null.
  abbrev pub option_result {ν} : {B : Type ν} → (A → Result E B) → Option A → Result E (Option B)
  option_result f none = ok none
  option_result f (some x) = do y ← f x; ok (some y)

module _ {ℓ κ ν} {E : Type ℓ} {A : Type κ} {B : Type ν} where
  -- A chain that succeeds had a first part that succeeded, and a rest that did.
  pub bind_parts :
      (first : Result E A) (next : A → Result E B) {out : B}
      → (first >>= next) ≡ ok out
      → (value : A) × (first ≡ ok value) × (next value ≡ ok out)
  bind_parts (err raised) next done = cc
  bind_parts (ok value) next done = (value, refl, done)

module _ {ℓ ν} {E : Type ℓ} {S : Type ν} where
  bind-congruence :
      (r : Result E S) (f g : S → Result E S) → ((t : S) → f t ≡ g t) → (r >>= f) ≡ (r >>= g)
  bind-congruence (ok t) f g h = h t
  bind-congruence (err e) f g h = refl

  bind_assoc : (r : Result E S) (f g : S → Result E S) → (r >>= λ t. f t >>= g) ≡ ((r >>= f) >>= g)
  bind_assoc (ok t) f g = refl
  bind_assoc (err e) f g = refl

module _ {ℓ κ ν} {E : Type ℓ} {A : Type κ} {S : Type ν} where
  -- A loop that carries a state; the first exception ends it.
  abbrev pub fold_result : (S → A → Result E S) → S → List A → Result E S
  fold_result f s [] = ok s
  fold_result f s (x ∷ xs) = do t ← f s x; fold_result f t xs

  pub fold_result-append :
      (f : S → A → Result E S) (s : S) (xs ys : List A)
      → fold_result f s (xs ++ ys) ≡ (do t ← fold_result f s xs; fold_result f t ys)
  fold_result-append f s [] ys = refl
  fold_result-append f s (x ∷ xs) ys =
      bind-congruence (f s x) _ _ (λ t. fold_result-append f t xs ys)
      ∙ bind_assoc (f s x) (λ t. fold_result f t xs) (λ u. fold_result f u ys)

module _ {ℓ τ} {A : Type ℓ} {G : Type τ} where
  -- What the groups hold, in order.
  abbrev pub flatten_groups : (G → List A) → List G → List A
  flatten_groups members [] = []
  flatten_groups members (g ∷ gs) = members g ++ flatten_groups members gs

module _ {ℓ κ ν τ} {E : Type ℓ} {A : Type κ} {S : Type ν} {G : Type τ} where
  -- A loop over groups.
  abbrev pub fold_groups : (G → List A) → (S → A → Result E S) → S → List G → Result E S
  fold_groups members f s [] = ok s
  fold_groups members f s (g ∷ gs) = do t ← fold_result f s (members g); fold_groups members f t gs

  -- The loop over the groups is the loop over what they hold.
  pub fold_groups-flatten :
      (members : G → List A) (f : S → A → Result E S) (s : S) (gs : List G)
      → fold_groups members f s gs ≡ fold_result f s (flatten_groups members gs)
  fold_groups-flatten members f s [] = refl
  fold_groups-flatten members f s (g ∷ gs) =
      bind-congruence (fold_result f s (members g)) _ _ (λ t. fold_groups-flatten members f t gs)
      ∙ sym (fold_result-append f s (members g) (flatten_groups members gs))

-- The same inversions, for a proof that goes on from the parts of a chain.
module _ {ℓ κ ν τ} {E : Type ℓ} {A : Type κ} {B : Type ν} {P : Type τ} where
  pub bind_ok :
      (m : Result E A) (f : A → Result E B) {b : B}
      → (m >>= f) ≡ ok b
      → ((a : A) → m ≡ ok a → f a ≡ ok b → P)
      → P
  bind_ok (ok a) f h go = go a refl h
  bind_ok (err e) f h go = cc

module _ {ℓ ν τ} {E : Type ℓ} {B : Type ν} {P : Type τ} where
  pub raise_if_ok :
      (test : Bool) (e : E) (k : Result E B) {b : B}
      → (raise_if test e >>= λ _. k) ≡ ok b
      → (test ≡ false → k ≡ ok b → P)
      → P
  raise_if_ok true e k h go = cc
  raise_if_ok false e k h go = go refl h
