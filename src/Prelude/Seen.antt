-- ===== src/Prelude/Seen.antt =====
-- Loops that collect what they have seen: `Fresh seen xs` is what such a loop checks.
use mathlib.Core.Path.{◌≡◌, refl}
use mathlib.Core.Logic.{◌↔◌}
use mathlib.Core.Bool.{true, false, ◌||◌}
use mathlib.Core.List.{List, [], ◌∷◌, ◌++◌}
use native.Mathlib.Omega.{arith}
use vpn_control_panel.Prelude.Equality.{Eq}
use vpn_control_panel.Prelude.Lists.{contains, Distinct}

module _ {ℓ} {A : Type ℓ} where
  -- The elements of `xs` pushed on `seen`, one after the other.
  abbrev pub push_all : List A → List A → List A
  push_all seen [] = seen
  push_all seen (x ∷ xs) = push_all (x ∷ seen) xs

  pub push_all-append :
      (seen xs ys : List A) → push_all seen (xs ++ ys) ≡ push_all (push_all seen xs) ys
  push_all-append seen [] ys = refl
  push_all-append seen (x ∷ xs) ys = push_all-append (x ∷ seen) xs ys

module _ {ℓ} {A : Type ℓ} ⦃e : Eq A⦄ where
  -- No element of `xs` is in `seen` or stands twice.
  abbrev pub Fresh : List A → List A → Type 0
  Fresh seen [] = Unit
  Fresh seen (x ∷ xs) = (contains seen x ≡ false) × Fresh (x ∷ seen) xs

  pub contains-push_all :
      (seen xs : List A) (a : A)
      → contains (push_all seen xs) a ≡ (contains xs a || contains seen a)
  contains-push_all seen [] a = refl
  contains-push_all seen (x ∷ xs) a = ground (arith, contains-push_all (x ∷ seen) xs a)

  pub Fresh-append :
      (seen xs ys : List A) → Fresh seen (xs ++ ys) ↔ (Fresh seen xs × Fresh (push_all seen xs) ys)
  Fresh-append seen [] ys = ((λ h. (tt, h)), (λ h. h.1))
  Fresh-append seen (x ∷ xs) ys = (
    (λ h. let r = (Fresh-append (x ∷ seen) xs ys).0 h.1 in ((h.0, r.0), r.1)),
    (λ h. (h.0.0, (Fresh-append (x ∷ seen) xs ys).1 (h.0.1, h.1))),
  )

  pub Fresh-apart :
      (seen xs : List A) → Fresh seen xs → (a : A) → contains xs a ≡ true → contains seen a ≡ false
  Fresh-apart seen [] h a p = cc
  Fresh-apart seen (x ∷ xs) h a p = ground (arith, e.decides x a, Fresh-apart (x ∷ seen) xs h.1 a)

  pub Distinct-of-Fresh : (seen xs : List A) → Fresh seen xs → Distinct xs
  Distinct-of-Fresh seen [] h = tt
  Distinct-of-Fresh seen (x ∷ xs) h = (
    ground (arith, Fresh-apart (x ∷ seen) xs h.1 x, e.decides x x),
    Distinct-of-Fresh (x ∷ seen) xs h.1,
  )

  pub Fresh-of-Distinct :
      (seen xs : List A)
      → Distinct xs
      → ((a : A) → contains xs a ≡ true → contains seen a ≡ false)
      → Fresh seen xs
  Fresh-of-Distinct seen [] h apart = tt
  Fresh-of-Distinct seen (x ∷ xs) h apart = (
    apart x (ground (arith, e.decides x x)),
    Fresh-of-Distinct (x ∷ seen) xs h.1 (λ a p. ground (arith, apart a, e.decides x a)),
  )

  -- What the loop checks from nothing seen is that no element stands twice.
  pub Fresh-iff-Distinct : (xs : List A) → Fresh [] xs ↔ Distinct xs
  Fresh-iff-Distinct xs = (Distinct-of-Fresh [] xs, λ h. Fresh-of-Distinct [] xs h (λ a p. refl))
