-- ===== src/Text/Digits.antt =====
-- Positional notation: `str(n)` and the digits of other bases, most significant digit first.
use native.Mathlib.Nat.{div-lt_self, div-add-mod'}
use vpn_control_panel.Prelude.{
  ◌≢◌, ℕ, zero, suc, ◌+◌, ◌*◌, ◌/◌, ◌%◌, ◌≤◌, ◌<◌, List, [], ◌∷◌, ◌++◌, ◌≡◌, refl, arith, ltb, map,
  All, if◌then◌else◌, inl, inr, Bool-cases, ap, ◌∙◌, sym,
}
use vpn_control_panel.Text.Defs.{Str}

-- On fuel: a number has fewer digits than its value and one.
abbrev digits_from : ℕ → ℕ → ℕ → List ℕ
digits_from zero b n = n ∷ []
digits_from (suc f) b n =
    let rest = digits_from f b (n / b) ++ ((n % b) ∷ []) in if ltb n b then n ∷ [] else rest

unfoldable pub digits : ℕ → ℕ → List ℕ
digits b n = digits_from n b n

abbrev pub value_from : ℕ → ℕ → List ℕ → ℕ
value_from b acc [] = acc
value_from b acc (d ∷ ds) = value_from b (acc * b + d) ds

-- The number that the digits stand for.
abbrev pub value : ℕ → List ℕ → ℕ
value b ds = value_from b 0 ds

value_from-append :
    (b acc : ℕ) (ds : List ℕ) (d : ℕ)
    → value_from b acc (ds ++ (d ∷ [])) ≡ value_from b acc ds * b + d
value_from-append b acc [] d = refl
value_from-append b acc (e ∷ ds) d = value_from-append b (acc * b + e) ds d

div-le_pred : (f b n : ℕ) → 2 ≤ b → n ≤ suc f → b ≤ n → n / b ≤ f
div-le_pred f b n h k m = omega (arith, div-lt_self {n = n} {k = b} (omega arith) h)

value-digits_from : (f b n : ℕ) → 2 ≤ b → n ≤ f → value b (digits_from f b n) ≡ n
value-digits_from zero b n h k = omega arith
value-digits_from (suc f) b n h k = elim (Bool-cases (ltb n b)) [
  | inl small ↦ rw small (omega arith)
  | inr big ↦ rw big (
      value_from-append b 0 (digits_from f b (n / b)) (n % b)
      ∙ ap (λ (q : ℕ). q * b + n % b)
          (value-digits_from f b (n / b) h (div-le_pred f b n h k (ground arith)))
      ∙ div-add-mod' n b)
]

-- Reading the digits of a number gives the number.
pub value-digits : (b n : ℕ) → 2 ≤ b → value b (digits b n) ≡ n
unfolding digits
value-digits b n h = value-digits_from n b n h (omega arith)

pub digits_injective : (b m n : ℕ) → 2 ≤ b → digits b m ≡ digits b n → m ≡ n
digits_injective b m n h e = sym (value-digits b m h) ∙ ap (value b) e ∙ value-digits b n h

-- every digit is below the base
All-append {ℓ} :
    {A : Type ℓ} (P : A → Type 0) (xs : List A) (x : A) → All P xs → P x → All P (xs ++ (x ∷ []))
All-append P [] x h p = (p, tt)
All-append P (y ∷ xs) x h p = (h.0, All-append P xs x h.1 p)

digits_from_bounded : (f b n : ℕ) → 2 ≤ b → n ≤ f → All (λ d. d < b) (digits_from f b n)
digits_from_bounded zero b n h k = (omega arith, tt)
digits_from_bounded (suc f) b n h k = elim (Bool-cases (ltb n b)) [
  | inl small ↦ rw small (ground arith, tt)
  | inr big ↦ rw big (
      All-append _ (digits_from f b (n / b)) (n % b)
        (digits_from_bounded f b (n / b) h (div-le_pred f b n h k (ground arith))) (omega arith))
]

pub digits_bounded : (b n : ℕ) → 2 ≤ b → All (λ d. d < b) (digits b n)
unfolding digits
digits_bounded b n h = digits_from_bounded n b n h (omega arith)

digits_from-ne-nil : (f b n : ℕ) → digits_from f b n ≢ []
digits_from-ne-nil zero b n e = cc
digits_from-ne-nil (suc f) b n e = elim (Bool-cases (ltb n b)) [
  | inl small ↦ ground arith
  | inr big ↦ append_ne (digits_from f b (n / b)) (rw big at e)
]
  where
    append_ne : (xs : List ℕ) → (xs ++ ((n % b) ∷ [])) ≢ []
    append_ne [] h = cc
    append_ne (x ∷ xs) h = cc

pub digits-ne-nil : (b n : ℕ) → digits b n ≢ []
unfolding digits
digits-ne-nil b n = digits_from-ne-nil n b n

-- `str(n)` of a number that is not negative
unfoldable pub show_nat : ℕ → Str
unfolding digits
show_nat n = map (λ d. 48 + d) (digits 10 n)

map-add_injective : (k : ℕ) (xs ys : List ℕ) → map (λ d. k + d) xs ≡ map (λ d. k + d) ys → xs ≡ ys
map-add_injective k [] [] e = refl
map-add_injective k [] (y ∷ ys) e = cc
map-add_injective k (x ∷ xs) [] e = cc
map-add_injective k (x ∷ xs) (y ∷ ys) e = ground (arith, map-add_injective k xs ys)

-- Different numbers have different texts.
pub show_nat_injective : (m n : ℕ) → show_nat m ≡ show_nat n → m ≡ n
unfolding show_nat
show_nat_injective m n e = digits_injective 10 m n (omega arith) (map-add_injective 48 _ _ e)
