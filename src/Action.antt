-- ===== src/Action.antt =====
-- Methods that read and write a shared state and may raise. What was written before a raise
-- stays written.
use vpn_control_panel.Prelude.{◌≡◌, refl, Result, ok, err, Bool, true, false, if◌then◌else◌}

abbrev pub Action {ℓ κ ν} : Type ℓ → Type κ → Type ν → Type (ℓ ⊔ κ ⊔ ν)
Action S E A = S → Result E A × S

module _ {ℓ κ ν} {S : Type ℓ} {E : Type κ} {A : Type ν} where
  abbrev pub pure : A → Action S E A
  pure a s = (ok a, s)

  abbrev pub raise : E → Action S E A
  raise e s = (err e, s)

  abbrev pub lift : Result E A → Action S E A
  lift r s = (r, s)

  abbrev pub gets : (S → A) → Action S E A
  gets f s = (ok (f s), s)

abbrev pub continue {ℓ κ ν τ} :
    {S : Type ℓ} {E : Type κ} {A : Type ν} {B : Type τ}
    → Result E A
    → (A → Action S E B)
    → S
    → Result E B × S
continue (ok a) f s = f a s
continue (err e) f s = (err e, s)

infixl 5 ◌>>=◌ ◌>>◌
unfoldable pub ◌>>=◌ {ℓ κ ν τ} :
    {S : Type ℓ} {E : Type κ} {A : Type ν} {B : Type τ}
    → Action S E A
    → (A → Action S E B)
    → Action S E B
◌>>=◌ m f s = let (r, s') = m s in continue r f s'

abbrev pub ◌>>◌ {ℓ κ ν} :
    {S : Type ℓ} {E : Type κ} {B : Type ν} → Action S E (Unit {0}) → Action S E B → Action S E B
m >> k = m >>= λ _. k

-- A successful chain ran its first part and then the rest.
pub bind_done {ℓ κ ν τ μ} :
    {S : Type ℓ} {E : Type κ} {A : Type ν} {B : Type τ} {P : Type μ} (m : Action S E A)
    (f : A → Action S E B) (s : S) {b : B}
    → ((m >>= f) s).0 ≡ ok b
    → ((a : A) → (m s).0 ≡ ok a → (f a (m s).1).0 ≡ ok b → ((m >>= f) s) ≡ f a (m s).1 → P)
    → P
unfolding ◌>>=◌
bind_done {S} {E} {A} {B} {P} m f s {b} h go = split (m s).0 refl
  where
    split : (r : Result E A) → (m s).0 ≡ r → P
    split (ok a) e = go a e (rw e at h) (rw e)
    split (err x) e = let h' : ◌≡◌ {A = Result E B} (err x) (ok b) = rw e at h in cc

-- A property of the state that a method keeps, whether it returns or raises.
pub record Preserves {ℓ κ ν μ} {S : Type ℓ} {E : Type κ} {A : Type ν} (I : S → Type μ)
    (m : Action S E A) : Type (ℓ ⊔ μ) where
  pub after : (s : S) → I s → I (m s).1

pub Preserves-bind {ℓ κ ν τ μ} :
    {S : Type ℓ} {E : Type κ} {A : Type ν} {B : Type τ} {I : S → Type μ} {m : Action S E A}
    {f : A → Action S E B}
    → Preserves I m
    → ((a : A) → Preserves I (f a))
    → Preserves I (m >>= f)
unfolding ◌>>=◌
Preserves-bind {S} {E} {A} {B} {I} {m} {f} hm hf = record { after = λ s h. go s h (m s).0 }
  where
    go : (s : S) → I s → (r : Result E A) → I (continue r f (m s).1).1
    go s h (ok a) = (hf a).after (m s).1 (hm.after s h)
    go s h (err e) = hm.after s h

pub Preserves-result {ℓ κ ν μ} :
    {S : Type ℓ} {E : Type κ} {A : Type ν} {I : S → Type μ} (r : Result E A)
    → Preserves I (lift {S = S} r)
Preserves-result r = record { after = λ s h. h }

-- A method that keeps a property of the state and, where it returns, returns a value with a
-- property of its own.
pub record Yields {ℓ κ ν μ τ} {S : Type ℓ} {E : Type κ} {A : Type ν} (I : S → Type μ)
    (Q : A → Type τ) (m : Action S E A) : Type (ℓ ⊔ κ ⊔ ν ⊔ μ ⊔ τ) where
  pub after : (s : S) → I s → I (m s).1
  pub returns : (s : S) (a : A) → I s → (m s).0 ≡ ok a → Q a

pub Yields-bind {ℓ κ ν τ μ π ρ} :
    {S : Type ℓ} {E : Type κ} {A : Type ν} {B : Type τ} {I : S → Type μ} {Q : A → Type π}
    {R : B → Type ρ} {m : Action S E A} (f : A → Action S E B)
    → Yields I Q m
    → ((a : A) → Q a → Yields I R (f a))
    → Yields I R (m >>= f)
unfolding ◌>>=◌
Yields-bind {S} {E} {A} {B} {I} {Q} {R} {m} f hm hf = record {
  after = λ s h. go_after s h (m s).0 refl;
  returns = λ s b h e. go_returns s b h (m s).0 refl e;
}
  where
    go_after : (s : S) → I s → (r : Result E A) → (m s).0 ≡ r → I (continue r f (m s).1).1
    go_after s h (ok a) e = (hf a (hm.returns s a h e)).after (m s).1 (hm.after s h)
    go_after s h (err x) e = hm.after s h

    go_returns :
        (s : S) (b : B)
        → I s
        → (r : Result E A) → (m s).0 ≡ r
        → (continue r f (m s).1).0 ≡ ok b
        → R b
    go_returns s b h (ok a) e k = (hf a (hm.returns s a h e)).returns (m s).1 b (hm.after s h) k
    go_returns s b h (err x) e k = cc

pub Yields-if {ℓ κ ν μ τ} :
    {S : Type ℓ} {E : Type κ} {A : Type ν} {I : S → Type μ} {Q : A → Type τ} {m n : Action S E A}
    (b : Bool)
    → Yields I Q m
    → Yields I Q n
    → Yields I Q (if b then m else n)
Yields-if true hm hn = hm
Yields-if false hm hn = hn
