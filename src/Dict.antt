-- ===== src/Dict.antt =====
-- A Python `dict` in insertion order.
use mathlib.Core.List.{append-nil, append_assoc}
use vpn_control_panel.Prelude.{
  ◌∙◌, sym, All, All-map, ◌++◌, false, List, [], ◌∷◌, ◌++◌, ◌≡◌, refl, Bool, true, false, ◌||◌,
  Option, none, some, Eq, ◌==◌, arith, contains, Distinct, Bool-cases, inl, inr, if◌then◌else◌,
}

abbrev pub Dict {ℓ κ} : Type ℓ → Type κ → Type (ℓ ⊔ κ)
Dict K V = List (K × V)

module _ {ℓ κ} {K : Type ℓ} {V : Type κ} where
  abbrev pub keys : Dict K V → List K
  keys [] = []
  keys ((k, v) ∷ d) = k ∷ keys d

  abbrev pub values : Dict K V → List V
  values [] = []
  values ((k, v) ∷ d) = v ∷ values d

module _ {ℓ κ} {K : Type ℓ} {V : Type κ} ⦃e : Eq K⦄ where
  -- `d.get(k)`
  abbrev pub lookup : K → Dict K V → Option V
  lookup k [] = none
  lookup k ((j, v) ∷ d) = if j == k then some v else lookup k d

  -- `d[k] = v`
  abbrev pub insert : K → V → Dict K V → Dict K V
  insert k v [] = (k, v) ∷ []
  insert k v ((j, w) ∷ d) = if j == k then (j, v) ∷ d else (j, w) ∷ insert k v d

  -- `del d[k]` for every key that a test picks
  abbrev pub erase_if : (K → Bool) → Dict K V → Dict K V
  erase_if p [] = []
  erase_if p ((j, w) ∷ d) = if p j then erase_if p d else (j, w) ∷ erase_if p d

  pub lookup-insert :
      (k j : K) (v : V) (d : Dict K V)
      → lookup j (insert k v d) ≡ (if k == j then some v else lookup j d)
  lookup-insert k j v [] = refl
  lookup-insert k j v ((i, w) ∷ d) =
      ground (arith, e.decides k j, e.decides i k, e.decides i j, lookup-insert k j v d)

  pub lookup-erase_if :
      (p : K → Bool) (j : K) (d : Dict K V)
      → lookup j (erase_if p d) ≡ (if p j then none else lookup j d)
  lookup-erase_if p j [] = ground arith
  lookup-erase_if p j ((i, w) ∷ d) = ground (arith, e.decides i j, lookup-erase_if p j d)

  -- a key has a value exactly when it is among the keys
  pub lookup_of_contains :
      (k : K) (d : Dict K V) → contains (keys d) k ≡ true → (v : V) × (lookup k d ≡ some v)
  lookup_of_contains k [] h = cc
  lookup_of_contains k ((j, w) ∷ d) h = elim (Bool-cases (j == k)) [
    | inl p ↦ (w, rw p)
    | inr p ↦ let (v, q) = lookup_of_contains k d (ground arith) in (v, rw p q)
  ]

  pub contains_of_lookup :
      (k : K) (d : Dict K V) (v : V) → lookup k d ≡ some v → contains (keys d) k ≡ true
  contains_of_lookup k [] v h = cc
  contains_of_lookup k ((j, w) ∷ d) v h = ground (arith, contains_of_lookup k d v)

  pub contains-keys-insert :
      (k j : K) (v : V) (d : Dict K V)
      → contains (keys (insert k v d)) j ≡ ((k == j) || contains (keys d) j)
  contains-keys-insert k j v [] = refl
  contains-keys-insert k j v ((i, w) ∷ d) =
      ground (arith, e.decides k j, e.decides i k, e.decides i j, contains-keys-insert k j v d)

  pub Distinct-keys-insert :
      (k : K) (v : V) (d : Dict K V) → Distinct (keys d) → Distinct (keys (insert k v d))
  Distinct-keys-insert k v [] h = (refl, tt)
  Distinct-keys-insert k v ((i, w) ∷ d) h = ground (
    arith,
    e.decides i k,
    e.decides k i,
    contains-keys-insert k i v d,
    Distinct-keys-insert k v d h.1,
  )

module _ {ℓ κ} {K : Type ℓ} {V : Type κ} ⦃e : Eq K⦄ where
  -- `d[k] = v` for each pair in turn
  abbrev pub insert_all : Dict K V → List (K × V) → Dict K V
  insert_all d [] = d
  insert_all d ((k, v) ∷ es) = insert_all (insert k v d) es

  pub insert_all-append :
      (d : Dict K V) (es fs : List (K × V))
      → insert_all d (es ++ fs) ≡ insert_all (insert_all d es) fs
  insert_all-append d [] fs = refl
  insert_all-append d ((k, v) ∷ es) fs = insert_all-append (insert k v d) es fs

  pub contains-insert_all :
      (d : Dict K V) (es : List (K × V)) (k : K)
      → contains (keys (insert_all d es)) k ≡ (contains (keys d) k || contains (keys es) k)
  contains-insert_all d [] k = ground arith
  contains-insert_all d ((j, v) ∷ es) k =
      ground (arith, contains-insert_all (insert j v d) es k, contains-keys-insert j k v d)

  -- A new key goes to the end.
  pub insert_new :
      (k : K) (v : V) (d : Dict K V)
      → contains (keys d) k ≡ false
      → insert k v d ≡ d ++ ((k, v) ∷ [])
  insert_new k v [] h = refl
  insert_new k v ((j, w) ∷ d) h = ground (arith, insert_new k v d)

  keys-concat :
      (d : Dict K V) (k : K) (v : V) (j : K)
      → contains (keys (d ++ ((k, v) ∷ []))) j ≡ (contains (keys d) j || k == j)
  keys-concat [] k v j = ground arith
  keys-concat ((i, w) ∷ d) k v j = ground (arith, keys-concat d k v j)

  -- Distinct new keys leave the pairs as they stand.
  pub insert_all_new :
      (d : Dict K V) (es : List (K × V))
      → Distinct (keys es)
      → ((k : K) → contains (keys es) k ≡ true → contains (keys d) k ≡ false)
      → insert_all d es ≡ d ++ es
  insert_all_new d [] h apart = sym (append-nil d)
  insert_all_new d ((k, v) ∷ es) h apart =
      rw (insert_new k v d (apart k (ground (arith, e.decides k k)))) (
        insert_all_new (d ++ ((k, v) ∷ [])) es h.1
          (λ j p. ground (arith, keys-concat d k v j, apart j, e.decides k j))
        ∙ append_assoc d ((k, v) ∷ []) es)

  pub lookup_of_Distinct : (d : Dict K V) → Distinct (keys d) → All (λ p. lookup p.0 d ≡ some p.1) d
  lookup_of_Distinct [] h = tt
  lookup_of_Distinct ((k, v) ∷ d) h = (
    ground (arith, e.decides k k),
    All-map d (λ p q. ground (arith, contains_of_lookup p.0 d p.1, e.decides k p.0))
        (lookup_of_Distinct d h.1),
  )
