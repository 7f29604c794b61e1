-- ===== src/ExternalSubscriptions/Slug/Unique.antt =====
-- The slugs of one feed are distinct, and the search for a free one ends.
use vpn_control_panel.Prelude.{
  ℕ, ◌+◌, ◌≤◌, ◌<◌, List, [], ◌∷◌, ◌++◌, ◌≡◌, refl, sym, ap, Bool, true, false, not, none, some,
  suc, zero, arith, contains, contains-filter, length, filter, map, Distinct, Subset, Fresh,
  Distinct-of-Fresh, ◌==◌, nat_eq, list_eq, nat_beq_iff, list_beq_iff, Bool-cases, Option-cases,
  inl, inr,
}
use vpn_control_panel.Text.{Str}
use vpn_control_panel.Text.Digits.{show_nat, show_nat_injective}
use vpn_control_panel.ExternalSubscriptions.Parser.{ParsedSubscriptionEntry}
use vpn_control_panel.ExternalSubscriptions.Slug.{
  suffixed, free_slug, or_nothing, base_slug, assign_from, assign_slugs, sorted,
}

length-remove-le : (x : Str) (ys : List Str) → length (filter (λ y. not (y == x)) ys) ≤ length ys
length-remove-le x [] = omega arith
length-remove-le x (y ∷ ys) = ground (arith, length-remove-le x ys)

length-remove :
    (x : Str) (ys : List Str)
    → contains ys x ≡ true
    → length (filter (λ y. not (y == x)) ys) < length ys
length-remove x [] h = cc
length-remove x (y ∷ ys) h = ground (arith, length-remove x ys, length-remove-le x ys)

-- A list without repetition is no longer than one that holds its elements.
pigeonhole : (xs ys : List Str) → Distinct xs → Subset xs ys → length xs ≤ length ys
pigeonhole [] ys d s = omega arith
pigeonhole (x ∷ xs) ys d s =
    let shorter = pigeonhole xs (filter (λ y. not (y == x)) ys) d.1 (λ a h.
      ground (
        arith,
        contains-filter (λ y. not (y == x)) ys a,
        s a,
        list_beq_iff a x,
        list_beq_iff x a,
      )) in
    let less = length-remove x ys (s x (ground (arith, list_beq_iff x x))) in
    omega (arith, shorter, less)

append_cancel : (s t u : Str) → s ++ t ≡ s ++ u → t ≡ u
append_cancel [] t u e = e
append_cancel (c ∷ s) t u e = append_cancel s t u (ground arith)

append_longer : (s : Str) (c : ℕ) (t : Str) → s ≡ s ++ (c ∷ t) → ⊥
append_longer [] c t e = cc
append_longer (d ∷ s) c t e = append_longer s c t (ground arith)

tail_equal : (c : ℕ) (s t : Str) → (c ∷ s) ≡ (c ∷ t) → s ≡ t
tail_equal c s t e = ground arith

suffixed_injective : (base : Str) (m n : ℕ) → suffixed base m ≡ suffixed base n → m ≡ n
suffixed_injective base m n e = elim (Bool-cases (m == 1)) [
  | inl p ↦ elim (Bool-cases (n == 1)) [
    | inl q ↦ ground (arith, nat_beq_iff m 1, nat_beq_iff n 1)
    | inr q ↦ elim (append_longer base b'-' (show_nat n) (rw p at (rw q at e))) [ ]
  ]
  | inr p ↦ elim (Bool-cases (n == 1)) [
    | inl q ↦ elim (append_longer base b'-' (show_nat m) (sym (rw p at (rw q at e)))) [ ]
    | inr q ↦ show_nat_injective m n (
        tail_equal b'-' (show_nat m) (show_nat n)
          (append_cancel base (b'-' ∷ show_nat m) (b'-' ∷ show_nat n) (rw p at (rw q at e))))
  ]
]

-- The slugs that the search tries.
tried : ℕ → Str → ℕ → List Str
tried zero base n = []
tried (suc fuel) base n = suffixed base n ∷ tried fuel base (n + 1)

tried_later :
    (fuel : ℕ) (base : Str) (m n : ℕ)
    → m < n
    → contains (tried fuel base n) (suffixed base m) ≡ false
unfolding tried
tried_later zero base m n h = refl
tried_later (suc fuel) base m n h = ground (
  arith,
  tried_later fuel base m (n + 1),
  list_beq_iff (suffixed base n) (suffixed base m),
  suffixed_injective base n m,
)

tried-Distinct : (fuel : ℕ) (base : Str) (n : ℕ) → Distinct (tried fuel base n)
unfolding tried
tried-Distinct zero base n = tt
tried-Distinct (suc fuel) base n =
    (tried_later fuel base n (n + 1) (omega arith), tried-Distinct fuel base (n + 1))

length-tried : (fuel : ℕ) (base : Str) (n : ℕ) → length (tried fuel base n) ≡ fuel
unfolding tried
length-tried zero base n = refl
length-tried (suc fuel) base n = ap suc (length-tried fuel base (n + 1))

free_slug-none :
    (fuel : ℕ) (used : List Str) (base : Str) (n : ℕ)
    → free_slug fuel used base n ≡ none
    → Subset (tried fuel base n) used
unfolding free_slug tried
free_slug-none zero used base n e a h = cc
free_slug-none (suc fuel) used base n e a h =
    let later : free_slug fuel used base (n + 1) ≡ none
        → contains (tried fuel base (n + 1)) a ≡ true
        → contains used a ≡ true =
      λ p. free_slug-none fuel used base (n + 1) p a in
    ground (arith, later, list_beq_iff (suffixed base n) a)

free_slug_unused :
    (fuel : ℕ) (used : List Str) (base : Str) (n : ℕ) {s : Str}
    → free_slug fuel used base n ≡ some s
    → contains used s ≡ false
unfolding free_slug
free_slug_unused zero used base n e = cc
free_slug_unused (suc fuel) used base n {s} e =
    let later : free_slug fuel used base (n + 1) ≡ some s → contains used s ≡ false =
      λ p. free_slug_unused fuel used base (n + 1) p in
    ground (arith, later)

-- The search for a free slug ends: with one round more than there are slugs in use it returns a
-- slug, and that slug is not in use.
pub free_slug_found :
    (used : List Str) (base : Str)
    → (s : Str) × (free_slug (suc (length used)) used base 1 ≡ some s) × (contains used s ≡ false)
free_slug_found used base = elim (Option-cases (free_slug (suc (length used)) used base 1)) [
  | inl e ↦
      let long = length-tried (suc (length used)) base 1 in
      let short =
        pigeonhole (tried (suc (length used)) base 1) used
          (tried-Distinct (suc (length used)) base 1)
          (free_slug-none (suc (length used)) used base 1 e) in
      elim (too_long (length used) (rw long at short)) [ ]
  | inr (s, e) ↦ (s, e, free_slug_unused (suc (length used)) used base 1 e)
]
  where
    too_long : (n : ℕ) → suc n ≤ n → ⊥
    too_long n h = omega arith

module _ (is_word : ℕ → Bool) (lower : Str → Str) where
  abbrev pub slugs : List (Str × ParsedSubscriptionEntry) → List Str
  slugs = map (λ p. p.0)

  assign_from-Fresh :
      (used : List Str) (entries : List ParsedSubscriptionEntry)
      → Fresh used (slugs (assign_from is_word lower used entries))
  unfolding assign_from
  assign_from-Fresh used [] = tt
  assign_from-Fresh used (entry ∷ entries) =
      let (s, e, unused) = free_slug_found used (base_slug is_word lower entry) in
      (
        rw e unused,
        assign_from-Fresh
            (or_nothing (free_slug (suc (length used)) used (base_slug is_word lower entry) 1)
              ∷ used)
            entries,
      )

  entries_kept :
      (used : List Str) (es : List ParsedSubscriptionEntry)
      → map (λ p. p.1) (assign_from is_word lower used es) ≡ es
  unfolding assign_from
  entries_kept used [] = refl
  entries_kept used (e ∷ es) =
      ap (λ l. e ∷ l)
        (entries_kept
          (or_nothing (free_slug (suc (length used)) used (base_slug is_word lower e) 1) ∷ used) es)

  -- The slugs of a feed are distinct, and every entry has one.
  pub assign_slugs-Distinct :
      (entries : List ParsedSubscriptionEntry)
      → Distinct (slugs (assign_slugs is_word lower entries))
        × (map (λ p. p.1) (assign_slugs is_word lower entries) ≡ sorted entries)
  unfolding assign_slugs
  assign_slugs-Distinct entries = (
    Distinct-of-Fresh [] (slugs (assign_from is_word lower [] (sorted entries)))
        (assign_from-Fresh [] (sorted entries)),
    entries_kept [] (sorted entries),
  )
