-- ===== src/Text/Laws.antt =====
-- Stripping twice is stripping once, and a stripped text neither begins nor ends with what was
-- stripped.
use vpn_control_panel.Prelude.{
  ℕ, nat_eq, nat_beq_iff, ◌++◌, true, [], ◌∷◌, ◌++◌, Bool, true, false, ◌≡◌, refl, arith, ap, ◌∙◌,
}
use vpn_control_panel.Text.Defs.{
  Str, lstrip, rstrip, strip_by, strip, strip_slashes, starts_with, ends_with, is_empty,
}

-- the first code point does not satisfy the test
abbrev pub HeadFree : (ℕ → Bool) → Str → Type 0
HeadFree p [] = Unit
HeadFree p (c ∷ s) = p c ≡ false

module _ (p : ℕ → Bool) where
  lstrip-HeadFree : (s : Str) → HeadFree p (lstrip p s)
  unfolding lstrip
  lstrip-HeadFree [] = tt
  lstrip-HeadFree (c ∷ s) = ground (arith, lstrip-HeadFree s)

  lstrip_of_HeadFree : (s : Str) → HeadFree p s → lstrip p s ≡ s
  unfolding lstrip
  lstrip_of_HeadFree [] h = refl
  lstrip_of_HeadFree (c ∷ s) h = ground arith

  rstrip-HeadFree : (s : Str) → HeadFree p s → HeadFree p (rstrip p s)
  unfolding rstrip
  rstrip-HeadFree [] h = tt
  rstrip-HeadFree (c ∷ s) h = ground arith

  rstrip_idem : (s : Str) → rstrip p (rstrip p s) ≡ rstrip p s
  unfolding rstrip
  rstrip_idem [] = refl
  rstrip_idem (c ∷ s) = ground (arith, rstrip_idem s)

  pub strip_by_idem : (s : Str) → strip_by p (strip_by p s) ≡ strip_by p s
  unfolding strip_by
  strip_by_idem s =
      ap (rstrip p) (
        lstrip_of_HeadFree (rstrip p (lstrip p s))
          (rstrip-HeadFree (lstrip p s) (lstrip-HeadFree s)))
      ∙ rstrip_idem (lstrip p s)

pub strip_idem : (s : Str) → strip (strip s) ≡ strip s
unfolding strip
strip_idem s = strip_by_idem _ s

pub strip_slashes_idem : (s : Str) → strip_slashes (strip_slashes s) ≡ strip_slashes s
unfolding strip_slashes
strip_slashes_idem s = strip_by_idem _ s

rstrip_of_ends_with :
    (p : ℕ → Bool) (c : ℕ) (s : Str) → p c ≡ false → ends_with s c ≡ true → rstrip p s ≡ s
unfolding rstrip
rstrip_of_ends_with p c [] h e = cc
rstrip_of_ends_with p c (d ∷ []) h e = ground (arith, nat_beq_iff d c)
rstrip_of_ends_with p c (d ∷ d' ∷ s) h e = rw (rstrip_of_ends_with p c (d' ∷ s) h e)

strip_by_of_ends :
    (p : ℕ → Bool) (c : ℕ) (s : Str)
    → p c ≡ false
    → starts_with s (c ∷ []) ≡ true
    → ends_with s c ≡ true
    → strip_by p s ≡ s
unfolding strip_by
strip_by_of_ends p c s h head last =
    ap (rstrip p) (lstrip_of_HeadFree p s (head_free s head)) ∙ rstrip_of_ends_with p c s h last
  where
    head_free : (t : Str) → starts_with t (c ∷ []) ≡ true → HeadFree p t
    head_free [] e = tt
    head_free (d ∷ t) e = ground (arith, nat_beq_iff d c)

-- A text between two slashes, or a lone slash, has nothing to strip.
pub strip_of_slashes :
    (s : Str) → starts_with s (b'/' ∷ []) ≡ true → ends_with s b'/' ≡ true → strip s ≡ s
unfolding strip
strip_of_slashes s h e = strip_by_of_ends _ b'/' s refl h e

pub ends_with-append : (s : Str) (c : ℕ) → ends_with (s ++ (c ∷ [])) c ≡ true
ends_with-append [] c = ground (arith, nat_beq_iff c c)
ends_with-append (d ∷ []) c = ground (arith, nat_beq_iff c c)
ends_with-append (d ∷ d' ∷ s) c = ends_with-append (d' ∷ s) c

module _ (p : ℕ → Bool) (c : ℕ) (strips : p c ≡ true) where
  rstrip-append : (s : Str) → rstrip p (s ++ (c ∷ [])) ≡ rstrip p s
  unfolding rstrip
  rstrip-append [] = rw strips refl
  rstrip-append (d ∷ s) = rw (rstrip-append s) refl

  lstrip-cons : (s : Str) → lstrip p (c ∷ s) ≡ lstrip p s
  unfolding lstrip
  lstrip-cons s = rw strips refl

  lstrip-append : (s t : Str) → is_empty s ≡ false → HeadFree p s → lstrip p (s ++ t) ≡ s ++ t
  lstrip-append [] t full free = cc
  lstrip-append (d ∷ s) t full free = lstrip_of_HeadFree p (d ∷ s ++ t) free

  -- A text with nothing to strip, between two code points that are stripped.
  pub strip_by_between :
      (s : Str)
      → is_empty (strip_by p s) ≡ false
      → strip_by p (c ∷ (strip_by p s ++ (c ∷ []))) ≡ strip_by p s
  unfolding strip_by
  strip_by_between s full =
      let t = strip_by p s in
      let free : HeadFree p t = rstrip-HeadFree p (lstrip p s) (lstrip-HeadFree p s) in
      ap (rstrip p) (lstrip-cons (t ++ (c ∷ [])) ∙ lstrip-append t (c ∷ []) full free)
      ∙ rstrip-append t
      ∙ rstrip_idem p (lstrip p s)
