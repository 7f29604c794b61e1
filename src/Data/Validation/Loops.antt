-- ===== src/Data/Validation/Loops.antt =====
-- What the loops of `validate_inbound_tags` accept.
use vpn_control_panel.Prelude.{
  List, [], ◌∷◌, ◌≡◌, refl, ◌↔◌, true, Result, ok, err, arith, contains, All, map, inl, inr,
  Bool-cases, Fresh, push_all, fold_result, for_each, nat_eq, list_eq, if◌then◌else◌, bind_parts,
}
use vpn_control_panel.Text.{Str}
use vpn_control_panel.Data.Errors.{ValidationError, TagList}
use vpn_control_panel.Data.Validation.{check_tag, validate_tag_list}

-- The loop that refuses a name that it has seen.
module _ {ℓ} {A : Type ℓ} (name : A → Str) (duplicate : Str → ValidationError) where
  abbrev pub once : List Str → A → Result ValidationError (List Str)
  once seen x = if contains seen (name x) then err (duplicate (name x)) else ok (name x ∷ seen)

  pub once_sound :
      (seen : List Str) (xs : List A) {out : List Str}
      → fold_result once seen xs ≡ ok out
      → Fresh seen (map name xs) × (push_all seen (map name xs) ≡ out)
  once_sound seen [] h = (tt, ground arith)
  once_sound seen (x ∷ xs) h = elim (Bool-cases (contains seen (name x))) [
    | inl old ↦ ground arith
    | inr new ↦ ground (arith, once_sound (name x ∷ seen) xs (rw new at h))
  ]

  pub once_complete :
      (seen : List Str) (xs : List A)
      → Fresh seen (map name xs)
      → fold_result once seen xs ≡ ok (push_all seen (map name xs))
  once_complete seen [] h = refl
  once_complete seen (x ∷ xs) h = rw h.0 (once_complete (name x ∷ seen) xs h.1)

-- The loop of `_validate_tag_list`.
module _ (l : TagList) (known : List Str) where
  tags_sound :
      (seen tags : List Str) {out : List Str}
      → fold_result (check_tag l known) seen tags ≡ ok out
      → Fresh seen tags × All (λ tag. contains known tag ≡ true) tags
  unfolding check_tag
  tags_sound seen [] h = (tt, tt)
  tags_sound seen (t ∷ ts) h = elim (Bool-cases (contains seen t)) [
    | inl old ↦ ground arith
    | inr new ↦ elim (Bool-cases (contains known t)) [
      | inl here ↦ ground (arith, tags_sound (t ∷ seen) ts (rw (new, here) at h))
      | inr missing ↦ ground arith
    ]
  ]

  tags_complete :
      (seen tags : List Str)
      → Fresh seen tags
      → All (λ tag. contains known tag ≡ true) tags
      → fold_result (check_tag l known) seen tags ≡ ok (push_all seen tags)
  unfolding check_tag
  tags_complete seen [] h k = refl
  tags_complete seen (t ∷ ts) h k = rw (h.0, k.0) (tags_complete (t ∷ seen) ts h.1 k.1)

  pub validate_tag_list_iff :
      (tags : List Str)
      → (validate_tag_list l tags known ≡ ok tt)
        ↔ (Fresh [] tags × All (λ tag. contains known tag ≡ true) tags)
  unfolding validate_tag_list
  validate_tag_list_iff tags = (
    (λ h.
        let (out, p, q) = bind_parts (fold_result (check_tag l known) [] tags) _ h in
        tags_sound [] tags p),
    (λ h. rw (tags_complete [] tags h.0 h.1)),
  )

-- A check of every element passes exactly when it passes on each.
pub for_each_iff {ℓ κ} :
    {E : Type κ} {A : Type ℓ} (f : A → Result E (Unit {0})) (xs : List A)
    → (for_each f xs ≡ ok tt) ↔ All (λ x. f x ≡ ok tt) xs
for_each_iff f [] = ((λ h. tt), (λ h. refl))
for_each_iff f (x ∷ xs) = (
  (λ h. let (u, p, q) = bind_parts (f x) _ h in (p, (for_each_iff f xs).0 q)),
  (λ h. rw h.0 ((for_each_iff f xs).1 h.1)),
)
