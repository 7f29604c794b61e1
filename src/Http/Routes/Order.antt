-- ===== src/Http/Routes/Order.antt =====
-- The order of the subscription routes, of `_subscription_routes` in http/routes.py.
use vpn_control_panel.Prelude.{
  ℕ, List, [], ◌∷◌, ◌≡◌, ◌≤◌, refl, ◌∙◌, inl, inr, false, not, ◌&&◌, arith, Bool-cases, contains,
  Distinct, All, length, ltb, nat_eq, list_eq, list_beq_iff,
}
use vpn_control_panel.Text.{Str}
use vpn_control_panel.Http.Routes.{
  RouteSettings, insert_route, sort_routes, unseen, subscription_routes,
}

-- Every route is at least as long as those after it.
abbrev pub LongestFirst : List Str → Type 0
LongestFirst [] = Unit {0}
LongestFirst (r ∷ rs) = All (λ s. length s ≤ length r) rs × LongestFirst rs

contains-insert_route :
    (r : Str) (rs : List Str) (a : Str) → contains (insert_route r rs) a ≡ contains (r ∷ rs) a
contains-insert_route r [] a = refl
contains-insert_route r (s ∷ rs) a = ground (arith, contains-insert_route r rs a)

contains-sort_routes : (rs : List Str) (a : Str) → contains (sort_routes rs) a ≡ contains rs a
contains-sort_routes [] a = refl
contains-sort_routes (r ∷ rs) a =
    contains-insert_route r (sort_routes rs) a ∙ rw (contains-sort_routes rs a) refl

insert_route-All :
    (n : ℕ) (r : Str) (rs : List Str)
    → length r ≤ n
    → All (λ s. length s ≤ n) rs
    → All (λ s. length s ≤ n) (insert_route r rs)
insert_route-All n r [] h k = (h, tt)
insert_route-All n r (s ∷ rs) h (k, ks) = elim (Bool-cases (ltb (length r) (length s))) [
  | inl shorter ↦ rw shorter (k, insert_route-All n r rs h ks)
  | inr longer ↦ rw longer (h, (k, ks))
]

All-weaken :
    (m n : ℕ) (rs : List Str) → m ≤ n → All (λ s. length s ≤ m) rs → All (λ s. length s ≤ n) rs
All-weaken m n [] h k = tt
All-weaken m n (s ∷ rs) h (k, ks) = (omega (arith, h, k), All-weaken m n rs h ks)

insert_route-LongestFirst :
    (r : Str) (rs : List Str) → LongestFirst rs → LongestFirst (insert_route r rs)
insert_route-LongestFirst r [] h = (tt, tt)
insert_route-LongestFirst r (s ∷ rs) (k, ks) = elim (Bool-cases (ltb (length r) (length s))) [
  | inl shorter ↦
      let le : length r ≤ length s = ground arith in
      rw shorter (insert_route-All (length s) r rs le k, insert_route-LongestFirst r rs ks)
  | inr longer ↦
      let le : length s ≤ length r = ground arith in
      rw longer ((le, All-weaken (length s) (length r) rs le k), (k, ks))
]

sort_routes-LongestFirst : (rs : List Str) → LongestFirst (sort_routes rs)
sort_routes-LongestFirst [] = tt
sort_routes-LongestFirst (r ∷ rs) = insert_route-LongestFirst r _ (sort_routes-LongestFirst rs)

insert_route-Distinct :
    (r : Str) (rs : List Str) → contains rs r ≡ false → Distinct rs → Distinct (insert_route r rs)
insert_route-Distinct r [] h d = (h, d)
insert_route-Distinct r (s ∷ rs) h (f, d) = elim (Bool-cases (ltb (length r) (length s))) [
  | inr longer ↦ rw longer (h, (f, d))
  | inl shorter ↦ rw shorter (
    ground (arith, contains-insert_route r rs s, list_beq_iff r s, list_beq_iff s r),
    insert_route-Distinct r rs (ground arith) d,
  )
]

contains-unseen :
    (seen rs : List Str) (a : Str)
    → contains (unseen seen rs) a ≡ (contains rs a && not (contains seen a))
contains-unseen seen [] a = refl
contains-unseen seen (r ∷ rs) a =
    ground (arith, list_beq_iff r a, contains-unseen (r ∷ seen) rs a, contains-unseen seen rs a)

unseen-Distinct : (seen rs : List Str) → Distinct (unseen seen rs)
unseen-Distinct seen [] = tt
unseen-Distinct seen (r ∷ rs) = elim (Bool-cases (contains seen r)) [
  | inl old ↦ rw old (unseen-Distinct seen rs)
  | inr new ↦ rw new (
    ground (arith, contains-unseen (r ∷ seen) rs r, list_beq_iff r r),
    unseen-Distinct (r ∷ seen) rs,
  )
]

sort_routes-Distinct : (rs : List Str) → Distinct rs → Distinct (sort_routes rs)
sort_routes-Distinct [] d = tt
sort_routes-Distinct (r ∷ rs) (f, d) =
    insert_route-Distinct r (sort_routes rs) (contains-sort_routes rs r ∙ f)
      (sort_routes-Distinct rs d)

-- The routes are exactly the configured ones, each once, and none stands before a longer one; so
-- a route that begins with another is tried first.
pub subscription_routes-LongestFirst :
    (s : RouteSettings) (a : Str)
    → (contains (subscription_routes s) a
        ≡ contains (s.subscription_route ∷ s.subscription_legacy_routes) a)
      × Distinct (subscription_routes s)
      × LongestFirst (subscription_routes s)
unfolding subscription_routes
subscription_routes-LongestFirst s a =
    let routes = s.subscription_route ∷ s.subscription_legacy_routes in
    (
      contains-sort_routes (unseen [] routes) a ∙ (contains-unseen [] routes a ∙ ground arith),
      sort_routes-Distinct (unseen [] routes) (unseen-Distinct [] routes),
      sort_routes-LongestFirst (unseen [] routes),
    )
