-- ===== src/Crons/Expression/Values.antt =====
-- The values of a cron field.
use vpn_control_panel.Prelude.{
  ℕ, zero, suc, ◌+◌, ◌-◌, ◌≤◌, ◌<◌, List, [], ◌∷◌, ◌++◌, ◌≡◌, false, not, ◌&&◌, ◌||◌, ok, arith,
  bind_ok, raise_if_ok, contains, contains-filter, filter, All, All-map, All-append, All-filter,
  ltb, leb, ◌==◌, nat_eq, nat_beq_iff, list_eq, Bool-cases, inl, inr,
}
use vpn_control_panel.Text.{Str, strip, split, is_empty}
use vpn_control_panel.Crons.Expression.{
  out_of_range, empty_part, range_by, parse_step, parse_bounds, parse_part, parse_parts, fold_seven,
  parse_field,
}

abbrev pub InRange : ℕ → ℕ → List ℕ → Type 0
InRange minimum maximum = All (λ v. (minimum ≤ v) × (v ≤ maximum))

range_by-InRange : (fuel v last step : ℕ) → InRange v last (range_by fuel v last step)
unfolding range_by
range_by-InRange zero v last step = tt
range_by-InRange (suc fuel) v last step = elim (Bool-cases (leb v last)) [
  | inl p ↦ rw p (
    ((omega arith, ground arith)),
    All-map (range_by fuel (v + step) last step) (λ u h. (omega (arith, h.0), h.1))
        (range_by-InRange fuel (v + step) last step),
  )
  | inr p ↦ rw p tt
]

-- A range of step 1 on its fuel holds every number of it.
range_one :
    (fuel v last u : ℕ)
    → last < v + fuel
    → contains (range_by fuel v last 1) u ≡ (leb v u && leb u last)
unfolding range_by
range_one zero v last u h = ground arith
range_one (suc fuel) v last u h =
    let next : last < v + 1 + fuel = omega arith in
    ground (arith, range_one fuel (v + 1) last u next, nat_beq_iff v u)

parse_part-InRange :
    (part : Str) (minimum maximum : ℕ) (vs : List ℕ)
    → parse_part part minimum maximum ≡ ok vs
    → InRange minimum maximum vs
unfolding parse_part
parse_part-InRange part minimum maximum vs h = raise_if_ok (is_empty part) empty_part _ h λ a h1.
    bind_ok (parse_step part) _ h1 λ bs p h2.
      bind_ok (parse_bounds bs.0 minimum maximum) _ h2 λ ends q h3.
        raise_if_ok (ltb ends.0 minimum || (ltb maximum ends.1 || ltb ends.1 ends.0)) out_of_range _
          h3
          λ b h4.
            let low : minimum ≤ ends.0 = ground arith in
            let high : ends.1 ≤ maximum = ground arith in
            let same : range_by (ends.1 + 1 - ends.0) ends.0 ends.1 bs.1 ≡ vs = ground arith in
            rw (← same) (
              All-map (range_by (ends.1 + 1 - ends.0) ends.0 ends.1 bs.1)
                (λ u r. (omega (arith, r.0, low), omega (arith, r.1, high)))
                (range_by-InRange (ends.1 + 1 - ends.0) ends.0 ends.1 bs.1))

parse_parts-InRange :
    (parts : List Str) (minimum maximum : ℕ) (vs : List ℕ)
    → parse_parts parts minimum maximum ≡ ok vs
    → InRange minimum maximum vs
unfolding parse_parts
parse_parts-InRange [] minimum maximum vs h = let same : [] ≡ vs = ground arith in rw (← same) tt
parse_parts-InRange (part ∷ parts) minimum maximum vs h =
    bind_ok (parse_part (strip part) minimum maximum) _ h λ xs p h1.
      bind_ok (parse_parts parts minimum maximum) _ h1 λ ys q h2.
        let same : (xs ++ ys) ≡ vs = ground arith in
        rw (← same) (
          All-append (λ v. (minimum ≤ v) × (v ≤ maximum)) xs ys
            (parse_part-InRange (strip part) minimum maximum xs p)
            (parse_parts-InRange parts minimum maximum ys q))

no_seven : (vs : List ℕ) → contains (filter (λ v. not (v == 7)) vs) 7 ≡ false
no_seven vs = ground (arith, contains-filter (λ v. not (v == 7)) vs 7)

-- The values of a field that parses are in its range, and where 7 ends the range, which then
-- starts at 0, 7 itself is not among them.
pub parse_field-InRange :
    (field : Str) (minimum maximum : ℕ) (vs : List ℕ)
    → (maximum ≡ 7 → minimum ≡ 0)
    → parse_field field minimum maximum ≡ ok vs
    → InRange minimum maximum vs × ((maximum ≡ 7) → contains vs 7 ≡ false)
unfolding parse_field
parse_field-InRange field minimum maximum vs zero_first h =
    bind_ok (parse_parts (split b',' field) minimum maximum) _ h λ xs p h1.
      let same : fold_seven maximum xs ≡ vs = ground arith in
      let inside = parse_parts-InRange (split b',' field) minimum maximum xs p in
      rw (← same) (elim (Bool-cases (maximum == 7 && contains xs 7)) [
        | inl q ↦ rw q (
          (
            (ground (arith, zero_first, nat_beq_iff maximum 7), omega arith),
            All-filter (λ v. (minimum ≤ v) × (v ≤ maximum)) (λ v. not (v == 7)) xs inside,
          ),
          λ e. no_seven xs,
        )
        | inr q ↦ rw q (inside, λ e. ground (arith, nat_beq_iff maximum 7))
      ])
