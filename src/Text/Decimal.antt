-- ===== src/Text/Decimal.antt =====
-- Decimal digits: `str.isdecimal`, and `int` of a text of decimal digits.
use vpn_control_panel.Prelude.{
  ℕ, ◌+◌, ◌-◌, ◌*◌, ◌<◌, List, [], ◌∷◌, ◌≡◌, ◌≢◌, refl, ◌&&◌, Option, none, some, ltb, leb, arith,
  map, All, if◌then◌else◌, ◌∙◌, ap,
}
use vpn_control_panel.Text.Defs.{Str}
use vpn_control_panel.Text.Digits.{
  digits, digits_bounded, digits-ne-nil, value, value_from, value-digits, show_nat,
}

-- The zeros of Unicode's decimal digits; each is followed by the digits one to nine.
abbrev other_zeros : List ℕ
other_zeros =
    0x660 ∷ 0x6f0 ∷ 0x7c0 ∷ 0x966 ∷ 0x9e6 ∷ 0xa66 ∷ 0xae6 ∷ 0xb66 ∷ 0xbe6 ∷ 0xc66 ∷ 0xce6 ∷ 0xd66
    ∷ 0xde6 ∷ 0xe50 ∷ 0xed0 ∷ 0xf20 ∷ 0x1040 ∷ 0x1090 ∷ 0x17e0 ∷ 0x1810 ∷ 0x1946 ∷ 0x19d0 ∷ 0x1a80
    ∷ 0x1a90 ∷ 0x1b50 ∷ 0x1bb0 ∷ 0x1c40 ∷ 0x1c50 ∷ 0xa620 ∷ 0xa8d0 ∷ 0xa900 ∷ 0xa9d0 ∷ 0xa9f0
    ∷ 0xaa50 ∷ 0xabf0 ∷ 0xff10 ∷ 0x104a0 ∷ 0x10d30 ∷ 0x11066 ∷ 0x110f0 ∷ 0x11136 ∷ 0x111d0 ∷ 0x112f0
    ∷ 0x11450 ∷ 0x114d0 ∷ 0x11650 ∷ 0x116c0 ∷ 0x11730 ∷ 0x118e0 ∷ 0x11950 ∷ 0x11c50 ∷ 0x11d50
    ∷ 0x11da0 ∷ 0x11f50 ∷ 0x16a60 ∷ 0x16ac0 ∷ 0x16b50 ∷ 0x1d7ce ∷ 0x1d7d8 ∷ 0x1d7e2 ∷ 0x1d7ec
    ∷ 0x1d7f6 ∷ 0x1e140 ∷ 0x1e2f0 ∷ 0x1e4f0 ∷ 0x1e950 ∷ 0x1fbf0 ∷ []

abbrev value_in : List ℕ → ℕ → Option ℕ
value_in [] c = none
value_in (z ∷ zs) c = if leb z c && ltb c (z + 10) then some (c - z) else value_in zs c

-- The value of a decimal digit.
unfoldable pub decimal_value : ℕ → Option ℕ
decimal_value = value_in (48 ∷ other_zeros)

abbrev parse_from : ℕ → Str → Option ℕ
parse_from acc [] = some acc
parse_from acc (c ∷ s) = elim (decimal_value c) [
  | none ↦ none
  | some d ↦ parse_from (acc * 10 + d) s
]

-- `int(s)` where `s.isdecimal()` holds, and `none` where it does not.
unfoldable pub parse_decimal : Str → Option ℕ
unfolding decimal_value
parse_decimal [] = none
parse_decimal (c ∷ s) = parse_from 0 (c ∷ s)

value_in_first : (z d : ℕ) (zs : List ℕ) → d < 10 → value_in (z ∷ zs) (z + d) ≡ some d
value_in_first z d zs h = ground arith

ascii_digit : (d : ℕ) → d < 10 → decimal_value (48 + d) ≡ some d
unfolding decimal_value
ascii_digit d h = value_in_first 48 d other_zeros h

parse_from-digits :
    (acc : ℕ) (ds : List ℕ)
    → All (λ d. d < 10) ds
    → parse_from acc (map (λ d. 48 + d) ds) ≡ some (value_from 10 acc ds)
parse_from-digits acc [] h = refl
parse_from-digits acc (d ∷ ds) h =
    rw (ascii_digit d h.0, parse_from) (parse_from-digits (acc * 10 + d) ds h.1)

parse_decimal-digits :
    (ds : List ℕ)
    → ds ≢ []
    → All (λ d. d < 10) ds
    → parse_decimal (map (λ d. 48 + d) ds) ≡ some (value 10 ds)
unfolding parse_decimal
parse_decimal-digits [] n h = absurd (n refl)
parse_decimal-digits (d ∷ ds) n h = parse_from-digits 0 (d ∷ ds) h

-- Reading `str(n)` back gives the number.
pub parse_decimal-show_nat : (n : ℕ) → parse_decimal (show_nat n) ≡ some n
unfolding show_nat
parse_decimal-show_nat n =
    parse_decimal-digits (digits 10 n) (digits-ne-nil 10 n) (digits_bounded 10 n (omega arith))
    ∙ ap some (value-digits 10 n (omega arith))
