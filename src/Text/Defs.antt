-- ===== src/Text/Defs.antt =====
-- Python's `str` as the list of its code points, with the methods that the program calls.
use Prim.Native.Char.{code}
use vpn_control_panel.Prelude.{
  ℕ, String, List, [], ◌∷◌, ◌++◌, Bool, true, false, ◌&&◌, ◌||◌, Option, none, some, leb, ltb, all,
  if◌then◌else◌, ◌==◌, nat_eq,
}

abbrev pub Str : Type 0
Str = List ℕ

abbrev pub codes : String → Str
codes String.[] = []
codes (String.◌∷◌ c s) = code c ∷ codes s

-- `not value`
abbrev pub is_empty {ℓ} : {A : Type ℓ} → List A → Bool
is_empty [] = true
is_empty (x ∷ xs) = false

-- `value.isascii()`
abbrev pub is_ascii : Str → Bool
is_ascii s = all (λ c. ltb c 128) s

-- The code points that `str.isspace` accepts, which are those that `str.strip` removes.
unfoldable pub is_space : ℕ → Bool
is_space c =
    (leb 9 c && leb c 13)
    || (leb 28 c && leb c 32)
    || c == 0x85
    || c == 0xa0
    || c == 0x1680
    || (leb 0x2000 c && leb c 0x200a)
    || (leb 0x2028 c && leb c 0x2029)
    || c == 0x202f
    || c == 0x205f
    || c == 0x3000

-- `lstrip` and `rstrip` by a test on the code points
unfoldable pub lstrip : (ℕ → Bool) → Str → Str
lstrip p [] = []
lstrip p (c ∷ s) = if p c then lstrip p s else c ∷ s

abbrev trim_cons : (ℕ → Bool) → ℕ → Str → Str
trim_cons p c [] = if p c then [] else c ∷ []
trim_cons p c (d ∷ r) = c ∷ d ∷ r

unfoldable pub rstrip : (ℕ → Bool) → Str → Str
rstrip p [] = []
rstrip p (c ∷ s) = trim_cons p c (rstrip p s)

unfoldable pub strip_by : (ℕ → Bool) → Str → Str
unfolding lstrip rstrip
strip_by p s = rstrip p (lstrip p s)

-- `value.strip()`
unfoldable pub strip : Str → Str
unfolding strip_by is_space
strip = strip_by is_space

-- `value.strip("/")`
unfoldable pub strip_slashes : Str → Str
unfolding strip_by
strip_slashes = strip_by (λ c. c == b'/')

abbrev pub starts_with : Str → Str → Bool
starts_with s [] = true
starts_with [] (p ∷ ps) = false
starts_with (c ∷ s) (p ∷ ps) = c == p && starts_with s ps

-- `value.removeprefix(prefix)`
abbrev pub remove_prefix : Str → Str → Str
remove_prefix s p = if starts_with s p then drop_length s p else s
  where
    drop_length : Str → Str → Str
    drop_length t [] = t
    drop_length [] (q ∷ qs) = []
    drop_length (c ∷ t) (q ∷ qs) = drop_length t qs

-- `value.endswith("/")`, for one code point
abbrev pub ends_with : Str → ℕ → Bool
ends_with [] p = false
ends_with (c ∷ []) p = c == p
ends_with (c ∷ d ∷ s) p = ends_with (d ∷ s) p

-- `value.partition(c)`: what stands before the first `c`, whether there is one, and what follows.
abbrev pub partition : ℕ → Str → Str × Bool × Str
partition c [] = ([], false, [])
partition c (d ∷ s) =
    let (before, found, after) = partition c s in
    if d == c then ([], true, s) else (d ∷ before, found, after)

-- `sub in value`
abbrev pub has_substring : Str → Str → Bool
has_substring [] p = starts_with [] p
has_substring (c ∷ s) p = starts_with (c ∷ s) p || has_substring s p

-- `value.split(c)`
abbrev prepend : ℕ → List Str → List Str
prepend d [] = (d ∷ []) ∷ []
prepend d (part ∷ parts) = (d ∷ part) ∷ parts

unfoldable pub split : ℕ → Str → List Str
split c [] = [] ∷ []
split c (d ∷ s) = let rest = split c s in if d == c then [] ∷ rest else prepend d rest

-- `separator.join(parts)`
abbrev pub join : Str → List Str → Str
join sep [] = []
join sep (x ∷ []) = x
join sep (x ∷ y ∷ ys) = x ++ (sep ++ join sep (y ∷ ys))

-- `a or b` on texts, and on texts that may be null
abbrev pub or_text : Str → Str → Str
or_text [] b = b
or_text (c ∷ s) b = c ∷ s

abbrev pub or_default : Option Str → Str → Str
or_default none b = b
or_default (some a) b = or_text a b
