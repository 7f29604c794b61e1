-- ===== src/Subscription/Traffic.antt =====
-- The traffic of a subscription: `SubscriptionTraffic`, `_nonnegative_int`, `_timestamp_seconds`,
-- `_parse_subscription_userinfo` and `_build_subscription_userinfo` of subscription/service.py.
-- Python's `int` of a text is an argument.
use vpn_control_panel.Prelude.{
  ℕ, zero, suc, ◌+◌, ◌/◌, List, [], ◌∷◌, ◌++◌, ◌≡◌, refl, Bool, true, false, not, ◌&&◌, Option,
  none, some, arith, leb, ◌==◌, nat_eq, list_eq, if◌then◌else◌,
}
use vpn_control_panel.Text.{Str, codes, strip, split, partition, is_empty, join}
use vpn_control_panel.Text.Digits.{show_nat}
use vpn_control_panel.Dict.{Dict, lookup, insert}
use vpn_control_panel.Json.{Json, null, boolean, integer, float, text, array, object, ℤ, pos, get}

pub record SubscriptionTraffic : Type 0 where
  pub matched : Bool
  pub upload : ℕ
  pub download : ℕ
  pub total : ℕ
  pub expire : Option ℕ

abbrev pub no_traffic : SubscriptionTraffic
no_traffic = record { matched = false; upload = 0; download = 0; total = 0; expire = none }

abbrev clamp : Option ℤ → ℕ
clamp (some (pos n)) = n
clamp other = 0

abbrev max : ℕ → ℕ → ℕ
max a b = if leb a b then b else a

abbrev or_zero : Option ℕ → ℕ
or_zero none = 0
or_zero (some n) = n

add_right_comm : (a b c : ℕ) → a + b + c ≡ a + c + b
add_right_comm a b c = omega arith

module _ (int_of : Str → Option ℤ) where
  unfoldable pub nonnegative_int : Option Json → ℕ
  nonnegative_int (some (boolean true)) = 1
  nonnegative_int (some (integer n)) = clamp (some n)
  nonnegative_int (some (text s)) = clamp (int_of s)
  nonnegative_int other = 0

  abbrev seconds : ℕ → Option ℕ
  seconds n = if n == 0 then none else if leb 10000000000 n then some (n / 1000) else some n

  unfoldable pub timestamp_seconds : Option Json → Option ℕ
  unfolding nonnegative_int
  timestamp_seconds v = seconds (nonnegative_int v)

  abbrev later : Option ℕ → Option ℕ → Option ℕ
  later old none = old
  later old (some t) = some (max (or_zero old) t)

  -- `SubscriptionTraffic.add`
  unfoldable pub add_traffic : Json → SubscriptionTraffic → SubscriptionTraffic
  unfolding timestamp_seconds nonnegative_int
  add_traffic (object stat) t = record {
    matched = true;
    upload = t.upload + nonnegative_int (get (codes "up") stat);
    download = t.download + nonnegative_int (get (codes "down") stat);
    total = t.total + nonnegative_int (get (codes "total") stat);
    expire = later t.expire (timestamp_seconds (get (codes "expiryTime") stat));
  }
  add_traffic other t = t

  abbrev put_part : Str × Bool × Str → Dict Str Str → Dict Str Str
  put_part (key, separator, value) d =
      if separator && not (is_empty key) then insert (strip key) (strip value) d else d

  abbrev put_parts : List Str → Dict Str Str → Dict Str Str
  put_parts [] d = d
  put_parts (part ∷ parts) d = put_parts parts (put_part (partition b'=' (strip part)) d)

  unfoldable pub parse_subscription_userinfo : Option Str → Dict Str Str
  unfolding split strip
  parse_subscription_userinfo none = []
  parse_subscription_userinfo (some []) = []
  parse_subscription_userinfo (some (c ∷ s)) = put_parts (split b';' (c ∷ s)) []

  abbrev as_text : Option Str → Option Json
  as_text none = none
  as_text (some s) = some (text s)

  abbrev or_expire : Option ℕ → Option ℕ → Option ℕ
  or_expire none other = other
  or_expire (some zero) other = other
  or_expire (some (suc n)) other = some (suc n)

  abbrev entry : Str → ℕ → Str
  entry key n = key ++ (b'=' ∷ show_nat n)

  abbrev expire_entry : Option ℕ → List Str
  expire_entry none = []
  expire_entry (some n) = entry (codes "expire") n ∷ []

  unfoldable pub build_subscription_userinfo : Option Str → SubscriptionTraffic → Option Str
  unfolding parse_subscription_userinfo timestamp_seconds nonnegative_int
  build_subscription_userinfo configured t =
      let known = parse_subscription_userinfo configured in
      let total =
        if t.total == 0
        then nonnegative_int (as_text (lookup (codes "total") known))
        else t.total in
      let expire =
        or_expire t.expire (timestamp_seconds (as_text (lookup (codes "expire") known))) in
      if not t.matched
      then configured
      else some (
          join (codes "; ") (
            entry (codes "upload") t.upload
            ∷ entry (codes "download") t.download
            ∷ entry (codes "total") total
            ∷ expire_entry expire))

  later_comm : (e x y : Option ℕ) → later (later e x) y ≡ later (later e y) x
  later_comm e none none = refl
  later_comm e none (some y) = refl
  later_comm e (some x) none = refl
  later_comm none (some x) (some y) = ground arith
  later_comm (some e) (some x) (some y) = ground arith

  -- Every statistic of a node counts once: in whatever order two are added, the result is the
  -- same, the expiry included, which is the latest.
  pub add_traffic_comm :
      (a b : Json) (t : SubscriptionTraffic)
      → add_traffic a (add_traffic b t) ≡ add_traffic b (add_traffic a t)
  unfolding add_traffic
  add_traffic_comm null b t = refl
  add_traffic_comm (boolean x) b t = refl
  add_traffic_comm (integer n) b t = refl
  add_traffic_comm (float x) b t = refl
  add_traffic_comm (text s) b t = refl
  add_traffic_comm (array xs) b t = refl
  add_traffic_comm (object o) null t = refl
  add_traffic_comm (object o) (boolean x) t = refl
  add_traffic_comm (object o) (integer n) t = refl
  add_traffic_comm (object o) (float x) t = refl
  add_traffic_comm (object o) (text s) t = refl
  add_traffic_comm (object o) (array xs) t = refl
  add_traffic_comm (object o) (object p) t =
      rw
        (
          add_right_comm t.upload (nonnegative_int (get (codes "up") p))
              (nonnegative_int (get (codes "up") o)),
          add_right_comm t.download (nonnegative_int (get (codes "down") p))
              (nonnegative_int (get (codes "down") o)),
          add_right_comm t.total (nonnegative_int (get (codes "total") p))
              (nonnegative_int (get (codes "total") o)),
          later_comm t.expire (timestamp_seconds (get (codes "expiryTime") p))
              (timestamp_seconds (get (codes "expiryTime") o)),
        )
        refl
