-- ===== src/Json.antt =====
-- The values that `json.loads` returns, as far as the program looks into them. An integer has a
-- sign and a size; a float is kept by its truth value only, since the program never reads it.
use vpn_control_panel.Prelude.{
  ℕ, zero, suc, Bool, true, false, Option, none, some, not, if◌then◌else◌, ◌==◌, nat_eq, list_eq,
}
use vpn_control_panel.Text.{Str, is_empty}

-- `negsuc n` is -(n + 1).
pub data ℤ : Type 0 where
  pos : ℕ → ℤ
  negsuc : ℕ → ℤ

mutual
  pub data Json : Type 0 where
    null : Json
    boolean : Bool → Json
    integer : ℤ → Json
    float : Bool → Json
    text : Str → Json
    array : Items → Json
    object : JsonObject → Json

  pub data Items : Type 0 where
    nil : Items
    cons : Json → Items → Items

  pub data JsonObject : Type 0 where
    end : JsonObject
    field : Str → Json → JsonObject → JsonObject

-- `object.get(key)`
abbrev pub get : Str → JsonObject → Option Json
get k end = none
get k (field j v o) = if j == k then some v else get k o

-- `object[key] = value`
abbrev pub put : Str → Json → JsonObject → JsonObject
put k v end = field k v end
put k v (field j w o) = if j == k then field j v o else field j w (put k v o)

-- `bool(object.get(key))`
abbrev pub truthy : Option Json → Bool
truthy none = false
truthy (some null) = false
truthy (some (boolean b)) = b
truthy (some (integer (pos zero))) = false
truthy (some (integer (pos (suc n)))) = true
truthy (some (integer (negsuc n))) = true
truthy (some (float b)) = b
truthy (some (text s)) = not (is_empty s)
truthy (some (array nil)) = false
truthy (some (array (cons x xs))) = true
truthy (some (object end)) = false
truthy (some (object (field k v o))) = true
