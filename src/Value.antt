-- ===== src/Value.antt =====
-- Python values as the program's dicts hold them, from JSON or from action results: no floats.
use hermes_vps.Prelude.{
  ℕ, zero, suc, Bool, true, false, not, String, Option, none, some, ◌==◌, if◌then◌else◌,
}

-- Python's `int`: `negsuc n` is -(n + 1).
pub data ℤ : Type 0 where
  pos : ℕ → ℤ
  negsuc : ℕ → ℤ

mutual
  pub data Value : Type 0 where
    null : Value
    bool : Bool → Value
    int : ℤ → Value
    str : String → Value
    list : Items → Value
    dict : Fields → Value

  pub data Items : Type 0 where
    nil : Items
    item : Value → Items → Items

  pub data Fields : Type 0 where
    end : Fields
    field : String → Value → Fields → Fields

-- d.get(key)
unfoldable pub get : String → Fields → Option Value
get k end = none
get k (field j v d) = if j == k then some v else get k d

-- d.get(key, default)
unfoldable pub get_or : String → Value → Fields → Value
get_or k default end = default
get_or k default (field j v d) = if j == k then v else get_or k default d

-- d[key] = v
unfoldable pub put : String → Value → Fields → Fields
put k v end = field k v end
put k v (field j w d) = if j == k then field j v d else field j w (put k v d)

-- d.update(other)
unfoldable pub update : Fields → Fields → Fields
unfolding put
update d end = d
update d (field j v other) = update (put j v d) other

-- bool(x)
abbrev pub truthy : Value → Bool
truthy null = false
truthy (bool b) = b
truthy (int (pos zero)) = false
truthy (int (pos (suc n))) = true
truthy (int (negsuc n)) = true
truthy (str s) = not (s == "")
truthy (list nil) = false
truthy (list (item v vs)) = true
truthy (dict end) = false
truthy (dict (field k v d)) = true

-- x is True
abbrev pub is_true : Value → Bool
is_true (bool b) = b
is_true _ = false

-- What `d.get(key)` is, as a value: a missing key gives None.
abbrev pub or_null : Option Value → Value
or_null none = null
or_null (some v) = v
