-- ===== src/Json.antt =====
-- JSON values as `serde_json` holds them. An object is a map in the order of its keys; a number is an
-- unsigned or a negative integer, or the text of any other number.
use Prim.Native.Nat.{Ordering}
use Prim.Native.String.{compare}
use mcp_gatehound.Base.{
  same_texts, ℕ, String, Bool, true, false, Option, some, none, ◌==◌, ◌≡◌, refl, if◌then◌else◌,
}

pub data Num : Type 0 where
  unsigned : ℕ → Num
  -- -(n + 1)
  negative : ℕ → Num
  other : String → Num

mutual
  pub data Value : Type 0 where
    null : Value
    bool : Bool → Value
    num : Num → Value
    str : String → Value
    obj : Fields → Value
    arr : Items → Value

  pub data Fields : Type 0 where
    end : Fields
    field : String → Value → Fields → Fields

  pub data Items : Type 0 where
    nil : Items
    cons : Value → Items → Items

-- `map.get(k)`, `map.contains_key(k)`
unfoldable pub get_field : String → Fields → Option Value
get_field k end = none
get_field k (field j v fs) = if j == k then some v else get_field k fs

abbrev pub has_field : String → Fields → Bool
has_field k end = false
has_field k (field j v fs) = if j == k then true else has_field k fs

-- `map.insert(k, v)`, in the order of the keys
unfoldable pub insert_field : String → Value → Fields → Fields
insert_field k v end = field k v end
insert_field k v (field j w fs) = elim (compare k j) [
  | Ordering.lt ↦ field k v (field j w fs)
  | Ordering.eq ↦ field k v fs
  | Ordering.gt ↦ field j w (insert_field k v fs)
]

pub get_field-insert_field :
    (k j : String) (v : Value) (fs : Fields)
    → get_field j (insert_field k v fs) ≡ (if k == j then some v else get_field j fs)
unfolding get_field insert_field
get_field-insert_field k j v end = refl
get_field-insert_field k j v (field i w fs) = grind (same_texts, get_field-insert_field k j v fs)

-- `value.get(k)`
unfoldable pub get : String → Value → Option Value
get k (obj fs) = get_field k fs
get k _ = none

abbrev pub as_str : Value → Option String
as_str (str s) = some s
as_str _ = none

abbrev pub as_bool : Value → Option Bool
as_bool (bool b) = some b
as_bool _ = none

abbrev pub is_null : Value → Bool
is_null null = true
is_null _ = false

abbrev pub is_obj_or_arr : Value → Bool
is_obj_or_arr (arr _) = true
is_obj_or_arr (obj _) = true
is_obj_or_arr _ = false

pub has_field-insert_field :
    (k j : String) (v : Value) (fs : Fields)
    → has_field j (insert_field k v fs) ≡ (if k == j then true else has_field j fs)
unfolding insert_field
has_field-insert_field k j v end = refl
has_field-insert_field k j v (field i w fs) = grind (same_texts, has_field-insert_field k j v fs)

-- A statement of every member of an object.
abbrev pub AllFields {ℓ} : (String → Value → Type ℓ) → Fields → Type ℓ
AllFields P end = Unit
AllFields P (field k v fs) = P k v × AllFields P fs
