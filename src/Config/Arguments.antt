-- ===== src/Config/Arguments.antt =====
-- crates/gatehound-core/src/config.rs: what a tool's arguments must be, in the check of a call and in
-- the schema that a client is shown.
pub mod Check
pub mod Numbers
use mcp_gatehound.Base.{
  ℕ, String, Bool, true, false, not, ◌&&◌, ◌||◌, Option, some, none, List, [], ◌∷◌, ◌==◌, find, any,
  is_some, if◌then◌else◌, Result, ok, err, ◌>>=◌, ◌>>◌, guard, is_empty,
}
use mcp_gatehound.Json.{
  Value, Fields, null, bool, num, str, arr, obj, Num, unsigned, negative, other, end, field, nil,
  cons, Items, get_field, has_field, insert_field, is_null,
}
use mcp_gatehound.Config.{
  ArgKind, string, integer, number, boolean, ArgumentDef, ToolConfig, idempotency_key,
}
use Numbers.{parses_i64, parses_f64}

-- `v.is_i64() || v.is_u64()`: every integer that `serde_json` holds as one.
abbrev is_integer : Value → Bool
is_integer (num (unsigned n)) = true
is_integer (num (negative n)) = true
is_integer _ = false

abbrev text_is : (String → Bool) → Value → Bool
text_is p (str s) = p s
text_is p _ = false

abbrev is_number : Value → Bool
is_number (num n) = true
is_number _ = false

abbrev is_string : Value → Bool
is_string (str s) = true
is_string _ = false

abbrev is_boolean : Value → Bool
is_boolean (bool b) = true
is_boolean _ = false

-- A number or a boolean may be sent as its text; null is "not set".
unfoldable pub accepts : ArgKind → Value → Bool
accepts string v = is_null v || is_string v
accepts integer v = is_null v || (is_integer v || text_is parses_i64 v)
accepts number v = is_null v || (is_number v || text_is parses_f64 v)
accepts boolean v = is_null v || (is_boolean v || text_is (λ s. s == "true" || s == "false") v)

unfoldable pub json_name : ArgKind → String
json_name string = "string"
json_name integer = "integer"
json_name number = "number"
json_name boolean = "boolean"

unfoldable pub kind_of : Value → String
kind_of (str _) = "a string"
kind_of (num _) = "a number"
kind_of (bool _) = "a boolean"
kind_of (arr _) = "an array"
kind_of (obj _) = "an object"
kind_of null = "null"

-- The messages of `check_arguments`, by what they name.
pub data ArgError : Type 0 where
  not_an_object : (found : String) → ArgError
  unknown_argument : (key : String) → ArgError
  wrong_kind : (key wanted found : String) → ArgError
  missing : (name : String) → ArgError
  key_required : ArgError

-- `map.get(&a.name).is_none_or(Value::is_null)`
abbrev pub unset : Option Value → Bool
unset none = true
unset (some v) = is_null v

pub check_each_required : List ArgumentDef → Fields → Result ArgError (Unit {0})
check_each_required [] map = ok tt
check_each_required (a ∷ defs) map =
    let rest = check_each_required defs map in
    if a.required && unset (get_field a.name map) then err (missing a.name) else rest

unfoldable pub check_required : ToolConfig → Fields → Result ArgError (Unit {0})
unfolding check_each_required
check_required t map = do
  check_each_required t.arguments map
  guard (not (t.idempotent && not (has_field idempotency_key map))) key_required

abbrev find_argument : String → List ArgumentDef → Option ArgumentDef
find_argument key defs = find (λ a. a.name == key) defs

-- One round of the loop over the caller's map.
pub check_argument : ToolConfig → String → Value → Result ArgError (Unit {0})
check_argument t key value =
    if t.idempotent && key == idempotency_key then ok tt else elim (find_argument key t.arguments) [
      | none ↦ err (unknown_argument key)
      | some d ↦ guard (accepts d.kind value) (wrong_kind key (json_name d.kind) (kind_of value))
    ]

pub check_fields : ToolConfig → Fields → Result ArgError (Unit {0})
check_fields t end = ok tt
check_fields t (field key value rest) = check_argument t key value >> check_fields t rest

unfoldable pub check_object : ToolConfig → Value → Result ArgError (Unit {0})
unfolding check_fields check_argument
check_object t (obj map) = do check_fields t map; check_required t map
check_object t null = check_required t end
check_object t v = err (not_an_object (kind_of v))

abbrev pub no_arguments : List ArgumentDef → Bool
no_arguments [] = true
no_arguments (_ ∷ _) = false

unfoldable pub check_arguments : ToolConfig → Value → Result ArgError (Unit {0})
check_arguments t args =
    if no_arguments t.arguments || is_some t.input_schema then ok tt else check_object t args

-- The schema.
abbrev property : ArgumentDef → Value
property a =
    let typed = field "type" (str (json_name a.kind)) end in
    obj (
      if is_empty a.description
      then typed
      else insert_field "description" (str a.description) typed)

pub properties : List ArgumentDef → Fields → Fields
properties [] fs = fs
properties (a ∷ defs) fs = properties defs (insert_field a.name (property a) fs)

pub required_names : List ArgumentDef → List String
required_names [] = []
required_names (a ∷ defs) =
    let rest = required_names defs in if a.required then a.name ∷ rest else rest

abbrev push_item : Items → String → Items
push_item nil s = cons (str s) nil
push_item (cons v vs) s = cons v (push_item vs s)

abbrev items_of : List String → Items
items_of [] = nil
items_of (s ∷ ss) = cons (str s) (items_of ss)

abbrev key_description : String
key_description =
    "A key of the caller's choosing. Repeating one returns the first result instead of acting again."

-- The properties of a derived schema, the idempotency key's among them, and what it requires.
unfoldable pub derived : ToolConfig → Fields × Items
unfolding properties required_names
derived t =
    let props = properties t.arguments end in
    let names = items_of (required_names t.arguments) in
    if t.idempotent && not (has_field idempotency_key props)
    then (
      insert_field idempotency_key
          (obj (field "description" (str key_description) (field "type" (str "string") end))) props,
      push_item names idempotency_key,
    )
    else (props, names)

unfoldable pub schema : ToolConfig → Value
schema t = elim t.input_schema [
  | some explicit ↦ explicit
  | none ↦
      if no_arguments t.arguments
      then obj (field "properties" (obj end) (field "type" (str "object") end))
      else let d = derived t in
        obj (
          field "additionalProperties" (bool false) (
            field "properties" (obj d.0)
              (field "required" (arr d.1) (field "type" (str "object") end))))
]
