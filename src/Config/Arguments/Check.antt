-- ===== src/Config/Arguments/Check.antt =====
-- Which calls `check_arguments` lets through, by what the schema says of them.
use mcp_gatehound.Base.{
  same_texts, String, true, false, not, ◌&&◌, ◌||◌, some, none, List, [], ◌∷◌, ◌==◌, ◌≡◌, ◌↔◌, ◌⊎◌,
  inl, inr, refl, sym, ◌∙◌, arith, is_some, Result, ok, err, guard, All, Bool-cases, Option-cases,
}
use mcp_gatehound.Json.{
  Value, Fields, obj, str, end, field, get_field, has_field, insert_field, has_field-insert_field,
  AllFields,
}
use mcp_gatehound.Config.{ArgumentDef, ToolConfig, idempotency_key}
use mcp_gatehound.Config.Arguments.{
  accepts, ArgError, unknown_argument, key_required, unset, check_each_required, check_required,
  find_argument, check_argument, check_fields, check_object, check_arguments, no_arguments,
  property, properties, derived, key_description,
}

-- A member of the call that the tool takes: the idempotency key of an idempotent tool, or a declared
-- argument with a value of its kind.
abbrev pub IsTaken : ToolConfig → String → Value → Type 0
IsTaken t key value =
    ((t.idempotent && key == idempotency_key) ≡ true)
    ⊎ ((d : ArgumentDef) × (find_argument key t.arguments ≡ some d) × (accepts d.kind value ≡ true))

abbrev pub IsGiven : Fields → ArgumentDef → Type 0
IsGiven map a = (a.required ≡ false) ⊎ (unset (get_field a.name map) ≡ false)

-- An idempotent tool's call carries its key.
abbrev pub IsKeyed : ToolConfig → Fields → Type 0
IsKeyed t map = (t.idempotent ≡ false) ⊎ (has_field idempotency_key map ≡ true)

check-cases : (r : Result ArgError (Unit {0})) → (r ≡ ok tt) ⊎ ((e : ArgError) × (r ≡ err e))
check-cases (ok tt) = inl refl
check-cases (err e) = inr (e, refl)

each_required_iff :
    (defs : List ArgumentDef) (map : Fields)
    → (check_each_required defs map ≡ ok tt) ↔ All (IsGiven map) defs
unfolding check_each_required
each_required_iff [] map = (λ _. tt, λ _. refl)
each_required_iff (a ∷ defs) map =
    let ih = each_required_iff defs map in
    elim (Bool-cases (a.required && unset (get_field a.name map))) [
      | inl gone ↦ rw gone ((λ e. cc), λ h. ground (arith, h.0))
      | inr fine ↦
          let given : IsGiven map a = elim (Bool-cases a.required) [
            | inl yes' ↦ inr (ground arith)
            | inr no' ↦ inl no'
          ] in
          rw fine ((λ e. (given, ih.0 e)), λ h. ih.1 h.1)
    ]

IsTaken-iff :
    (t : ToolConfig) (key : String) (value : Value)
    → (check_argument t key value ≡ ok tt) ↔ IsTaken t key value
unfolding check_argument
IsTaken-iff t key value = elim (Bool-cases (t.idempotent && key == idempotency_key)) [
  | inl mine ↦ rw mine ((λ e. inl refl), λ h. refl)
  | inr plain ↦ elim (Option-cases (find_argument key t.arguments)) [
    | inl missed ↦ ((λ e. ground arith), λ h. ground arith)
    | inr (d, found) ↦ ((λ e. inr (d, found, ground arith)), λ h. ground arith)
  ]
]

fields_iff :
    (t : ToolConfig) (map : Fields) → (check_fields t map ≡ ok tt) ↔ AllFields (IsTaken t) map
unfolding check_fields
fields_iff t end = ((λ _. tt), λ _. refl)
fields_iff t (field k v rest) =
    let head = IsTaken-iff t k v in
    let tail = fields_iff t rest in
    elim (check-cases (check_argument t k v)) [
      | inl fine ↦ rw fine ((λ e. (head.0 fine, tail.0 e)), λ h. tail.1 h.1)
      | inr (e, bad) ↦ rw bad ((λ o. cc), λ h. ground (arith, head.1 h.0))
    ]

required_iff :
    (t : ToolConfig) (map : Fields)
    → (check_required t map ≡ ok tt) ↔ (All (IsGiven map) t.arguments × IsKeyed t map)
unfolding check_required
required_iff t map =
    let each = each_required_iff t.arguments map in
    let keyed : (guard (not (t.idempotent && not (has_field idempotency_key map))) key_required
          ≡ ok tt)
        → IsKeyed t map =
      λ e. elim (Bool-cases t.idempotent) [ inl yes' ↦ inr (ground arith) | inr no' ↦ inl no' ] in
    elim (check-cases (check_each_required t.arguments map)) [
      | inl fine ↦ rw fine ((λ e. (each.0 fine, keyed e)), λ h. ground arith)
      | inr (e, bad) ↦ rw bad ((λ o. cc), λ h. ground (arith, each.1 h.0))
    ]

object_iff :
    (t : ToolConfig) (map : Fields)
    → (check_object t (obj map) ≡ ok tt)
      ↔ (AllFields (IsTaken t) map × All (IsGiven map) t.arguments × IsKeyed t map)
unfolding check_object
object_iff t map =
    let fields = fields_iff t map in
    let required = required_iff t map in
    elim (check-cases (check_fields t map)) [
      | inl fine ↦
          rw fine
            ((λ e. let r = required.0 e in (fields.0 fine, r.0, r.1)), λ h. required.1 (h.1, h.2))
      | inr (e, bad) ↦ rw bad ((λ o. cc), λ h. ground (arith, fields.1 h.0))
    ]

check_arguments_declared :
    (t : ToolConfig) (args : Value)
    → no_arguments t.arguments ≡ false
    → t.input_schema ≡ none
    → check_arguments t args ≡ check_object t args
unfolding check_arguments
check_arguments_declared t args declared plain = ground arith

-- For a tool that declares its arguments, a call's object passes the check exactly when each member is
-- the idempotency key of an idempotent tool or a declared argument with a value of its kind, every
-- required argument is there and not null, and an idempotent tool's call carries its key.
pub check_arguments_iff :
    (t : ToolConfig) (map : Fields)
    → no_arguments t.arguments ≡ false
    → t.input_schema ≡ none
    → (check_arguments t (obj map) ≡ ok tt)
      ↔ (AllFields (IsTaken t) map × All (IsGiven map) t.arguments × IsKeyed t map)
check_arguments_iff t map declared plain =
    let same = check_arguments_declared t (obj map) declared plain in
    let both = object_iff t map in ((λ e. both.0 (sym same ∙ e)), λ h. same ∙ both.1 h)

has_field-properties :
    (defs : List ArgumentDef) (fs : Fields) (key : String)
    → has_field key (properties defs fs) ≡ (is_some (find_argument key defs) || has_field key fs)
unfolding properties
has_field-properties [] fs key = refl
has_field-properties (a ∷ defs) fs key =
    has_field-properties defs (insert_field a.name (property a) fs) key
    ∙ ground (arith, has_field-insert_field a.name key (property a) fs)

has_field-derived :
    (t : ToolConfig) (key : String)
    → has_field key (derived t).0
      ≡ (is_some (find_argument key t.arguments) || (t.idempotent && key == idempotency_key))
unfolding derived
has_field-derived t key = grind (
  same_texts,
  has_field-properties t.arguments end key,
  has_field-properties t.arguments end idempotency_key,
  has_field-insert_field idempotency_key key
      (obj (field "description" (str key_description) (field "type" (str "string") end)))
      (properties t.arguments end),
)

-- The derived schema, which allows no additional properties, lists exactly the names that a call may
-- carry: the check refuses a member as an unknown argument just when the schema does not list it.
pub schema_lists :
    (t : ToolConfig) (key : String) (value : Value)
    → (check_argument t key value ≡ err (unknown_argument key))
      ↔ (has_field key (derived t).0 ≡ false)
unfolding check_argument
schema_lists t key value =
    ((λ e. ground (arith, has_field-derived t key)), λ h. ground (arith, has_field-derived t key))
