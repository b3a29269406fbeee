-- ===== src/Upstreams/Http.antt =====
-- crates/gatehound-core/src/upstreams/http.rs: an operation's templates, filled from a caller's arguments,
-- and the request that comes of them.
pub mod Segments
pub mod Decoded
pub mod Calls
use Prim.Native.Char.{Char, code}
use Prim.Native.String as Str
use mcp_gatehound.Base.{
  ℕ, zero, suc, ◌/◌, ◌%◌, String, Bool, true, false, ◌&&◌, ◌||◌, Option, some, none, List, [], ◌∷◌,
  ◌+++◌, ◌==◌, Result, ok, err, ◌>>=◌, or_fail, ltb, leb, eqb, bytes, any, is_empty, trim,
  split_once, take_chars, if◌then◌else◌,
}
use mcp_gatehound.Json.{
  Value, Fields, Items, Num, null, bool, num, str, arr, obj, end, field, nil, cons, get,
  insert_field,
}

pub data HttpAuth : Type 0 where
  no_auth bearer : HttpAuth
  header : (name : String) → HttpAuth

pub record HttpOp : Type 0 where
  pub method : String
  pub path : String
  pub query : List (String × String)
  pub body : Option Value

pub data FillError : Type 0 where
  no_value unterminated moves : (name : String) → FillError
  not_scalar : FillError

-- CONTROLS and what is added to it; every byte of a character beyond ASCII is escaped as well.
abbrev pub is_escaped : ℕ → Bool
is_escaped n =
    leb n 0x1f
    || leb 0x7f n
    || any (λ b. eqb b n)
        (b' ' ∷ b'"' ∷ b'#' ∷ b'<' ∷ b'>' ∷ b'?' ∷ 0x60 ∷ 0x7b ∷ 0x7d ∷ b'/' ∷ b'%' ∷ 0x5c ∷ b'^'
          ∷ b'|' ∷ [])

abbrev pub hex_digits : List String
hex_digits =
    "0" ∷ "1" ∷ "2" ∷ "3" ∷ "4" ∷ "5" ∷ "6" ∷ "7" ∷ "8" ∷ "9" ∷ "A" ∷ "B" ∷ "C" ∷ "D" ∷ "E" ∷ "F"
    ∷ []

abbrev pub digit_at : ℕ → List String → String
digit_at n [] = ""
digit_at zero (d ∷ ds) = d
digit_at (suc n) (d ∷ ds) = digit_at n ds

abbrev pub escape_byte : ℕ → String
escape_byte b = "%" +++ (digit_at (b / 16) hex_digits +++ digit_at (b % 16) hex_digits)

abbrev pub escape_bytes : List ℕ → String
escape_bytes [] = ""
escape_bytes (b ∷ bs) = escape_byte b +++ escape_bytes bs

abbrev pub encode_char : Char → String
encode_char c = if is_escaped (code c) then escape_bytes (bytes (Str.◌∷◌ c "")) else Str.◌∷◌ c ""

abbrev pub encode_segment : String → String
encode_segment Str.[] = ""
encode_segment (Str.◌∷◌ c s) = encode_char c +++ encode_segment s

-- A value that is a dot segment would move the request to another path.
unfoldable pub path_value : String → String → Result FillError String
path_value name value =
    if value == "." || (value == "..") then err (moves name) else ok (encode_segment value)

-- `n.to_string()` is a function.
unfoldable pub scalar : (Num → String) → Value → Result FillError String
scalar show (str s) = ok s
scalar show (num n) = ok (show n)
scalar show (bool true) = ok "true"
scalar show (bool false) = ok "false"
scalar show _ = err not_scalar

-- The text between the braces of a template that is one placeholder.
abbrev closes : String → Option String
closes Str.[] = none
closes (Str.◌∷◌ c s) =
    let rest = closes s in
    if eqb (code c) 0x7d && is_empty s
    then some ""
    else if eqb (code c) 0x7b || eqb (code c) 0x7d
    then none
    else elim rest [ none ↦ none | some r ↦ some (Str.◌∷◌ c r) ]

abbrev pub sole_name : String → Option String
sole_name Str.[] = none
sole_name (Str.◌∷◌ c s) = if eqb (code c) 0x7b then closes s else none

abbrev is_some_name : Option String → Bool
is_some_name none = false
is_some_name (some n) = true

unfoldable pub is_sole_placeholder : Value → Bool
is_sole_placeholder (str s) = is_some_name (sole_name s)
is_sole_placeholder _ = false

-- Reading a template: plain text, or a placeholder with its name so far.
pub data Mode : Type 0 where
  plain : Mode
  within : (name : String) → Mode

module _ (show : Num → String) (args : Value) where
  abbrev pub text_for : Bool → String → Result FillError String
  text_for encode_path name = or_fail (get name args) (no_value name) >>= λ found.
      scalar show found >>= λ text. if encode_path then path_value name text else ok text

  abbrev before : String → Result FillError String → Result FillError String
  before t (ok s) = ok (t +++ s)
  before t (err e) = err e

  abbrev filled : Bool → String → Result FillError String → Result FillError String
  filled encode_path name rest = text_for encode_path name >>= λ t. before t rest

  pub fill_from : Bool → String → Mode → String → Result FillError String
  fill_from encode_path whole plain Str.[] = ok ""
  fill_from encode_path whole (within name) Str.[] = err (unterminated whole)
  fill_from encode_path whole plain (Str.◌∷◌ c s) =
      let opened = fill_from encode_path whole (within "") s in
      let kept = fill_from encode_path whole plain s in
      if eqb (code c) 0x7b then opened else before (Str.◌∷◌ c "") kept
  fill_from encode_path whole (within name) (Str.◌∷◌ c s) =
      let closed = fill_from encode_path whole plain s in
      let more = fill_from encode_path whole (within (name +++ Str.◌∷◌ c "")) s in
      if eqb (code c) 0x7d then filled encode_path name closed else more

  abbrev as_text : Result FillError String → Result FillError Value
  as_text (ok s) = ok (str s)
  as_text (err e) = err e

  abbrev fill_sole : Bool → String → Result FillError Value
  fill_sole true name = as_text (text_for true name)
  fill_sole false name = or_fail (get name args) (no_value name)

  unfoldable pub render_str : String → Bool → Result FillError Value
  unfolding fill_from
  render_str s encode_path = elim (sole_name s) [
    | none ↦ as_text (fill_from encode_path s plain s)
    | some name ↦ fill_sole encode_path name
  ]

  abbrev put :
      String → Value → Result FillError Value → Result FillError Fields → Result FillError Fields
  put k template (ok v) rest = rest >>= λ out. ok (field k v out)
  put k template (err e) rest = if is_sole_placeholder template then rest else err e

  unfoldable mutual
    pub render : Value → Bool → Result FillError Value
    render (str s) encode_path = render_str s encode_path
    render (arr items) encode_path = render_items items encode_path >>= λ out. ok (arr out)
    render (obj map) encode_path = render_fields map encode_path >>= λ out. ok (obj out)
    render null encode_path = ok null
    render (bool b) encode_path = ok (bool b)
    render (num n) encode_path = ok (num n)

    pub render_items : Items → Bool → Result FillError Items
    render_items nil encode_path = ok nil
    render_items (cons v vs) encode_path =
        let rest = render_items vs encode_path in
        render v encode_path >>= λ first. rest >>= λ out. ok (cons first out)

    pub render_fields : Fields → Bool → Result FillError Fields
    render_fields end encode_path = ok end
    render_fields (field k v fs) encode_path =
        put k v (render v encode_path) (render_fields fs encode_path)
