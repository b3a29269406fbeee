-- ===== src/Auth/Headers.antt =====
-- crates/gatehound-core/src/auth.rs: credentials in a request's headers.
use mcp_gatehound.Base.{
  String, Option, some, none, List, [], ◌∷◌, ◌==◌, is_empty, or_else, strip_prefix, split_from,
  split_once, trim, if◌then◌else◌, find,
}

-- Names are in lower case, as the `http` crate keeps them.
pub record Header : Type 0 where
  pub name : String
  pub text : Option String

abbrev pub HeaderMap : Type 0
HeaderMap = List Header

abbrev text_of : Option Header → Option String
text_of none = none
text_of (some h) = h.text

-- `headers.get(name).and_then(|v| v.to_str().ok())`: the first of that name
unfoldable pub get_text : String → HeaderMap → Option String
get_text name hs = text_of (find (λ h. h.name == name) hs)

abbrev filled : String → Option String
filled s = if is_empty s then none else some s

abbrev pub trimmed : Option String → Option String
trimmed none = none
trimmed (some s) = filled (trim s)

abbrev without_scheme : Option String → Option String
without_scheme none = none
without_scheme (some v) = or_else (strip_prefix "Bearer " v) (strip_prefix "bearer " v)

unfoldable pub bearer : HeaderMap → Option String
bearer hs = trimmed (without_scheme (get_text "authorization" hs))

-- One `name=value` part of a cookie header.
abbrev part_value : String → Option (String × String) → Option String
part_value name none = none
part_value name (some (k, v)) = if trim k == name then some (trim v) else none

pub in_parts : String → List String → Option String
in_parts name [] = none
in_parts name (part ∷ parts) =
    or_else (part_value name (split_once b'=' (trim part))) (in_parts name parts)

-- One cookie header; one whose text cannot be read is passed over.
abbrev in_header : String → Option String → Option String
in_header name none = none
in_header name (some s) = in_parts name (split_from b';' "" s)

pub cookie_value : HeaderMap → String → Option String
cookie_value [] name = none
cookie_value (h ∷ hs) name =
    let rest = cookie_value hs name in
    if h.name == "cookie" then or_else (in_header name h.text) rest else rest

unfoldable pub access_token : HeaderMap → Option String
unfolding cookie_value in_parts
access_token hs =
    or_else (trimmed (get_text "cf-access-jwt-assertion" hs)) (cookie_value hs "CF_Authorization")
