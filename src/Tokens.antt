-- ===== src/Tokens.antt =====
-- crates/gatehound-core/src/tokens.rs: access tokens. SHA-256 and the random identifiers are the
-- crates' `sha2` and `uuid`, and stand here as arguments.
pub mod Format
use Prim.Native.Char.{Char}
use Prim.Native.String.{slice}
use mcp_gatehound.Base.{
  String, Bool, true, false, ◌||◌, Option, some, none, ◌+++◌, is_empty, strip_prefix, split_once,
  bytes, if◌then◌else◌,
}
use mcp_gatehound.Secrets.{eq_ct}

abbrev pub prefix : String
prefix = "ghd_"

-- A token as issued: its public id, the text to hand over, and what the database keeps.
pub record Minted : Type 0 where
  pub id : String
  pub secret : String
  pub digest : String

-- `matches`: a presented secret against a stored digest
unfoldable pub secret_matches : (String → String) → String → String → Bool
secret_matches digest presented stored = eq_ct (bytes (digest presented)) (bytes stored)

-- `mint`, from three random identifiers of 32 hexadecimal digits
unfoldable pub mint : (String → String) → String → String → String → Minted
mint digest first second third =
    let id = slice first 0 12 in
    let secret_half = second +++ third in
    record {
      id = id;
      secret = prefix +++ (id +++ ("_" +++ secret_half));
      digest = digest secret_half;
    }

abbrev named_halves : Option (String × String) → Option (String × String)
named_halves none = none
named_halves (some (id, secret)) =
    if is_empty id || is_empty secret then none else some (id, secret)

abbrev after_prefix : Option String → Option (String × String)
after_prefix none = none
after_prefix (some rest) = named_halves (split_once b'_' rest)

-- A presented token's id and secret; none if it is not one of ours.
unfoldable pub split : String → Option (String × String)
split presented = after_prefix (strip_prefix prefix presented)
