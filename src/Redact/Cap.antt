-- ===== src/Redact/Cap.antt =====
-- The length of what is written down.
use Prim.Native.Char.{Char, len_utf8}
use Prim.Native.String as Str
use Prim.Native.String.len as Clauses
use text.Mathlib.TextPositions.{len-append}
use mcp_gatehound.Base.{ℕ, ◌+◌, ◌-◌, ◌≤◌, String, len, ◌≡◌, arith, leb, ltb, Bool-cases, inl, inr}
use mcp_gatehound.Json.{Value}
use mcp_gatehound.Redact.{whole_chars, ellipsis, truncate, for_log, redact}

len_cons : (c : Char) (s : String) → len (Str.◌∷◌ c s) ≡ len_utf8 c + len s
len_cons c s = Clauses.cons c s

len-whole_chars : (n : ℕ) (s : String) → len (whole_chars n s) ≤ n
unfolding whole_chars
len-whole_chars n Str.[] = omega arith
len-whole_chars n (Str.◌∷◌ c s) = elim (Bool-cases (leb (len_utf8 c) n)) [
  | inl fits ↦
      let most = len-whole_chars (n - len_utf8 c) s in
      rw (fits, len_cons c (whole_chars (n - len_utf8 c) s)) (ground arith)
  | inr over ↦ rw over (omega arith)
]

len-truncate : (s : String) (max_bytes : ℕ) → len (truncate s max_bytes) ≤ max_bytes
unfolding truncate
len-truncate s max_bytes = elim (Bool-cases (leb (len s) max_bytes)) [
  | inl short ↦ rw (short, truncate) (ground arith)
  | inr long ↦ elim (Bool-cases (ltb max_bytes (len ellipsis))) [
    | inl tiny ↦ rw (long, truncate, tiny) (omega arith)
    | inr room ↦
        let most = len-whole_chars (max_bytes - len ellipsis) s in
        rw (long, truncate, room, len-append (whole_chars (max_bytes - len ellipsis) s) ellipsis)
          (ground arith)
  ]
]

-- What is written down is never longer than its limit, ellipsis included, whatever the value.
pub len-for_log :
    (to_string : Value → String) (value : Value) (max_bytes : ℕ)
    → len (for_log to_string value max_bytes) ≤ max_bytes
unfolding for_log
len-for_log to_string value max_bytes = len-truncate (to_string (redact value)) max_bytes
