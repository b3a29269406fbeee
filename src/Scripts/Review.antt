-- ===== src/Scripts/Review.antt =====
-- crates/gatehound-core/src/scripts.rs: the review of a script's text before it is trusted.
use mcp_gatehound.Base.{
  ℕ, suc, String, len, Bool, true, false, not, ◌&&◌, Option, some, none, List, [], ◌∷◌, ◌+++◌, ltb,
  any, find, length, trim, take_chars, count_chars, contains_text, lines, bytes, if◌then◌else◌,
}
use mcp_gatehound.Scripts.{Interpreter, sandboxed_by_default}
use mcp_gatehound.Scripts.Rules.{Severity, note, warn, danger, Rule, rules}

pub record Finding : Type 0 where
  pub severity : Severity
  pub rule : String
  pub line : ℕ
  pub excerpt : String
  pub why : String

-- A match is excused by an idiom that contains the needle and stands in the line.
unfoldable pub explained : String → String → List String → Bool
explained line needle unless =
    any (λ idiom. contains_text needle idiom && contains_text idiom line) unless

unfoldable pub excerpt : String → String
excerpt line =
    let s = take_chars 120 line in if ltb (count_chars s) (count_chars line) then s +++ "…" else s

abbrev pub hit : String → Rule → Bool
hit line r = any (λ nd. contains_text nd line && not (explained line nd r.unless)) r.needles

abbrev minified : ℕ → String → Finding
minified n line = record {
  severity = warn;
  rule = "minified";
  line = n;
  excerpt = take_chars 80 line +++ "…";
  why = "a single very long line is unreadable, and unreadable is unreviewable";
}

abbrev pub found_by : ℕ → String → Option Rule → List Finding → List Finding
found_by n line none rest = rest
found_by n line (some r) rest =
    record { severity = r.severity; rule = r.id; line = n; excerpt = excerpt line; why = r.why }
    ∷ rest

-- One finding for a line: the first rule that it meets.
abbrev pub scan_line : ℕ → String → List Finding → List Finding
scan_line n line rest =
    if ltb 4000 (len line)
    then minified n line ∷ rest
    else found_by n line (find (hit line) rules) rest

abbrev pub scan_from : ℕ → List String → List Finding
scan_from n [] = []
scan_from n (raw ∷ more) = scan_line n (trim raw) (scan_from (suc n) more)

unfoldable pub scan : String → List Finding
scan body = scan_from 1 (lines body)

abbrev pub worse : Severity → Option Severity → Option Severity
worse s none = some s
worse danger (some _) = some danger
worse _ (some danger) = some danger
worse warn (some _) = some warn
worse note (some s) = some s

abbrev pub worst : List Finding → Option Severity
worst [] = none
worst (f ∷ fs) = worse f.severity (worst fs)

pub record Review : Type 0 where
  pub name : String
  pub interpreter : Interpreter
  pub sha256 : String
  pub size : ℕ
  pub line_count : ℕ
  pub sandboxed : Bool
  pub findings : List Finding

-- `digest` is SHA-256 in hexadecimal.
unfoldable pub review_of : (List ℕ → String) → String → Interpreter → String → Review
review_of digest name interpreter body = record {
  name = name;
  interpreter = interpreter;
  sha256 = digest (bytes body);
  size = len body;
  line_count = length (lines body);
  sandboxed = sandboxed_by_default interpreter;
  findings = scan body;
}

abbrev pub is_danger : Option Severity → Bool
is_danger (some danger) = true
is_danger _ = false

unfoldable pub has_danger : Review → Bool
has_danger r = is_danger (worst r.findings)
