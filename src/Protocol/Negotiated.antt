-- ===== src/Protocol/Negotiated.antt =====
-- What a request must be to be served under each revision (`negotiate`), and how it is refused.
use mcp_gatehound.Base.{
  same_texts, String, Bool, true, false, Option, some, none, ◌==◌, ◌≡◌, refl, sym, ap, ◌↔◌, ◌⊎◌,
  inl, inr, Result, ok, err, ◌>>◌, ◌>>=◌, or_fail, is_some, Bool-cases, arith, or_else,
  if◌then◌else◌,
}
use mathlib.Core.Path.{subst}
use mcp_gatehound.Json.{Value, Fields, has_field, obj, arr, str, field, end, cons, nil}
use mcp_gatehound.Base.{[], ◌∷◌, eq_iff}
use mcp_gatehound.Auth.Headers.{HeaderMap}
use mcp_gatehound.Protocol.{
  Era, modern, legacy, ProtocolError, modern_versions, legacy_versions, all_versions, contains,
  classify, meta_of, version_in, header, meta_carries, validate_headers, held_to, settled,
  negotiate, meta_client_capabilities, unsupported_version,
}
use mcp_gatehound.Protocol.Mirrored.{Mirrored, both_iff, validate_headers_iff}

abbrev pub carries_capabilities : Option Fields → Bool
carries_capabilities none = false
carries_capabilities (some meta) = has_field meta_client_capabilities meta

-- `_meta` is there with a version and the capabilities.
meta_carries_iff :
    (declared : String) (version : Option String) (meta : Option Fields)
    → (meta_carries declared version meta ≡ ok tt)
      ↔ ((is_some version ≡ true) × (carries_capabilities meta ≡ true))
meta_carries_iff declared version none = ((λ h. cc), λ (h, k). cc)
meta_carries_iff declared version (some meta) = ground arith

classify-modern_iff :
    (d v : String)
    → (classify d ≡ some (modern v)) ↔ ((d ≡ v) × (contains modern_versions v ≡ true))
unfolding classify
classify-modern_iff d v = ((λ e. ground arith), λ (same, known). ground arith)

not_both : (d : String) → contains modern_versions d ≡ true → contains legacy_versions d ≡ false
unfolding modern_versions legacy_versions
not_both d known = let same : "2026-07-28" ≡ d = grind same_texts in rw (← same) refl

classify-legacy_iff :
    (d : String) → (classify d ≡ some legacy) ↔ (contains legacy_versions d ≡ true)
unfolding classify
classify-legacy_iff d = ground (arith, not_both d)

held_iff :
    (base64 : String → Option String) (method : String) (params : Value) (hs : HeaderMap)
    (d v w : String)
    → (held_to base64 method params hs d (modern w) ≡ ok (modern v)) ↔ (
        (w ≡ v)
        × (is_some (version_in params) ≡ true)
        × (carries_capabilities (meta_of params) ≡ true)
        × Mirrored base64 method params hs d)
held_iff base64 method params hs d v w =
    let carried = meta_carries_iff d (version_in params) (meta_of params) in
    let first = meta_carries d (version_in params) (meta_of params) in
    let second = validate_headers base64 method params hs d in
    let mirrored = validate_headers_iff base64 method params hs d in
    let outer = both_iff (first >> second) (ok (modern w)) (modern v) in
    let inner = both_iff first second tt in
    (
      (λ h.
          let (hd, same) = outer.0 h in
          let (a, b) = inner.0 hd in let (s, c) = carried.0 a in (cc, s, c, mirrored.0 b)),
      λ (same, s, c, m). outer.1 (inner.1 (carried.1 (s, c), mirrored.1 m), cc),
    )

abbrev pub Served : (String → Option String) → String → Value → HeaderMap → String → Type 0
Served base64 method params hs v =
    ((method == "initialize") ≡ false)
    × ((contains modern_versions v ≡ true)
        × (version_in params ≡ some v)
        × (carries_capabilities (meta_of params) ≡ true)
        × Mirrored base64 method params hs v)

-- By the era that a declared version is of.
judged :
    (base64 : String → Option String) (method : String) (params : Value) (hs : HeaderMap)
    (d v : String) (era : Option Era)
    → ((or_fail era (unsupported_version d) >>= held_to base64 method params hs d) ≡ ok (modern v))
      ↔ ((era ≡ some (modern v))
          × (is_some (version_in params) ≡ true)
          × (carries_capabilities (meta_of params) ≡ true)
          × Mirrored base64 method params hs d)
judged base64 method params hs d v none = ((λ h. cc), λ (e, s, c, m). cc)
judged base64 method params hs d v (some legacy) = ((λ h. cc), λ (e, s, c, m). cc)
judged base64 method params hs d v (some (modern w)) =
    let held = held_iff base64 method params hs d v w in
    (
      (λ h. let (same, s, c, m) = held.0 h in (ap (λ t. some (modern t)) same, s, c, m)),
      λ (same, s, c, m). held.1 (cc, s, c, m),
    )

declared_iff :
    (base64 : String → Option String) (method : String) (params : Value) (hs : HeaderMap)
    (d v : String)
    → (settled base64 method params hs (some d) ≡ ok (modern v)) ↔ (
        (d ≡ v)
        × (contains modern_versions v ≡ true)
        × (is_some (version_in params) ≡ true)
        × (carries_capabilities (meta_of params) ≡ true)
        × Mirrored base64 method params hs v)
declared_iff base64 method params hs d v =
    let judgement = judged base64 method params hs d v (classify d) in
    let class = classify-modern_iff d v in
    (
      (λ h.
          let (e, s, c, m) = judgement.0 h in
          let (same, known) = class.0 e in
          (same, known, s, c, subst (Mirrored base64 method params hs) same m)),
      λ (same, known, s, c, m).
          judgement.1
            (class.1 (same, known), s, c, subst (Mirrored base64 method params hs) (sym same) m),
    )

by_version :
    (base64 : String → Option String) (method : String) (params : Value) (hs : HeaderMap)
    (v : String) (in_body : Option String) (in_header : Option String)
    → version_in params ≡ in_body
    → (settled base64 method params hs (or_else in_body in_header) ≡ ok (modern v)) ↔ (
        (contains modern_versions v ≡ true)
        × (in_body ≡ some v)
        × (carries_capabilities (meta_of params) ≡ true)
        × Mirrored base64 method params hs v)
by_version base64 method params hs v none none e = ((λ h. cc), λ (k, b, c, m). cc)
by_version base64 method params hs v none (some d) e = (
  (λ h.
      let (same, known, s, c, m) = (declared_iff base64 method params hs d v).0 h in
      absurd (ground arith)),
  λ (k, b, c, m). cc,
)
by_version base64 method params hs v (some d) h e =
    let found = declared_iff base64 method params hs d v in
    (
      (λ h. let (same, known, s, c, m) = found.0 h in (known, ap some same, c, m)),
      λ (known, same, c, m). found.1 (cc, known, ground arith, c, m),
    )

-- A request is served under a modern revision exactly when it is no initialize, its params._meta
-- names that revision and carries the client's capabilities, the headers name the same revision and
-- the same method, and, for a tool's call, the same tool.
pub negotiate-modern_iff :
    (base64 : String → Option String) (method : String) (params : Value) (hs : HeaderMap)
    (v : String)
    → (negotiate base64 method params hs ≡ ok (modern v)) ↔ Served base64 method params hs v
unfolding negotiate
negotiate-modern_iff base64 method params hs v = first (method == "initialize") (
    by_version base64 method params hs v (version_in params) (header hs "mcp-protocol-version")
      refl)
  where
    first :
        (opening : Bool) {r : Result ProtocolError Era} {S : Type 0}
        → ((r ≡ ok (modern v)) ↔ S)
        → ((if opening then ok legacy else r) ≡ ok (modern v)) ↔ ((opening ≡ false) × S)
    first true both = ((λ h. cc), λ (e, s). cc)
    first false both = ((λ h. (refl, both.0 h)), λ (e, s). both.1 s)

-- The failure of a version that is not served: HTTP 400 and the code -32022, with the version that was asked
-- for and the modern revisions to choose from.
abbrev pub not_served : String → ProtocolError
not_served requested = record {
  status = 400;
  code_below = 32022;
  message = "Unsupported protocol version";
  error_data = some (
      obj (
        field "requested" (str requested)
          (field "supported" (arr (cons (str "2026-07-28") nil)) end)));
}

-- What becomes of a request by the version that it declares.
abbrev pub Answered : Option String → Result ProtocolError Era → Type 0
Answered none r = r ≡ ok legacy
Answered (some d) r =
    (d ≡ "2026-07-28")
    ⊎ (((contains ("2025-06-18" ∷ "2025-03-26" ∷ "2024-11-05" ∷ []) d ≡ true) × (r ≡ ok legacy))
        ⊎ ((contains ("2026-07-28" ∷ "2025-06-18" ∷ "2025-03-26" ∷ "2024-11-05" ∷ []) d ≡ false)
            × (r ≡ err (not_served d))))

Answered-settled :
    (base64 : String → Option String) (method : String) (params : Value) (hs : HeaderMap)
    (declared : Option String)
    → Answered declared (settled base64 method params hs declared)
unfolding classify all_versions modern_versions legacy_versions unsupported_version
Answered-settled base64 method params hs none = refl
Answered-settled base64 method params hs (some d) = elim (Bool-cases (contains modern_versions d)) [
  | inl new ↦ inl (ground (arith, eq_iff "2026-07-28" d, eq_iff d "2026-07-28"))
  | inr old ↦ elim (Bool-cases (contains legacy_versions d)) [
    | inl known ↦ inr (inl (known, rw (old, known) refl))
    | inr unknown ↦ inr (inr (ground arith, rw (old, unknown) refl))
  ]
]

-- Without an initialize, a request that declares no version is served by the older rules, as is one
-- that declares 2025-06-18, 2025-03-26 or 2024-11-05, whatever else it carries; any other version but
-- 2026-07-28 is refused with HTTP 400 and the code -32022, by a failure that names it and 2026-07-28.
pub negotiate-Answered :
    (base64 : String → Option String) (method : String) (params : Value) (hs : HeaderMap)
    → (method == "initialize") ≡ false
    → Answered
        (or_else (version_in params) (header hs "mcp-protocol-version"))
        (negotiate base64 method params hs)
unfolding negotiate
negotiate-Answered base64 method params hs later = rw later (
    Answered-settled base64 method params hs
      (or_else (version_in params) (header hs "mcp-protocol-version")))
