-- ===== src/Redact/Secrecy.antt =====
-- What a secret leaves of itself.
use mcp_gatehound.Base.{ℕ, String, true, ◌≡◌, refl, ap}
use mcp_gatehound.Json.{Value, Fields, Items, str, arr, obj, end, field, nil, cons}
use mcp_gatehound.Redact.{
  redacted, is_secret_key, redact, redact_fields, redact_items, truncate, for_log,
}

-- Values that differ, at any depth, under secret keys only.
mutual
  pub data Alike : Value → Value → Type 0 where
    same : (v : Value) → Alike v v
    objects : {a b : Fields} → AlikeFields a b → Alike (obj a) (obj b)
    arrays : {a b : Items} → AlikeItems a b → Alike (arr a) (arr b)

  pub data AlikeFields : Fields → Fields → Type 0 where
    ends : AlikeFields end end
    hidden :
        {k : String} (v w : Value) {a b : Fields}
        → is_secret_key k ≡ true
        → AlikeFields a b
        → AlikeFields (field k v a) (field k w b)
    shown :
        {k : String} {v w : Value} {a b : Fields}
        → Alike v w
        → AlikeFields a b
        → AlikeFields (field k v a) (field k w b)

  pub data AlikeItems : Items → Items → Type 0 where
    nils : AlikeItems nil nil
    items :
        {v w : Value} {a b : Items} → Alike v w → AlikeItems a b → AlikeItems (cons v a) (cons w b)

mutual
  unfolding redact

  redact-Alike : {v w : Value} → Alike v w → redact v ≡ redact w
  redact-Alike (same v) = refl
  redact-Alike (objects h) = ap obj (redact_fields-Alike h)
  redact-Alike (arrays h) = ap arr (redact_items-Alike h)

  redact_fields-Alike : {a b : Fields} → AlikeFields a b → redact_fields a ≡ redact_fields b
  redact_fields-Alike ends = refl
  redact_fields-Alike (hidden {k} v w secret h) =
      rw secret (ap (field k (str redacted)) (redact_fields-Alike h))
  redact_fields-Alike (shown e h) = rw (redact-Alike e, redact_fields-Alike h) refl

  redact_items-Alike : {a b : Items} → AlikeItems a b → redact_items a ≡ redact_items b
  redact_items-Alike nils = refl
  redact_items-Alike (items e h) = rw (redact-Alike e, redact_items-Alike h) refl

-- Two values that differ only under secret keys, at whatever depth, become the same text.
pub for_log-Alike :
    (to_string : Value → String) (max_bytes : ℕ) {v w : Value}
    → Alike v w
    → for_log to_string v max_bytes ≡ for_log to_string w max_bytes
unfolding for_log
for_log-Alike to_string max_bytes h = ap (λ x. truncate (to_string x) max_bytes) (redact-Alike h)
