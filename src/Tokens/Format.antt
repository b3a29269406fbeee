-- ===== src/Tokens/Format.antt =====
-- The texts that `split` takes, and minted tokens.
use Prim.Native.Char.{Char, char}
use Prim.Native.String.{slice}
use Prim.Native.String as Str
use mcp_gatehound.Base.{
  String, true, false, some, ◌+++◌, ◌≡◌, ◌↔◌, refl, sym, ap, ◌∙◌, arith, is_empty, strip_prefix,
  split_once, lacks, strip_prefix_iff, split_once_iff, Option-cases, inl, inr,
}
use mcp_gatehound.Tokens.{prefix, split, mint, secret_matches, named_halves}
use mcp_gatehound.Secrets.{eq_ct-bytes_iff}
use text.Mathlib.TextLemmas.{nil-append, cons-append}

abbrev underscore : Char
underscore = char b'_' tt

join : (s : String) → "_" +++ s ≡ Str.◌∷◌ underscore s
join s = cons-append underscore "" s ∙ ap (λ t. Str.◌∷◌ underscore t) (nil-append s)

after_iff :
    (rest id secret : String)
    → (named_halves (split_once b'_' rest) ≡ some (id, secret)) ↔ (
        (rest ≡ id +++ ("_" +++ secret))
        × (lacks b'_' id ≡ true)
        × (is_empty id ≡ false)
        × (is_empty secret ≡ false))
after_iff rest id secret =
    let halves = split_once_iff underscore rest id secret in
    (
      (λ e. elim (Option-cases (split_once b'_' rest)) [
        | inl gone ↦ absurd (ground arith)
        | inr ((a, b), found) ↦
            let same : split_once b'_' rest ≡ some (id, secret) = ground arith in
            let r = halves.0 same in
            (r.0 ∙ ap (λ t. id +++ t) (sym (join secret)), r.1, ground arith, ground arith)
      ]),
      λ h. let e = halves.1 (h.0 ∙ ap (λ t. id +++ t) (join secret), h.1) in ground (arith, e),
    )

-- The texts that split are those of the form `ghd_ID_SECRET` with neither part empty and no underscore
-- in the id, and they split into these parts.
pub split_iff :
    (presented id secret : String)
    → (split presented ≡ some (id, secret)) ↔ (
        (presented ≡ prefix +++ (id +++ ("_" +++ secret)))
        × (lacks b'_' id ≡ true)
        × (is_empty id ≡ false)
        × (is_empty secret ≡ false))
unfolding split
split_iff presented id secret = (
  (λ e. elim (Option-cases (strip_prefix prefix presented)) [
    | inl gone ↦ absurd (ground arith)
    | inr (rest, found) ↦
        let r = (after_iff rest id secret).0 (rw found at e) in
        (
          (strip_prefix_iff prefix presented rest).0 found ∙ ap (λ t. prefix +++ t) r.0,
          r.1,
          r.2,
          r.3,
        )
  ]),
  λ h.
      let rest = id +++ ("_" +++ secret) in
      let found = (strip_prefix_iff prefix presented rest).1 h.0 in
      rw found ((after_iff rest id secret).1 (refl, h.1, h.2, h.3)),
)

-- What the random identifiers are relied on for: an identifier's first twelve bytes are some
-- characters and no underscore, and it is not empty.
pub record IsIdentifier (u : String) : Type 0 where
  pub id_named : is_empty (slice u 0 12) ≡ false
  pub id_plain : lacks b'_' (slice u 0 12) ≡ true
  pub some_text : is_empty u ≡ false

is_empty-append : (s t : String) → is_empty s ≡ false → is_empty (s +++ t) ≡ false
is_empty-append Str.[] t h = cc
is_empty-append (Str.◌∷◌ c s) t h = rw cons-append refl

-- A token minted from random identifiers splits back into its id and its secret, and a secret matches
-- the stored digest exactly when its own digest is the same.
pub split-mint :
    (digest : String → String) (first second third : String)
    → IsIdentifier first
    → IsIdentifier second
    → (split (mint digest first second third).secret
        ≡ some ((mint digest first second third).id, second +++ third))
      × ((secret : String)
          → (secret_matches digest secret (mint digest first second third).digest ≡ true)
            ↔ (digest secret ≡ digest (second +++ third)))
unfolding mint secret_matches
split-mint digest first second third f s = (
  (split_iff _ _ _).1 (refl, f.id_plain, f.id_named, is_empty-append second third s.some_text),
  λ secret. eq_ct-bytes_iff (digest secret) (digest (second +++ third)),
)

pub secret_matches_iff :
    (digest : String → String) (presented stored : String)
    → (secret_matches digest presented stored ≡ true) ↔ (digest presented ≡ stored)
unfolding secret_matches
secret_matches_iff digest presented stored = eq_ct-bytes_iff (digest presented) stored
