-- ===== src/Tests/Secrets.antt =====
-- Tokens and secrets.
use mcp_gatehound.Base.{String, true, some, ◌+++◌, ◌≡◌, ◌↔◌, refl}
use mcp_gatehound.Secrets.{eq_secret, eq_secret_iff}
use mcp_gatehound.Tokens.{split, mint, secret_matches}
use mcp_gatehound.Tokens.Format.{split-mint, IsIdentifier}

eq_secret_iff_example : (eq_secret "päss" "pass" ≡ true) ↔ (◌≡◌ {A = String} "päss" "pass")
eq_secret_iff_example = eq_secret_iff "päss" "pass"

abbrev first : String
first = "0123456789abcdef0123456789abcdef"

abbrev second : String
second = "fedcba9876543210fedcba9876543210"

abbrev third : String
third = "00000000000000000000000000000001"

abbrev first-IsIdentifier : IsIdentifier first
first-IsIdentifier = record { id_named = refl; id_plain = refl; some_text = refl }

abbrev second-IsIdentifier : IsIdentifier second
second-IsIdentifier = record { id_named = refl; id_plain = refl; some_text = refl }

split-mint_example :
    (split (mint (λ s. s) first second third).secret
      ≡ some ((mint (λ s. s) first second third).id, second +++ third))
    × ((secret : String)
        → (secret_matches (λ s. s) secret (mint (λ s. s) first second third).digest ≡ true)
          ↔ (secret ≡ second +++ third))
split-mint_example = split-mint (λ s. s) first second third first-IsIdentifier second-IsIdentifier
