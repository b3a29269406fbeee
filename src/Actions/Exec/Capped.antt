-- ===== src/Actions/Exec/Capped.antt =====
-- What is kept of a command's output.
use mcp_gatehound.Base.{
  ℕ, ◌-◌, ◌≤◌, zero, suc, Bool, false, ◌||◌, List, [], ◌∷◌, ◌++◌, ◌≡◌, refl, sym, ap, ◌∙◌, arith,
  length, take, ltb, length-append, Bool-cases, inl, inr,
}
use mcp_gatehound.Actions.Exec.{read_capped}

-- Everything that the pipe gave.
abbrev pub received : List (List ℕ) → List ℕ
received [] = []
received ([] ∷ reads) = []
received ((b ∷ buf) ∷ reads) = (b ∷ buf) ++ received reads

take-length : (n : ℕ) (xs : List ℕ) → length xs ≤ n → take n xs ≡ xs
take-length zero [] h = refl
take-length zero (x ∷ xs) h = absurd (omega arith)
take-length (suc n) [] h = refl
take-length (suc n) (x ∷ xs) h = ap (λ ys. x ∷ ys) (take-length n xs (omega arith))

length-take : (n : ℕ) (xs : List ℕ) → length (take n xs) ≤ n
length-take zero xs = omega arith
length-take (suc n) [] = omega arith
length-take (suc n) (x ∷ xs) = omega (arith, length-take n xs)

length-take_short : (n : ℕ) (xs : List ℕ) → n ≤ length xs → length (take n xs) ≡ n
length-take_short zero xs h = refl
length-take_short (suc n) [] h = absurd (omega arith)
length-take_short (suc n) (x ∷ xs) h = ap suc (length-take_short n xs (omega arith))

take-append_full :
    (n : ℕ) (xs ys : List ℕ) → length xs ≤ n → take n (xs ++ ys) ≡ xs ++ take (n - length xs) ys
take-append_full n [] ys h = let z : n - 0 ≡ n = omega arith in rw z refl
take-append_full zero (x ∷ xs) ys h = absurd (omega arith)
take-append_full (suc n) (x ∷ xs) ys h =
    let z : suc n - length (x ∷ xs) ≡ n - length xs = omega arith in
    rw z (ap (λ zs. x ∷ zs) (take-append_full n xs ys (omega arith)))

take-take_append : (n : ℕ) (xs ys : List ℕ) → take n (take n xs ++ ys) ≡ take n (xs ++ ys)
take-take_append zero xs ys = refl
take-take_append (suc n) [] ys = refl
take-take_append (suc n) (x ∷ xs) ys = ap (λ zs. x ∷ zs) (take-take_append n xs ys)

append_assoc : (xs ys zs : List ℕ) → (xs ++ ys) ++ zs ≡ xs ++ (ys ++ zs)
append_assoc [] ys zs = refl
append_assoc (x ∷ xs) ys zs = ap (λ us. x ∷ us) (append_assoc xs ys zs)

append_nil : (xs : List ℕ) → xs ++ [] ≡ xs
append_nil [] = refl
append_nil (x ∷ xs) = ap (λ ys. x ∷ ys) (append_nil xs)

kept_so_far :
    (cap : ℕ) (kept buf rest : List ℕ)
    → length kept ≤ cap
    → take cap ((kept ++ take (cap - length kept) buf) ++ rest) ≡ take cap (kept ++ (buf ++ rest))
kept_so_far cap kept buf rest h =
    ap (take cap) (append_assoc kept (take (cap - length kept) buf) rest)
    ∙ (take-append_full cap kept (take (cap - length kept) buf ++ rest) h
        ∙ (ap (λ zs. kept ++ zs) (take-take_append (cap - length kept) buf rest)
            ∙ sym (take-append_full cap kept (buf ++ rest) h)))

dropped_so_far :
    (cap : ℕ) (kept buf rest : List ℕ) (dropped : Bool)
    → length kept ≤ cap
    → ((dropped || ltb (cap - length kept) (length buf))
        || ltb cap (length ((kept ++ take (cap - length kept) buf) ++ rest)))
      ≡ (dropped || ltb cap (length (kept ++ (buf ++ rest))))
dropped_so_far cap kept buf rest dropped h =
    let room = cap - length kept in
    let long = length-append (kept ++ take room buf) rest in
    let long' = length-append kept (take room buf) in
    let all' = length-append kept (buf ++ rest) in
    let all'' = length-append buf rest in
    let most = length-take room buf in
    elim (Bool-cases (ltb room (length buf))) [
      | inl over ↦ ground (arith, long, long', all', all'')
      | inr fits ↦
          let whole = take-length room buf (ground arith) in
          ground (arith, ap length whole, long, long', all', all'')
    ]

capped :
    (cap : ℕ) (reads : List (List ℕ)) (kept : List ℕ) (dropped : Bool)
    → length kept ≤ cap
    → read_capped cap reads kept dropped
      ≡ (take cap (kept ++ received reads), dropped || ltb cap (length (kept ++ received reads)))
unfolding read_capped
capped cap [] kept dropped h = rw (append_nil kept, take-length cap kept h) (ground arith)
capped cap ([] ∷ reads) kept dropped h = rw (append_nil kept, take-length cap kept h) (ground arith)
capped cap ((b ∷ buf) ∷ reads) kept dropped h =
    let room = cap - length kept in
    let more = length-append kept (take room (b ∷ buf)) in
    let most = length-take room (b ∷ buf) in
    capped cap reads (kept ++ take room (b ∷ buf)) (dropped || ltb room (length (b ∷ buf)))
      (omega arith)
    ∙ ground (
      arith,
      kept_so_far cap kept (b ∷ buf) (received reads) h,
      dropped_so_far cap kept (b ∷ buf) (received reads) dropped h,
    )

-- A pipe is read to its end: what is kept is its first bytes up to the cap, and something counts as
-- dropped exactly when the pipe gave more than the cap.
pub read_capped_lem :
    (cap : ℕ) (reads : List (List ℕ))
    → read_capped cap reads [] false
      ≡ (take cap (received reads), ltb cap (length (received reads)))
read_capped_lem cap reads = capped cap reads [] false (omega arith)
