-- ===== src/Brackets/Pairs.antt =====
-- The partners that the bracket checker finds are partners of each other.
use mclua.Prelude.{
  ℕ, ◌+◌, ◌<◌, ◌≤◌, ◌≡◌, ◌≢◌, inl, inr, sym, ◌∙◌, subst, List, [], ◌∷◌, Option, none, some, leb,
  ◌==◌, length, arith, Bool-cases, Option-cases,
}
use native.Mathlib.Decide.{ℕ_discrete}
use mclua.Token.{Token}
use mclua.Brackets.{
  BracketChecker, put, is_open, is_close, mctbc_init, visit_open, visit_close, mctbc_visit,
  mctbc_deinit, visit_all, tkv_run,
}

-- The open brackets: each comes before the last one, and has no partner yet.
abbrev Open : (ℕ → Option ℕ) → ℕ → List ℕ → Type 0
Open p n [] = Unit
Open p n (o ∷ s) = (o < n) × (p o ≡ none) × Open p o s

-- The first `n` tokens: a partner comes before `n`, too, is another token, and has the token as
-- its own partner.
abbrev pub Paired : (ℕ → Option ℕ) → ℕ → Type 0
Paired p n = (i j : ℕ) → i < n → p i ≡ some j → (j < n) × (p j ≡ some i) × (i ≢ j)

put-at : (p : ℕ → Option ℕ) (m : ℕ) (v : Option ℕ) → put p m v m ≡ v
put-at p m v = ground arith

put-other : (p : ℕ → Option ℕ) (m i : ℕ) (v : Option ℕ) → i ≢ m → put p m v i ≡ p i
put-other p m i v ne = ground arith

Open-put :
    (p : ℕ → Option ℕ) (n m : ℕ) (v : Option ℕ) (s : List ℕ)
    → n ≤ m
    → Open p n s
    → Open (put p m v) n s
Open-put p n m v [] le os = tt
Open-put p n m v (o ∷ s) le (lt, free, os) =
    (lt, put-other p m o v (omega arith) ∙ free, Open-put p o m v s (omega arith) os)

Open-mono : (p : ℕ → Option ℕ) (n m : ℕ) (s : List ℕ) → n ≤ m → Open p n s → Open p m s
Open-mono p n m [] le os = tt
Open-mono p n m (o ∷ s) le (lt, free, os) = (omega arith, free, os)

-- A token without a partner, so far.
Paired-none : (p : ℕ → Option ℕ) (n : ℕ) → Paired p n → Paired (put p n none) (n + 1)
Paired-none p n paired i j lt e = elim (ℕ_discrete i n) [
  | yes same ↦ cc (put-at p n none)
  | no ne ↦
      let old : p i ≡ some j = sym (put-other p n i none ne) ∙ e in
      let (lt', back, other) = paired i j (omega arith) old in
      (omega arith, put-other p n j none (omega arith) ∙ back, other)
]

-- Two tokens that become partners.
Paired-pair :
    (p : ℕ → Option ℕ) (n o : ℕ)
    → o < n
    → p o ≡ none
    → Paired p n
    → Paired (put (put p n (some o)) o (some n)) (n + 1)
Paired-pair p n o before free paired i j lt e = elim (ℕ_discrete i o) [
  | yes at_o ↦
      let is_n : j ≡ n = cc (put-at (put p n (some o)) o (some n)) in
      (
        omega arith,
        rw (is_n, at_o)
            (put-other (put p n (some o)) o n (some n) (omega arith) ∙ put-at p n (some o)),
        omega arith,
      )
  | no not_o ↦ elim (ℕ_discrete i n) [
    | yes at_n ↦
        let here : put (put p n (some o)) o (some n) n ≡ some o =
          put-other (put p n (some o)) o n (some n) (omega arith) ∙ put-at p n (some o) in
        let is_o : j ≡ o = cc in
        (omega arith, rw (is_o, at_n) (put-at (put p n (some o)) o (some n)), omega arith)
    | no not_n ↦
        let old : p i ≡ some j =
          sym (put-other (put p n (some o)) o i (some n) not_o ∙ put-other p n i (some o) not_n)
          ∙ e in
        let (lt', back, other) = paired i j (omega arith) old in
        let not_open : j ≢ o = λ same. cc in
        (
          omega arith,
          put-other (put p n (some o)) o j (some n) not_open
              ∙ put-other p n j (some o) (omega arith)
              ∙ back,
          other,
        )
  ]
]

abbrev Sound : BracketChecker → ℕ → Type 0
Sound bc n = Open bc.partners n bc.stack × Paired bc.partners n

visit_close-Sound :
    (bc bc' : BracketChecker) (n : ℕ) (s : List ℕ)
    → Open bc.partners n s
    → Paired bc.partners n
    → visit_close bc n s ≡ some bc'
    → Sound bc' (n + 1)
unfolding visit_close
visit_close-Sound bc bc' n [] os paired run = cc
visit_close-Sound bc bc' n (o ∷ s) (before, free, os) paired run =
    let p : ℕ → Option ℕ = put bc.partners n (some o) in
    let made : record bc { stack = s; partners = put p o (some n) } ≡ bc' = cc in
    subst (λ b. Sound b (n + 1)) made
      (
        Open-mono (put p o (some n)) o (n + 1) s (omega arith) (
            Open-put p o o (some n) s (omega arith)
              (Open-put bc.partners o n (some o) s (omega arith) os)),
        Paired-pair bc.partners n o before free paired,
      )

mctbc_visit-Sound :
    (bc bc' : BracketChecker) (t : Token) (n : ℕ)
    → Sound bc n
    → mctbc_visit bc t n ≡ some bc'
    → Sound bc' (n + 1)
unfolding mctbc_visit visit_open
mctbc_visit-Sound bc bc' t n (os, paired) run = elim (Bool-cases (is_open t.token_number)) [
  | inl opens ↦ elim (Bool-cases (leb bc.max_depth (length bc.stack))) [
    | inl deep ↦ cc (rw (opens, deep) at run)
    | inr fits ↦
        let made : record bc { stack = n ∷ bc.stack; partners = put bc.partners n none } ≡ bc' =
          cc (rw (opens, fits) at run) in
        subst (λ b. Sound b (n + 1)) made
          (
            (
              omega arith,
              put-at bc.partners n none,
              Open-put bc.partners n n none bc.stack (omega arith) os,
            ),
            Paired-none bc.partners n paired,
          )
  ]
  | inr other ↦ elim (Bool-cases (is_close t.token_number)) [
    | inl closes ↦ visit_close-Sound bc bc' n bc.stack os paired (rw (other, closes) at run)
    | inr plain ↦
        let made : record bc { partners = put bc.partners n none } ≡ bc' =
          cc (rw (other, plain) at run) in
        subst (λ b. Sound b (n + 1)) made
          (
            Open-mono (put bc.partners n none) n (n + 1) bc.stack (omega arith)
                (Open-put bc.partners n n none bc.stack (omega arith) os),
            Paired-none bc.partners n paired,
          )
  ]
]

visit_all-Paired :
    (bc bc' : BracketChecker) (ts : List Token) (n m : ℕ)
    → n + length ts ≡ m
    → Sound bc n
    → visit_all bc ts n ≡ some bc'
    → Paired bc'.partners m
unfolding visit_all mctbc_deinit
visit_all-Paired bc bc' [] n m e (os, paired) run = elim (Bool-cases (length bc.stack == 0)) [
  | inl closed ↦
      let made : bc ≡ bc' = cc (rw closed at run) in
      subst (λ b. Paired b.partners m) made (subst (Paired bc.partners) (omega arith) paired)
  | inr left ↦ cc (rw left at run)
]
visit_all-Paired bc bc' (t ∷ ts) n m e sound run = elim (Option-cases (mctbc_visit bc t n)) [
  | inl refused ↦ cc (rw (refused, visit_all) at run)
  | inr (bc₁, visited) ↦
      let rest : visit_all bc₁ ts (n + 1) ≡ some bc' = rw (visited, visit_all) at run in
      visit_all-Paired bc₁ bc' ts (n + 1) m (omega arith)
        (mctbc_visit-Sound bc bc₁ t n sound visited) rest
]

-- After a run of the checker that gives 0, whatever stood in the table of partners before it, the
-- partner of a token is another token of the script, and has that token as its own partner.
pub tkv_run-Paired :
    (bc bc' : BracketChecker) (tokens : List Token)
    → tkv_run bc tokens ≡ some bc'
    → Paired bc'.partners (length tokens)
unfolding tkv_run mctbc_init
tkv_run-Paired bc bc' tokens run =
    visit_all-Paired (mctbc_init bc) bc' tokens 0 (length tokens) (omega arith)
      (tt, λ i j lt e. absurd (omega arith)) run
