-- ===== src/Compile/Jumps.antt =====
-- Labels: `mccomp_label` makes the gotos that wait for it jump there.
use mclua.Prelude.{
  ℕ, zero, suc, ◌+◌, ◌-◌, ◌^◌, ◌<◌, ◌≡◌, ◌≢◌, refl, sym, ap, ◌∙◌, subst, ◌⊎◌, inl, inr, List, [],
  ◌∷◌, ◌++◌, none, some, true, false, leb, ◌==◌, length, length-set, get_elem?, get_elem?-set_self,
  get_elem?-set_ne, get_elem?-lt, arith, Bool-cases, Option-cases, some_inj,
}
use mclua.Prelude.Int.{sub_ℕ}
use mclua.Ops.{code, op_jmp}
use mclua.Ops.Words.{create_sj, get_opcode, getarg_sj}
use mclua.Ops.Encoding.{sj_fields}
use mclua.Compile.{
  McComp, Goto, Label, func_len, waits_for, patched, patch_code, goto_code, goto_left,
  resolve_gotos, find_label, mccomp_label,
}

-- A word that jumps from `pc` to `target`.
pub record JumpsTo (pc target w : ℕ) : Type 0 where
  pub opcode : get_opcode w ≡ code op_jmp
  pub offset : getarg_sj w ≡ sub_ℕ target (pc + 1)

unfoldable pub jump_word : ℕ → ℕ → ℕ
jump_word pc target = create_sj (code op_jmp) (sub_ℕ target (pc + 1))

pub jump_word-JumpsTo :
    (pc target : ℕ) → pc < 2 ^ 24 - 1 → target < 2 ^ 24 → JumpsTo pc target (jump_word pc target)
unfolding jump_word code
jump_word-JumpsTo pc target small near =
    let (o, e) = sj_fields 56 (sub_ℕ target (pc + 1)) (omega arith) (ground arith) (ground arith) in
    record { opcode = o; offset = e }

-- Whether a goto that waits for the name has its jump at `k`.
abbrev pub Awaits : ℕ → ℕ → Goto → Type 0
Awaits name k g = (g.name ≡ some name) × (g.pc ≡ some k)

module _ (name here : ℕ) where
  waits_for_lem :
      (g : Goto)
      → (waits_for name g ≡ true → g.name ≡ some name)
        × (g.name ≡ some name → waits_for name g ≡ true)
  unfolding waits_for
  waits_for_lem g = elim (Option-cases g.name) [
    | inl gone ↦ (λ e. cc (rw gone at e), λ e. cc)
    | inr (n, there) ↦ rw there (λ e. ap some (ground (arith, e)), λ e. ground (arith, some_inj e))
  ]

  length-goto_code :
      (g : Goto) (instrs : List ℕ) → length (goto_code name here g instrs) ≡ length instrs
  unfolding goto_code patch_code patched
  length-goto_code g instrs = elim (Bool-cases (waits_for name g)) [
    | inr past ↦ rw past refl
    | inl waits ↦ elim (Option-cases g.pc) [
      | inl nowhere ↦ rw (waits, nowhere) refl
      | inr (pc, there) ↦ rw (waits, there) (length-set instrs pc _)
    ]
  ]

  -- A round leaves a word as it is, or puts the jump to the label there.
  goto_code-cases :
      (g : Goto) (instrs : List ℕ) (k w : ℕ)
      → get_elem? instrs k ≡ some w
      → ((get_elem? (goto_code name here g instrs) k ≡ some w) × (Awaits name k g → ⊥))
        ⊎ ((get_elem? (goto_code name here g instrs) k ≡ some (jump_word k here)) × Awaits name k g)
  unfolding goto_code patch_code patched jump_word
  goto_code-cases g instrs k w e = elim (Bool-cases (waits_for name g)) [
    | inr past ↦ rw past (inl (e, λ a. cc ((waits_for_lem g).1 a.0)))
    | inl waits ↦ elim (Option-cases g.pc) [
      | inl nowhere ↦ rw (waits, nowhere) (inl (e, λ a. cc))
      | inr (pc, there) ↦ elim (Bool-cases (pc == k)) [
        | inl same ↦ inr (at_jump pc there (ground (arith, same)) waits)
        | inr other ↦ inl (
          rw (waits, there) (get_elem?-set_ne instrs pc k _ (λ q. ground (arith, q, other)) ∙ e),
          λ a. ground (arith, other, some_inj (sym there ∙ a.1)),
        )
      ]
    ]
  ]
    where
      at_jump :
          (pc : ℕ)
          → g.pc ≡ some pc
          → pc ≡ k
          → waits_for name g ≡ true
          → (get_elem? (goto_code name here g instrs) k ≡ some (jump_word k here)) × Awaits name k g
      at_jump pc there same waits =
          let there' : g.pc ≡ some k = there ∙ ap some same in
          (
            rw (waits, there') (get_elem?-set_self instrs k _ (get_elem?-lt instrs k e)),
            ((waits_for_lem g).0 waits, there'),
          )

  resolve_gotos-length :
      (gotos : List Goto) (instrs : List ℕ)
      → length (resolve_gotos name here gotos instrs).0 ≡ length instrs
  unfolding resolve_gotos
  resolve_gotos-length [] instrs = refl
  resolve_gotos-length (g ∷ gotos) instrs =
      resolve_gotos-length gotos (goto_code name here g instrs) ∙ length-goto_code g instrs

  -- A word that jumps to the label, or that a goto waits for, jumps there in the end.
  resolve_gotos-jump :
      (gotos : List Goto) (instrs : List ℕ) (k w : ℕ)
      → get_elem? instrs k ≡ some w
      → (w ≡ jump_word k here)
        ⊎ ((j : ℕ) × (g : Goto) × (get_elem? gotos j ≡ some g) × Awaits name k g)
      → get_elem? (resolve_gotos name here gotos instrs).0 k ≡ some (jump_word k here)
  unfolding resolve_gotos
  resolve_gotos-jump [] instrs k w e (inl same) = e ∙ ap some same
  resolve_gotos-jump [] instrs k w e (inr (j, g, at, a)) = cc
  resolve_gotos-jump (g ∷ gotos) instrs k w e why = elim (goto_code-cases g instrs k w e) [
    | inr (jumps, a) ↦ resolve_gotos-jump gotos _ k _ jumps (inl refl)
    | inl (same, not_here) ↦ resolve_gotos-jump gotos _ k w same (later why not_here)
  ]
    where
      later :
          (w ≡ jump_word k here)
            ⊎ ((j : ℕ) × (x : Goto) × (get_elem? (g ∷ gotos) j ≡ some x) × Awaits name k x)
          → (Awaits name k g → ⊥)
          → (w ≡ jump_word k here)
            ⊎ ((j : ℕ) × (x : Goto) × (get_elem? gotos j ≡ some x) × Awaits name k x)
      later (inl same) not_here = inl same
      later (inr (zero, x, at, a)) not_here =
          absurd (not_here (subst (Awaits name k) (sym (some_inj at)) a))
      later (inr (suc j, x, at, a)) not_here = inr (j, x, at, a)

  -- Any other word stays.
  resolve_gotos-kept :
      (gotos : List Goto) (instrs : List ℕ) (k w : ℕ)
      → get_elem? instrs k ≡ some w
      → ((j : ℕ) (g : Goto) → get_elem? gotos j ≡ some g → Awaits name k g → ⊥)
      → get_elem? (resolve_gotos name here gotos instrs).0 k ≡ some w
  unfolding resolve_gotos
  resolve_gotos-kept [] instrs k w e free = e
  resolve_gotos-kept (g ∷ gotos) instrs k w e free = elim (goto_code-cases g instrs k w e) [
    | inr (jumps, a) ↦ absurd (free 0 g refl a)
    | inl (same, not_here) ↦ resolve_gotos-kept gotos _ k w same (λ j x at a. free (suc j) x at a)
  ]

  -- No goto waits for the name any more.
  resolve_gotos-left :
      (gotos : List Goto) (instrs : List ℕ) (j : ℕ) (g : Goto)
      → get_elem? (resolve_gotos name here gotos instrs).1 j ≡ some g
      → g.name ≢ some name
  unfolding resolve_gotos goto_left
  resolve_gotos-left [] instrs j g e waits = cc
  resolve_gotos-left (x ∷ gotos) instrs (suc j) g e waits =
      resolve_gotos-left gotos (goto_code name here x instrs) j g e waits
  resolve_gotos-left (x ∷ gotos) instrs zero g e waits = elim (Bool-cases (waits_for name x)) [
    | inl w ↦ cc (ap (λ (g : Goto). g.name) (some_inj (rw (w, goto_left) at e)) ∙ waits)
    | inr past ↦
        cc ((waits_for_lem x).1 (ap (λ (g : Goto). g.name) (some_inj (rw past at e)) ∙ waits))
  ]

-- After a label, with the name of the label and the place where it stands.
pub record IsLinked (name : ℕ) (c c' : McComp) : Type 0 where
  pub size : func_len c' ≡ func_len c
  pub jumps :
      (j k : ℕ) (g : Goto)
      → get_elem? c.frame.gotos j ≡ some g
      → g.name ≡ some name
      → g.pc ≡ some k
      → k < func_len c
      → (w : ℕ) × (get_elem? c'.frame.func.code k ≡ some w) × JumpsTo k (func_len c) w
  pub kept :
      (k w : ℕ)
      → get_elem? c.frame.func.code k ≡ some w
      → ((j : ℕ) (g : Goto) → get_elem? c.frame.gotos j ≡ some g → Awaits name k g → ⊥)
      → get_elem? c'.frame.func.code k ≡ some w
  pub none_left : (j : ℕ) (g : Goto) → get_elem? c'.frame.gotos j ≡ some g → g.name ≢ some name
  pub placed :
      find_label c.frame.labels name ≡ none → find_label c'.frame.labels name ≡ some (func_len c)

get_elem?-there : (xs : List ℕ) (k : ℕ) → k < length xs → (w : ℕ) × (get_elem? xs k ≡ some w)
get_elem?-there [] k lt = absurd (omega (arith, lt))
get_elem?-there (x ∷ xs) zero lt = (x, refl)
get_elem?-there (x ∷ xs) (suc k) lt = get_elem?-there xs k (omega (arith, lt))

find_label-snoc :
    (labels : List Label) (name pc : ℕ)
    → find_label labels name ≡ none
    → find_label (labels ++ record { name = name; pc = pc } ∷ []) name ≡ some pc
unfolding find_label
find_label-snoc [] name pc e = let same : (name == name) ≡ true = ground arith in rw same refl
find_label-snoc (l ∷ labels) name pc e = elim (Bool-cases (l.name == name)) [
  | inl same ↦ cc (rw same at e)
  | inr other ↦ rw other (find_label-snoc labels name pc (rw other at e))
]

-- A label that is not one too many is placed at the end of the code. Each goto that waited for it
-- jumps there; every other word stays; and no goto waits for it any more.
pub mccomp_label-IsLinked :
    (c : McComp) (name : ℕ)
    → length c.frame.labels < 64
    → func_len c < 2 ^ 24
    → ((mccomp_label c name).0 ≡ true) × IsLinked name c (mccomp_label c name).1
unfolding mccomp_label
mccomp_label-IsLinked c name few small =
    let below : leb 64 (length c.frame.labels) ≡ false = ground arith in
    let gotos = c.frame.gotos in
    let instrs = c.frame.func.code in
    rw (below, mccomp_label)
      (
        refl,
        record {
          size = resolve_gotos-length name (func_len c) gotos instrs;
          jumps = λ j k g at named waits lt.
              let (w, there) = get_elem?-there instrs k lt in
              (
                _,
                resolve_gotos-jump name (func_len c) gotos instrs k w there
                    (inr (j, g, at, (named, waits))),
                jump_word-JumpsTo k (func_len c) (omega (arith, lt)) small,
              );
          kept = resolve_gotos-kept name (func_len c) gotos instrs;
          none_left = resolve_gotos-left name (func_len c) gotos instrs;
          placed = find_label-snoc c.frame.labels name (func_len c);
        },
      )
