-- ===== src/Compile/Gotos.antt =====
-- Gotos: `mccomp_goto` jumps to its label, or waits for it.
use mclua.Prelude.{
  ℕ, ◌-◌, ◌^◌, ◌<◌, ◌≤◌, arith, ◌≡◌, refl, sym, ap, ◌∙◌, subst, ◌⊎◌, inl, inr, List, [], ◌∷◌, ◌++◌,
  Option, none, some, Bool, true, false, leb, length, set, Bool-cases, Option-cases,
}
use mclua.Prelude.Int.{pos}
use mclua.Ops.{code, op_jmp}
use mclua.Ops.Words.{create_sj}
use mclua.LFunc.{FuncState, LFunc}
use mclua.Heap.Valid.{IsValid}
use mclua.LFunc.Arrays.{HasCode, CodeFull, mclfunc_append_instr-HasCode}
use mclua.Compile.{
  goto_label, failed, mccomp_emit, mccomp_goto, mccomp_patch, McComp, func_len, patched, find_label,
}
use mclua.Compile.Jumps.{JumpsTo, jump_word, jump_word-JumpsTo}

-- The function that is compiled, and the arena.
abbrev pub func_state : McComp → FuncState
func_state c = record { fn = c.frame.func; heap = c.heap }

-- How a goto may have ended: with the error flag set, where there is no room for an instruction or
-- 64 gotos wait already; with a jump to its label behind the code; or with a jump that waits there
-- for the label.
pub data Went (name : ℕ) (c : McComp) : Bool × McComp → Type 0 where
  out_of_room :
      {done : Bool} {c' : McComp}
      → CodeFull (func_state c)
      → c'.frame.error ≡ true
      → c'.frame.func.code ≡ c.frame.func.code
      → Went name c (done, c')
  too_many :
      {c' : McComp}
      → find_label c.frame.labels name ≡ none
      → 64 ≤ length c.frame.gotos
      → c'.frame.error ≡ true
      → c'.frame.gotos ≡ c.frame.gotos
      → Went name c (false, c')
  linked :
      {c' : McComp} (target w : ℕ)
      → find_label c.frame.labels name ≡ some target
      → c'.frame.func.code ≡ c.frame.func.code ++ w ∷ []
      → JumpsTo (func_len c) target w
      → c'.frame.gotos ≡ c.frame.gotos
      → c'.frame.error ≡ c.frame.error
      → Went name c (true, c')
  waiting_for_label :
      {c' : McComp} (w : ℕ)
      → find_label c.frame.labels name ≡ none
      → length c.frame.gotos < 64
      → c'.frame.func.code ≡ c.frame.func.code ++ w ∷ []
      → c'.frame.gotos ≡ c.frame.gotos ++ record { name = some name; pc = some (func_len c) } ∷ []
      → c'.frame.error ≡ c.frame.error
      → Went name c (true, c')

set-snoc : (xs : List ℕ) (v w : ℕ) → set (xs ++ v ∷ []) (length xs) w ≡ xs ++ w ∷ []
set-snoc [] v w = refl
set-snoc (x ∷ xs) v w = ap (λ l. x ∷ l) (set-snoc xs v w)

-- What an instruction that is emitted leaves.
record Emitted (c : McComp) (instr : ℕ) (r : Option ℕ × McComp) : Type 0 where
  pub pc : r.0 ≡ some (func_len c)
  pub code_after : r.1.frame.func.code ≡ c.frame.func.code ++ instr ∷ []
  pub labels : r.1.frame.labels ≡ c.frame.labels
  pub gotos : r.1.frame.gotos ≡ c.frame.gotos
  pub error : r.1.frame.error ≡ c.frame.error

module _ (c : McComp) (v : IsValid c.heap) (has : HasCode (func_state c))
    (small : func_len c < 2 ^ 24 - 1) where
  mccomp_emit-Emitted :
      (instr : ℕ)
      → ((mccomp_emit c instr ≡ (none, failed c)) × CodeFull (func_state c))
        ⊎ Emitted c instr (mccomp_emit c instr)
  unfolding mccomp_emit
  mccomp_emit-Emitted instr =
      elim (mclfunc_append_instr-HasCode (func_state c) instr v has (omega (arith, small))) [
        | inl (refused, full) ↦ inl (rw (refused, mccomp_emit) refl, full)
        | inr (s, made, fn, v', has', g) ↦ inr (
            rw (made, mccomp_emit)
              (record {
                pc = refl;
                code_after = ap (λ (fn : LFunc). fn.code) fn;
                labels = refl;
                gotos = refl;
                error = refl;
              }))
      ]

  goto_label-failed :
      (name : ℕ) → CodeFull (func_state c) → Went name c (goto_label name (none, failed c))
  unfolding goto_label mccomp_patch
  goto_label-failed name full = elim (Option-cases (find_label c.frame.labels name)) [
    | inr (target, known) ↦ rw (known, goto_label) (out_of_room full refl refl)
    | inl unknown ↦ elim (Bool-cases (leb 64 (length c.frame.gotos))) [
      | inl many ↦ rw (unknown, many, goto_label) (out_of_room full refl refl)
      | inr few ↦ rw (unknown, few, goto_label) (out_of_room full refl refl)
    ]
  ]

  module _ (name : ℕ)
      (near : (target : ℕ) → find_label c.frame.labels name ≡ some target → target < 2 ^ 24) where
    goto_label-Went :
        (c' : McComp) (instr : ℕ)
        → Emitted c instr (some (func_len c), c')
        → Went name c (goto_label name (some (func_len c), c'))
    unfolding goto_label mccomp_patch patched jump_word
    goto_label-Went c' instr em = elim (Option-cases (find_label c.frame.labels name)) [
      | inr (target, known) ↦
          let known' : find_label c'.frame.labels name ≡ some target =
            ap (λ l. find_label l name) em.labels ∙ known in
          rw (known', goto_label)
            (linked {c' = mccomp_patch c' (some (func_len c)) target} target
              (jump_word (func_len c) target) known
              (ap (λ l. set l (func_len c) (jump_word (func_len c) target)) em.code_after
                ∙ set-snoc c.frame.func.code instr (jump_word (func_len c) target))
              (jump_word-JumpsTo (func_len c) target small (near target known)) em.gotos em.error)
      | inl unknown ↦
          let unknown' : find_label c'.frame.labels name ≡ none =
            ap (λ l. find_label l name) em.labels ∙ unknown in
          elim (Bool-cases (leb 64 (length c'.frame.gotos))) [
            | inl many ↦
                rw (unknown', many, goto_label)
                  (too_many unknown (ground (arith, many, ap length em.gotos)) refl em.gotos)
            | inr few ↦
                rw (unknown', few, goto_label)
                  (waiting_for_label instr unknown (ground (arith, few, ap length em.gotos))
                    em.code_after
                    (ap (λ l. l ++ record { name = some name; pc = some (func_len c) } ∷ [])
                      em.gotos)
                    em.error)
          ]
    ]

    -- In a valid arena, with room in the function's object for its code, which is of less than
    -- 2 ^ 24 - 1 words, and with the label of the name, if there is one, at less than 2 ^ 24, a goto
    -- sets the error flag, and puts no word behind the code where neither the function's object nor
    -- the rest of the arena has room for it, or does not wait where there is no label of its name
    -- and 64 gotos wait already. Else it keeps the flag and puts one word behind the code: a jump to
    -- the label of its name, or where there is none one that waits there for the label.
    pub mccomp_goto-Went : Went name c (mccomp_goto c name)
    unfolding mccomp_goto
    mccomp_goto-Went =
        let jump = create_sj (code op_jmp) (pos 0) in
        elim (mccomp_emit-Emitted jump) [
          | inl (refused, full) ↦ rw refused (goto_label-failed name full)
          | inr em ↦
              let after = (mccomp_emit c jump).1 in
              let pair : mccomp_emit c jump ≡ (some (func_len c), after) = λ i. (em.pc i, after) in
              subst (λ r. Went name c (goto_label name r)) (sym pair)
                (goto_label-Went after jump (record {
                  pc = refl;
                  code_after = em.code_after;
                  labels = em.labels;
                  gotos = em.gotos;
                  error = em.error;
                }))
        ]
