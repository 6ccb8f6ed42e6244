-- ===== src/Ops/Listing.antt =====
-- src/compile/mccompile.c, `mccomp_log_instr`: an instruction word is listed by the format that
-- the mode table gives its opcode. `encode` packs an instruction by the CREATE macro of its format.
use mclua.Prelude.{ℕ, ◌+◌, ◌-◌, ◌<◌, ◌^◌, ◌≡◌, ◌∙◌, Option, none, some}
use mclua.Prelude.Int.{ℤ, pos, negsuc, ◌≤ℤ◌}
use mclua.Ops.{OpCode, OpMode, iabc, iabx, iasbx, iax, isj, code, opcode?, get_op_mode}
use mclua.Ops.Words.{
  offset_sbx, offset_sj, create_abck, create_abx, create_asbx, create_ax, create_sj, get_opcode,
  getarg_a, getarg_b, getarg_c, getarg_k, getarg_bx, getarg_sbx, getarg_ax, getarg_sj,
}
use mclua.Ops.Table.{opcode?-code, code-lt}
use mclua.Ops.Encoding.{abck_fields, abx_fields, asbx_fields, ax_fields, sj_fields}

-- What the listing prints: the name of the opcode and the fields of its format.
pub data Instr : Type 0 where
  abck : OpCode → ℕ → ℕ → ℕ → ℕ → Instr
  abx : OpCode → ℕ → ℕ → Instr
  asbx : OpCode → ℕ → ℤ → Instr
  ax : OpCode → ℕ → Instr
  sj : OpCode → ℤ → Instr

unfoldable pub list_fields : OpCode → OpMode → ℕ → Instr
list_fields op iabc i = abck op (getarg_a i) (getarg_b i) (getarg_c i) (getarg_k i)
list_fields op iabx i = abx op (getarg_a i) (getarg_bx i)
list_fields op iasbx i = asbx op (getarg_a i) (getarg_sbx i)
list_fields op iax i = ax op (getarg_ax i)
list_fields op isj i = sj op (getarg_sj i)

list_opcode : OpCode → ℕ → Option Instr
unfolding list_fields
list_opcode op i = elim (get_op_mode op) [ none ↦ none | some m ↦ some (list_fields op m i) ]

-- `none` stands for a word whose opcode lies outside the tables, which the code would read
-- out of bounds.
unfoldable pub mccomp_log_instr : ℕ → Option Instr
unfolding list_opcode
mccomp_log_instr i = elim (opcode? (get_opcode i)) [ none ↦ none | some op ↦ list_opcode op i ]

unfoldable pub encode : Instr → ℕ
encode (abck op a b c k) = create_abck (code op) a b c k
encode (abx op a bx) = create_abx (code op) a bx
encode (asbx op a sbx) = create_asbx (code op) a sbx
encode (ax op n) = create_ax (code op) n
encode (sj op n) = create_sj (code op) n

-- The opcode has this format in the mode table, and every field is within its width.
abbrev pub IsFit : Instr → Type 0
IsFit (abck op a b c k) =
    (get_op_mode op ≡ some iabc) × (a < 2 ^ 8) × (b < 2 ^ 8) × (c < 2 ^ 8) × (k < 2)
IsFit (abx op a bx) = (get_op_mode op ≡ some iabx) × (a < 2 ^ 8) × (bx < 2 ^ 17)
IsFit (asbx op a sbx) =
    (get_op_mode op ≡ some iasbx)
    × (a < 2 ^ 8)
    × (negsuc (offset_sbx - 1) ≤ℤ sbx)
    × (sbx ≤ℤ pos (offset_sbx + 1))
IsFit (ax op n) = (get_op_mode op ≡ some iax) × (n < 2 ^ 25)
IsFit (sj op n) =
    (get_op_mode op ≡ some isj) × (negsuc (offset_sj - 1) ≤ℤ n) × (n ≤ℤ pos (offset_sj + 1))

list_of_opcode :
    (i : ℕ) (op : OpCode) (m : OpMode)
    → get_opcode i ≡ code op
    → get_op_mode op ≡ some m
    → mccomp_log_instr i ≡ some (list_fields op m i)
unfolding mccomp_log_instr
list_of_opcode i op m e f =
    rw (e, mccomp_log_instr) (rw (opcode?-code op, mccomp_log_instr) (rw (f, list_opcode)))

-- An instruction whose opcode has its format in the mode table and whose fields fit, packed and listed, is that instruction.
pub mccomp_log_instr-encode : (i : Instr) → IsFit i → mccomp_log_instr (encode i) ≡ some i
unfolding encode list_fields
mccomp_log_instr-encode (abck op a b c k) (m, ha, hb, hc, hk) =
    let (o, ea, eb, ec, ek) = abck_fields (code op) a b c k (code-lt op) ha hb hc hk in
    list_of_opcode _ op iabc o m ∙ rw (ea, eb, ec, ek)
mccomp_log_instr-encode (abx op a bx) (m, ha, hb) =
    let (o, ea, eb) = abx_fields (code op) a bx (code-lt op) ha hb in
    list_of_opcode _ op iabx o m ∙ rw (ea, eb)
mccomp_log_instr-encode (asbx op a sbx) (m, ha, lo, hi) =
    let (o, ea, eb) = asbx_fields (code op) a sbx (code-lt op) ha lo hi in
    list_of_opcode _ op iasbx o m ∙ rw (ea, eb)
mccomp_log_instr-encode (ax op n) (m, h) =
    let (o, e) = ax_fields (code op) n (code-lt op) h in list_of_opcode _ op iax o m ∙ rw e
mccomp_log_instr-encode (sj op n) (m, lo, hi) =
    let (o, e) = sj_fields (code op) n (code-lt op) lo hi in list_of_opcode _ op isj o m ∙ rw e
