-- ===== src/Ops/Encoding.antt =====
-- An instruction word is the sum of its fields, and each field reads back.
use mclua.Prelude.{ℕ, ◌+◌, ◌-◌, ◌*◌, ◌%◌, ◌^◌, ◌<◌, ◌≡◌, arith}
use mclua.Prelude.Int.{ℤ, pos, negsuc, ◌≤ℤ◌}
use mclua.Prelude.Bits.{bit_or_shifted}
use mclua.Ops.Words.{
  word, shl, to_u32, shift_ℤ, offset_sbx, offset_sj, create_abck, create_abx, create_asbx,
  create_ax, create_sj, get_opcode, getarg_a, getarg_b, getarg_c, getarg_k, getarg_bx, getarg_sbx,
  getarg_ax, getarg_sj,
}
use Prim.Native.Nat.{bit_or}

-- One more field above those that stand already.
or_shl :
    (n low x : ℕ)
    → low < 2 ^ n
    → x < word
    → x * 2 ^ n < word
    → bit_or low (shl x n) ≡ low + x * 2 ^ n
or_shl n low x fits small room =
    let whole : shl x n ≡ x * 2 ^ n = grind arith in rw whole (bit_or_shifted n low x fits)

or_opcode : (o a : ℕ) → o < 2 ^ 7 → a < 2 ^ 25 → bit_or (o % word) (shl a 7) ≡ o + a * 2 ^ 7
or_opcode o a ho ha =
    let e : o % word ≡ o = omega arith in rw e (or_shl 7 o a ho (omega arith) (omega arith))

create_abck_sum :
    (o a b c k : ℕ)
    → o < 2 ^ 7
    → a < 2 ^ 8
    → b < 2 ^ 8
    → c < 2 ^ 8
    → k < 2
    → create_abck o a b c k ≡ o + a * 2 ^ 7 + k * 2 ^ 15 + b * 2 ^ 16 + c * 2 ^ 24
unfolding create_abck
create_abck_sum o a b c k ho ha hb hc hk = rw (
  or_opcode o a ho (omega arith),
  or_shl 15 (o + a * 2 ^ 7) k (omega arith) (omega arith) (omega arith),
  or_shl 16 (o + a * 2 ^ 7 + k * 2 ^ 15) b (omega arith) (omega arith) (omega arith),
  or_shl 24 (o + a * 2 ^ 7 + k * 2 ^ 15 + b * 2 ^ 16) c (omega arith) (omega arith) (omega arith),
)

create_abx_sum :
    (o a bx : ℕ)
    → o < 2 ^ 7
    → a < 2 ^ 8
    → bx < 2 ^ 17
    → create_abx o a bx ≡ o + a * 2 ^ 7 + bx * 2 ^ 15
unfolding create_abx
create_abx_sum o a bx ho ha hb = rw (
  or_opcode o a ho (omega arith),
  or_shl 15 (o + a * 2 ^ 7) bx (omega arith) (omega arith) (omega arith),
)

create_ax_sum : (o ax : ℕ) → o < 2 ^ 7 → ax < 2 ^ 25 → create_ax o ax ≡ o + ax * 2 ^ 7
unfolding create_ax
create_ax_sum o ax ho hx = or_opcode o ax ho hx

-- The words that the five formats make, and what each accessor reads from them.
pub abck_fields :
    (o a b c k : ℕ)
    → o < 2 ^ 7
    → a < 2 ^ 8
    → b < 2 ^ 8
    → c < 2 ^ 8
    → k < 2
    → (get_opcode (create_abck o a b c k) ≡ o)
      × (getarg_a (create_abck o a b c k) ≡ a)
      × (getarg_b (create_abck o a b c k) ≡ b)
      × (getarg_c (create_abck o a b c k) ≡ c)
      × (getarg_k (create_abck o a b c k) ≡ k)
unfolding get_opcode getarg_a getarg_b getarg_c getarg_k
abck_fields o a b c k ho ha hb hc hk = rw (create_abck_sum o a b c k ho ha hb hc hk) (omega arith)

pub abx_fields :
    (o a bx : ℕ)
    → o < 2 ^ 7
    → a < 2 ^ 8
    → bx < 2 ^ 17
    → (get_opcode (create_abx o a bx) ≡ o)
      × (getarg_a (create_abx o a bx) ≡ a)
      × (getarg_bx (create_abx o a bx) ≡ bx)
unfolding get_opcode getarg_a getarg_bx
abx_fields o a bx ho ha hb = rw (create_abx_sum o a bx ho ha hb) (omega arith)

pub asbx_fields :
    (o a : ℕ) (sbx : ℤ)
    → o < 2 ^ 7
    → a < 2 ^ 8
    → negsuc (offset_sbx - 1) ≤ℤ sbx
    → sbx ≤ℤ pos (offset_sbx + 1)
    → (get_opcode (create_asbx o a sbx) ≡ o)
      × (getarg_a (create_asbx o a sbx) ≡ a)
      × (getarg_sbx (create_asbx o a sbx) ≡ sbx)
unfolding create_asbx getarg_sbx
asbx_fields o a sbx ho ha lo hi =
    let x = to_u32 (shift_ℤ sbx offset_sbx) in
    let fits : x < 2 ^ 17 = ground arith in
    let (e, f, g) = abx_fields o a x ho ha fits in (e, f, rw g (ground arith))

pub ax_fields :
    (o ax : ℕ)
    → o < 2 ^ 7
    → ax < 2 ^ 25
    → (get_opcode (create_ax o ax) ≡ o) × (getarg_ax (create_ax o ax) ≡ ax)
unfolding get_opcode getarg_ax
ax_fields o ax ho hx = rw (create_ax_sum o ax ho hx) (omega arith)

pub sj_fields :
    (o : ℕ) (sj : ℤ)
    → o < 2 ^ 7
    → negsuc (offset_sj - 1) ≤ℤ sj
    → sj ≤ℤ pos (offset_sj + 1)
    → (get_opcode (create_sj o sj) ≡ o) × (getarg_sj (create_sj o sj) ≡ sj)
unfolding create_sj get_opcode getarg_sj
sj_fields o sj ho lo hi =
    let x = to_u32 (shift_ℤ sj offset_sj) in
    let fits : x < 2 ^ 25 = ground arith in rw (or_opcode o x ho fits) (omega arith, ground arith)
