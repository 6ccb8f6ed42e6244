-- ===== src/Ops/Words.antt =====
-- src/lib/mclops.h: the macros that pack and unpack instruction words. A `u32` is a number below
-- 2 ^ 32. A mask `& (2 ^ n - 1)` is written `% 2 ^ n`, a shift to the right `/ 2 ^ n`, a shift to
-- the left of a u32 `* 2 ^ n % 2 ^ 32`.
use Prim.Native.Nat.{bit_or}
use mclua.Prelude.{ℕ, ◌+◌, ◌-◌, ◌*◌, ◌/◌, ◌%◌, ◌^◌}
use mclua.Prelude.Int.{ℤ, pos, negsuc, pos_part, neg_part, sub_ℕ}

abbrev pub word : ℕ
word = 2 ^ 32

-- `(u32) x << n`
abbrev pub shl : ℕ → ℕ → ℕ
shl x n = x % word * 2 ^ n % word

-- `(u32) i` of an i32
abbrev pub to_u32 : ℤ → ℕ
to_u32 (pos n) = n % word
to_u32 (negsuc n) = word - 1 - n % word

abbrev pub offset_sbx : ℕ
offset_sbx = (2 ^ 17 - 1) / 2

abbrev pub offset_sj : ℕ
offset_sj = (2 ^ 25 - 1) / 2

-- `sbx + OFFSET_sBx` and `sj + OFFSET_sJ`
abbrev pub shift_ℤ : ℤ → ℕ → ℤ
shift_ℤ i n = sub_ℕ (pos_part i + n) (neg_part i)

unfoldable pub create_abck : ℕ → ℕ → ℕ → ℕ → ℕ → ℕ
create_abck o a b c k =
    bit_or (bit_or (bit_or (bit_or (o % word) (shl a 7)) (shl k 15)) (shl b 16)) (shl c 24)

unfoldable pub create_abx : ℕ → ℕ → ℕ → ℕ
create_abx o a bx = bit_or (bit_or (o % word) (shl a 7)) (shl bx 15)

unfoldable pub create_asbx : ℕ → ℕ → ℤ → ℕ
unfolding create_abx
create_asbx o a sbx = create_abx o a (to_u32 (shift_ℤ sbx offset_sbx))

unfoldable pub create_ax : ℕ → ℕ → ℕ
create_ax o ax = bit_or (o % word) (shl ax 7)

unfoldable pub create_sj : ℕ → ℤ → ℕ
create_sj o sj = bit_or (o % word) (shl (to_u32 (shift_ℤ sj offset_sj)) 7)

unfoldable pub get_opcode : ℕ → ℕ
get_opcode i = i % 2 ^ 7

unfoldable pub getarg_a : ℕ → ℕ
getarg_a i = i / 2 ^ 7 % 2 ^ 8

unfoldable pub getarg_b : ℕ → ℕ
getarg_b i = i / 2 ^ 16 % 2 ^ 8

unfoldable pub getarg_c : ℕ → ℕ
getarg_c i = i / 2 ^ 24 % 2 ^ 8

unfoldable pub getarg_k : ℕ → ℕ
getarg_k i = i / 2 ^ 15 % 2

unfoldable pub getarg_bx : ℕ → ℕ
getarg_bx i = i / 2 ^ 15 % 2 ^ 17

unfoldable pub getarg_sbx : ℕ → ℤ
unfolding getarg_bx
getarg_sbx i = sub_ℕ (getarg_bx i) offset_sbx

unfoldable pub getarg_ax : ℕ → ℕ
getarg_ax i = i / 2 ^ 7

unfoldable pub getarg_sj : ℕ → ℤ
getarg_sj i = sub_ℕ (i / 2 ^ 7 % 2 ^ 25) offset_sj
