-- ===== src/Ops.antt =====
-- src/lib/mclops.h: the opcodes, and their modes.
pub mod Table
pub mod Words
pub mod Encoding
pub mod Listing
use Prim.Native.Nat.{bit_or}
use mclua.Prelude.{
  ℕ, ◌+◌, ◌-◌, ◌*◌, ◌/◌, ◌%◌, ◌^◌, List, [], ◌∷◌, Option, none, some, get_elem?, if◌then◌else◌,
  ◌==◌,
}
use mclua.Prelude.Int.{ℤ, pos, negsuc, pos_part, neg_part, sub_ℕ}

pub data OpCode : Type 0 where
  op_move op_loadi op_loadf op_loadk op_loadkx op_loadfalse : OpCode
  op_lfalseskip op_loadtrue op_loadnil op_getupval op_setupval op_gettabup : OpCode
  op_gettable op_geti op_getfield op_settabup op_settable op_seti : OpCode
  op_setfield op_newtable op_self op_addi op_addk op_subk : OpCode
  op_mulk op_modk op_powk op_divk op_idivk op_bandk : OpCode
  op_bork op_bxork op_shri op_shli op_add op_sub : OpCode
  op_mul op_mod op_pow op_div op_idiv op_band : OpCode
  op_bor op_bxor op_shl op_shr op_mmbin op_mmbini : OpCode
  op_mmbink op_unm op_bnot op_not op_len op_concat : OpCode
  op_close op_tbc op_jmp op_eq op_lt op_le : OpCode
  op_eqk op_eqi op_lti op_lei op_gti op_gei : OpCode
  op_test op_testset op_call op_tailcall op_return op_return0 : OpCode
  op_return1 op_forloop op_forprep op_tforprep op_tforcall op_tforloop : OpCode
  op_setlist op_closure op_vararg op_varargprep op_extraarg : OpCode

-- The number of an opcode, as the enumeration counts.
unfoldable pub code : OpCode → ℕ
code op_move = 0
code op_loadi = 1
code op_loadf = 2
code op_loadk = 3
code op_loadkx = 4
code op_loadfalse = 5
code op_lfalseskip = 6
code op_loadtrue = 7
code op_loadnil = 8
code op_getupval = 9
code op_setupval = 10
code op_gettabup = 11
code op_gettable = 12
code op_geti = 13
code op_getfield = 14
code op_settabup = 15
code op_settable = 16
code op_seti = 17
code op_setfield = 18
code op_newtable = 19
code op_self = 20
code op_addi = 21
code op_addk = 22
code op_subk = 23
code op_mulk = 24
code op_modk = 25
code op_powk = 26
code op_divk = 27
code op_idivk = 28
code op_bandk = 29
code op_bork = 30
code op_bxork = 31
code op_shri = 32
code op_shli = 33
code op_add = 34
code op_sub = 35
code op_mul = 36
code op_mod = 37
code op_pow = 38
code op_div = 39
code op_idiv = 40
code op_band = 41
code op_bor = 42
code op_bxor = 43
code op_shl = 44
code op_shr = 45
code op_mmbin = 46
code op_mmbini = 47
code op_mmbink = 48
code op_unm = 49
code op_bnot = 50
code op_not = 51
code op_len = 52
code op_concat = 53
code op_close = 54
code op_tbc = 55
code op_jmp = 56
code op_eq = 57
code op_lt = 58
code op_le = 59
code op_eqk = 60
code op_eqi = 61
code op_lti = 62
code op_lei = 63
code op_gti = 64
code op_gei = 65
code op_test = 66
code op_testset = 67
code op_call = 68
code op_tailcall = 69
code op_return = 70
code op_return0 = 71
code op_return1 = 72
code op_forloop = 73
code op_forprep = 74
code op_tforprep = 75
code op_tforcall = 76
code op_tforloop = 77
code op_setlist = 78
code op_closure = 79
code op_vararg = 80
code op_varargprep = 81
code op_extraarg = 82

-- The opcode of a number. Numbers past the last opcode are none of the enumeration's.
abbrev pub opcodes : List OpCode
opcodes =
    op_move ∷ op_loadi ∷ op_loadf ∷ op_loadk ∷ op_loadkx ∷ op_loadfalse ∷ op_lfalseskip
    ∷ op_loadtrue ∷ op_loadnil ∷ op_getupval ∷ op_setupval ∷ op_gettabup ∷ op_gettable ∷ op_geti
    ∷ op_getfield ∷ op_settabup ∷ op_settable ∷ op_seti ∷ op_setfield ∷ op_newtable ∷ op_self
    ∷ op_addi ∷ op_addk ∷ op_subk ∷ op_mulk ∷ op_modk ∷ op_powk ∷ op_divk ∷ op_idivk ∷ op_bandk
    ∷ op_bork ∷ op_bxork ∷ op_shri ∷ op_shli ∷ op_add ∷ op_sub ∷ op_mul ∷ op_mod ∷ op_pow ∷ op_div
    ∷ op_idiv ∷ op_band ∷ op_bor ∷ op_bxor ∷ op_shl ∷ op_shr ∷ op_mmbin ∷ op_mmbini ∷ op_mmbink
    ∷ op_unm ∷ op_bnot ∷ op_not ∷ op_len ∷ op_concat ∷ op_close ∷ op_tbc ∷ op_jmp ∷ op_eq ∷ op_lt
    ∷ op_le ∷ op_eqk ∷ op_eqi ∷ op_lti ∷ op_lei ∷ op_gti ∷ op_gei ∷ op_test ∷ op_testset ∷ op_call
    ∷ op_tailcall ∷ op_return ∷ op_return0 ∷ op_return1 ∷ op_forloop ∷ op_forprep ∷ op_tforprep
    ∷ op_tforcall ∷ op_tforloop ∷ op_setlist ∷ op_closure ∷ op_vararg ∷ op_varargprep ∷ op_extraarg
    ∷ []

unfoldable pub opcode? : ℕ → Option OpCode
opcode? n = get_elem? opcodes n

-- `enum OpMode`
pub data OpMode : Type 0 where
  iabc iabx iasbx iax isj : OpMode

unfoldable pub mode_number : OpMode → ℕ
mode_number iabc = 0
mode_number iabx = 1
mode_number iasbx = 2
mode_number iax = 3
mode_number isj = 4

-- `Opmode(is_mm, is_call, uses_k, is_test, sets_a, format)`
unfoldable pub opmode : ℕ → ℕ → ℕ → ℕ → ℕ → OpMode → ℕ
unfolding mode_number
opmode is_mm is_call uses_k is_test sets_a format =
    bit_or
      (bit_or
        (bit_or (bit_or (bit_or (is_mm * 2 ^ 7) (is_call * 2 ^ 6)) (uses_k * 2 ^ 5))
          (is_test * 2 ^ 4))
        (sets_a * 2 ^ 3))
      (mode_number format)

-- `mclop_modes`
unfoldable pub mclop_modes : List ℕ
unfolding opmode
mclop_modes =
    opmode 0 0 0 0 1 iabc
    ∷ opmode 0 0 0 0 1 iasbx
    ∷ opmode 0 0 0 0 1 iasbx
    ∷ opmode 0 0 0 0 1 iabx
    ∷ opmode 0 0 0 0 1 iabx
    ∷ opmode 0 0 0 0 1 iabc
    ∷ opmode 0 0 0 0 1 iabc
    ∷ opmode 0 0 0 0 1 iabc
    ∷ opmode 0 0 0 0 1 iabc
    ∷ opmode 0 0 0 0 1 iabc
    ∷ opmode 0 0 0 0 0 iabc
    ∷ opmode 0 0 0 0 1 iabc
    ∷ opmode 0 0 0 0 1 iabc
    ∷ opmode 0 0 0 0 1 iabc
    ∷ opmode 0 0 0 0 1 iabc
    ∷ opmode 0 0 0 0 0 iabc
    ∷ opmode 0 0 0 0 0 iabc
    ∷ opmode 0 0 0 0 0 iabc
    ∷ opmode 0 0 0 0 0 iabc
    ∷ opmode 0 0 0 0 1 iabc
    ∷ opmode 0 0 0 0 1 iabc
    ∷ opmode 0 0 0 0 1 iabc
    ∷ opmode 0 0 0 0 1 iabc
    ∷ opmode 0 0 0 0 1 iabc
    ∷ opmode 0 0 0 0 1 iabc
    ∷ opmode 0 0 0 0 1 iabc
    ∷ opmode 0 0 0 0 1 iabc
    ∷ opmode 0 0 0 0 1 iabc
    ∷ opmode 0 0 0 0 1 iabc
    ∷ opmode 0 0 0 0 1 iabc
    ∷ opmode 0 0 0 0 1 iabc
    ∷ opmode 0 0 0 0 1 iabc
    ∷ opmode 0 0 0 0 1 iabc
    ∷ opmode 0 0 0 0 1 iabc
    ∷ opmode 0 0 0 0 1 iabc
    ∷ opmode 0 0 0 0 1 iabc
    ∷ opmode 0 0 0 0 1 iabc
    ∷ opmode 0 0 0 0 1 iabc
    ∷ opmode 0 0 0 0 1 iabc
    ∷ opmode 0 0 0 0 1 iabc
    ∷ opmode 0 0 0 0 1 iabc
    ∷ opmode 0 0 0 0 1 iabc
    ∷ opmode 0 0 0 0 1 iabc
    ∷ opmode 0 0 0 0 1 iabc
    ∷ opmode 0 0 0 0 1 iabc
    ∷ opmode 0 0 0 0 1 iabc
    ∷ opmode 1 0 0 0 0 iabc
    ∷ opmode 1 0 0 0 0 iabc
    ∷ opmode 1 0 0 0 0 iabc
    ∷ opmode 0 0 0 0 1 iabc
    ∷ opmode 0 0 0 0 1 iabc
    ∷ opmode 0 0 0 0 1 iabc
    ∷ opmode 0 0 0 0 1 iabc
    ∷ opmode 0 0 0 0 1 iabc
    ∷ opmode 0 0 0 0 0 iabc
    ∷ opmode 0 0 0 0 0 iabc
    ∷ opmode 0 0 0 0 0 isj
    ∷ opmode 0 0 1 1 0 iabc
    ∷ opmode 0 0 1 1 0 iabc
    ∷ opmode 0 0 1 1 0 iabc
    ∷ opmode 0 0 1 1 0 iabc
    ∷ opmode 0 0 1 1 0 iabc
    ∷ opmode 0 0 1 1 0 iabc
    ∷ opmode 0 0 1 1 0 iabc
    ∷ opmode 0 0 1 1 0 iabc
    ∷ opmode 0 0 1 1 0 iabc
    ∷ opmode 0 0 0 1 0 iabc
    ∷ opmode 0 0 0 1 1 iabc
    ∷ opmode 0 1 0 0 1 iabc
    ∷ opmode 0 1 0 0 1 iabc
    ∷ opmode 0 0 0 0 0 iabc
    ∷ opmode 0 0 0 0 0 iabc
    ∷ opmode 0 0 0 0 0 iabc
    ∷ opmode 0 0 0 0 1 iabx
    ∷ opmode 0 0 0 0 1 iabx
    ∷ opmode 0 0 0 0 0 iabx
    ∷ opmode 0 0 0 0 0 iabc
    ∷ opmode 0 0 0 0 1 iabx
    ∷ opmode 0 0 1 0 0 iabc
    ∷ opmode 0 0 0 0 1 iabx
    ∷ opmode 0 0 0 0 1 iabc
    ∷ opmode 0 0 0 0 1 iabc
    ∷ opmode 0 0 0 0 0 iax
    ∷ []

-- `GetOpMode(op)`, where the number is one of an `enum OpMode`.
unfoldable pub get_op_mode : OpCode → Option OpMode
unfolding mclop_modes code
get_op_mode op = elim (get_elem? mclop_modes (code op)) [
  | none ↦ none
  | some m ↦ get_elem? (iabc ∷ iabx ∷ iasbx ∷ iax ∷ isj ∷ []) (m % 2 ^ 3)
]
