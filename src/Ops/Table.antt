-- ===== src/Ops/Table.antt =====
-- The opcode numbers count the enumeration.
use mclua.Prelude.{◌<◌, ◌^◌, ◌≡◌, refl, some, arith}
use mclua.Ops.{OpCode, op_move, code, opcode?}

pub opcode?-code : (op : OpCode) → opcode? (code op) ≡ some op
unfolding opcode? code
opcode?-code op_move = refl
opcode?-code _ = refl

pub code-lt : (op : OpCode) → code op < 2 ^ 7
unfolding code
code-lt op_move = omega arith
code-lt _ = omega arith
