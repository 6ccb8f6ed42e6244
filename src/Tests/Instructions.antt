-- ===== src/Tests/Instructions.antt =====
-- Instruction words of the compiler's code, packed and listed.
use mclua.Prelude.{◌≡◌, refl, some, arith}
use mclua.Prelude.Int.{negsuc}
use mclua.Ops.Listing.{abck, sj, encode, mccomp_log_instr, mccomp_log_instr-encode}
use mclua.Ops.{op_call, op_jmp, get_op_mode, iabc, opcode?, code}
use mclua.Ops.Words.{create_abck, create_sj, get_opcode, getarg_sj}

-- CALL 2 3 1
call_word : create_abck (code op_call) 2 3 1 0 ≡ 0x1030144
unfolding create_abck code
call_word = refl

call_mode : get_op_mode op_call ≡ some iabc
unfolding get_op_mode
call_mode = refl

-- A jump back by 4.
jump_back : mccomp_log_instr (encode (sj op_jmp (negsuc 3))) ≡ some (sj op_jmp (negsuc 3))
unfolding mccomp_log_instr encode get_op_mode opcode? code create_sj get_opcode getarg_sj
jump_back = refl

mccomp_log_instr-encode_example :
    mccomp_log_instr (encode (abck op_call 2 3 1 0)) ≡ some (abck op_call 2 3 1 0)
mccomp_log_instr-encode_example =
    mccomp_log_instr-encode (abck op_call 2 3 1 0)
      (call_mode, omega arith, omega arith, omega arith, omega arith)
