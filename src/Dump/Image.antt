-- ===== src/Dump/Image.antt =====
-- The bytes of a dumped function, as the format of Lua 5.4 has them one after the other, without
-- buffer or file.
use mclua.Prelude.{ℕ, ◌+◌, ◌%◌, List, [], ◌∷◌, ◌++◌, Option, none, some, length, take}
use mclua.Heap.{u64_mod}
use mclua.LFunc.{Constant, k_int, k_flt, k_str, UpvalDesc, LFunc}
use mclua.Dump.{
  FuncTree, func, FuncTrees, no_protos, proto, num_protos, word_bytes, size_bytes, header_bytes,
  code_bytes, string_tag, lua_vnumint, lua_vnumflt,
}

unfoldable pub string_bytes : Option (List ℕ) → List ℕ
string_bytes none = size_bytes 0
string_bytes (some str) = size_bytes ((length str + 1) % u64_mod) ++ str

unfoldable pub constant_bytes : Constant → List ℕ
unfolding string_bytes
constant_bytes (k_int value) = lua_vnumint ∷ [] ++ word_bytes 8 value
constant_bytes (k_flt bits) = lua_vnumflt ∷ [] ++ word_bytes 8 bits
constant_bytes (k_str str) = string_tag str.chars ∷ [] ++ string_bytes (some str.chars)

unfoldable pub constants_bytes : List Constant → List ℕ
unfolding constant_bytes
constants_bytes [] = []
constants_bytes (c ∷ consts) = constant_bytes c ++ constants_bytes consts

unfoldable pub upvalues_bytes : List UpvalDesc → List ℕ
upvalues_bytes [] = []
upvalues_bytes (up ∷ ups) = up.instack ∷ [] ++ up.idx ∷ [] ++ 0 ∷ [] ++ upvalues_bytes ups

unfoldable pub debug_bytes : List ℕ
debug_bytes = size_bytes 0 ++ size_bytes 0 ++ size_bytes 0 ++ size_bytes 0

unfoldable pub body_bytes : LFunc → Option (List ℕ) → List ℕ
unfolding string_bytes constants_bytes upvalues_bytes
body_bytes fn source =
    string_bytes source
    ++ size_bytes 0
    ++ size_bytes 0
    ++ fn.num_params ∷ []
    ++ fn.is_vararg ∷ []
    ++ fn.max_stack ∷ []
    ++ (size_bytes (length fn.code) ++ code_bytes fn.code)
    ++ (size_bytes (length fn.consts) ++ constants_bytes fn.consts)
    ++ (size_bytes fn.num_upvals ++ upvalues_bytes (take fn.num_upvals fn.upval_items))

unfoldable mutual
  unfolding body_bytes debug_bytes

  pub function_bytes : FuncTree → Option (List ℕ) → List ℕ
  function_bytes (func fn protos) source =
      body_bytes fn source ++ (size_bytes (num_protos protos) ++ protos_bytes protos) ++ debug_bytes

  pub protos_bytes : FuncTrees → List ℕ
  protos_bytes no_protos = []
  protos_bytes (proto p ps) = function_bytes p none ++ protos_bytes ps

unfoldable pub file_bytes : LFunc → FuncTrees → List ℕ → List ℕ
unfolding function_bytes
file_bytes fn protos chunkname =
    header_bytes fn.num_upvals ++ function_bytes (func fn protos) (some chunkname)
