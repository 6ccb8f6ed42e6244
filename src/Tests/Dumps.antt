-- ===== src/Tests/Dumps.antt =====
-- Dumps into a file that is the list of its bytes, where each write is complete, through a buffer of
-- eight bytes.
use mclua.Prelude.{ℕ, ◌+◌, ◌≤◌, ◌≡◌, refl, ◌⊎◌, List, [], ◌∷◌, ◌++◌, none, some, arith, length}
use mclua.LFunc.{k_int, k_str, LFunc, empty_function}
use mclua.Dump.{FuncTree, func, FuncTrees, no_protos, proto, size_bytes, luac_tofile}
use mclua.Dump.Image.{file_bytes}
use mclua.Dump.RoundTrip.{SmallTree, levels, bare_tree}
use mclua.Dump.Contract.{load_chunk, luac_tofile-load_chunk}
use mclua.Dump.Sizes.{load_size, load_size-size_bytes, length-size_bytes-le}
use mclua.Dump.Writes.{Short}
use mclua.Dump.Written.{luac_tofile-Writes}

abbrev File : Type 0
File = List ℕ

abbrev fwrite : File → List ℕ → ℕ × File
fwrite file bytes = (length bytes, file ++ bytes)

abbrev contents : File → List ℕ
contents file = file

-- `return x, 300`, in a function with one constant and one upvalue.
abbrev main : LFunc
main = record (empty_function 0) {
  consts = k_str (record { hdr = 1; chars = b'x' ∷ [] }) ∷ k_int 300 ∷ [];
  upval_items = record { name = 0; instack = 1; idx = 0 } ∷ [];
  num_upvals = 1;
  is_vararg = 1;
  max_stack = 2;
  code = 0x51 ∷ 0x1000b ∷ [];
}

abbrev inner : FuncTrees
inner = proto (func (empty_function 5) no_protos) no_protos

luac_tofile-Writes_example :
    ((luac_tofile fwrite main inner (b'a' ∷ []) [] 8 ≡ none) × Short fwrite contents)
    ⊎ ((out' : File) × (luac_tofile fwrite main inner (b'a' ∷ []) [] 8 ≡ some out')
        × (out' ≡ file_bytes main inner (b'a' ∷ [])))
luac_tofile-Writes_example =
    luac_tofile-Writes fwrite contents (λ file bytes complete. refl) main inner (b'a' ∷ []) [] 8
      (omega arith)

sizes : size_bytes 300 ≡ 2 ∷ (0x80 + 44) ∷ []
unfolding size_bytes mclua.Dump.size_groups mclua.Dump.mark_last
sizes = refl

load_size-size_bytes_example : load_size 0 (size_bytes 300 ++ 7 ∷ []) ≡ some (300, 7 ∷ [])
load_size-size_bytes_example = load_size-size_bytes 300 (7 ∷ []) (omega arith)

length-size_bytes-le_example : length (size_bytes 300) ≤ 10
length-size_bytes-le_example = length-size_bytes-le 300 (omega arith)

main-SmallTree : SmallTree (func main inner)
unfolding SmallTree mclua.Dump.num_protos
main-SmallTree = (
  record {
    code = (omega arith, (omega arith, tt));
    code_len = omega arith;
    consts = (omega arith, (omega arith, tt));
    num_consts = omega arith;
    num_upvals = refl;
    few_upvals = omega arith;
  },
  omega arith,
  (
    (
      record {
        code = tt;
        code_len = omega arith;
        consts = tt;
        num_consts = omega arith;
        num_upvals = refl;
        few_upvals = omega arith;
      },
      omega arith,
      tt,
    ),
    tt,
  ),
)

two_levels : levels (func main inner) ≤ 2
unfolding levels
two_levels = omega arith

luac_tofile-load_chunk_example :
    (out' : File) × (luac_tofile fwrite main inner (b'a' ∷ []) [] 8 ≡ some out')
    × (load_chunk 2 out' ≡ some (((tt, 1), (some (b'a' ∷ []), bare_tree (func main inner))), []))
luac_tofile-load_chunk_example =
    luac_tofile-load_chunk fwrite contents (λ file bytes complete. refl) (λ file bytes. refl) main
      inner (b'a' ∷ []) [] 8 2 (omega arith) main-SmallTree (omega arith) two_levels refl
