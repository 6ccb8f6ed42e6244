-- ===== src/Dump/Contract.antt =====
-- A file that `luac_tofile` wrote holds the function.
use mclua.Prelude.{
  ℕ, ◌+◌, ◌^◌, ◌<◌, ◌≤◌, ◌≡◌, refl, sym, ap, ◌∙◌, inl, inr, List, [], ◌∷◌, ◌++◌, append-nil, Option,
  none, some, length, ◌==◌, if◌then◌else◌,
}
use mclua.LFunc.{LFunc}
use mclua.Dump.{FuncTree, func, FuncTrees, header_bytes, word_bytes, luac_tofile}
use mclua.Dump.Image.{file_bytes}
use mclua.Dump.Writes.{Appends}
use mclua.Dump.Written.{luac_tofile-Writes}
use mclua.Dump.Loader.{Load, ◌&◌, load_byte, load_function}
use mclua.Dump.RoundTrip.{Loads, ◌and◌, bare_tree, levels, SmallTree, load_function-function_bytes}

-- The bytes are those that are expected.
unfoldable pub expect : List ℕ → Load (Unit {0})
expect [] bytes = some (tt, bytes)
expect (b ∷ bs) [] = none
expect (b ∷ bs) (c ∷ bytes) = let rest = expect bs bytes in if b == c then rest else none

-- The signature of Lua 5.4: escape, "Lua", version 0x54, format 0, "\x19\x93\r\n\x1a\n", the sizes 4,
-- 8 and 8, and the integer 0x5678 and the number 370.5 as a little-endian processor holds them.
abbrev pub signature : List ℕ
signature =
    0x1b ∷ 0x4c ∷ 0x75 ∷ 0x61 ∷ 0x54 ∷ 0 ∷ 0x19 ∷ 0x93 ∷ 13 ∷ 10 ∷ 0x1a ∷ 10 ∷ 4 ∷ 8 ∷ 8 ∷ 0x78
    ∷ 0x56 ∷ 0 ∷ 0 ∷ 0 ∷ 0 ∷ 0 ∷ 0 ∷ 0 ∷ 0 ∷ 0 ∷ 0 ∷ 0 ∷ 0x28 ∷ 0x77 ∷ 0x40 ∷ []

-- A chunk: the signature, the number of upvalues, and the main function.
unfoldable pub load_chunk : ℕ → Load ((Unit {0} × ℕ) × (Option (List ℕ) × FuncTree))
unfolding expect ◌&◌ load_byte load_function
load_chunk depth = expect signature & load_byte & load_function depth

Loads-header : (n : ℕ) → Loads (expect signature & load_byte) (header_bytes n) (tt, n)
unfolding expect ◌&◌ load_byte header_bytes word_bytes
Loads-header n = record { reads = λ rest. refl }

-- A dump to an empty file ends, where each write is complete and appends its bytes, in a file whose
-- bytes are read as the signature, the number of upvalues, and the function and the name of its
-- source, without what the format leaves out, with nothing behind them. The function's numbers fit
-- the format's fields, the buffer has less than 2 ^ 63 bytes, and the reader allows for as many
-- levels as the function has.
pub luac_tofile-load_chunk :
    {File : Type 0} (fwrite : File → List ℕ → ℕ × File) (contents : File → List ℕ)
    → Appends fwrite contents
    → ((file : File) (bytes : List ℕ) → (fwrite file bytes).0 ≡ length bytes)
    → (fn : LFunc) (protos : FuncTrees) (chunkname : List ℕ) (out : File) (scratchcap depth : ℕ)
    → scratchcap < 2 ^ 63
    → SmallTree (func fn protos)
    → length chunkname + 1 < 2 ^ 64
    → levels (func fn protos) ≤ depth
    → contents out ≡ []
    → (out' : File) × (luac_tofile fwrite fn protos chunkname out scratchcap ≡ some out')
      × (load_chunk depth (contents out')
          ≡ some (((tt, fn.num_upvals), (some chunkname, bare_tree (func fn protos))), []))
unfolding load_chunk file_bytes
luac_tofile-load_chunk fwrite contents law complete fn protos chunkname out scratchcap depth small
      smalls str deep empty =
    elim (luac_tofile-Writes fwrite contents law fn protos chunkname out scratchcap small) [
      | inl (failed, (file, bytes, short)) ↦ absurd (short (complete file bytes))
      | inr (out', run, behind) ↦
          let l =
            Loads-header fn.num_upvals
            and load_function-function_bytes depth (func fn protos) (some chunkname) smalls str
                deep in
          let image : contents out' ≡ file_bytes fn protos chunkname ++ [] =
            behind
            ∙ ap (λ written. written ++ file_bytes fn protos chunkname) empty
            ∙ sym (append-nil (file_bytes fn protos chunkname)) in
          (out', run, rw image (l.reads []))
    ]
