-- ===== src/Dump.antt =====
-- The dump of a function to a file of Lua 5.4 bytecode (src/compile/mcluac.c, from `luac_flush` to
-- `luac_tofile`, and `mcfs_writebytes` of src/mcf/mcfs.c). A step is a function from the buffer to
-- the buffer after it, with `none` for -1: what is left then is not looked at again. Words are
-- copied out as a little-endian processor holds them.
pub mod Sizes
pub mod Image
pub mod Writes
pub mod Written
pub mod Loader
pub mod RoundTrip
pub mod Contract
use Prim.Native.Nat.{bit_or}
use mclua.Prelude.{
  ℕ, zero, suc, ◌+◌, ◌*◌, ◌/◌, ◌%◌, ◌^◌, List, [], ◌∷◌, ◌++◌, Option, none, some, Bool, true, false,
  ltb, leb, ◌==◌, if◌then◌else◌, length, take,
}
use mclua.Heap.{u64_mod, add_u64}
use mclua.LFunc.{Constant, k_int, k_flt, k_str, UpvalDesc, LFunc}

-- A function with its inner functions.
mutual
  pub data FuncTree : Type 0 where
    func : LFunc → FuncTrees → FuncTree

  pub data FuncTrees : Type 0 where
    no_protos : FuncTrees
    proto : FuncTree → FuncTrees → FuncTrees

unfoldable pub num_protos : FuncTrees → ℕ
num_protos no_protos = 0
num_protos (proto p ps) = suc (num_protos ps)

-- The bytes of a word of `n` bytes.
unfoldable pub word_bytes : ℕ → ℕ → List ℕ
word_bytes zero value = []
word_bytes (suc n) value = value % 256 ∷ word_bytes n (value / 256)

-- The loop of `luac_dump_size`, which fills the 16 bytes of its buffer from the end.
unfoldable pub size_groups : ℕ → ℕ → List ℕ → List ℕ
size_groups zero x buf = buf
size_groups (suc n) x buf =
    let buf' = x % 128 ∷ buf in
    let rest = size_groups n (x / 128) buf' in if x / 128 == 0 then buf' else rest

-- `buf[sizeof(buf) - 1] |= 0x80`
unfoldable pub mark_last : List ℕ → List ℕ
mark_last [] = []
mark_last (b ∷ []) = bit_or b 0x80 ∷ []
mark_last (b ∷ c ∷ buf) = b ∷ mark_last (c ∷ buf)

-- The bytes that `luac_dump_size` puts.
unfoldable pub size_bytes : ℕ → List ℕ
unfolding size_groups mark_last
size_bytes x = mark_last (size_groups 16 x [])

-- The bytes of `luac_dump_header`: "\x1bLua", the version, the format, "\x19\x93\r\n\x1a\n", the
-- sizes of an instruction, an integer and a number, 0x5678, 370.5 and the upvalues.
unfoldable pub header_bytes : ℕ → List ℕ
unfolding word_bytes
header_bytes main_upvals =
    0x1b ∷ b'L' ∷ b'u' ∷ b'a' ∷ 0x54 ∷ 0 ∷ 0x19 ∷ 0x93 ∷ 13 ∷ 10 ∷ 0x1a ∷ 10 ∷ 4 ∷ 8 ∷ 8 ∷ []
    ++ word_bytes 8 0x5678
    ++ word_bytes 8 0x4077280000000000
    ++ main_upvals ∷ []

unfoldable pub code_bytes : List ℕ → List ℕ
unfolding word_bytes
code_bytes [] = []
code_bytes (instr ∷ code) = word_bytes 4 instr ++ code_bytes code

abbrev pub lua_vnumint : ℕ
lua_vnumint = 0x03

abbrev pub lua_vnumflt : ℕ
lua_vnumflt = 0x13

abbrev pub lua_vshrstr : ℕ
lua_vshrstr = 0x04

abbrev pub lua_vlngstr : ℕ
lua_vlngstr = 0x14

abbrev pub maxshortlen : ℕ
maxshortlen = 40

unfoldable pub string_tag : List ℕ → ℕ
string_tag chars = if leb (length chars) maxshortlen then lua_vshrstr else lua_vlngstr

-- The file and the C library's fwrite, with the number of bytes that it wrote.
module _ {File : Type 0} (fwrite : File → List ℕ → ℕ × File) where
  -- `mcfs_writebytes`, of an open file and data that are there.
  unfoldable pub mcfs_writebytes : File → List ℕ → Option File
  mcfs_writebytes file bytes =
      if length bytes == (fwrite file bytes).0 then some (fwrite file bytes).1 else none

-- `bfr` has the bytes that wait to be written, `len` of the source being their number.
pub record LuacBfr (File : Type 0) : Type 0 where
  pub out : File
  pub bfr : List ℕ
  pub cap : ℕ

abbrev pub Step : Type 0 → Type 0
Step File = LuacBfr File → Option (LuacBfr File)

infixl 5 ◌>>◌
abbrev pub ◌>>◌ : {File : Type 0} → Step File → Step File → Step File
first >> second = λ b. elim (first b) [ none ↦ none | some b' ↦ second b' ]

module _ {File : Type 0} (fwrite : File → List ℕ → ℕ × File) where
  unfoldable pub luac_flush : Step File
  unfolding mcfs_writebytes
  luac_flush b =
      if ltb 0 (length b.bfr)
      then elim (mcfs_writebytes fwrite b.out b.bfr) [
        | none ↦ none
        | some out' ↦ some (record b { out = out'; bfr = [] })
      ]
      else some b

  -- The bytes go past the buffer.
  unfoldable pub put_direct : List ℕ → Step File
  unfolding mcfs_writebytes
  put_direct bytes b = elim (mcfs_writebytes fwrite b.out bytes) [
    | none ↦ none
    | some out' ↦ some (record b { out = out' })
  ]

  -- The copy to the end of the buffer.
  unfoldable pub put_buffered : List ℕ → Step File
  put_buffered bytes b = some (record b { bfr = b.bfr ++ bytes })

  unfoldable pub luac_put : List ℕ → Step File
  unfolding luac_flush put_direct put_buffered
  luac_put bytes b =
      if ltb b.cap (length bytes)
      then (luac_flush >> put_direct bytes) b
      else if ltb b.cap (add_u64 (length b.bfr) (length bytes))
      then (luac_flush >> put_buffered bytes) b
      else put_buffered bytes b

  unfoldable pub luac_dump_size : ℕ → Step File
  unfolding luac_put size_bytes
  luac_dump_size x = luac_put (size_bytes x)

  -- `luac_dump_string`; `none` is NULL.
  unfoldable pub luac_dump_string : Option (List ℕ) → Step File
  unfolding luac_dump_size
  luac_dump_string none = luac_dump_size 0
  luac_dump_string (some str) = luac_dump_size ((length str + 1) % u64_mod) >> luac_put str

  unfoldable pub luac_dump_header : ℕ → Step File
  unfolding luac_put header_bytes
  luac_dump_header main_upvals = luac_put (header_bytes main_upvals)

  -- One round of the loop of `luac_dump_constants`.
  unfoldable pub dump_constant : Constant → Step File
  unfolding luac_dump_string string_tag
  dump_constant (k_int value) = luac_put (lua_vnumint ∷ []) >> luac_put (word_bytes 8 value)
  dump_constant (k_flt bits) = luac_put (lua_vnumflt ∷ []) >> luac_put (word_bytes 8 bits)
  dump_constant (k_str str) =
      luac_put (string_tag str.chars ∷ []) >> luac_dump_string (some str.chars)

  unfoldable pub constants_loop : List Constant → Step File
  unfolding dump_constant
  constants_loop [] = some
  constants_loop (c ∷ consts) = dump_constant c >> constants_loop consts

  unfoldable pub luac_dump_constants : LFunc → Step File
  unfolding constants_loop
  luac_dump_constants fn = luac_dump_size (length fn.consts) >> constants_loop fn.consts

  unfoldable pub upvalues_loop : List UpvalDesc → Step File
  unfolding luac_put
  upvalues_loop [] = some
  upvalues_loop (up ∷ ups) =
      luac_put (up.instack ∷ []) >> luac_put (up.idx ∷ []) >> luac_put (0 ∷ []) >> upvalues_loop ups

  unfoldable pub luac_dump_upvalues : LFunc → Step File
  unfolding upvalues_loop
  luac_dump_upvalues fn =
      luac_dump_size fn.num_upvals >> upvalues_loop (take fn.num_upvals fn.upval_items)

  unfoldable pub luac_dump_debug : Step File
  unfolding luac_dump_size
  luac_dump_debug = luac_dump_size 0 >> luac_dump_size 0 >> luac_dump_size 0 >> luac_dump_size 0

  -- `luac_dump_function` up to the upvalues.
  unfoldable pub dump_body : LFunc → Option (List ℕ) → Step File
  unfolding luac_dump_constants luac_dump_upvalues code_bytes
  dump_body fn source =
      luac_dump_string source
      >> luac_dump_size 0
      >> luac_dump_size 0
      >> luac_put (fn.num_params ∷ [])
      >> luac_put (fn.is_vararg ∷ [])
      >> luac_put (fn.max_stack ∷ [])
      >> (luac_dump_size (length fn.code) >> luac_put (code_bytes fn.code))
      >> luac_dump_constants fn
      >> luac_dump_upvalues fn

  unfoldable mutual
    unfolding dump_body luac_dump_debug num_protos

    -- `luac_dump_function`, given the name of the source if it is the main function.
    pub luac_dump_function : FuncTree → Option (List ℕ) → Step File
    luac_dump_function (func fn protos) source =
        dump_body fn source
        >> (luac_dump_size (num_protos protos) >> protos_loop protos)
        >> luac_dump_debug

    pub protos_loop : FuncTrees → Step File
    protos_loop no_protos = some
    protos_loop (proto p ps) = luac_dump_function p none >> protos_loop ps

  -- `luac_tofile`, with the file as it was opened, of a function. It gives the file that is closed.
  unfoldable pub luac_tofile : LFunc → FuncTrees → List ℕ → File → ℕ → Option File
  unfolding luac_dump_header luac_dump_function
  luac_tofile fn protos chunkname out scratchcap =
      let b : LuacBfr File = record { out = out; bfr = []; cap = scratchcap } in
      elim ((luac_dump_header fn.num_upvals
          >> luac_dump_function (func fn protos) (some chunkname)
          >> luac_flush)
        b) [ none ↦ none | some b' ↦ some b'.out ]
