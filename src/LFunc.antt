-- ===== src/LFunc.antt =====
-- src/lib/mclfunc.c and src/lib/mclfunc.h: functions, with their code, constants, inner functions
-- and upvalues. Each array is an object of the arena: the function has the number of its header,
-- if it is there, and its items, whose number is the count that the source keeps. The index of the
-- constants is a table of hashes with linear probing; `none` stands for an entry of -1.
pub mod Arrays
pub mod Index
pub mod Rehash
pub mod Valid
pub mod Search
pub mod Adding
pub mod Contract
use Prim.Native.Nat.{bit_xor}
use mclua.Prelude.{
  ℕ, zero, suc, ◌+◌, ◌*◌, ◌/◌, ◌%◌, ◌^◌, List, [], ◌∷◌, ◌++◌, Option, none, some, Bool, true, false,
  ◌&&◌, ltb, leb, ◌==◌, if◌then◌else◌, length, get_elem?, set, replicate,
}
use mclua.Prelude.Int.{ℤ, pos, negsuc}
use mclua.Probing
use mclua.Probing.{Run, done, spins, probe, free_slot}
use mclua.StringTable
use mclua.LStr.{LStr, mclstr_cmp, objcap}
use mclua.Heap
use mclua.Heap.{McHeap}

-- The bits of an i64 or of an f64, or a string object.
pub data Constant : Type 0 where
  k_int k_flt : ℕ → Constant
  k_str : LStr → Constant

pub record ConstIndexEntry : Type 0 where
  pub hash : ℕ
  pub idx : ℕ

pub record UpvalDesc : Type 0 where
  pub name : ℕ
  pub instack : ℕ
  pub idx : ℕ

pub record LFunc : Type 0 where
  pub hdr : ℕ
  pub name : ℕ
  pub constants : Option ℕ
  pub consts : List Constant
  pub const_index : Option ℕ
  pub entries : List (Option ConstIndexEntry)
  pub protos : Option ℕ
  pub proto_items : List ℕ
  pub upvals : Option ℕ
  pub upval_items : List UpvalDesc
  pub num_upvals : ℕ
  pub num_params : ℕ
  pub is_vararg : ℕ
  pub max_stack : ℕ
  pub code : List ℕ

-- A function and the arena.
pub record FuncState : Type 0 where
  pub fn : LFunc
  pub heap : McHeap

-- sizeof(mclfunc), sizeof(Constant), sizeof(ConstIndexEntry), sizeof(UpvalDesc) and
-- sizeof(HeapHeader*).
abbrev pub mclfunc_size : ℕ
mclfunc_size = 64

abbrev pub constant_size : ℕ
constant_size = 16

abbrev pub index_entry_size : ℕ
index_entry_size = 8

abbrev pub upval_size : ℕ
upval_size = 16

abbrev pub pointer_size : ℕ
pointer_size = 8

-- `const_hash_int`
unfoldable pub const_hash_int : ℕ → ℕ
const_hash_int value =
    let h₁ = bit_xor value (value / 2 ^ 33) * 0xff51afd7ed558ccd % 2 ^ 64 in
    let h₂ = bit_xor h₁ (h₁ / 2 ^ 33) * 0xc4ceb9fe1a85ec53 % 2 ^ 64 in
    bit_xor h₂ (h₂ / 2 ^ 33) % 2 ^ 32

-- `const_hash_int`, `const_hash_flt` and `const_hash_str`; the last is the hash of the names.
unfoldable pub const_hash : Constant → ℕ
const_hash (k_int value) = const_hash_int value
const_hash (k_flt bits) = const_hash_int bits
const_hash (k_str str) = StringTable.hash str.chars

-- `const_index_insert_raw`
unfoldable pub const_index_insert_raw :
    List (Option ConstIndexEntry) → ℕ → ℕ → ℕ → Run (List (Option ConstIndexEntry))
const_index_insert_raw entries cap hash idx =
    Probing.bind (free_slot cap entries (hash % cap))
      λ slot. done (set entries slot (some (record { hash = hash; idx = idx })))

-- The loop of `const_index_grow` over the old entries.
unfoldable pub reinsert :
    List (Option ConstIndexEntry)
    → ℕ
    → List (Option ConstIndexEntry)
    → Run (List (Option ConstIndexEntry))
unfolding const_index_insert_raw
reinsert newentries newcap [] = done newentries
reinsert newentries newcap (none ∷ old) = reinsert newentries newcap old
reinsert newentries newcap (some e ∷ old) =
    Probing.bind (const_index_insert_raw newentries newcap e.hash e.idx)
      λ newentries'. reinsert newentries' newcap old

-- `const_index_grow` from its new capacity on; `none` is -1.
unfoldable pub grow_to : FuncState → ℕ → Run (Option FuncState)
unfolding reinsert
grow_to s newcap = elim (Heap.managed_reserve s.heap (newcap * index_entry_size % Heap.u32_mod)) [
  | none ↦ done none
  | some (newhdr, heap') ↦
      Probing.bind (reinsert (replicate newcap none) newcap s.fn.entries) λ newentries. done (
        some (record {
          fn = record s.fn { const_index = some newhdr; entries = newentries };
          heap = Heap.set_type heap' newhdr Heap.ObjectType.usr;
        }))
]

-- `const_index_grow`
unfoldable pub const_index_grow : FuncState → Run (Option FuncState)
unfolding grow_to
const_index_grow s = grow_to s (length s.fn.entries * 2 % Heap.u32_mod)

abbrev pub const_index_init_cap : ℕ
const_index_init_cap = 16

-- The part of `const_index_ensure` that makes the index.
unfoldable pub const_index_make : FuncState → Run (Option FuncState)
const_index_make s = elim (Heap.managed_reserve s.heap (const_index_init_cap * index_entry_size)) [
  | none ↦ done none
  | some (newhdr, heap') ↦ done (
      some (record {
        fn = record s.fn {
          const_index = some newhdr;
          entries = replicate const_index_init_cap none;
        };
        heap = Heap.set_type heap' newhdr Heap.ObjectType.usr;
      }))
]

-- The part of `const_index_ensure` where the index is there.
unfoldable pub const_index_check : FuncState → Run (Option FuncState)
const_index_check s =
    if leb (length s.fn.entries * 7 % Heap.u32_mod) ((length s.fn.consts + 1) * 10 % Heap.u32_mod)
    then const_index_grow s
    else done (some s)

-- `const_index_ensure`
unfoldable pub const_index_ensure : FuncState → Run (Option FuncState)
unfolding const_index_make const_index_check
const_index_ensure s = elim s.fn.const_index [
  | none ↦ const_index_make s
  | some hdr ↦ const_index_check s
]

-- The fields of a new function, which are set to zero.
abbrev pub empty_function : ℕ → LFunc
empty_function hdr = record {
  hdr = hdr;
  name = 0;
  constants = none;
  consts = [];
  const_index = none;
  entries = [];
  protos = none;
  proto_items = [];
  upvals = none;
  upval_items = [];
  num_upvals = 0;
  num_params = 0;
  is_vararg = 0;
  max_stack = 0;
  code = [];
}

-- `mclfunc_alloc`
unfoldable pub mclfunc_alloc : ℕ → McHeap → Option (LFunc × McHeap)
mclfunc_alloc bodycap heap =
    elim (Heap.managed_reserve heap ((mclfunc_size + bodycap * 4) % Heap.u32_mod)) [
      | none ↦ none
      | some (hdr, heap') ↦ some (empty_function hdr, Heap.set_type heap' hdr Heap.ObjectType.func)
    ]

-- `mclfunc_append_instr`
unfoldable pub mclfunc_append_instr : FuncState → ℕ → Option FuncState
mclfunc_append_instr s instr =
    let reqsize = (mclfunc_size + (length s.fn.code + 1) * 4) % Heap.u32_mod in
    let resized = Heap.managed_resize s.heap s.fn.hdr reqsize in
    let fn' = record s.fn { code = s.fn.code ++ instr ∷ [] } in
    if ltb (objcap s.heap s.fn.hdr) reqsize
    then elim resized [ none ↦ none | some heap' ↦ some (record { fn = fn'; heap = heap' }) ]
    else some (record { fn = fn'; heap = s.heap })

-- The size that `array_ensure` asks for.
unfoldable pub array_cap : ℕ → ℕ → ℕ
array_cap cap reqsize =
    let newcap = cap * 2 % Heap.u32_mod in if ltb newcap reqsize then reqsize else newcap

-- `array_ensure`, with the slot that it leaves.
unfoldable pub array_ensure : Option ℕ → ℕ → ℕ → ℕ → McHeap → Option (ℕ × McHeap)
unfolding array_cap
array_ensure none count elemsize initcap heap =
    elim (Heap.managed_reserve heap (initcap * elemsize % Heap.u32_mod)) [
      | none ↦ none
      | some (hdr, heap') ↦ some (hdr, Heap.set_type heap' hdr Heap.ObjectType.usr)
    ]
array_ensure (some hdr) count elemsize initcap heap =
    let reqsize = (count + 1) * elemsize % Heap.u32_mod in
    let resized = Heap.managed_resize heap hdr (array_cap (objcap heap hdr) reqsize) in
    if ltb (objcap heap hdr) reqsize
    then elim resized [ none ↦ none | some heap' ↦ some (hdr, heap') ]
    else some (hdr, heap)

-- `mclfunc_push_const`
unfoldable pub mclfunc_push_const : FuncState → Constant → Option (ℕ × FuncState)
mclfunc_push_const s value =
    elim (array_ensure s.fn.constants (length s.fn.consts) constant_size 4 s.heap) [
      | none ↦ none
      | some (hdr, heap') ↦ some (
        length s.fn.consts,
        record {
          fn = record s.fn { constants = some hdr; consts = s.fn.consts ++ value ∷ [] };
          heap = heap';
        },
      )
    ]

-- `mclfunc_clear`
unfoldable pub mclfunc_clear : LFunc → LFunc
mclfunc_clear fn = record fn { code = [] }

-- `mclfunc_add_proto`
unfoldable pub mclfunc_add_proto : FuncState → ℕ → Option (ℕ × FuncState)
mclfunc_add_proto s proto =
    elim (array_ensure s.fn.protos (length s.fn.proto_items) pointer_size 2 s.heap) [
      | none ↦ none
      | some (hdr, heap') ↦ some (
        length s.fn.proto_items,
        record {
          fn = record s.fn { protos = some hdr; proto_items = s.fn.proto_items ++ proto ∷ [] };
          heap = heap';
        },
      )
    ]

-- `arr[n] = x` in an array whose memory goes on past the items that were written.
unfoldable pub put_item : {A : Type 0} → List A → ℕ → A → List A
put_item items n x = if ltb n (length items) then set items n x else items ++ x ∷ []

-- `mclfunc_add_upval`; `num_upvals` is a u8.
unfoldable pub mclfunc_add_upval : FuncState → ℕ → ℕ → ℕ → Option (ℕ × FuncState)
unfolding put_item
mclfunc_add_upval s name instack idx =
    elim (array_ensure s.fn.upvals s.fn.num_upvals upval_size 2 s.heap) [
      | none ↦ none
      | some (hdr, heap') ↦ some (
        s.fn.num_upvals,
        record {
          fn = record s.fn {
            upvals = some hdr;
            upval_items =
                put_item s.fn.upval_items s.fn.num_upvals
                  (record { name = name; instack = instack; idx = idx });
            num_upvals = (s.fn.num_upvals + 1) % 2 ^ 8;
          };
          heap = heap';
        },
      )
    ]

-- The equality of two floating-point numbers, given by their bits, is the processor's.
module _ (float_eq : ℕ → ℕ → Bool) where
  -- `K_INT == arr[found].type && value == arr[found].val.integer`, and the like.
  unfoldable pub same_constant : Constant → Constant → Bool
  same_constant (k_int v) (k_int w) = v == w
  same_constant (k_flt v) (k_flt w) = float_eq v w
  same_constant (k_str v) (k_str w) = elim (mclstr_cmp v.chars w.chars) [
    | pos n ↦ n == 0
    | negsuc n ↦ false
  ]
  same_constant a b = false

  -- The test of the loop.
  unfoldable pub is_entry_of : List Constant → Constant → ConstIndexEntry → Bool
  unfolding same_constant
  is_entry_of consts c e = elim (get_elem? consts e.idx) [
    | none ↦ false
    | some d ↦ e.hash == const_hash c && same_constant c d
  ]

  -- What follows the loop where the constant was not found. The hash and the capacity were read
  -- before.
  unfoldable pub add_const : FuncState → Constant → Run (Option ℕ × FuncState)
  add_const s c = elim (mclfunc_push_const s c) [
    | none ↦ done (none, s)
    | some (newidx, s') ↦
        Probing.bind
          (const_index_insert_raw s.fn.entries (length s.fn.entries) (const_hash c) newidx)
          λ entries'. done (some newidx, record s' { fn = record s'.fn { entries = entries' } })
  ]

  -- The loop and what follows it.
  unfoldable pub find_const : FuncState → Constant → Run (Option ℕ × FuncState)
  unfolding is_entry_of add_const
  find_const s c =
      Probing.bind
        (probe (length s.fn.entries) s.fn.entries (is_entry_of s.fn.consts c)
          (const_hash c % length s.fn.entries))
        λ found. elim found [ none ↦ add_const s c | some e ↦ done (some e.idx, s) ]

  -- `mclfunc_const_int`, `mclfunc_const_flt` and `mclfunc_const_str`, which have one body.
  unfoldable pub mclfunc_const : FuncState → Constant → Run (Option ℕ × FuncState)
  unfolding find_const
  mclfunc_const s c =
      Probing.bind (const_index_ensure s)
        λ ensured. elim ensured [ none ↦ done (none, s) | some s' ↦ find_const s' c ]

  unfoldable pub mclfunc_const_int : FuncState → ℕ → Run (Option ℕ × FuncState)
  mclfunc_const_int s value = mclfunc_const s (k_int value)

  unfoldable pub mclfunc_const_flt : FuncState → ℕ → Run (Option ℕ × FuncState)
  mclfunc_const_flt s bits = mclfunc_const s (k_flt bits)

  unfoldable pub mclfunc_const_str : FuncState → LStr → Run (Option ℕ × FuncState)
  mclfunc_const_str s str = mclfunc_const s (k_str str)
