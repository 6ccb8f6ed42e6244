-- ===== src/Dump/Loader.antt =====
-- A reader of the bytecode of Lua 5.4, written after the format: what a dump is meant for. It gives
-- a function without what the format leaves out: names of upvalues, numbers of objects, the index of
-- the constants.
use mclua.Prelude.{
  ℕ, zero, suc, ◌+◌, ◌*◌, List, [], ◌∷◌, Option, none, some, length, ◌==◌, if◌then◌else◌,
}
use mclua.LFunc.{Constant, k_int, k_flt, k_str, UpvalDesc, empty_function}
use mclua.Dump.{
  FuncTree, func, FuncTrees, no_protos, proto, lua_vnumint, lua_vnumflt, lua_vshrstr, lua_vlngstr,
}
use mclua.Dump.Sizes.{load_size}

-- A reader gives a value and the bytes that follow, or `none` where the bytes are no such value.
abbrev pub Load {ℓ} : Type ℓ → Type ℓ
Load A = List ℕ → Option (A × List ℕ)

infixl 5 ◌&◌
unfoldable pub ◌&◌ {ℓ κ} : {A : Type ℓ} {B : Type κ} → Load A → Load B → Load (A × B)
(first & second) bytes = elim (first bytes) [
  | none ↦ none
  | some (a, rest) ↦ elim (second rest) [ none ↦ none | some (b, rest') ↦ some ((a, b), rest') ]
]

unfoldable pub mapped {ℓ κ} : {A : Type ℓ} {B : Type κ} → (A → Option B) → Load A → Load B
mapped f load bytes = elim (load bytes) [
  | none ↦ none
  | some (a, rest) ↦ elim (f a) [ none ↦ none | some b ↦ some (b, rest) ]
]

unfoldable pub times {ℓ} : {A : Type ℓ} → Load A → ℕ → Load (List A)
times load zero bytes = some ([], bytes)
times load (suc n) bytes = elim (load bytes) [
  | none ↦ none
  | some (a, rest) ↦ elim (times load n rest) [
    | none ↦ none
    | some (as_, rest') ↦ some (a ∷ as_, rest')
  ]
]

-- A size, and as many items.
unfoldable pub counted {ℓ} : {A : Type ℓ} → Load A → Load (List A)
unfolding times
counted load bytes = elim (load_size 0 bytes) [ none ↦ none | some (n, rest) ↦ times load n rest ]

unfoldable pub load_byte : Load ℕ
load_byte [] = none
load_byte (b ∷ bytes) = some (b, bytes)

unfoldable pub load_word : ℕ → Load ℕ
load_word zero bytes = some (0, bytes)
load_word (suc n) [] = none
load_word (suc n) (b ∷ bytes) = elim (load_word n bytes) [
  | none ↦ none
  | some (w, rest) ↦ some (b + w * 256, rest)
]

unfoldable pub load_string : Load (Option (List ℕ))
unfolding times load_byte
load_string bytes = elim (load_size 0 bytes) [
  | none ↦ none
  | some (zero, rest) ↦ some (none, rest)
  | some (suc n, rest) ↦ elim (times load_byte n rest) [
    | none ↦ none
    | some (str, rest') ↦ some (some str, rest')
  ]
]

-- A string that is read has no object yet.
abbrev pub a_string : Option (List ℕ) → Option Constant
a_string none = none
a_string (some chars) = some (k_str (record { hdr = 0; chars = chars }))

unfoldable pub load_tagged : ℕ → Load Constant
unfolding mapped load_word load_string
load_tagged tag =
    if tag == lua_vnumint
    then mapped (λ value. some (k_int value)) (load_word 8)
    else if tag == lua_vnumflt
    then mapped (λ bits. some (k_flt bits)) (load_word 8)
    else if tag == lua_vshrstr
    then mapped a_string load_string
    else if tag == lua_vlngstr
    then mapped a_string load_string
    else λ bytes. none

unfoldable pub load_constant : Load Constant
unfolding load_tagged
load_constant [] = none
load_constant (tag ∷ bytes) = load_tagged tag bytes

abbrev pub an_upvalue : (ℕ × ℕ) × ℕ → Option UpvalDesc
an_upvalue ((instack, idx), kind) = some (record { name = 0; instack = instack; idx = idx })

unfoldable pub load_upvalue : Load UpvalDesc
unfolding ◌&◌ mapped load_byte
load_upvalue = mapped an_upvalue (load_byte & load_byte & load_byte)

-- The parts of a function in front of its inner functions.
abbrev pub Body : Type 0
Body = (((((((Option (List ℕ) × ℕ) × ℕ) × ℕ) × ℕ) × ℕ) × List ℕ) × List Constant) × List UpvalDesc

unfoldable pub load_body : Load Body
unfolding ◌&◌ load_string load_byte load_word counted load_constant load_upvalue
load_body =
    load_string
    & load_size 0
    & load_size 0
    & load_byte
    & load_byte
    & load_byte
    & counted (load_word 4)
    & counted load_constant
    & counted load_upvalue

-- The four parts of the debug information.
unfoldable pub load_debug : Load (((ℕ × ℕ) × ℕ) × ℕ)
unfolding ◌&◌
load_debug = load_size 0 & load_size 0 & load_size 0 & load_size 0

abbrev pub trees : List (Option (List ℕ) × FuncTree) → FuncTrees
trees [] = no_protos
trees (p ∷ ps) = proto p.1 (trees ps)

abbrev pub a_function :
    (Body × List (Option (List ℕ) × FuncTree)) × (((ℕ × ℕ) × ℕ) × ℕ)
    → Option (Option (List ℕ) × FuncTree)
a_function
      (
        (((((((((source, first), last), params), vararg), stack), code), consts), ups), protos),
        debug,
      ) =
    some (
      source,
      func
          (record (empty_function 0) {
            num_params = params;
            is_vararg = vararg;
            max_stack = stack;
            code = code;
            consts = consts;
            upval_items = ups;
            num_upvals = length ups;
          })
          (trees protos),
    )

-- A function, with the name of its source, of at most `depth` levels.
unfoldable pub load_function : ℕ → Load (Option (List ℕ) × FuncTree)
unfolding ◌&◌ mapped load_body counted load_debug
load_function zero bytes = none
load_function (suc depth) bytes =
    mapped a_function (load_body & counted (load_function depth) & load_debug) bytes
