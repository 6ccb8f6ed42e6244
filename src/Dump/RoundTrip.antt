-- ===== src/Dump/RoundTrip.antt =====
-- A dumped function is read back.
use mclua.Prelude.{
  ℕ, zero, suc, ◌+◌, ◌*◌, ◌/◌, ◌%◌, ◌^◌, ◌<◌, ◌≤◌, ◌≡◌, refl, ap, ◌∙◌, ◌⊎◌, inl, inr, List, [], ◌∷◌,
  ◌++◌, append_assoc, Option, none, some, arith, map, length, take, All, Bool-cases, leb,
}
use native.Mathlib.Nat.{mod-eq_of_lt, pow-suc}
use mclua.Heap.{u64_mod}
use mclua.LFunc.{Constant, k_int, k_flt, k_str, UpvalDesc, LFunc, empty_function}
use mclua.Dump.{
  FuncTree, func, FuncTrees, no_protos, proto, num_protos, word_bytes, size_bytes, code_bytes,
  string_tag, lua_vshrstr, lua_vlngstr, maxshortlen,
}
use mclua.Dump.Image.{
  string_bytes, constant_bytes, constants_bytes, upvalues_bytes, debug_bytes, body_bytes,
  function_bytes, protos_bytes,
}
use mclua.Dump.Sizes.{load_size, load_size-size_bytes}
use mclua.Dump.Loader.{
  Load, ◌&◌, mapped, times, counted, load_byte, load_word, load_string, a_string, load_tagged,
  load_constant, an_upvalue, load_upvalue, load_body, load_debug, trees, a_function, load_function,
}

-- The bytes are read as the value, whatever follows them.
pub record Loads {ℓ} {A : Type ℓ} (load : Load A) (bytes : List ℕ) (a : A) : Type ℓ where
  pub reads : (rest : List ℕ) → load (bytes ++ rest) ≡ some (a, rest)

infixl 5 ◌and◌
pub ◌and◌ {ℓ κ} :
    {A : Type ℓ} {B : Type κ} {first : Load A} {second : Load B} {bytes bytes' : List ℕ} {a : A}
    {b : B}
    → Loads first bytes a
    → Loads second bytes' b
    → Loads (first & second) (bytes ++ bytes') (a, b)
unfolding ◌&◌
◌and◌ {bytes = bytes} {bytes' = bytes'} l m = record {
  reads =
      λ rest. rw (append_assoc bytes bytes' rest, l.reads (bytes' ++ rest), m.reads rest, ◌&◌) refl;
}

Loads-mapped {ℓ κ} :
    {A : Type ℓ} {B : Type κ} {load : Load A} {bytes : List ℕ} {a : A} (f : A → Option B) {b : B}
    → f a ≡ some b
    → Loads load bytes a
    → Loads (mapped f load) bytes b
unfolding mapped
Loads-mapped f made l = record { reads = λ rest. rw (l.reads rest, made, mapped) refl }

Loads-nil {ℓ} : {A : Type ℓ} (load : Load A) → Loads (times load 0) [] []
unfolding times
Loads-nil load = record { reads = λ rest. refl }

Loads-cons {ℓ} :
    {A : Type ℓ} (load : Load A) (n : ℕ) {bytes bytes' : List ℕ} {a : A} {as_ : List A}
    → Loads load bytes a
    → Loads (times load n) bytes' as_
    → Loads (times load (suc n)) (bytes ++ bytes') (a ∷ as_)
unfolding times
Loads-cons load n {bytes = bytes} {bytes' = bytes'} l ls = record {
  reads = λ rest.
      rw (append_assoc bytes bytes' rest, times, l.reads (bytes' ++ rest), ls.reads rest) refl;
}

Loads-size : (x : ℕ) → x < 2 ^ 64 → Loads (load_size 0) (size_bytes x) x
Loads-size x small = record { reads = λ rest. load_size-size_bytes x rest small }

Loads-counted {ℓ} :
    {A : Type ℓ} (load : Load A) (n : ℕ) {bytes : List ℕ} {as_ : List A}
    → n < 2 ^ 64
    → Loads (times load n) bytes as_
    → Loads (counted load) (size_bytes n ++ bytes) as_
unfolding counted
Loads-counted load n {bytes = bytes} small ls = record {
  reads = λ rest.
      rw
        (
          append_assoc (size_bytes n) bytes rest,
          load_size-size_bytes n (bytes ++ rest) small,
          ls.reads rest,
          counted,
        )
        refl;
}

pub Loads-byte : (b : ℕ) → Loads load_byte (b ∷ []) b
unfolding load_byte
Loads-byte b = record { reads = λ rest. refl }

Loads-word : (n w : ℕ) → w < 256 ^ n → Loads (load_word n) (word_bytes n w) w
unfolding load_word word_bytes
Loads-word zero w small =
    let is_zero : 0 ≡ w = omega arith in record { reads = λ rest. ap (λ v. some (v, rest)) is_zero }
Loads-word (suc n) w small =
    let l = Loads-word n (w / 256) (omega (arith, pow-suc 256 n)) in
    let whole : w % 256 + w / 256 * 256 ≡ w = omega arith in
    record { reads = λ rest. rw (l.reads rest, whole, load_word) refl }

Loads-chars : (chars : List ℕ) → Loads (times load_byte (length chars)) chars chars
unfolding times load_byte
Loads-chars [] = record { reads = λ rest. refl }
Loads-chars (c ∷ chars) =
    let l = Loads-chars chars in record { reads = λ rest. rw (l.reads rest, times) refl }

abbrev pub SmallString : Option (List ℕ) → Type 0
SmallString none = Unit
SmallString (some str) = length str + 1 < 2 ^ 64

Loads-string :
    (source : Option (List ℕ)) → SmallString source → Loads load_string (string_bytes source) source
unfolding load_string string_bytes
Loads-string none small = record {
  reads = λ rest. rw (load_size-size_bytes 0 rest (omega arith), load_string) refl;
}
Loads-string (some str) small =
    let len : (length str + 1) % u64_mod ≡ suc (length str) = mod-eq_of_lt small ∙ omega arith in
    let l = Loads-chars str in
    record {
      reads = λ rest.
          rw
            (
              len,
              append_assoc (size_bytes (suc (length str))) str rest,
              load_size-size_bytes (suc (length str)) (str ++ rest) (omega (arith, small)),
              l.reads rest,
              load_string,
            )
            refl;
    }

-- What the format keeps of a constant.
abbrev pub bare : Constant → Constant
bare (k_int value) = k_int value
bare (k_flt bits) = k_flt bits
bare (k_str str) = k_str (record str { hdr = 0 })

-- A word is below 2 ^ 64, and a string is shorter than that.
abbrev pub SmallConstant : Constant → Type 0
SmallConstant (k_int value) = value < 2 ^ 64
SmallConstant (k_flt bits) = bits < 2 ^ 64
SmallConstant (k_str str) = length str.chars + 1 < 2 ^ 64

string_tag-cases :
    (chars : List ℕ) → (string_tag chars ≡ lua_vshrstr) ⊎ (string_tag chars ≡ lua_vlngstr)
unfolding string_tag
string_tag-cases chars = elim (Bool-cases (leb (length chars) maxshortlen)) [
  | inl short ↦ inl (rw (short, string_tag) refl)
  | inr long ↦ inr (rw (long, string_tag) refl)
]

Loads-constant : (c : Constant) → SmallConstant c → Loads load_constant (constant_bytes c) (bare c)
unfolding load_constant load_tagged constant_bytes
Loads-constant (k_int value) small =
    let l = Loads-mapped (λ value. some (k_int value)) refl (Loads-word 8 value (omega arith)) in
    record { reads = l.reads }
Loads-constant (k_flt bits) small =
    let l = Loads-mapped (λ bits. some (k_flt bits)) refl (Loads-word 8 bits (omega arith)) in
    record { reads = l.reads }
Loads-constant (k_str str) small =
    let l = Loads-mapped a_string refl (Loads-string (some str.chars) small) in
    record {
      reads = λ rest. elim (string_tag-cases str.chars) [
        | inl short ↦ rw short (l.reads rest)
        | inr long ↦ rw long (l.reads rest)
      ];
    }

Loads-constants :
    (consts : List Constant)
    → All SmallConstant consts
    → Loads (times load_constant (length consts)) (constants_bytes consts) (map bare consts)
unfolding constants_bytes
Loads-constants [] small = Loads-nil load_constant
Loads-constants (c ∷ consts) small =
    Loads-cons load_constant (length consts) (Loads-constant c small.0)
      (Loads-constants consts small.1)

Loads-code :
    (code : List ℕ)
    → All (λ instr. instr < 2 ^ 32) code
    → Loads (times (load_word 4) (length code)) (code_bytes code) code
unfolding code_bytes
Loads-code [] small = Loads-nil (load_word 4)
Loads-code (instr ∷ code) small =
    Loads-cons (load_word 4) (length code) (Loads-word 4 instr (omega (arith, small.0)))
      (Loads-code code small.1)

-- What the format keeps of an upvalue.
abbrev pub bare_upvalue : UpvalDesc → UpvalDesc
bare_upvalue up = record up { name = 0 }

Loads-upvalues :
    (ups : List UpvalDesc)
    → Loads (times load_upvalue (length ups)) (upvalues_bytes ups) (map bare_upvalue ups)
unfolding upvalues_bytes load_upvalue
Loads-upvalues [] = Loads-nil load_upvalue
Loads-upvalues (up ∷ ups) =
    Loads-cons load_upvalue (length ups)
      (Loads-mapped an_upvalue refl (Loads-byte up.instack and Loads-byte up.idx and Loads-byte 0))
      (Loads-upvalues ups)

Loads-debug : Loads load_debug debug_bytes (((0, 0), 0), 0)
unfolding load_debug debug_bytes
Loads-debug = zero_size and zero_size and zero_size and zero_size
  where
    zero_size : Loads (load_size 0) (size_bytes 0) 0
    zero_size = Loads-size 0 (omega arith)

-- The numbers of a function are small enough for the format's fields.
pub record Small (fn : LFunc) : Type 0 where
  pub code : All (λ instr. instr < 2 ^ 32) fn.code
  pub code_len : length fn.code < 2 ^ 64
  pub consts : All SmallConstant fn.consts
  pub num_consts : length fn.consts < 2 ^ 64
  pub num_upvals : fn.num_upvals ≡ length fn.upval_items
  pub few_upvals : length fn.upval_items < 2 ^ 8

-- What the format keeps of a function.
abbrev pub bare_function : LFunc → LFunc
bare_function fn = record (empty_function 0) {
  num_params = fn.num_params;
  is_vararg = fn.is_vararg;
  max_stack = fn.max_stack;
  code = fn.code;
  consts = map bare fn.consts;
  upval_items = map bare_upvalue fn.upval_items;
  num_upvals = length (map bare_upvalue fn.upval_items);
}

take-length {ℓ} : {A : Type ℓ} (xs : List A) → take (length xs) xs ≡ xs
take-length [] = refl
take-length (x ∷ xs) = ap (λ ys. x ∷ ys) (take-length xs)

Loads-body :
    (fn : LFunc) (source : Option (List ℕ))
    → Small fn
    → SmallString source
    → Loads load_body (body_bytes fn source) (
      (
        ((((((source, 0), 0), fn.num_params), fn.is_vararg), fn.max_stack), fn.code),
        map bare fn.consts,
      ),
      map bare_upvalue fn.upval_items,
    )
unfolding load_body body_bytes
Loads-body fn source small str =
    Loads-string source str
    and Loads-size 0 (omega arith)
    and Loads-size 0 (omega arith)
    and Loads-byte fn.num_params
    and Loads-byte fn.is_vararg
    and Loads-byte fn.max_stack
    and Loads-counted (load_word 4) (length fn.code) small.code_len (Loads-code fn.code small.code)
    and Loads-counted load_constant (length fn.consts) small.num_consts
        (Loads-constants fn.consts small.consts)
    and Loads-counted load_upvalue fn.num_upvals (omega (arith, small.num_upvals, small.few_upvals))
        upvals
  where
    upvals :
        Loads
          (times load_upvalue fn.num_upvals)
          (upvalues_bytes (take fn.num_upvals fn.upval_items))
          (map bare_upvalue fn.upval_items)
    upvals = rw (small.num_upvals, take-length fn.upval_items) (Loads-upvalues fn.upval_items)

-- What the format keeps of a function with its inner functions, and the levels that it has.
unfoldable mutual
  pub bare_tree : FuncTree → FuncTree
  bare_tree (func fn protos) = func (bare_function fn) (trees (bare_protos protos))

  pub bare_protos : FuncTrees → List (Option (List ℕ) × FuncTree)
  bare_protos no_protos = []
  bare_protos (proto p ps) = (none, bare_tree p) ∷ bare_protos ps

unfoldable mutual
  pub levels : FuncTree → ℕ
  levels (func fn protos) = suc (proto_levels protos)

  pub proto_levels : FuncTrees → ℕ
  proto_levels no_protos = 0
  proto_levels (proto p ps) = levels p + proto_levels ps

unfoldable mutual
  pub SmallTree : FuncTree → Type 0
  SmallTree (func fn protos) = Small fn × (num_protos protos < 2 ^ 64) × SmallTrees protos

  pub SmallTrees : FuncTrees → Type 0
  SmallTrees no_protos = Unit
  SmallTrees (proto p ps) = SmallTree p × SmallTrees ps

mutual
  unfolding load_function function_bytes num_protos bare_tree levels SmallTree

  -- The bytes of a function, with the name of its source if it has one, are read back as the
  -- function without what the format leaves out, by a reader of as many levels as it has, whatever
  -- bytes follow.
  pub load_function-function_bytes :
      (depth : ℕ) (f : FuncTree) (source : Option (List ℕ))
      → SmallTree f
      → SmallString source
      → levels f ≤ depth
      → Loads (load_function depth) (function_bytes f source) (source, bare_tree f)
  load_function-function_bytes zero (func _ _) source small str le = absurd (omega arith)
  load_function-function_bytes (suc depth) (func fn protos) source small str le =
      let l = Loads-mapped a_function refl (
        Loads-body fn source small.0 str
        and Loads-counted (load_function depth) (num_protos protos) small.1
            (Loads-protos depth protos small.2 (omega arith))
        and Loads-debug) in
      record { reads = l.reads }

  Loads-protos :
      (depth : ℕ) (ps : FuncTrees)
      → SmallTrees ps
      → proto_levels ps ≤ depth
      → Loads (times (load_function depth) (num_protos ps)) (protos_bytes ps) (bare_protos ps)
  Loads-protos depth no_protos small le = Loads-nil (load_function depth)
  Loads-protos depth (proto p ps) small le =
      Loads-cons (load_function depth) (num_protos ps)
        (load_function-function_bytes depth p none small.0 tt (omega arith))
        (Loads-protos depth ps small.1 (omega arith))
