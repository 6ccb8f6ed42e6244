-- ===== src/Compile.antt =====
-- src/compile/mccompile.c and src/compile/mccompile.h: the state of the compiler, instructions and
-- registers, local variables, jumps, labels and gotos.
pub mod Scopes
pub mod Upvalues
pub mod Jumps
pub mod Gotos
use mclua.Prelude.{
  ℕ, zero, suc, ◌+◌, ◌-◌, ◌*◌, ◌%◌, ◌^◌, List, [], ◌∷◌, ◌++◌, Option, none, some, Bool, true, false,
  ltb, leb, ◌==◌, if◌then◌else◌, length, get_elem?, set, take,
}
use mclua.Prelude.Int.{ℤ, pos, sub_ℕ}
use mclua.Config.{VmConfig}
use mclua.Heap
use mclua.Heap.{McHeap}
use mclua.LFunc.{LFunc, FuncState, UpvalDesc, mclfunc_append_instr, mclfunc_add_upval, put_item}
use mclua.Ops.{code, op_jmp, op_eq, op_lt, op_le, OpCode}
use mclua.Ops.Words.{create_sj}
use mclua.Token

pub record LocalVar : Type 0 where
  pub name : ℕ
  pub reg : ℕ
  pub attrib : ℕ

pub record Label : Type 0 where
  pub name : ℕ
  pub pc : ℕ

-- A goto that waits for its label. The name is `none` once it has come, and `pc` is `none` for
-- NO_JUMP.
pub record Goto : Type 0 where
  pub name : Option ℕ
  pub pc : Option ℕ

-- `MCComp`, of one function. `nactive`, `freereg`, `maxreg` and `nbreaks` are u8s; of the arrays
-- `locals` and `breaks` the entries that were written. Names are addresses.
pub record Frame : Type 0 where
  pub func : LFunc
  pub locals : List LocalVar
  pub nactive : ℕ
  pub freereg : ℕ
  pub maxreg : ℕ
  pub breaks : List ℕ
  pub nbreaks : ℕ
  pub in_loop : ℕ
  pub error : Bool
  pub has_tbc : Bool
  pub has_capture : Bool
  pub labels : List Label
  pub gotos : List Goto

-- A function that is compiled, those around it from the innermost on, and what they share.
pub record McComp : Type 0 where
  pub frame : Frame
  pub parents : List Frame
  pub heap : McHeap
  pub config : VmConfig

abbrev pub fresh_frame : LFunc → Frame
fresh_frame func = record {
  func = func;
  locals = [];
  nactive = 0;
  freereg = 0;
  maxreg = 0;
  breaks = [];
  nbreaks = 0;
  in_loop = 0;
  error = false;
  has_tbc = false;
  has_capture = false;
  labels = [];
  gotos = [];
}

-- `mccomp_init`, with the function that `mccomp_body` sets afterwards. A local takes 16 bytes.
unfoldable pub mccomp_init : LFunc → List Frame → McHeap → VmConfig → Option McComp
mccomp_init func parents heap config =
    elim (Heap.static_reserve heap (config.max_locals * 16 % Heap.u64_mod)) [
      | none ↦ none
      | some (locals, heap') ↦
          elim (Heap.static_reserve heap' (config.max_breaks * 4 % Heap.u64_mod)) [
            | none ↦ none
            | some (breaks, heap'') ↦ some (record {
              frame = fresh_frame func;
              parents = parents;
              heap = heap'';
              config = config;
            })
          ]
    ]

-- `FUNCLEN`
abbrev pub func_len : McComp → ℕ
func_len c = length c.frame.func.code

abbrev pub failed : McComp → McComp
failed c = record c { frame = record c.frame { error = true } }

unfoldable pub mccomp_emit : McComp → ℕ → Option ℕ × McComp
mccomp_emit c instr =
    elim (mclfunc_append_instr (record { fn = c.frame.func; heap = c.heap }) instr) [
      | none ↦ (none, failed c)
      | some s ↦ (
        some (func_len c),
        record c {
          frame = record c.frame {
            func = s.fn;
            maxreg = if ltb c.frame.maxreg c.frame.freereg then c.frame.freereg else c.frame.maxreg;
          };
          heap = s.heap;
        },
      )
    ]

-- The code with the jump at `pc` going to `target`.
unfoldable pub patched : List ℕ → ℕ → ℕ → List ℕ
patched instrs pc target = set instrs pc (create_sj (code op_jmp) (sub_ℕ target (pc + 1)))

unfoldable pub mccomp_patch : McComp → Option ℕ → ℕ → McComp
unfolding patched
mccomp_patch c none target = c
mccomp_patch c (some pc) target = record c {
  frame = record c.frame {
    func = record c.frame.func { code = patched c.frame.func.code pc target };
  };
}

unfoldable pub mccomp_reserve : McComp → ℕ × McComp
mccomp_reserve c =
    let next = (c.frame.freereg + 1) % 2 ^ 8 in
    (
      c.frame.freereg,
      record c {
        frame = record c.frame {
          freereg = next;
          maxreg = if ltb c.frame.maxreg next then next else c.frame.maxreg;
        };
      },
    )

-- The last of the first `n` locals that has the name.
unfoldable pub local_below : ℕ → List LocalVar → ℕ → Option LocalVar
local_below zero locals name = none
local_below (suc n) locals name =
    let before = local_below n locals name in
    elim (get_elem? locals n) [ none ↦ before | some v ↦ if v.name == name then some v else before ]

unfoldable pub mccomp_resolve_local : Frame → ℕ → Option ℕ
unfolding local_below
mccomp_resolve_local f name = elim (local_below f.nactive f.locals name) [
  | none ↦ none
  | some v ↦ some v.reg
]

unfoldable pub mccomp_local_is_const : Frame → ℕ → Bool
unfolding local_below
mccomp_local_is_const f name = elim (local_below f.nactive f.locals name) [
  | none ↦ false
  | some v ↦ v.attrib == 1
]

unfoldable pub mccomp_newlocal : McComp → ℕ → ℕ → Bool × McComp
mccomp_newlocal c name reg =
    if leb c.config.max_locals c.frame.nactive then (false, failed c) else (
      true,
      record c {
        frame = record c.frame {
          locals =
              put_item c.frame.locals c.frame.nactive
                (record { name = name; reg = reg; attrib = 0 });
          nactive = (c.frame.nactive + 1) % 2 ^ 8;
        };
      },
    )

-- The first upvalue that has the name.
unfoldable pub find_upval : List UpvalDesc → ℕ → Option ℕ
find_upval [] name = none
find_upval (d ∷ ups) name =
    let rest = find_upval ups name in
    if d.name == name then some 0 else elim rest [ none ↦ none | some i ↦ some (suc i) ]

-- What a search for an upvalue gives: its number, and the frames and the arena after it.
abbrev pub Upval : Type 0
Upval = Option ℕ × Frame × List Frame × McHeap

-- `return mclfunc_add_upval(...)`
unfoldable pub add_upval : Frame → List Frame → McHeap → ℕ → ℕ → ℕ → Upval
add_upval f parents heap name instack idx =
    elim (mclfunc_add_upval (record { fn = f.func; heap = heap }) name instack idx) [
      | none ↦ (none, f, parents, heap)
      | some (i, s) ↦ (some i, record f { func = s.fn }, parents, s.heap)
    ]

-- The end of `mccomp_resolve_upval`, given what the search in the parent gave.
unfoldable pub add_found : Frame → ℕ → Upval → Upval
unfolding add_upval
add_found f name (none, p, ps, heap) = (none, f, p ∷ ps, heap)
add_found f name (some up, p, ps, heap) = add_upval f (p ∷ ps) heap name 0 up

unfoldable pub mccomp_resolve_upval : Frame → List Frame → ℕ → McHeap → Upval
unfolding find_upval add_upval add_found mccomp_resolve_local
mccomp_resolve_upval f [] name heap =
    (find_upval (take f.func.num_upvals f.func.upval_items) name, f, [], heap)
mccomp_resolve_upval f (p ∷ ps) name heap =
    let up = mccomp_resolve_upval p ps name heap in
    elim (find_upval (take f.func.num_upvals f.func.upval_items) name) [
      | some i ↦ (some i, f, p ∷ ps, heap)
      | none ↦ elim (mccomp_resolve_local p name) [
        | some reg ↦ add_upval f (record p { has_capture = true } ∷ ps) heap name 1 reg
        | none ↦ add_found f name up
      ]
    ]

-- The opcode of a comparison, and whether it swaps its operands and inverts its outcome.
pub record CmpDesc : Type 0 where
  pub op : OpCode
  pub swap : Bool
  pub invert_k : Bool

unfoldable pub mccomp_cmp_describe : ℕ → Option CmpDesc
mccomp_cmp_describe tok =
    if tok == b'<'
    then some (record { op = op_lt; swap = false; invert_k = false })
    else if tok == b'>'
    then some (record { op = op_lt; swap = true; invert_k = false })
    else if tok == Token.tk_le
    then some (record { op = op_le; swap = false; invert_k = false })
    else if tok == Token.tk_ge
    then some (record { op = op_le; swap = true; invert_k = false })
    else if tok == Token.tk_eq
    then some (record { op = op_eq; swap = false; invert_k = false })
    else if tok == Token.tk_ne
    then some (record { op = op_eq; swap = false; invert_k = true })
    else none

unfoldable pub mccomp_break : McComp → McComp
unfolding mccomp_emit
mccomp_break c =
    let (pc, c') = mccomp_emit c (create_sj (code op_jmp) (pos 0)) in
    if c.frame.in_loop == 0
    then c
    else if leb c.config.max_breaks c.frame.nbreaks
    then c
    else record c' {
      frame = record c'.frame {
        breaks =
            put_item c'.frame.breaks c'.frame.nbreaks (elim pc [ none ↦ 2 ^ 32 - 1 | some n ↦ n ]);
        nbreaks = (c'.frame.nbreaks + 1) % 2 ^ 8;
      };
    }

unfoldable pub waits_for : ℕ → Goto → Bool
waits_for name g = elim g.name [ none ↦ false | some n ↦ n == name ]

-- `mccomp_patch` on code.
unfoldable pub patch_code : List ℕ → Option ℕ → ℕ → List ℕ
unfolding patched
patch_code instrs none target = instrs
patch_code instrs (some pc) target = patched instrs pc target

-- A round of the loop of `mccomp_label`.
unfoldable pub goto_code : ℕ → ℕ → Goto → List ℕ → List ℕ
unfolding patch_code waits_for
goto_code name here g instrs = if waits_for name g then patch_code instrs g.pc here else instrs

unfoldable pub goto_left : ℕ → Goto → Goto
unfolding waits_for
goto_left name g = if waits_for name g then record g { name = none } else g

-- The loop of `mccomp_label`: the code and the gotos after it.
unfoldable pub resolve_gotos : ℕ → ℕ → List Goto → List ℕ → List ℕ × List Goto
unfolding goto_code goto_left
resolve_gotos name here [] instrs = (instrs, [])
resolve_gotos name here (g ∷ gotos) instrs =
    let rest = resolve_gotos name here gotos (goto_code name here g instrs) in
    (rest.0, goto_left name g ∷ rest.1)

unfoldable pub mccomp_label : McComp → ℕ → Bool × McComp
unfolding resolve_gotos
mccomp_label c name =
    let r = resolve_gotos name (func_len c) c.frame.gotos c.frame.func.code in
    if leb 64 (length c.frame.labels) then (false, failed c) else (
      true,
      record c {
        frame = record c.frame {
          func = record c.frame.func { code = r.0 };
          labels = c.frame.labels ++ record { name = name; pc = func_len c } ∷ [];
          gotos = r.1;
        };
      },
    )

-- The first label that has the name.
unfoldable pub find_label : List Label → ℕ → Option ℕ
find_label [] name = none
find_label (l ∷ labels) name =
    let rest = find_label labels name in if l.name == name then some l.pc else rest

-- `mccomp_goto`, behind the jump that it emits.
unfoldable pub goto_label : ℕ → Option ℕ × McComp → Bool × McComp
unfolding mccomp_patch find_label
goto_label name (pc, c) = elim (find_label c.frame.labels name) [
  | some target ↦ (true, mccomp_patch c pc target)
  | none ↦ if leb 64 (length c.frame.gotos) then (false, failed c) else (
    true,
    record c {
      frame = record c.frame { gotos = c.frame.gotos ++ record { name = some name; pc = pc } ∷ [] };
    },
  )
]

unfoldable pub mccomp_goto : McComp → ℕ → Bool × McComp
unfolding mccomp_emit goto_label
mccomp_goto c name = goto_label name (mccomp_emit c (create_sj (code op_jmp) (pos 0)))
