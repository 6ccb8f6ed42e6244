-- ===== src/Ast.antt =====
-- src/lib/mclast.h and src/lib/mclast.c: the nodes of the syntax tree. A node is an object of the
-- arena: it has the number of its header there, and room for as many children as the object's
-- capacity allows. A child is pushed once and not changed afterwards, so a parent holds its
-- children as values.
pub mod Room
pub mod Growth
use mclua.Prelude.{
  ℕ, suc, ◌+◌, ◌-◌, ◌*◌, ◌/◌, ◌%◌, Option, none, some, leb, ◌==◌, if◌then◌else◌, get_elem?,
}
use mclua.Heap
use mclua.Heap.{McHeap}

pub data ParseNodeType : Type 0 where
  pn_nil pn_true pn_false pn_integer pn_float pn_string : ParseNodeType
  pn_vararg pn_paren pn_name pn_binop pn_unop pn_index : ParseNodeType
  pn_field pn_call pn_call_method pn_func_expr pn_table pn_field_idx : ParseNodeType
  pn_field_name pn_field_val pn_explist pn_namelist pn_varlist pn_funcbody : ParseNodeType
  pn_arglist pn_attname pn_block pn_assign pn_local pn_do : ParseNodeType
  pn_while pn_repeat pn_if pn_elseif pn_else pn_fornum : ParseNodeType
  pn_forin pn_funcdef pn_local_func pn_return pn_break pn_goto : ParseNodeType
  pn_label pn_call_stat : ParseNodeType

-- The number of a node type, as the enumeration counts.
unfoldable pub type_number : ParseNodeType → ℕ
type_number pn_nil = 0
type_number pn_true = 1
type_number pn_false = 2
type_number pn_integer = 3
type_number pn_float = 4
type_number pn_string = 5
type_number pn_vararg = 6
type_number pn_paren = 7
type_number pn_name = 8
type_number pn_binop = 9
type_number pn_unop = 10
type_number pn_index = 11
type_number pn_field = 12
type_number pn_call = 13
type_number pn_call_method = 14
type_number pn_func_expr = 15
type_number pn_table = 16
type_number pn_field_idx = 17
type_number pn_field_name = 18
type_number pn_field_val = 19
type_number pn_explist = 20
type_number pn_namelist = 21
type_number pn_varlist = 22
type_number pn_funcbody = 23
type_number pn_arglist = 24
type_number pn_attname = 25
type_number pn_block = 26
type_number pn_assign = 27
type_number pn_local = 28
type_number pn_do = 29
type_number pn_while = 30
type_number pn_repeat = 31
type_number pn_if = 32
type_number pn_elseif = 33
type_number pn_else = 34
type_number pn_fornum = 35
type_number pn_forin = 36
type_number pn_funcdef = 37
type_number pn_local_func = 38
type_number pn_return = 39
type_number pn_break = 40
type_number pn_goto = 41
type_number pn_label = 42
type_number pn_call_stat = 43

mutual
  -- type, val, header, children
  pub data Node : Type 0 where
    node : ParseNodeType → ℕ → ℕ → Nodes → Node

  pub data Nodes : Type 0 where
    nil : Nodes
    cons : Node → Nodes → Nodes

abbrev pub ast_type : Node → ParseNodeType
ast_type (node t v h cs) = t

abbrev pub ast_val : Node → ℕ
ast_val (node t v h cs) = v

abbrev pub ast_header : Node → ℕ
ast_header (node t v h cs) = h

abbrev pub ast_children : Node → Nodes
ast_children (node t v h cs) = cs

abbrev pub count : Nodes → ℕ
count nil = 0
count (cons c cs) = suc (count cs)

abbrev pub snoc : Nodes → Node → Nodes
snoc nil n = cons n nil
snoc (cons c cs) n = cons c (snoc cs n)

abbrev pub ast_nchild : Node → ℕ
ast_nchild n = count (ast_children n)

-- `AST_VAL(node) = v`
abbrev pub set_val : Node → ℕ → Node
set_val (node t v h cs) w = node t w h cs

abbrev pub with_child : Node → Node → Node
with_child (node t v h cs) child = node t v h (snoc cs child)

-- sizeof(mclastnode) and sizeof(HeapHeader*) where pointers have 8 bytes.
abbrev pub node_size : ℕ
node_size = 24

abbrev pub pointer_size : ℕ
pointer_size = 8

-- `mclast_alloc`
unfoldable pub mclast_alloc : ParseNodeType → ℕ → McHeap → Option (Node × McHeap)
mclast_alloc type child_cap heap =
    elim (Heap.managed_reserve heap (node_size + child_cap * pointer_size)) [
      | none ↦ none
      | some (hdr, heap') ↦ some (node type 0 hdr nil, Heap.set_type heap' hdr Heap.ObjectType.ast)
    ]

-- `AST_CHILD_CAP(node)`; a header that is not in the arena has no room.
unfoldable pub ast_child_cap : McHeap → Node → ℕ
ast_child_cap heap n = elim (get_elem? heap.headers (ast_header n)) [
  | none ↦ 0
  | some h ↦ (h.objcap - node_size) / pointer_size
]

-- The capacity that `mclast_push_child` asks for when there is no room.
unfoldable pub grown_cap : ℕ → ℕ
grown_cap cap = if cap == 0 then 4 else cap * 2

-- `mclast_push_child`; `none` is -1, and leaves the parent and the arena as they are.
unfoldable pub mclast_push_child : Node → Node → McHeap → Option (Node × McHeap)
unfolding grown_cap
mclast_push_child parent child heap =
    let cap = ast_child_cap heap parent in
    let reqsize = (node_size + grown_cap cap * pointer_size) % Heap.u32_mod in
    let grown = Heap.managed_resize heap (ast_header parent) reqsize in
    if leb cap (ast_nchild parent)
    then elim grown [ none ↦ none | some heap' ↦ some (with_child parent child, heap') ]
    else some (with_child parent child, heap)
