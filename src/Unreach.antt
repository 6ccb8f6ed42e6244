-- ===== src/Unreach.antt =====
-- src/visitors/ast/mcunreach.c: the visitor that takes away what follows a return, a break or a goto
-- in a block.
use mclua.Prelude.{
  ℕ, ◌≡◌, ◌≢◌, refl, ap, ◌⊎◌, inl, inr, Bool, true, false, ◌||◌, ◌==◌, if◌then◌else◌, arith,
  Bool-cases,
}
use mclua.Ast.{
  ParseNodeType, pn_block, pn_return, pn_break, pn_goto, type_number, Node, node, Nodes, nil, cons,
  ast_type,
}

-- `(PN_RETURN == t) || (PN_BREAK == t) || (PN_GOTO == t)`
unfoldable pub is_terminator : ParseNodeType → Bool
is_terminator t =
    type_number pn_return == type_number t
    || (type_number pn_break == type_number t || type_number pn_goto == type_number t)

-- The loop, which stops in front of the last child.
unfoldable pub cut : Nodes → Nodes
unfolding is_terminator
cut nil = nil
cut (cons c nil) = cons c nil
cut (cons c (cons d ds)) =
    let rest = cut (cons d ds) in if is_terminator (ast_type c) then cons c nil else cons c rest

-- `unreach_visit`, which gives 0 and changes the node.
unfoldable pub unreach_visit : Node → Node
unfolding cut
unreach_visit (node t v h children) =
    if type_number pn_block == type_number t then node t v h (cut children) else node t v h children

abbrev pub append : Nodes → Nodes → Nodes
append nil ds = ds
append (cons c cs) ds = cons c (append cs ds)

-- Nothing but the last of the nodes is a return, a break or a goto.
abbrev pub Reached : Nodes → Type 0
Reached nil = Unit
Reached (cons c nil) = Unit
Reached (cons c (cons d ds)) = (is_terminator (ast_type c) ≡ false) × Reached (cons d ds)

-- The last of the nodes is a return, a break or a goto.
abbrev pub Terminated : Nodes → Type 0
Terminated nil = ⊥
Terminated (cons c nil) = is_terminator (ast_type c) ≡ true
Terminated (cons c (cons d ds)) = Terminated (cons d ds)

Reached-cons :
    (c : Node) (ns : Nodes) → is_terminator (ast_type c) ≡ false → Reached ns → Reached (cons c ns)
Reached-cons c nil on r = tt
Reached-cons c (cons d ds) on r = (on, r)

Terminated-cons : (c : Node) (ns : Nodes) → Terminated ns → Terminated (cons c ns)
Terminated-cons c nil t = elim t [ ]
Terminated-cons c (cons d ds) t = t

-- Some nodes are the beginning of the children, none but their last is a return, a break or a goto,
-- and they are all of them, or that last one is.
abbrev pub IsCut : Nodes → Nodes → Type 0
IsCut cs left =
    Reached left × (rest : Nodes) × (append left rest ≡ cs) × ((rest ≡ nil) ⊎ Terminated left)

-- What is left of a block's children is the beginning of them, up to the first return, break or goto
-- if one stands in front of the last child.
pub cut-IsCut : (cs : Nodes) → IsCut cs (cut cs)
unfolding cut
cut-IsCut nil = (tt, nil, refl, inl refl)
cut-IsCut (cons c nil) = (tt, nil, refl, inl refl)
cut-IsCut (cons c (cons d ds)) = elim (Bool-cases (is_terminator (ast_type c))) [
  | inl ends ↦ rw ends (tt, cons d ds, refl, inr ends)
  | inr on ↦
      let (reached, rest, whole, last) = cut-IsCut (cons d ds) in
      rw on (
        Reached-cons c (cut (cons d ds)) on reached,
        rest,
        ap (λ ns. cons c ns) whole,
        elim last [
          | inl none_left ↦ inl none_left
          | inr ends ↦ inr (Terminated-cons c (cut (cons d ds)) ends)
        ],
      )
]

-- Children of which none but the last is a return, a break or a goto are left as they are.
cut_kept : (cs : Nodes) → Reached cs → cut cs ≡ cs
unfolding cut
cut_kept nil r = refl
cut_kept (cons c nil) r = refl
cut_kept (cons c (cons d ds)) r =
    let kept = cut_kept (cons d ds) r.1 in rw r.0 (ap (λ ns. cons c ns) kept)

-- A node keeps its type, its value and its header, and one that is not a block its children. The
-- children that a block is left with are the beginning of those that it had, none but the last of
-- them is a return, a break or a goto, and they are all, or that last one is. A second visit changes
-- nothing.
pub unreach_visit-IsCut :
    (t : ParseNodeType) (v h : ℕ) (children : Nodes)
    → (left : Nodes) × (unreach_visit (node t v h children) ≡ node t v h left)
      × (((type_number pn_block ≢ type_number t) × (left ≡ children))
          ⊎ ((type_number pn_block ≡ type_number t) × IsCut children left))
      × (unreach_visit (node t v h left) ≡ node t v h left)
unfolding unreach_visit
unreach_visit-IsCut t v h children = elim (Bool-cases (type_number pn_block == type_number t)) [
  | inr other ↦ (
    children,
    rw (other, unreach_visit) refl,
    inl ((λ e. ground (arith, other, e)), refl),
    rw (other, unreach_visit) refl,
  )
  | inl block ↦ (
    cut children,
    rw (block, unreach_visit) refl,
    inr (ground arith, cut-IsCut children),
    rw (block, unreach_visit)
        (ap (λ ns. node t v h ns) (cut_kept (cut children) (cut-IsCut children).0)),
  )
]
