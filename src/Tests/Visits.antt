-- ===== src/Tests/Visits.antt =====
-- A block with a goto and the label that it goes to.
use mclua.Prelude.{◌≡◌, ◌≢◌, refl, ◌⊎◌}
use mclua.Ast.{pn_block, pn_return, pn_goto, pn_label, type_number, Node, node, Nodes, nil, cons}
use mclua.Unreach.{unreach_visit, cut, is_terminator, IsCut, unreach_visit-IsCut}

abbrev jump : Node
jump = node pn_goto 7 1 nil

abbrev label : Node
label = node pn_label 7 2 nil

abbrev body : Nodes
body = cons jump (cons label (cons (node pn_return 0 3 nil) nil))

-- The label goes, too.
label_lost : unreach_visit (node pn_block 0 0 body) ≡ node pn_block 0 0 (cons jump nil)
unfolding unreach_visit cut is_terminator type_number
label_lost = refl

unreach_visit-IsCut_example :
    (left : Nodes) × (unreach_visit (node pn_block 0 0 body) ≡ node pn_block 0 0 left)
    × (((type_number pn_block ≢ type_number pn_block) × (left ≡ body))
        ⊎ ((type_number pn_block ≡ type_number pn_block) × IsCut body left))
    × (unreach_visit (node pn_block 0 0 left) ≡ node pn_block 0 0 left)
unreach_visit-IsCut_example = unreach_visit-IsCut pn_block 0 0 body
