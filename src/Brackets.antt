-- ===== src/Brackets.antt =====
-- src/visitors/tokens/mctbracketchecker.c: the visitor that pairs brackets. `stack` holds the
-- places below `top`, the last one first; a partner of -1 is `none`. The checker has room for
-- `max_depth` open brackets.
pub mod Pairs
use mclua.Prelude.{
  ℕ, zero, suc, ◌+◌, List, [], ◌∷◌, Option, none, some, Bool, true, false, ◌||◌, ltb, leb, ◌==◌,
  if◌then◌else◌, length,
}
use mclua.Token.{Token}

pub record BracketChecker : Type 0 where
  pub partners : ℕ → Option ℕ
  pub stack : List ℕ
  pub max_depth : ℕ

-- `partners[idx] = p`
abbrev pub put : (ℕ → Option ℕ) → ℕ → Option ℕ → ℕ → Option ℕ
put partners idx p i = if i == idx then p else partners i

unfoldable pub is_open : ℕ → Bool
is_open tk = b'(' == tk || (b'[' == tk || b'{' == tk)

unfoldable pub is_close : ℕ → Bool
is_close tk = b')' == tk || (b']' == tk || b'}' == tk)

-- `mctbc_init`
unfoldable pub mctbc_init : BracketChecker → BracketChecker
mctbc_init bc = record bc { stack = [] }

-- The case of an opening bracket, of a closing one, and of any other token.
unfoldable pub visit_open : BracketChecker → ℕ → Option BracketChecker
visit_open bc idx =
    if leb bc.max_depth (length bc.stack)
    then none
    else some (record bc { stack = idx ∷ bc.stack; partners = put bc.partners idx none })

unfoldable pub visit_close : BracketChecker → ℕ → List ℕ → Option BracketChecker
visit_close bc idx [] = none
visit_close bc idx (opener ∷ stack) = some (record bc {
  stack = stack;
  partners = put (put bc.partners idx (some opener)) opener (some idx);
})

-- `mctbc_visit`; `none` is -1.
unfoldable pub mctbc_visit : BracketChecker → Token → ℕ → Option BracketChecker
mctbc_visit bc tkn idx =
    let tk = tkn.token_number in
    if is_open tk
    then visit_open bc idx
    else if is_close tk
    then visit_close bc idx bc.stack
    else some (record bc { partners = put bc.partners idx none })

-- `mctbc_deinit`
unfoldable pub mctbc_deinit : BracketChecker → Option BracketChecker
mctbc_deinit bc = if length bc.stack == 0 then some bc else none

-- The loop of `tkv_run` over the tokens from `idx` on, and the run of the checker. Where a visit
-- gives -1 the run gives -1 after `mctbc_deinit`.
unfoldable pub visit_all : BracketChecker → List Token → ℕ → Option BracketChecker
visit_all bc [] idx = mctbc_deinit bc
visit_all bc (t ∷ ts) idx = elim (mctbc_visit bc t idx) [
  | none ↦ none
  | some bc' ↦ visit_all bc' ts (idx + 1)
]

unfoldable pub tkv_run : BracketChecker → List Token → Option BracketChecker
tkv_run bc tokens = visit_all (mctbc_init bc) tokens 0
