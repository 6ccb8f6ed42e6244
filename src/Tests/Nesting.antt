-- ===== src/Tests/Nesting.antt =====
-- The bracket checker on `( ]`: it passes, though the kinds differ.
use mclua.Prelude.{◌≡◌, refl, List, [], ◌∷◌, none, some}
use mclua.Token.{Token}
use mclua.Brackets.{
  BracketChecker, put, mctbc_visit, visit_all, is_open, visit_open, mctbc_init, is_close,
  visit_close, mctbc_deinit, tkv_run,
}
use mclua.Brackets.Pairs.{Paired, tkv_run-Paired}

abbrev tokens : List Token
tokens =
    record { token_number = b'('; semantics = 0 }
    ∷ record { token_number = b']'; semantics = 0 }
    ∷ []

abbrev fresh : BracketChecker
fresh = record { partners = λ i. some 0; stack = []; max_depth = 256 }

abbrev checked : BracketChecker
checked = record fresh { partners = put (put (put fresh.partners 0 none) 1 (some 0)) 0 (some 1) }

mixed_kinds_pass : tkv_run fresh tokens ≡ some checked
unfolding tkv_run mctbc_visit visit_all is_open visit_open mctbc_init is_close visit_close
    mctbc_deinit
mixed_kinds_pass = refl

tkv_run-Paired_example : Paired checked.partners 2
tkv_run-Paired_example = tkv_run-Paired fresh checked tokens mixed_kinds_pass
