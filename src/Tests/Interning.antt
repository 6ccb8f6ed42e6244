-- ===== src/Tests/Interning.antt =====
-- A table of four slots in which the names "ab" and "_ENV" are interned, and one of a single slot.
use mclua.Prelude.{
  ℕ, zero, suc, ◌+◌, ◌%◌, ◌<◌, ◌≡◌, ◌≢◌, ◌↔◌, ◌⊎◌, refl, List, [], ◌∷◌, Option, none, some, arith,
  replicate,
}
use mclua.Probing.{done, spins, probe, free_slot}
use mclua.StringTable.Contract.{
  init-IsValid, lookup-intern, lookup-intern_kept, lookup_eq_iff, intern-ends, intern-spins,
}
use mclua.StringTable.Valid.{IsValid, At}
use mclua.StringTable.{
  StringTable, Entry, init, hash, hash_from, lookup, lookup_entry, intern, intern_new, store,
  matches, same_bytes, text,
}

abbrev ab : List ℕ
ab = b'a' ∷ b'b' ∷ []

abbrev env : List ℕ
env = b'_' ∷ b'E' ∷ b'N' ∷ b'V' ∷ []

abbrev empty : StringTable
empty = record { entries = replicate 4 none; entry_cap = 4; entry_cnt = 0; bfr = []; bfrcap = 36 }

abbrev ab_entry : Entry
ab_entry = record { str = 0; len = 2; hash = 1294271946 }

abbrev env_entry : Entry
env_entry = record { str = 3; len = 4; hash = 3230100961 }

-- After "ab" is interned.
abbrev one : StringTable
one = record empty {
  entries = none ∷ none ∷ some ab_entry ∷ none ∷ [];
  entry_cnt = 1;
  bfr = b'a' ∷ b'b' ∷ 0 ∷ [];
}

-- After "_ENV" is interned, too.
abbrev two : StringTable
two = record empty {
  entries = none ∷ some env_entry ∷ some ab_entry ∷ none ∷ [];
  entry_cnt = 2;
  bfr = b'a' ∷ b'b' ∷ 0 ∷ b'_' ∷ b'E' ∷ b'N' ∷ b'V' ∷ 0 ∷ [];
}

empty_made : init 4 100 ≡ some empty
unfolding init
empty_made = refl

empty-IsValid : IsValid empty
empty-IsValid = init-IsValid 4 100 (omega arith) empty_made

interned_ab : intern empty ab ≡ done (some 0, one)
unfolding intern intern_new store lookup lookup_entry hash hash_from matches same_bytes probe
    free_slot
interned_ab = refl

interned_env : intern one env ≡ done (some 3, two)
unfolding intern intern_new store lookup lookup_entry hash hash_from matches same_bytes probe
    free_slot
interned_env = refl

found_ab : lookup two ab ≡ done (some 0)
unfolding lookup lookup_entry hash hash_from matches same_bytes probe
found_ab = refl

found_env : lookup two env ≡ done (some 3)
unfolding lookup lookup_entry hash hash_from matches same_bytes probe
found_env = refl

ab_found_in_one : lookup one ab ≡ done (some 0)
unfolding lookup lookup_entry hash hash_from matches same_bytes probe
ab_found_in_one = refl

one-IsValid : IsValid one
one-IsValid = (lookup-intern empty empty-IsValid ab interned_ab).0

two-IsValid : IsValid two
two-IsValid = (lookup-intern one one-IsValid env interned_env).0

lookup-intern_example :
    IsValid two × ((p : ℕ) → ◌≡◌ {A = Option ℕ} (some 3) (some p) → lookup two env ≡ done (some p))
lookup-intern_example = lookup-intern one one-IsValid env interned_env

lookup-intern_kept_example : lookup two ab ≡ done (some 0)
lookup-intern_kept_example =
    lookup-intern_kept one one-IsValid env ab 0 interned_env ab_found_in_one

lookup_eq_iff_example : (◌≡◌ {A = ℕ} 0 3) ↔ (ab ≡ env)
lookup_eq_iff_example = lookup_eq_iff two two-IsValid ab env 0 3 found_ab found_env

intern-ends_example :
    (r : Option ℕ × StringTable) × (intern one env ≡ done r)
    × IsValid r.1
    × ((r.0 ≢ none) ⊎ (36 < 3 + 4 + 1))
intern-ends_example = intern-ends one one-IsValid env (omega arith) (omega arith)

-- A table of one slot, before and after "ab" is interned.
abbrev single : StringTable
single = record { entries = none ∷ []; entry_cap = 1; entry_cnt = 0; bfr = []; bfrcap = 36 }

abbrev full : StringTable
full = record single { entries = some ab_entry ∷ []; entry_cnt = 1; bfr = b'a' ∷ b'b' ∷ 0 ∷ [] }

single_made : init 1 52 ≡ some single
unfolding init
single_made = refl

fill : intern single ab ≡ done (some 0, full)
unfolding intern intern_new store lookup lookup_entry hash hash_from matches same_bytes probe
    free_slot
fill = refl

full-IsValid : IsValid full
full-IsValid = (lookup-intern single (init-IsValid 1 52 (omega arith) single_made) ab fill).0

full_other : (i : ℕ) (e : Entry) → At full i e → text full.bfr e ≢ env
full_other zero e at same = cc
full_other (suc i) e at same = cc

intern-spins_example :
    (probe 1000 full.entries (matches full.bfr env) (hash env % 1) ≡ spins)
    × (intern full env ≡ spins)
intern-spins_example = intern-spins full full-IsValid env 1000 refl (omega arith) full_other
