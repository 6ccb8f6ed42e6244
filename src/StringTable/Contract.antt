-- ===== src/StringTable/Contract.antt =====
-- The contract of interning: it ends while a slot is free, it gives one address for one name, and
-- it keeps every address that it gave.
use mclua.Prelude.{
  ℕ, zero, suc, ◌+◌, ◌*◌, ◌-◌, ◌%◌, ◌<◌, ◌≡◌, ◌≢◌, ◌↔◌, ◌⊎◌, inl, inr, List, [], Option, none, some,
  false, arith, length, length-replicate, get_or, replicate, Bool-cases, sym, subst, ap, ◌∙◌, leb,
  ltb, ◌==◌,
}
use mclua.Probing.{done, spins, probe}
use mclua.Probing.Count.{taken-replicate, free_of_taken-lt}
use mclua.Probing.Laws.{free_slot-ends, distance-lt}
use mclua.StringTable.Valid.{
  IsValid, At, lookup-spins, home-lt, lookup_entry-found, lookup_entry-ends,
}
use mclua.StringTable.Intern.{new_entry, stored, stored-IsValid}
use mclua.StringTable.{
  StringTable, Entry, text, hash, matches, lookup_entry, lookup, store, intern, intern_new, init,
  entry_size,
}
use mclua.StringTable.Ends.{
  lookup-some, lookup_of_absent, lookup_of_entry, lookup_of_spins, intern-Ended, Ended-IsValid,
  Ended-lookup, Ended-kept,
}

-- A fresh table is valid and empty.
pub init-IsValid :
    (maxvars bfrcap : ℕ) {tbl : StringTable}
    → 0 < maxvars
    → init maxvars bfrcap ≡ some tbl
    → IsValid tbl
unfolding init
init-IsValid maxvars bfrcap {tbl = tbl} pos e =
    elim (Bool-cases (leb bfrcap (maxvars * entry_size))) [
      | inl small ↦ cc (rw (small, init) at e)
      | inr fits ↦ subst IsValid (cc (rw (fits, init) at e)) empty
    ]
  where
    none_at : (n i : ℕ) (x : Entry) → get_or (replicate n none) i none ≡ some x → ⊥
    none_at zero i x e = cc
    none_at (suc n) zero x e = cc
    none_at (suc n) (suc i) x e = none_at n i x e

    empty : IsValid (record {
      entries = replicate maxvars none;
      entry_cap = maxvars;
      entry_cnt = 0;
      bfr = [];
      bfrcap = bfrcap - maxvars * entry_size;
    })
    empty = record {
      size = length-replicate maxvars none;
      room = pos;
      count = sym (taken-replicate Entry maxvars);
      inside = λ i x at. absurd (none_at maxvars i x at);
      hashed = λ i x at. absurd (none_at maxvars i x at);
      home = λ i x at. absurd (none_at maxvars i x at);
      distinct = λ i j x y at at' e. absurd (none_at maxvars i x at);
    }

module _ (tbl : StringTable) (v : IsValid tbl) where
  -- A run of interning into a valid table that ends leaves it valid, whether or not it gives an
  -- address, and where it gives one, a lookup of the name in the new table gives that address.
  pub lookup-intern :
      (str : List ℕ) {r : Option ℕ × StringTable}
      → intern tbl str ≡ done r
      → IsValid r.1 × ((p : ℕ) → r.0 ≡ some p → lookup r.1 str ≡ done (some p))
  lookup-intern str {r = r} run =
      let how = intern-Ended tbl str r run in
      (Ended-IsValid tbl str r v how, λ p. Ended-lookup tbl str r p v how)

  -- A name that has an address in a valid table keeps it when another name is interned.
  pub lookup-intern_kept :
      (str s : List ℕ) (q : ℕ) {r : Option ℕ × StringTable}
      → intern tbl str ≡ done r
      → lookup tbl s ≡ done (some q)
      → lookup r.1 s ≡ done (some q)
  lookup-intern_kept str s q {r = r} run found =
      Ended-kept tbl str r s q v (intern-Ended tbl str r run) found

  -- In a valid table two names that are found have one address exactly when they are the same name.
  pub lookup_eq_iff :
      (s t : List ℕ) (p q : ℕ)
      → lookup tbl s ≡ done (some p)
      → lookup tbl t ≡ done (some q)
      → (p ≡ q) ↔ (s ≡ t)
  lookup_eq_iff s t p q found found' =
      let (e, run, at) = lookup-some tbl s p found in
      let (f, run', at') = lookup-some tbl t q found' in
      let (i, ei, es) = lookup_entry-found tbl v s run in
      let (j, fj, ft) = lookup_entry-found tbl v t run' in
      (
        λ same. sym es ∙ ap (text tbl.bfr) (v.distinct i j e f ei fj (at ∙ same ∙ sym at')) ∙ ft,
        λ same. ground arith,
      )

  -- In a full valid table the search for a name that no entry has comes to no end, whatever number of
  -- steps it takes, so that interning such a name does not end: the test of the table's capacity is
  -- never reached.
  pub intern-spins :
      (str : List ℕ) (fuel : ℕ)
      → tbl.entry_cnt ≡ tbl.entry_cap
      → 0 < length str
      → ((i : ℕ) (e : Entry) → At tbl i e → text tbl.bfr e ≢ str)
      → (probe fuel tbl.entries (matches tbl.bfr str) (hash str % tbl.entry_cap) ≡ spins)
        × (intern tbl str ≡ spins)
  unfolding intern lookup_entry
  intern-spins str fuel full some_name absent = (lookup-spins tbl v str fuel full absent, stuck)
    where
      empty_test : (length str == 0) ≡ false
      empty_test = ground arith

      stuck : intern tbl str ≡ spins
      stuck =
          rw
            (empty_test, lookup_of_spins tbl str (lookup-spins tbl v str tbl.entry_cap full absent))

  -- While a slot of a valid table is free, interning a name that is not empty ends in a valid
  -- table, and gives no address only where the pool has no room for a new name.
  pub intern-ends :
      (str : List ℕ)
      → tbl.entry_cnt < tbl.entry_cap
      → 0 < length str
      → (r : Option ℕ × StringTable) × (intern tbl str ≡ done r)
        × IsValid r.1
        × ((r.0 ≢ none) ⊎ (tbl.bfrcap < length tbl.bfr + length str + 1))
  unfolding intern intern_new store stored new_entry
  intern-ends str free some_name = let (o, run) = lookup_entry-ends tbl v str free in by_entry o run
    where
      empty_test : (length str == 0) ≡ false
      empty_test = ground arith

      full_test : leb tbl.entry_cap tbl.entry_cnt ≡ false
      full_test = ground arith

      by_entry :
          (o : Option Entry)
          → lookup_entry tbl str ≡ done o
          → (r : Option ℕ × StringTable) × (intern tbl str ≡ done r)
            × IsValid r.1
            × ((r.0 ≢ none) ⊎ (tbl.bfrcap < length tbl.bfr + length str + 1))
      by_entry (some x) run =
          ((some x.str, tbl), rw (empty_test, lookup_of_entry tbl str x run), v, inl (λ e. cc))
      by_entry none run = elim (Bool-cases (ltb tbl.bfrcap (length tbl.bfr + length str + 1))) [
        | inl long ↦ (
          (none, tbl),
          rw (empty_test, lookup_of_absent tbl str run, full_test, long),
          v,
          inr (ground arith),
        )
        | inr fits ↦
            let (z, lt, at) = free_of_taken-lt tbl.entries (omega (arith, v.size, v.count)) in
            let (j, slot) =
              free_slot-ends tbl.entries tbl.entry_cap (hash str % tbl.entry_cap) z lt
                (home-lt tbl v str) at
                (omega
                  (arith, distance-lt (length tbl.entries) z _ lt (home-lt tbl v str), v.size)) in
            (
              (some (length tbl.bfr), stored tbl str j),
              rw (empty_test, lookup_of_absent tbl str run, full_test, fits, slot),
              stored-IsValid tbl v str j slot run,
              inl (λ e. cc),
            )
      ]
