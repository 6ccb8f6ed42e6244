-- ===== src/StringTable/Ends.antt =====
-- How a run of `mcstrtbl_intern` may end.
use mclua.Prelude.{
  ℕ, ◌+◌, ◌%◌, ◌≡◌, refl, inl, inr, List, Option, none, some, length, Bool-cases, subst, ap, ◌∙◌,
  leb, ltb, ◌==◌,
}
use mclua.Probing.{Run, done, spins, probe, free_slot}
use mclua.Probing
use mclua.StringTable.Valid.{IsValid}
use mclua.StringTable.Intern.{
  new_entry, stored, stored-IsValid, lookup_entry-stored, lookup_entry_new,
}
use mclua.StringTable.{StringTable, Entry, hash, lookup_entry, lookup, store, intern, intern_new}

-- What a lookup gives is the address of the entry that it comes to.
pub lookup-some :
    (tbl : StringTable) (str : List ℕ) (p : ℕ)
    → lookup tbl str ≡ done (some p)
    → (e : Entry) × (lookup_entry tbl str ≡ done (some e)) × (e.str ≡ p)
unfolding lookup
lookup-some tbl str p run = by_entry (lookup_entry tbl str) refl run
  where
    by_entry :
        (r : Run (Option Entry))
        → lookup_entry tbl str ≡ r
        → Probing.bind r (λ o. elim o [ none ↦ done none | some e ↦ done (some e.str) ])
          ≡ done (some p)
        → (e : Entry) × (lookup_entry tbl str ≡ done (some e)) × (e.str ≡ p)
    by_entry (done none) e run = cc
    by_entry (done (some x)) e run = (x, e, cc)
    by_entry spins e run = cc

pub lookup_of_entry :
    (tbl : StringTable) (str : List ℕ) (e : Entry)
    → lookup_entry tbl str ≡ done (some e)
    → lookup tbl str ≡ done (some e.str)
unfolding lookup
lookup_of_entry tbl str e run = rw run

pub lookup_of_absent :
    (tbl : StringTable) (str : List ℕ)
    → lookup_entry tbl str ≡ done none
    → lookup tbl str ≡ done none
unfolding lookup
lookup_of_absent tbl str run = rw run

pub lookup_of_spins :
    (tbl : StringTable) (str : List ℕ) → lookup_entry tbl str ≡ spins → lookup tbl str ≡ spins
unfolding lookup
lookup_of_spins tbl str run = rw run

-- How a run of `intern` may have ended: refused for an empty name or for lack of room, with the
-- entry that was there, or with a new one.
pub data Ended (tbl : StringTable) (str : List ℕ) : Option ℕ × StringTable → Type 0 where
  refused : Ended tbl str (none, tbl)
  known : (e : Entry) → lookup_entry tbl str ≡ done (some e) → Ended tbl str (some e.str, tbl)
  added :
      (j : ℕ)
      → lookup_entry tbl str ≡ done none
      → free_slot tbl.entry_cap tbl.entries (hash str % tbl.entry_cap) ≡ done j
      → Ended tbl str (some (length tbl.bfr), stored tbl str j)

module _ (tbl : StringTable) (str : List ℕ) (r : Option ℕ × StringTable) where
  store-Ended : lookup_entry tbl str ≡ done none → store tbl str ≡ done r → Ended tbl str r
  unfolding store stored new_entry
  store-Ended absent run =
      by_slot (free_slot tbl.entry_cap tbl.entries (hash str % tbl.entry_cap)) refl run
    where
      by_slot :
          (j : Run ℕ)
          → free_slot tbl.entry_cap tbl.entries (hash str % tbl.entry_cap) ≡ j
          → Probing.bind j (λ j. done (some (length tbl.bfr), stored tbl str j)) ≡ done r
          → Ended tbl str r
      by_slot (done j) e run = subst (Ended tbl str) (cc) (added j absent e)
      by_slot spins e run = cc

  intern_new-Ended :
      lookup_entry tbl str ≡ done none → intern_new tbl str none ≡ done r → Ended tbl str r
  unfolding intern_new
  intern_new-Ended absent run = elim (Bool-cases (leb tbl.entry_cap tbl.entry_cnt)) [
    | inl full ↦ subst (Ended tbl str) (cc (rw (full, intern_new) at run)) refused
    | inr free ↦ elim (Bool-cases (ltb tbl.bfrcap (length tbl.bfr + length str + 1))) [
      | inl long ↦ subst (Ended tbl str) (cc (rw (free, long) at run)) refused
      | inr fits ↦ store-Ended absent (rw (free, fits) at run)
    ]
  ]

  pub intern-Ended : intern tbl str ≡ done r → Ended tbl str r
  unfolding intern intern_new
  intern-Ended run = elim (Bool-cases (length str == 0)) [
    | inl empty ↦ subst (Ended tbl str) (cc (rw empty at run)) refused
    | inr some_name ↦ by_entry (lookup_entry tbl str) refl (rw some_name at run)
  ]
    where
      by_entry :
          (o : Run (Option Entry))
          → lookup_entry tbl str ≡ o
          → Probing.bind (lookup tbl str) (intern_new tbl str) ≡ done r
          → Ended tbl str r
      by_entry (done none) e run = intern_new-Ended e (rw (lookup_of_absent tbl str e) at run)
      by_entry (done (some x)) e run =
          subst (Ended tbl str) (cc (rw (lookup_of_entry tbl str x e) at run)) (known x e)
      by_entry spins e run = cc (rw (lookup_of_spins tbl str e) at run)

pub Ended-lookup :
    (tbl : StringTable) (str : List ℕ) (r : Option ℕ × StringTable) (p : ℕ)
    → IsValid tbl
    → Ended tbl str r
    → r.0 ≡ some p
    → lookup r.1 str ≡ done (some p)
unfolding new_entry
Ended-lookup tbl str _ p v refused e = cc
Ended-lookup tbl str _ p v (known x found) e = lookup_of_entry tbl str x found ∙ ap done e
Ended-lookup tbl str _ p v (added j absent slot) e =
    lookup_of_entry (stored tbl str j) str (new_entry tbl str)
      (lookup_entry_new tbl v str j slot absent)
    ∙ ap done e

pub Ended-IsValid :
    (tbl : StringTable) (str : List ℕ) (r : Option ℕ × StringTable)
    → IsValid tbl
    → Ended tbl str r
    → IsValid r.1
Ended-IsValid tbl str _ v refused = v
Ended-IsValid tbl str _ v (known x found) = v
Ended-IsValid tbl str _ v (added j absent slot) = stored-IsValid tbl v str j slot absent

pub Ended-kept :
    (tbl : StringTable) (str : List ℕ) (r : Option ℕ × StringTable) (s : List ℕ) (q : ℕ)
    → IsValid tbl
    → Ended tbl str r
    → lookup tbl s ≡ done (some q)
    → lookup r.1 s ≡ done (some q)
Ended-kept tbl str _ s q v refused found = found
Ended-kept tbl str _ s q v (known x e) found = found
Ended-kept tbl str _ s q v (added j absent slot) found =
    let (e, run, at) = lookup-some tbl s q found in
    lookup_of_entry (stored tbl str j) s e (lookup_entry-stored tbl v str j slot s e run)
    ∙ ap (λ (n : ℕ). done (some n)) at
