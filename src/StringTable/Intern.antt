-- ===== src/StringTable/Intern.antt =====
-- Interning: the state after a name is stored, and the contract of `intern`.
use mclua.Prelude.{
  ℕ, ◌+◌, ◌%◌, ◌<◌, ◌≡◌, refl, ◌⊎◌, inl, inr, List, [], ◌∷◌, ◌++◌, none, some, true, arith, length,
  length-append, length-set, get_or, set, sym, ap, ◌∙◌,
}
use mclua.Probing.{done, free_slot}
use mclua.Probing.Count.{taken-set}
use mclua.Probing.Laws.{probe-set, probe_congr, probe-free_slot, free_slot-free, set-cases}
use mclua.StringTable.Pool.{take-drop-append, take-drop-last}
use mclua.StringTable.Valid.{At, IsValid, matches_iff, home-lt, lookup_entry-absent}
use mclua.StringTable.{StringTable, Entry, text, hash, matches, lookup_entry}

-- The entry that `store` makes, and the table with it in slot `j`.
unfoldable pub new_entry : StringTable → List ℕ → Entry
new_entry tbl str = record { str = length tbl.bfr; len = length str; hash = hash str }

unfoldable pub stored : StringTable → List ℕ → ℕ → StringTable
stored tbl str j = record tbl {
  entries = set tbl.entries j (some (new_entry tbl str));
  entry_cnt = tbl.entry_cnt + 1;
  bfr = tbl.bfr ++ str ++ 0 ∷ [];
}

module _ (tbl : StringTable) (v : IsValid tbl) (str : List ℕ) where
  length-grown : length (tbl.bfr ++ str ++ 0 ∷ []) ≡ length tbl.bfr + length str + 1
  length-grown = omega (arith, length-append (tbl.bfr ++ str) (0 ∷ []), length-append tbl.bfr str)

  -- What stood in the pool stands there still.
  text-grown : (i : ℕ) (e : Entry) → At tbl i e → text (tbl.bfr ++ str ++ 0 ∷ []) e ≡ text tbl.bfr e
  text-grown i e at =
      let low = v.inside i e at in
      take-drop-append e.str e.len (tbl.bfr ++ str) (0 ∷ [])
        (omega (arith, length-append tbl.bfr str))
      ∙ take-drop-append e.str e.len tbl.bfr str (omega arith)

  text_new : text (tbl.bfr ++ str ++ 0 ∷ []) (new_entry tbl str) ≡ str
  unfolding new_entry
  text_new = take-drop-last tbl.bfr str (0 ∷ [])

  new_inside : (new_entry tbl str).str + (new_entry tbl str).len < length (tbl.bfr ++ str ++ 0 ∷ [])
  unfolding new_entry
  new_inside = omega (arith, length-grown)

  new_hash : hash str ≡ (new_entry tbl str).hash
  unfolding new_entry
  new_hash = refl

  matches-grown :
      (s : List ℕ) (i : ℕ) (e : Entry)
      → At tbl i e
      → matches tbl.bfr s e ≡ matches (tbl.bfr ++ str ++ 0 ∷ []) s e
  unfolding matches
  matches-grown s i e at = rw (text-grown i e at)

  module _ (j : ℕ)
      (slot : free_slot tbl.entry_cap tbl.entries (hash str % tbl.entry_cap) ≡ done j) where
    slot-free : (j < length tbl.entries) × (get_or tbl.entries j none ≡ none)
    slot-free = free_slot-free tbl.entries tbl.entry_cap _ (home-lt tbl v str) slot

    -- A name that was found is found in the new table, at the same address.
    pub lookup_entry-stored :
        (s : List ℕ) (e : Entry)
        → lookup_entry tbl s ≡ done (some e)
        → lookup_entry (stored tbl str j) s ≡ done (some e)
    unfolding lookup_entry stored
    lookup_entry-stored s e run =
        probe-set tbl.entries _ j slot-free.1 _ tbl.entry_cap _ e
          (sym (probe_congr tbl.entries _ _ (matches-grown s) tbl.entry_cap _) ∙ run)

    -- The stored name is found, at its own address.
    pub lookup_entry_new :
        lookup_entry tbl str ≡ done none
        → lookup_entry (stored tbl str j) str ≡ done (some (new_entry tbl str))
    unfolding lookup_entry stored
    lookup_entry_new absent =
        let here : matches (tbl.bfr ++ str ++ 0 ∷ []) str (new_entry tbl str) ≡ true =
          (matches_iff (tbl.bfr ++ str ++ 0 ∷ []) str (new_entry tbl str) new_inside
              (ap hash text_new ∙ new_hash)).1
            text_new in
        probe-free_slot tbl.entries (matches (tbl.bfr ++ str ++ 0 ∷ []) str) (new_entry tbl str)
          tbl.entry_cap _ here
          (λ i x at. sym (matches-grown str i x at) ∙ lookup_entry-absent tbl v str absent i x at)
          (home-lt tbl v str) slot

    At-cases :
        (i : ℕ) (e : Entry) → At (stored tbl str j) i e → (new_entry tbl str ≡ e) ⊎ At tbl i e
    unfolding stored
    At-cases i e at = elim (set-cases tbl.entries j i (new_entry tbl str) at) [
      | inl same ↦ inl same
      | inr (ne, old) ↦ inr old
    ]

    stored-distinct :
        (i k : ℕ) (e f : Entry)
        → At (stored tbl str j) i e
        → At (stored tbl str j) k f
        → e.str ≡ f.str
        → e ≡ f
    unfolding new_entry
    stored-distinct i k e f at af same = elim (At-cases i e at) [
      | inl en ↦ elim (At-cases k f af) [
        | inl fn ↦ sym en ∙ fn
        | inr old ↦ absurd (omega (arith, v.inside k f old, ap (λ (x : Entry). x.str) en))
      ]
      | inr old ↦ elim (At-cases k f af) [
        | inl fn ↦ absurd (omega (arith, v.inside i e old, ap (λ (x : Entry). x.str) fn))
        | inr old' ↦ v.distinct i k e f old old' same
      ]
    ]

    stored-home :
        lookup_entry tbl str ≡ done none
        → (i : ℕ) (e : Entry) → At (stored tbl str j) i e
        → lookup_entry (stored tbl str j) (text (tbl.bfr ++ str ++ 0 ∷ []) e) ≡ done (some e)
    stored-home absent i e at = elim (At-cases i e at) [
      | inl new ↦ rw (← new) (rw text_new (lookup_entry_new absent))
      | inr old ↦ rw (text-grown i e old) (lookup_entry-stored (text tbl.bfr e) e (v.home i e old))
    ]

    stored-inside :
        (i : ℕ) (e : Entry)
        → At (stored tbl str j) i e
        → e.str + e.len < length (tbl.bfr ++ str ++ 0 ∷ [])
    stored-inside i e at = elim (At-cases i e at) [
      | inl new ↦ rw (← new) new_inside
      | inr old ↦ omega (arith, v.inside i e old, length-grown)
    ]

    stored-hashed :
        (i : ℕ) (e : Entry)
        → At (stored tbl str j) i e
        → hash (text (tbl.bfr ++ str ++ 0 ∷ []) e) ≡ e.hash
    stored-hashed i e at = elim (At-cases i e at) [
      | inl new ↦ rw (← new) (ap hash text_new ∙ new_hash)
      | inr old ↦ ap hash (text-grown i e old) ∙ v.hashed i e old
    ]

    pub stored-IsValid : lookup_entry tbl str ≡ done none → IsValid (stored tbl str j)
    unfolding stored
    stored-IsValid absent = record {
      size = length-set tbl.entries j _ ∙ v.size;
      room = v.room;
      count =
          omega
            (arith, taken-set tbl.entries j (new_entry tbl str) slot-free.0 slot-free.1, v.count);
      inside = stored-inside;
      hashed = stored-hashed;
      home = stored-home absent;
      distinct = stored-distinct;
    }
