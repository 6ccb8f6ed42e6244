-- ===== src/StringTable/Valid.antt =====
-- The table's invariant, and what a lookup in a valid table says.
use mclua.Prelude.{
  ℕ, ◌+◌, ◌%◌, ◌<◌, ◌≡◌, refl, ◌≢◌, ◌↔◌, inl, inr, List, Option, none, some, true, false, arith,
  length, get_or, length-take, length-drop, drop, Bool-cases, subst,
}
use mclua.Probing.{done, spins, probe}
use mclua.Probing.Count.{taken, free_of_taken-lt, taken_everywhere}
use mclua.Probing.Laws.{probe-found, probe-ends, probe-spins, distance-lt}
use native.Mathlib.Nat.{mod-lt}
use mclua.StringTable.Pool.{same_bytes_iff}
use mclua.StringTable.{StringTable, Entry, text, hash, matches, lookup_entry}

-- `e` stands in some slot of the table.
abbrev pub At : StringTable → ℕ → Entry → Type 0
At tbl i e = get_or tbl.entries i none ≡ some e

pub record IsValid (tbl : StringTable) : Type 0 where
  pub size : length tbl.entries ≡ tbl.entry_cap
  pub room : 0 < tbl.entry_cap
  pub count : tbl.entry_cnt ≡ taken tbl.entries
  pub inside : (i : ℕ) (e : Entry) → At tbl i e → e.str + e.len < length tbl.bfr
  pub hashed : (i : ℕ) (e : Entry) → At tbl i e → hash (text tbl.bfr e) ≡ e.hash
  pub home : (i : ℕ) (e : Entry) → At tbl i e → lookup_entry tbl (text tbl.bfr e) ≡ done (some e)
  pub distinct : (i j : ℕ) (e f : Entry) → At tbl i e → At tbl j f → e.str ≡ f.str → e ≡ f

pub length-text :
    (bfr : List ℕ) (e : Entry) → e.str + e.len < length bfr → length (text bfr e) ≡ e.len
length-text bfr e h = omega (arith, length-take e.len (drop e.str bfr), length-drop e.str bfr)

-- In a pool that holds the entry, it matches exactly the name that stands at its address.
pub matches_iff :
    (bfr str : List ℕ) (e : Entry)
    → e.str + e.len < length bfr
    → hash (text bfr e) ≡ e.hash
    → (matches bfr str e ≡ true) ↔ (text bfr e ≡ str)
unfolding matches
matches_iff bfr str e inside hashed = (
  λ h. (same_bytes_iff (text bfr e) str).0 (ground arith),
  λ h. rw (← h) (
      ground (
        arith,
        length-text bfr e inside,
        hashed,
        (same_bytes_iff (text bfr e) (text bfr e)).1 refl,
      )),
)

module _ (tbl : StringTable) (v : IsValid tbl) where
  pub home-lt : (str : List ℕ) → hash str % tbl.entry_cap < length tbl.entries
  home-lt str = rw v.size (mod-lt _ v.room)

  -- A lookup that gives an entry gives one whose name is the one looked up.
  pub lookup_entry-found :
      (str : List ℕ) {e : Entry}
      → lookup_entry tbl str ≡ done (some e)
      → (i : ℕ) × At tbl i e × (text tbl.bfr e ≡ str)
  unfolding lookup_entry
  lookup_entry-found str {e = e} run =
      let (i, at, same) = probe-found tbl.entries (matches tbl.bfr str) tbl.entry_cap _ run in
      (i, at, (matches_iff tbl.bfr str e (v.inside i e at) (v.hashed i e at)).0 same)

  -- A lookup that gives none says that no entry has the name.
  pub lookup_entry-absent :
      (str : List ℕ)
      → lookup_entry tbl str ≡ done none
      → (i : ℕ) (e : Entry) → At tbl i e
      → matches tbl.bfr str e ≡ false
  lookup_entry-absent str run i e at = elim (Bool-cases (matches tbl.bfr str e)) [
    | inr other ↦ other
    | inl same ↦
        let eq = (matches_iff tbl.bfr str e (v.inside i e at) (v.hashed i e at)).0 same in
        cc (subst (λ s. lookup_entry tbl s ≡ done (some e)) eq (v.home i e at))
  ]

  -- While a slot is free, a lookup ends.
  pub lookup_entry-ends :
      (str : List ℕ)
      → tbl.entry_cnt < tbl.entry_cap
      → (r : Option Entry) × (lookup_entry tbl str ≡ done r)
  unfolding lookup_entry
  lookup_entry-ends str free =
      let (z, lt, at) = free_of_taken-lt tbl.entries (omega (arith, v.size, v.count)) in
      probe-ends tbl.entries (matches tbl.bfr str) tbl.entry_cap _ z lt (home-lt str) at
        (omega (arith, distance-lt (length tbl.entries) z _ lt (home-lt str), v.size))

  -- In a full table the search for a name that no entry has does not end.
  pub lookup-spins :
      (str : List ℕ) (fuel : ℕ)
      → tbl.entry_cnt ≡ tbl.entry_cap
      → ((i : ℕ) (e : Entry) → At tbl i e → text tbl.bfr e ≢ str)
      → probe fuel tbl.entries (matches tbl.bfr str) (hash str % tbl.entry_cap) ≡ spins
  lookup-spins str fuel full absent =
      probe-spins tbl.entries (matches tbl.bfr str) fuel _ (home-lt str) λ i lt.
        let (e, at) = taken_everywhere tbl.entries i (omega (arith, v.size, v.count)) lt in
        let iff = matches_iff tbl.bfr str e (v.inside i e at) (v.hashed i e at) in
        (
          e,
          at,
          elim (Bool-cases (matches tbl.bfr str e)) [
            | inl same ↦ absurd (absent i e at (iff.0 same))
            | inr other ↦ other
          ],
        )
