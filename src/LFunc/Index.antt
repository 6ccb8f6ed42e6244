-- ===== src/LFunc/Index.antt =====
-- The index of the constants: what it means that a table of entries indexes a list of constants,
-- and that an insertion keeps it.
use mclua.Prelude.{
  ℕ, zero, suc, ◌%◌, ◌<◌, ◌≡◌, ◌≢◌, ◌↔◌, refl, sym, ap, ◌∙◌, subst, ◌⊎◌, inl, inr, List, [], ◌∷◌,
  ◌++◌, Option, none, some, Bool, true, false, ◌&&◌, ◌==◌, arith, length, length-set, get_or,
  get_elem?, set, Bool-cases, get_elem?-append_left, get_elem?-lt,
}
use mclua.Prelude.Int.{ℤ, pos, negsuc}
use mclua.Probing.{done, probe, free_slot}
use mclua.Probing.Laws.{probe-set, probe_congr, probe-free_slot, free_slot-free}
use native.Mathlib.Nat.{mod-lt}
use mclua.LStr.{LStr, mclstr_cmp}
use mclua.LStr.Order.{mclstr_cmp_iff}
use mclua.LFunc.{
  Constant, k_int, k_flt, k_str, ConstIndexEntry, const_hash, same_constant, is_entry_of,
}

-- `e` stands in slot `i`.
abbrev pub At : List (Option ConstIndexEntry) → ℕ → ConstIndexEntry → Type 0
At entries i e = get_or entries i none ≡ some e

pub set-cases :
    {E : Type 0} (slots : List (Option E)) (j i : ℕ) (e : E) {x : E}
    → get_or (set slots j (some e)) i none ≡ some x
    → ((i ≡ j) × (e ≡ x)) ⊎ ((i ≢ j) × (get_or slots i none ≡ some x))
set-cases [] j i e h = cc
set-cases (y ∷ slots) zero zero e h = inl (refl, cc)
set-cases (y ∷ slots) zero (suc i) e h = inr (omega arith, h)
set-cases (y ∷ slots) (suc j) zero e h = inr (omega arith, h)
set-cases (y ∷ slots) (suc j) (suc i) e h = elim (set-cases slots j i e h) [
  | inl (same, new) ↦ inl (ap suc same, new)
  | inr (ne, old) ↦ inr (omega arith, old)
]

-- What the processor's comparison of floating-point numbers is relied on for. A number that is not
-- equal to itself is allowed.
pub record IsFloatEq (float_eq : ℕ → ℕ → Bool) : Type 0 where
  pub symm : (v w : ℕ) → float_eq v w ≡ true → float_eq w v ≡ true
  pub trans : (u v w : ℕ) → float_eq u v ≡ true → float_eq v w ≡ true → float_eq u w ≡ true

module _ (float_eq : ℕ → ℕ → Bool) where
  -- Two constants that the index takes for one: the hashes are compared, too.
  abbrev pub like : Constant → Constant → Bool
  like c d = const_hash d == const_hash c && same_constant float_eq c d

  -- Strings are the same constant exactly where their characters are equal.
  pub same_constant-str :
      (v w : LStr) → (same_constant float_eq (k_str v) (k_str w) ≡ true) ↔ (v.chars ≡ w.chars)
  unfolding same_constant
  same_constant-str v w = (
    by_sign (mclstr_cmp v.chars w.chars) refl,
    λ e. rw ((mclstr_cmp_iff v.chars w.chars).1 e, same_constant) refl,
  )
    where
      by_sign :
          (r : ℤ)
          → mclstr_cmp v.chars w.chars ≡ r
          → (elim r [ pos n ↦ n == 0 | negsuc n ↦ false ]) ≡ true
          → v.chars ≡ w.chars
      by_sign (pos zero) e h = (mclstr_cmp_iff v.chars w.chars).0 e
      by_sign (pos (suc n)) e h = ground arith
      by_sign (negsuc n) e h = cc

  module _ (law : IsFloatEq float_eq) where
    same_constant_symm :
        (c d : Constant) → same_constant float_eq c d ≡ true → same_constant float_eq d c ≡ true
    unfolding same_constant
    same_constant_symm (k_int v) (k_int w) h = ground arith
    same_constant_symm (k_flt v) (k_flt w) h = law.symm v w h
    same_constant_symm (k_str v) (k_str w) h =
        (same_constant-str w v).1 (sym ((same_constant-str v w).0 h))
    same_constant_symm (k_int v) (k_flt w) h = cc
    same_constant_symm (k_int v) (k_str w) h = cc
    same_constant_symm (k_flt v) (k_int w) h = cc
    same_constant_symm (k_flt v) (k_str w) h = cc
    same_constant_symm (k_str v) (k_int w) h = cc
    same_constant_symm (k_str v) (k_flt w) h = cc

    same_constant_trans :
        (b c d : Constant)
        → same_constant float_eq b c ≡ true
        → same_constant float_eq c d ≡ true
        → same_constant float_eq b d ≡ true
    unfolding same_constant
    same_constant_trans (k_int u) (k_int v) (k_int w) h k = ground arith
    same_constant_trans (k_flt u) (k_flt v) (k_flt w) h k = law.trans u v w h k
    same_constant_trans (k_str u) (k_str v) (k_str w) h k =
        (same_constant-str u w).1 ((same_constant-str u v).0 h ∙ (same_constant-str v w).0 k)
    same_constant_trans (k_int u) (k_int v) (k_flt w) h k = cc
    same_constant_trans (k_int u) (k_int v) (k_str w) h k = cc
    same_constant_trans (k_flt u) (k_flt v) (k_int w) h k = cc
    same_constant_trans (k_flt u) (k_flt v) (k_str w) h k = cc
    same_constant_trans (k_str u) (k_str v) (k_int w) h k = cc
    same_constant_trans (k_str u) (k_str v) (k_flt w) h k = cc
    same_constant_trans (k_int u) (k_flt v) d h k = cc
    same_constant_trans (k_int u) (k_str v) d h k = cc
    same_constant_trans (k_flt u) (k_int v) d h k = cc
    same_constant_trans (k_flt u) (k_str v) d h k = cc
    same_constant_trans (k_str u) (k_int v) d h k = cc
    same_constant_trans (k_str u) (k_flt v) d h k = cc

    pub like_symm : (c d : Constant) → like c d ≡ true → like d c ≡ true
    like_symm c d h = ground (arith, same_constant_symm c d)

    pub like_trans : (b c d : Constant) → like b c ≡ true → like c d ≡ true → like b d ≡ true
    like_trans b c d h k = ground (arith, same_constant_trans b c d)

    pub like_self : (c d : Constant) → like c d ≡ true → like d d ≡ true
    like_self c d h = like_trans d c d (like_symm c d h) h

    -- What a constant is like depends only on what it is like to: the test of one is the test of
    -- the other.
    pub like_congr : (b c d : Constant) → like b c ≡ true → like b d ≡ like c d
    like_congr b c d h = elim (Bool-cases (like b d)) [
      | inl yes_b ↦ yes_b ∙ sym (like_trans c b d (like_symm b c h) yes_b)
      | inr no_b ↦ elim (Bool-cases (like c d)) [
        | inl yes_c ↦ cc (like_trans b c d h yes_c)
        | inr no_c ↦ no_b ∙ sym no_c
      ]
    ]

  -- The table of entries indexes constants: an entry has a constant and its hash, no two have the
  -- same one, and the search for the constant comes to its entry, unless the constant is not even
  -- like itself.
  pub record Indexes (consts : List Constant) (entries : List (Option ConstIndexEntry))
      : Type 0 where
    pub inside :
        (i : ℕ) (e : ConstIndexEntry)
        → At entries i e
        → (d : Constant) × (get_elem? consts e.idx ≡ some d) × (e.hash ≡ const_hash d)
    pub home :
        (i : ℕ) (e : ConstIndexEntry) (d : Constant)
        → At entries i e
        → get_elem? consts e.idx ≡ some d
        → like d d ≡ true
        → probe
            (length entries)
            entries
            (is_entry_of float_eq consts d)
            (const_hash d % length entries)
          ≡ done (some e)
    pub unique :
        (i j : ℕ) (e f : ConstIndexEntry) → At entries i e → At entries j f → e.idx ≡ f.idx → i ≡ j

  -- The test of the loop at an entry whose constant is `d`.
  pub is_entry_of_lem :
      (consts : List Constant) (c d : Constant) (e : ConstIndexEntry)
      → get_elem? consts e.idx ≡ some d
      → e.hash ≡ const_hash d
      → is_entry_of float_eq consts c e ≡ like c d
  unfolding is_entry_of
  is_entry_of_lem consts c d e at h = rw (at, is_entry_of) (rw h refl)

  module _ (consts : List Constant) (entries : List (Option ConstIndexEntry))
      (v : Indexes consts entries) where
    -- Constants that are added behind change nothing.
    pub Indexes-append : (c : Constant) → Indexes (consts ++ c ∷ []) entries
    Indexes-append c = record {
      inside = λ i e at.
          let (d, has, h) = v.inside i e at in
          (d, get_elem?-append_left consts (c ∷ []) e.idx (get_elem?-lt consts e.idx has) ∙ has, h);
      home = λ i e d at has self.
          let (d', has', h) = v.inside i e at in
          let front =
            get_elem?-append_left consts (c ∷ []) e.idx (get_elem?-lt consts e.idx has') in
          sym (probe_congr entries _ _ (same_test d) (length entries) _)
          ∙ v.home i e d at (sym front ∙ has) self;
      unique = v.unique;
    }
      where
        same_test :
            (d : Constant) (i : ℕ) (x : ConstIndexEntry)
            → At entries i x
            → is_entry_of float_eq consts d x ≡ is_entry_of float_eq (consts ++ c ∷ []) d x
        same_test d i x at =
            let (d', has, h) = v.inside i x at in
            let has' =
              get_elem?-append_left consts (c ∷ []) x.idx (get_elem?-lt consts x.idx has) ∙ has in
            is_entry_of_lem consts d d' x has h
            ∙ sym (is_entry_of_lem (consts ++ c ∷ []) d d' x has' h)

    module _ (k j : ℕ) (d : Constant) (has_k : get_elem? consts k ≡ some d)
        (pos : 0 < length entries)
        (others : (i : ℕ) (x : ConstIndexEntry) (d' : Constant)
          → At entries i x
          → get_elem? consts x.idx ≡ some d'
          → (x.idx ≢ k) × (like d d' ≡ false))
        (slot : free_slot (length entries) entries (const_hash d % length entries) ≡ done j) where
      abbrev pub new_entry : ConstIndexEntry
      new_entry = record { hash = const_hash d; idx = k }

      abbrev pub inserted : List (Option ConstIndexEntry)
      inserted = set entries j (some new_entry)

      home-lt : (c : Constant) → const_hash c % length entries < length entries
      home-lt c = mod-lt _ pos

      slot-free : (j < length entries) × (get_or entries j none ≡ none)
      slot-free = free_slot-free entries (length entries) _ (home-lt d) slot

      At-inserted :
          (i : ℕ) (x : ConstIndexEntry)
          → At inserted i x
          → ((i ≡ j) × (new_entry ≡ x)) ⊎ ((i ≢ j) × At entries i x)
      At-inserted i x at = set-cases entries j i new_entry at

      inserted-home :
          (i : ℕ) (e : ConstIndexEntry) (c : Constant)
          → At inserted i e
          → get_elem? consts e.idx ≡ some c
          → like c c ≡ true
          → probe
              (length entries)
              inserted
              (is_entry_of float_eq consts c)
              (const_hash c % length entries)
            ≡ done (some e)
      inserted-home i e c at has self = elim (At-inserted i e at) [
        | inr (ne, old) ↦
            probe-set entries (is_entry_of float_eq consts c) j slot-free.1 new_entry
              (length entries) _ e (v.home i e c old has self)
        | inl (here, new) ↦
            let is_d : d ≡ c = cc in
            let self' : like d d ≡ true = rw is_d self in
            let found =
              probe-free_slot entries (is_entry_of float_eq consts d) new_entry (length entries) _
                (is_entry_of_lem consts d d new_entry has_k refl ∙ self') (other_test) (home-lt d)
                slot in
            rw (← new) (
              subst
                (λ x.
                  probe (length entries) inserted (is_entry_of float_eq consts x)
                    (const_hash x % length entries)
                  ≡ done (some new_entry))
                is_d found)
      ]
        where
          other_test :
              (i : ℕ) (x : ConstIndexEntry)
              → At entries i x
              → is_entry_of float_eq consts d x ≡ false
          other_test i x at =
              let (d', has, h) = v.inside i x at in
              is_entry_of_lem consts d d' x has h ∙ (others i x d' at has).1

      -- An entry that is put in the free slot for its constant is indexed, too.
      pub Indexes-insert : Indexes consts inserted
      Indexes-insert = record {
        inside = λ i e at. elim (At-inserted i e at) [
          | inl (here, new) ↦ (d, rw (← new) has_k, sym (ap (λ (x : ConstIndexEntry). x.hash) new))
          | inr (ne, old) ↦ v.inside i e old
        ];
        home = λ i e c at has self.
            rw (length-set entries j (some new_entry)) (inserted-home i e c at has self);
        unique = λ i l e f at af same. elim (At-inserted i e at) [
          | inl (here, new) ↦ elim (At-inserted l f af) [
            | inl (here', new') ↦ here ∙ sym here'
            | inr (ne, old) ↦
                absurd
                  ((other_idx l f old) (sym same ∙ sym (ap (λ (x : ConstIndexEntry). x.idx) new)))
          ]
          | inr (ne, old) ↦ elim (At-inserted l f af) [
            | inl (here, new) ↦
                absurd ((other_idx i e old) (same ∙ sym (ap (λ (x : ConstIndexEntry). x.idx) new)))
            | inr (ne', old') ↦ v.unique i l e f old old' same
          ]
        ];
      }
        where
          other_idx : (i : ℕ) (x : ConstIndexEntry) → At entries i x → x.idx ≢ k
          other_idx i x at = let (d', has, h) = v.inside i x at in (others i x d' at has).0
