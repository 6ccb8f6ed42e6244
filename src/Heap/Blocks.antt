-- ===== src/Heap/Blocks.antt =====
-- Blocks of the buffer: where they end, and that they lie apart.
use mclua.Prelude.{
  ℕ, zero, suc, ◌+◌, ◌≤◌, ◌≡◌, ◌⊎◌, inl, inr, List, [], ◌∷◌, ◌++◌, some, arith, set, get_elem?, All,
  All-map, All-set, All-get_elem?, ◌≢◌, refl, ap, subst,
}
use mclua.Heap.{HeapHeader, ObjectType}

abbrev pub end : HeapHeader → ℕ
end h = h.address + h.objcap

abbrev pub Apart : HeapHeader → HeapHeader → Type 0
Apart a b = (end a ≤ b.address) ⊎ (end b ≤ a.address)

abbrev pub Separate : List HeapHeader → Type 0
Separate [] = Unit
Separate (b ∷ bs) = All (Apart b) bs × Separate bs

abbrev pub total : List HeapHeader → ℕ
total [] = 0
total (b ∷ bs) = b.objcap + total bs

abbrev pub Below : ℕ → HeapHeader → Type 0
Below top b = end b ≤ top

pub total-append :
    (bs : List HeapHeader) (b : HeapHeader) → total (bs ++ b ∷ []) ≡ total bs + b.objcap
total-append [] b = omega arith
total-append (c ∷ bs) b = omega (arith, total-append bs b)

pub total-set :
    (bs : List HeapHeader) (i : ℕ) (b : HeapHeader) {old : HeapHeader}
    → get_elem? bs i ≡ some old
    → total (set bs i b) + old.objcap ≡ total bs + b.objcap
total-set [] i b e = ground arith
total-set (c ∷ bs) zero b e = ground arith
total-set (c ∷ bs) (suc i) b e = omega (arith, total-set bs i b e)

pub All-Apart :
    (bs : List HeapHeader) (b : HeapHeader) → All (Below b.address) bs → All (Apart b) bs
All-Apart bs b all = All-map (Below b.address) (Apart b) bs (λ c h. inr h) all

pub Separate-append :
    (bs : List HeapHeader) (b : HeapHeader)
    → Separate bs
    → All (Below b.address) bs
    → Separate (bs ++ b ∷ [])
Separate-append [] b s all = (tt, tt)
Separate-append (c ∷ bs) b s all = (snoc bs s.0, Separate-append bs b s.1 all.1)
  where
    snoc : (ds : List HeapHeader) → All (Apart c) ds → All (Apart c) (ds ++ b ∷ [])
    snoc [] p = (inl all.0, tt)
    snoc (d ∷ ds) p = (p.0, snoc ds p.1)

pub Separate-set :
    (bs : List HeapHeader) (i : ℕ) (b : HeapHeader)
    → Separate bs
    → All (Below b.address) bs
    → Separate (set bs i b)
Separate-set [] i b s all = tt
Separate-set (c ∷ bs) zero b s all = (All-Apart bs b all.1, s.1)
Separate-set (c ∷ bs) (suc i) b s all = (replace bs i s.0, Separate-set bs i b s.1 all.1)
  where
    replace : (ds : List HeapHeader) (j : ℕ) → All (Apart c) ds → All (Apart c) (set ds j b)
    replace [] j p = tt
    replace (d ∷ ds) zero p = (inl all.0, p.1)
    replace (d ∷ ds) (suc j) p = (p.0, replace ds j p.1)

Apart-symm : (a b : HeapHeader) → Apart a b → Apart b a
Apart-symm a b (inl h) = inr h
Apart-symm a b (inr h) = inl h

pub Separate-get_elem? :
    (bs : List HeapHeader) (i j : ℕ) {a b : HeapHeader}
    → Separate bs
    → i ≢ j
    → get_elem? bs i ≡ some a
    → get_elem? bs j ≡ some b
    → Apart a b
Separate-get_elem? [] i j s ne ei ej = cc
Separate-get_elem? (c ∷ bs) zero zero s ne ei ej = absurd (ne refl)
Separate-get_elem? (c ∷ bs) zero (suc j) {a = a} {b = b} s ne ei ej =
    let same : c ≡ a = cc in subst (λ x. Apart x b) same (All-get_elem? (Apart c) bs j s.0 ej)
Separate-get_elem? (c ∷ bs) (suc i) zero {a = a} {b = b} s ne ei ej =
    let same : c ≡ b = cc in
    subst (Apart a) same (Apart-symm c a (All-get_elem? (Apart c) bs i s.0 ei))
Separate-get_elem? (c ∷ bs) (suc i) (suc j) s ne ei ej =
    Separate-get_elem? bs i j s.1 (λ e. ne (ap suc e)) ei ej

-- The type of an object says nothing of where it lies.
pub Separate-set_type :
    (bs : List HeapHeader) (i : ℕ) (t : ObjectType) {b : HeapHeader}
    → get_elem? bs i ≡ some b
    → Separate bs
    → Separate (set bs i (record b { type = t }))
Separate-set_type [] i t e s = tt
Separate-set_type (c ∷ bs) zero t {b = b} e s =
    let same : c ≡ b = cc in (subst (λ x. All (Apart x) bs) same s.0, s.1)
Separate-set_type (c ∷ bs) (suc i) t {b = b} e s = (
  All-set (Apart c) bs i (record b { type = t }) s.0 (All-get_elem? (Apart c) bs i s.0 e),
  Separate-set_type bs i t e s.1,
)
