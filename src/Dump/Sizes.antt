-- ===== src/Dump/Sizes.antt =====
-- The size encoding of `luac_dump_size` (src/compile/mcluac.c): groups of seven bits, the highest
-- first, of which the last has the bit 0x80.
use Prim.Native.Nat.{bit_or}
use mclua.Prelude.{
  ℕ, zero, suc, ◌+◌, ◌*◌, ◌/◌, ◌%◌, ◌^◌, ◌<◌, ◌≤◌, ◌≡◌, refl, ap, ◌∙◌, inl, inr, List, [], ◌∷◌,
  ◌++◌, Option, none, some, true, false, arith, leb, ◌==◌, if◌then◌else◌, length, Bool-cases,
}
use native.Mathlib.Nat.{mod-lt, pow-suc}
use mclua.Prelude.Bits.{bit_or_shifted}
use mclua.Dump.{size_groups, mark_last, size_bytes}

-- How a loader reads a size (`loadUnsigned` of Lua's lundump.c): groups are joined until one has the
-- bit 0x80.
unfoldable pub load_size : ℕ → List ℕ → Option (ℕ × List ℕ)
load_size x [] = none
load_size x (b ∷ bytes) =
    let rest = load_size (x * 128 + b % 128) bytes in
    if leb 128 b then some (x * 128 + b % 128, bytes) else rest

mark_lem : (b : ℕ) → b < 128 → bit_or b 0x80 ≡ b + 128
mark_lem b h = bit_or_shifted 7 b 1 h

group-lt : (x : ℕ) → leb 128 (x % 128) ≡ false
group-lt x = ground (arith, mod-lt x (the_lt))
  where
    the_lt : 0 < 128
    the_lt = omega arith

load_group :
    (y z b : ℕ) (buf rest : List ℕ)
    → load_size y (mark_last (z % 128 ∷ b ∷ buf) ++ rest)
      ≡ load_size (y * 128 + z % 128) (mark_last (b ∷ buf) ++ rest)
unfolding mark_last load_size
load_group y z b buf rest =
    let twice : z % 128 % 128 ≡ z % 128 = omega arith in rw (group-lt z, twice) refl

-- The groups of a number are read in front of those that follow.
size_groups-load :
    (n x b : ℕ) (buf rest : List ℕ)
    → x < 128 ^ n
    → load_size 0 (mark_last (size_groups n x (b ∷ buf)) ++ rest)
      ≡ load_size x (mark_last (b ∷ buf) ++ rest)
unfolding size_groups
size_groups-load zero x b buf rest h = let is_zero : x ≡ 0 = omega arith in rw is_zero refl
size_groups-load (suc n) x b buf rest h = elim (Bool-cases (x / 128 == 0)) [
  | inl last ↦
      let is_last : 0 * 128 + x % 128 ≡ x = ground arith in
      rw last
        (load_group 0 x b buf rest ∙ ap (λ y. load_size y (mark_last (b ∷ buf) ++ rest)) is_last)
  | inr more ↦
      let whole : x / 128 * 128 + x % 128 ≡ x = omega arith in
      rw more (
        size_groups-load n (x / 128) (x % 128) (b ∷ buf) rest (omega (arith, pow-suc 128 n))
        ∙ load_group (x / 128) x b buf rest
        ∙ ap (λ y. load_size y (mark_last (b ∷ buf) ++ rest)) whole)
]

load_last :
    (y z : ℕ) (rest : List ℕ)
    → load_size y (mark_last (z % 128 ∷ []) ++ rest) ≡ some (y * 128 + z % 128, rest)
unfolding mark_last load_size
load_last y z rest =
    let marked : bit_or (z % 128) 0x80 ≡ z % 128 + 128 =
      mark_lem (z % 128) (mod-lt z (omega arith)) in
    let over : leb 128 (z % 128 + 128) ≡ true = ground arith in
    let low : (z % 128 + 128) % 128 ≡ z % 128 = omega arith in rw (marked, over, low) refl

load_groups :
    (n x : ℕ) (rest : List ℕ)
    → x < 128 ^ suc n
    → load_size 0 (mark_last (size_groups (suc n) x []) ++ rest) ≡ some (x, rest)
unfolding size_groups
load_groups n x rest h =
    let whole : x / 128 * 128 + x % 128 ≡ x = omega arith in
    elim (Bool-cases (x / 128 == 0)) [
      | inl last ↦
          let is_last : 0 * 128 + x % 128 ≡ x = ground arith in
          rw last (load_last 0 x rest ∙ ap (λ y. some (y, rest)) is_last)
      | inr more ↦ rw more (
          size_groups-load n (x / 128) (x % 128) [] rest (omega (arith, pow-suc 128 n))
          ∙ load_last (x / 128) x rest
          ∙ ap (λ y. some (y, rest)) whole)
    ]

-- Every u64 is read back as it was dumped, whatever follows.
pub load_size-size_bytes :
    (x : ℕ) (rest : List ℕ) → x < 2 ^ 64 → load_size 0 (size_bytes x ++ rest) ≡ some (x, rest)
unfolding size_bytes
load_size-size_bytes x rest h = load_groups 15 x rest (omega arith)

length-mark_last : (buf : List ℕ) → length (mark_last buf) ≡ length buf
unfolding mark_last
length-mark_last [] = refl
length-mark_last (b ∷ []) = refl
length-mark_last (b ∷ c ∷ buf) = ap suc (length-mark_last (c ∷ buf))

size_groups-le :
    (n k x : ℕ) (buf : List ℕ) → x < 128 ^ suc k → length (size_groups n x buf) ≤ length buf + suc k
unfolding size_groups
size_groups-le zero k x buf h = omega arith
size_groups-le (suc n) zero x buf h = elim (Bool-cases (x / 128 == 0)) [
  | inl last ↦ rw last (omega arith)
  | inr more ↦ absurd (ground arith)
]
size_groups-le (suc n) (suc k) x buf h = elim (Bool-cases (x / 128 == 0)) [
  | inl last ↦ rw last (omega arith)
  | inr more ↦
      let shorter =
        size_groups-le n k (x / 128) (x % 128 ∷ buf) (omega (arith, pow-suc 128 (suc k))) in
      rw more (omega (arith, shorter))
]

-- The size of a u64 takes at most 10 bytes, which is less than the 16 that the buffer has.
pub length-size_bytes-le : (x : ℕ) → x < 2 ^ 64 → length (size_bytes x) ≤ 10
unfolding size_bytes
length-size_bytes-le x h =
    omega (arith, length-mark_last (size_groups 16 x []), size_groups-le 16 9 x [] (omega arith))
