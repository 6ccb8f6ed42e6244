-- ===== src/Lex/Input.antt =====
-- The buffer through which a file is lexed (`mclex_peek`, `mclex_advance` and
-- `mclex_update_file_input` of src/lex/mclex.c, `mcfs_readchunk` of src/mcf/mcfs.c): they give the
-- head and the tail of the file, whatever the size of the chunks.
use mclua.Prelude.{
  ℕ, zero, suc, ◌+◌, ◌-◌, ◌^◌, ◌<◌, ◌≤◌, ◌≡◌, refl, ap, ◌∙◌, List, [], ◌∷◌, ◌++◌, Option, none,
  some, true, false, ◌||◌, ◌==◌, ltb, if◌then◌else◌, length, take, drop, arith,
}
use mclua.Lex.{peek, advance, word_room}

-- C's fread: the number of bytes that it reads, of those that are wanted and those that the file
-- has. It reads some unless there are none.
pub record IsFread (fread : ℕ → List ℕ → ℕ) : Type 0 where
  pub wanted : (want : ℕ) (file : List ℕ) → fread want file ≤ want
  pub there : (want : ℕ) (file : List ℕ) → fread want file ≤ length file
  pub reads : (want b : ℕ) (file : List ℕ) → 0 < want → 0 < fread want (b ∷ file)

-- `rest` is `input` from `curr_char_idx` on; `file` is what is not read yet of a file that is open.
pub record Source : Type 0 where
  pub rest : List ℕ
  pub file : Option (List ℕ)
  pub max_file_chunk_size : ℕ

ap_pair {ℓ κ} :
    {A : Type ℓ} {B : Type κ} {a a' : A} {b b' : B}
    → a ≡ a'
    → b ≡ b'
    → ◌≡◌ {A = A × B} (a, b) (a', b')
ap_pair p q = λ i. (p i, q i)

module _ {ℓ} {A : Type ℓ} where
  take-nil : (n : ℕ) → take {A = A} n [] ≡ []
  take-nil zero = refl
  take-nil (suc n) = refl

  drop-nil : (n : ℕ) → drop {A = A} n [] ≡ []
  drop-nil zero = refl
  drop-nil (suc n) = refl

  -- The first `n` items and the next `k`, and what comes after them.
  take-drop :
      (n k m : ℕ) (xs : List A)
      → n + k ≡ m
      → (take n xs ++ take k (drop n xs) ≡ take m xs) × (drop k (drop n xs) ≡ drop m xs)
  take-drop zero k m xs e = let same : k ≡ m = omega arith in rw same (refl, refl)
  take-drop (suc n) k zero xs e = absurd (omega arith)
  take-drop (suc n) k (suc m) [] e = (take-nil k, drop-nil k)
  take-drop (suc n) k (suc m) (x ∷ xs) e =
      let (taken, dropped) = take-drop n k m xs (omega arith) in (ap (λ ys. x ∷ ys) taken, dropped)

  take-append-drop : (n : ℕ) (xs : List A) → take n xs ++ drop n xs ≡ xs
  take-append-drop zero xs = refl
  take-append-drop (suc n) [] = refl
  take-append-drop (suc n) (x ∷ xs) = ap (λ ys. x ∷ ys) (take-append-drop n xs)

module _ (fread : ℕ → List ℕ → ℕ) where
  -- The loop of `mcfs_readchunk`; each round but the last reads a byte at least.
  unfoldable pub read_loop : ℕ → ℕ → List ℕ → List ℕ × List ℕ
  read_loop zero want file = ([], file)
  read_loop (suc rounds) want file =
      let n = fread want file in
      let r = read_loop rounds (want - n) (drop n file) in
      if want == 0 || n == 0 then ([], file) else (take n file ++ r.0, r.1)

  -- `mcfs_readchunk`, of a buffer and a file that are there.
  unfoldable pub mcfs_readchunk : List ℕ → ℕ → ℕ → List ℕ × List ℕ
  unfolding read_loop
  mcfs_readchunk file bfrsize chunksize =
      if ltb bfrsize chunksize
      then ([], file)
      else read_loop (word_room chunksize) (word_room chunksize) file

  unfoldable pub mclex_update_file_input : Source → List ℕ → Source
  unfolding mcfs_readchunk
  mclex_update_file_input s file =
      let r = mcfs_readchunk file s.max_file_chunk_size s.max_file_chunk_size in
      record s { rest = r.0; file = some r.1 }

  -- The guard of `mclex_peek` and `mclex_advance`.
  unfoldable pub refill : Source → Source
  unfolding mclex_update_file_input
  refill s = elim s.rest [
    | [] ↦ elim s.file [ none ↦ s | some file ↦ mclex_update_file_input s file ]
    | c ∷ cs ↦ s
  ]

  unfoldable pub mclex_peek : Source → ℕ × Source
  unfolding refill
  mclex_peek s = (peek (refill s).rest, refill s)

  unfoldable pub mclex_advance : Source → ℕ × Source
  unfolding refill
  mclex_advance s = (peek (refill s).rest, record (refill s) { rest = advance (refill s).rest })

  -- What is still to come.
  abbrev pub unread : Option (List ℕ) → List ℕ
  unread none = []
  unread (some file) = file

  abbrev pub stream : Source → List ℕ
  stream s = s.rest ++ unread s.file

  module _ (law : IsFread fread) where
    read_loop_lem :
        (rounds want : ℕ) (file : List ℕ)
        → want ≤ rounds
        → read_loop rounds want file ≡ (take want file, drop want file)
    unfolding read_loop
    read_loop_lem zero want file le = let nothing : want ≡ 0 = omega arith in rw nothing refl
    read_loop_lem (suc rounds) zero file le = refl
    read_loop_lem (suc rounds) (suc want) [] le =
        let nothing : fread (suc want) [] ≡ 0 = omega (arith, law.there (suc want) []) in
        let stop : (suc want == 0 || fread (suc want) [] == 0) ≡ true = ground (arith, nothing) in
        rw stop refl
    read_loop_lem (suc rounds) (suc want) (b ∷ file) le =
        let n : ℕ = fread (suc want) (b ∷ file) in
        let some_read : 0 < n = law.reads (suc want) b file (omega arith) in
        let not_more : n ≤ suc want = law.wanted (suc want) (b ∷ file) in
        let on : (suc want == 0 || n == 0) ≡ false = ground (arith, some_read) in
        let rest =
          read_loop_lem rounds (suc want - n) (drop n (b ∷ file)) (omega (arith, some_read)) in
        let split = take-drop n (suc want - n) (suc want) (b ∷ file) (omega (arith, not_more)) in
        rw (on, rest) (ap_pair split.0 split.1)

    -- The chunk that is read is the first of the file, as long as the buffer allows, whatever the
    -- numbers of bytes that fread gives.
    mcfs_readchunk_lem :
        (file : List ℕ) (size : ℕ)
        → mcfs_readchunk file size size ≡ (take (word_room size) file, drop (word_room size) file)
    unfolding mcfs_readchunk
    mcfs_readchunk_lem file size =
        let fits : ltb size size ≡ false = ground arith in
        rw fits (read_loop_lem (word_room size) (word_room size) file (omega arith))

    refill-stream :
        (rest : List ℕ) (file : Option (List ℕ)) (size : ℕ)
        → 2 ≤ size
        → size < 2 ^ 64
        → (s' : Source) × (refill (record { rest = rest; file = file; max_file_chunk_size = size })
            ≡ s')
          × (s'.rest ++ unread s'.file ≡ rest ++ unread file)
          × (s'.rest ≡ [] → rest ++ unread file ≡ [])
          × (s'.max_file_chunk_size ≡ size)
    unfolding refill mclex_update_file_input
    refill-stream [] none size large small =
        (record { rest = []; file = none; max_file_chunk_size = size }, refl, refl, λ e. refl, refl)
    refill-stream [] (some file) size large small = (
      record {
        rest = take (word_room size) file;
        file = some (drop (word_room size) file);
        max_file_chunk_size = size;
      },
      rw (mcfs_readchunk_lem file size) refl,
      take-append-drop (word_room size) file,
      some_left (word_room size) file (omega arith),
      refl,
    )
      where
        some_left : (n : ℕ) (file : List ℕ) → 0 < n → take n file ≡ [] → file ≡ []
        some_left zero file pos e = absurd (omega arith)
        some_left (suc n) [] pos e = refl
        some_left (suc n) (b ∷ file) pos e = cc
    refill-stream (c ∷ rest) file size large small = (
      record { rest = c ∷ rest; file = file; max_file_chunk_size = size },
      refl,
      refl,
      λ e. cc,
      refl,
    )

    -- Through a buffer of two bytes or more, a peek gives the first character that is still to come,
    -- and leaves what is to come as it was; an advance gives it, too, and takes it away. Both give
    -- NUL at the end. That holds whatever the numbers of bytes that fread reads.
    pub mclex_advance-stream :
        (s : Source)
        → 2 ≤ s.max_file_chunk_size
        → s.max_file_chunk_size < 2 ^ 64
        → ((mclex_peek s).0 ≡ peek (stream s))
          × (stream (mclex_peek s).1 ≡ stream s)
          × ((mclex_advance s).0 ≡ peek (stream s))
          × (stream (mclex_advance s).1 ≡ advance (stream s))
    unfolding mclex_peek mclex_advance
    mclex_advance-stream s large small =
        let (s', filled, same, at_end, size) =
          refill-stream s.rest s.file s.max_file_chunk_size large small in
        let filled' : refill s ≡ s' = filled in
        let (p, a) = head s'.rest s'.file same at_end in rw filled' (p, same, p, a)
      where
        head :
            (rest : List ℕ) (file : Option (List ℕ))
            → rest ++ unread file ≡ stream s
            → (rest ≡ [] → stream s ≡ [])
            → (peek rest ≡ peek (stream s)) × (advance rest ++ unread file ≡ advance (stream s))
        head [] file same at_end = let done = at_end refl in rw done (refl, same ∙ done)
        head (c ∷ rest) file same at_end = rw (← same) (refl, refl)
