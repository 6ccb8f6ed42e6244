-- ===== src/Dump/Writes.antt =====
-- What a step of the dump writes: it puts its bytes behind those that were put before, in the file
-- or in the buffer, or a write of the file was short.
use mclua.Prelude.{
  ℕ, ◌+◌, ◌^◌, ◌<◌, ◌≤◌, ◌≡◌, ◌≢◌, refl, sym, ap, ◌∙◌, subst, ◌⊎◌, inl, inr, List, [], ◌∷◌, ◌++◌,
  append-nil, append_assoc, Option, none, some, false, arith, ltb, length, length-append,
  Bool-cases, ◌==◌,
}
use native.Mathlib.Nat.{mod-eq_of_lt}
use mclua.Heap.{add_u64}
use mclua.Dump.{
  LuacBfr, Step, ◌>>◌, mcfs_writebytes, luac_flush, put_direct, put_buffered, luac_put,
}

module _ {File : Type 0} (fwrite : File → List ℕ → ℕ × File) (contents : File → List ℕ) where
  -- A write that was not complete.
  abbrev pub Short : Type 0
  Short = (file : File) × (bytes : List ℕ) × ((fwrite file bytes).0 ≢ length bytes)

  -- A complete write puts its bytes behind what the file has.
  abbrev pub Appends : Type 0
  Appends =
      (file : File) (bytes : List ℕ)
      → (fwrite file bytes).0 ≡ length bytes
      → contents (fwrite file bytes).1 ≡ contents file ++ bytes

  pub record IsValid (b : LuacBfr File) : Type 0 where
    pub within : length b.bfr ≤ b.cap
    pub small : b.cap < 2 ^ 63

  -- What was put into the file and the buffer.
  abbrev pub put_bytes : LuacBfr File → List ℕ
  put_bytes b = contents b.out ++ b.bfr

  pub record Put (b : LuacBfr File) (bytes : List ℕ) (run : Option (LuacBfr File)) : Type 0 where
    pub after : LuacBfr File
    pub runs : run ≡ some after
    pub valid : IsValid after
    pub same_cap : after.cap ≡ b.cap
    pub behind : put_bytes after ≡ put_bytes b ++ bytes

  abbrev pub Outcome : LuacBfr File → List ℕ → Option (LuacBfr File) → Type 0
  Outcome b bytes run = ((run ≡ none) × Short) ⊎ Put b bytes run

  pub record Writes (step : Step File) (bytes : List ℕ) : Type 0 where
    pub outcome : (b : LuacBfr File) → IsValid b → Outcome b bytes (step b)

  module _ (law : Appends) where
    pub Writes-nothing : Writes some []
    Writes-nothing = record {
      outcome = λ b v. inr (record {
        after = b;
        runs = refl;
        valid = v;
        same_cap = refl;
        behind = sym (append-nil (put_bytes b));
      });
    }

    pub Writes-then :
        {first second : Step File} {bytes bytes' : List ℕ}
        → Writes first bytes
        → Writes second bytes'
        → Writes (first >> second) (bytes ++ bytes')
    Writes-then {first} {second} {bytes} {bytes'} w w' = record {
      outcome = λ b v. elim (w.outcome b v) [
        | inl (failed, short) ↦ inl (rw (failed, ◌>>◌) refl, short)
        | inr p ↦ elim (w'.outcome p.after p.valid) [
          | inl (failed, short) ↦ inl (rw (p.runs, ◌>>◌) failed, short)
          | inr q ↦ inr (record {
            after = q.after;
            runs = rw (p.runs, ◌>>◌) q.runs;
            valid = q.valid;
            same_cap = q.same_cap ∙ p.same_cap;
            behind =
                q.behind
                ∙ ap (λ put. put ++ bytes') p.behind
                ∙ append_assoc (put_bytes b) bytes bytes';
          })
        ]
      ];
    }

    write_cases :
        (file : File) (bytes : List ℕ)
        → ((mcfs_writebytes fwrite file bytes ≡ none) × Short)
          ⊎ ((file' : File) × (mcfs_writebytes fwrite file bytes ≡ some file')
              × (contents file' ≡ contents file ++ bytes))
    unfolding mcfs_writebytes
    write_cases file bytes = elim (Bool-cases (length bytes == (fwrite file bytes).0)) [
      | inl same ↦ inr ((fwrite file bytes).1, rw same refl, law file bytes (ground arith))
      | inr other ↦ inl (rw other refl, (file, bytes, ground arith))
    ]

    no_bytes : (bytes : List ℕ) → ltb 0 (length bytes) ≡ false → bytes ≡ []
    no_bytes [] h = refl
    no_bytes (b ∷ bytes) h = ground arith

    -- The buffer is empty after a flush.
    pub flush_cases :
        (b : LuacBfr File)
        → ((luac_flush fwrite b ≡ none) × Short)
          ⊎ ((out' : File) × (luac_flush fwrite b ≡ some (record b { out = out'; bfr = [] }))
              × (contents out' ≡ put_bytes b))
    unfolding luac_flush
    flush_cases b = elim (Bool-cases (ltb 0 (length b.bfr))) [
      | inr empty ↦
          let nothing : b.bfr ≡ [] = no_bytes b.bfr empty in
          inr (
            b.out,
            rw (empty, luac_flush) (ap (λ bs. some (record b { bfr = bs })) nothing),
            rw nothing (sym (append-nil (contents b.out))),
          )
      | inl some_bytes ↦ elim (write_cases b.out b.bfr) [
        | inl (failed, short) ↦ inl (rw (some_bytes, failed, luac_flush) refl, short)
        | inr (out', wrote, behind) ↦ inr (out', rw (some_bytes, wrote, luac_flush) refl, behind)
      ]
    ]

    pub luac_flush-Writes : Writes (luac_flush fwrite) []
    luac_flush-Writes = record {
      outcome = λ b v. elim (flush_cases b) [
        | inl failed ↦ inl failed
        | inr (out', flushed, behind) ↦ inr (record {
          after = record b { out = out'; bfr = [] };
          runs = flushed;
          valid = record { within = omega arith; small = v.small };
          same_cap = refl;
          behind = append-nil (contents out') ∙ behind ∙ sym (append-nil (put_bytes b));
        })
      ];
    }

    module _ (bytes : List ℕ) (b : LuacBfr File) (v : IsValid b) where
      flush-put_direct : Outcome b bytes ((luac_flush fwrite >> put_direct fwrite bytes) b)
      unfolding put_direct
      flush-put_direct = elim (flush_cases b) [
        | inl (failed, short) ↦ inl (rw (failed, ◌>>◌) refl, short)
        | inr (out', flushed, behind) ↦ elim (write_cases out' bytes) [
          | inl (failed, short) ↦ inl (rw (flushed, ◌>>◌, put_direct, failed) refl, short)
          | inr (out'', wrote, behind') ↦ inr (record {
            after = record b { out = out''; bfr = [] };
            runs = rw (flushed, ◌>>◌, put_direct, wrote) refl;
            valid = record { within = omega arith; small = v.small };
            same_cap = refl;
            behind = append-nil (contents out'') ∙ behind' ∙ ap (λ put. put ++ bytes) behind;
          })
        ]
      ]

      flush-put_buffered :
          length bytes ≤ b.cap
          → Outcome b bytes ((luac_flush fwrite >> put_buffered fwrite bytes) b)
      unfolding put_buffered
      flush-put_buffered fits = elim (flush_cases b) [
        | inl (failed, short) ↦ inl (rw (failed, ◌>>◌) refl, short)
        | inr (out', flushed, behind) ↦ inr (record {
          after = record b { out = out'; bfr = bytes };
          runs = rw (flushed, ◌>>◌) refl;
          valid = record { within = fits; small = v.small };
          same_cap = refl;
          behind = ap (λ put. put ++ bytes) behind;
        })
      ]

      put_buffered_lem :
          length b.bfr + length bytes ≤ b.cap → Outcome b bytes (put_buffered fwrite bytes b)
      unfolding put_buffered
      put_buffered_lem fits = inr (record {
        after = record b { bfr = b.bfr ++ bytes };
        runs = refl;
        valid = record { within = omega (arith, fits, length-append b.bfr bytes); small = v.small };
        same_cap = refl;
        behind = sym (append_assoc (contents b.out) b.bfr bytes);
      })

      put_cases : Outcome b bytes (luac_put fwrite bytes b)
      unfolding luac_put
      put_cases =
          let room = length b.bfr + length bytes in
          elim (Bool-cases (ltb b.cap (length bytes))) [
            | inl large ↦ subst (Outcome b bytes) (sym (rw (large, luac_put) refl)) flush-put_direct
            | inr small ↦
                let sum : add_u64 (length b.bfr) (length bytes) ≡ room =
                  mod-eq_of_lt (ground (arith, v.within, v.small)) in
                elim (Bool-cases (ltb b.cap room)) [
                  | inl full ↦
                      subst (Outcome b bytes) (sym (rw (small, sum, full, luac_put) refl))
                        (flush-put_buffered (ground arith))
                  | inr fits ↦
                      subst (Outcome b bytes) (sym (rw (small, sum, fits, luac_put) refl))
                        (put_buffered_lem (ground arith))
                ]
          ]

    pub luac_put-Writes : (bytes : List ℕ) → Writes (luac_put fwrite bytes) bytes
    luac_put-Writes bytes = record { outcome = put_cases bytes }
