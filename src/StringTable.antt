-- ===== src/StringTable.antt =====
-- src/strtbl/mcstrtbl.c and src/strtbl/mcstrtbl.h: the table of interned names. A name is interned
-- once and compared by its address afterwards, as the compiler does. An address is an offset into
-- the table's byte pool; `bfr` holds the pool's first `bfr_used` bytes. A `Run` that `spins` is a
-- probe that never comes to a free slot.
pub mod Pool
pub mod Valid
pub mod Intern
pub mod Ends
pub mod Contract
use Prim.Native.Nat.{bit_xor}
use mclua.Prelude.{
  ℕ, ◌+◌, ◌-◌, ◌*◌, ◌%◌, ◌^◌, List, [], ◌∷◌, ◌++◌, Option, none, some, Bool, true, false, ◌&&◌, ltb,
  leb, ◌==◌, if◌then◌else◌, length, take, drop, replicate, set,
}
use mclua.Probing
use mclua.Probing.{Run, done, spins, probe, free_slot}

pub record Entry : Type 0 where
  pub str : ℕ
  pub len : ℕ
  pub hash : ℕ

pub record StringTable : Type 0 where
  pub entries : List (Option Entry)
  pub entry_cap : ℕ
  pub entry_cnt : ℕ
  pub bfr : List ℕ
  pub bfrcap : ℕ

-- sizeof(strtbl_entry) where pointers have 8 bytes.
abbrev pub entry_size : ℕ
entry_size = 16

-- `mcstrtbl_init` over a zeroed buffer, which the arena's static reservations are. `none` is -1.
unfoldable pub init : ℕ → ℕ → Option StringTable
init maxvars bfrcap =
    let entries_size = maxvars * entry_size in
    if leb bfrcap entries_size
    then none
    else some (record {
      entries = replicate maxvars none;
      entry_cap = maxvars;
      entry_cnt = 0;
      bfr = [];
      bfrcap = bfrcap - entries_size;
    })

-- `mcstrtbl_clear`
unfoldable pub clear : StringTable → StringTable
clear tbl = record tbl { entries = replicate tbl.entry_cap none; entry_cnt = 0; bfr = [] }

-- `mcstrtbl_hash`: FNV-1a over 32 bits.
unfoldable pub hash_from : ℕ → List ℕ → ℕ
hash_from h [] = h
hash_from h (c ∷ cs) = hash_from (bit_xor h c * 16777619 % 2 ^ 32) cs

unfoldable pub hash : List ℕ → ℕ
hash str = hash_from 2166136261 str

-- `0 == memcmp(a, b, len)`
unfoldable pub same_bytes : List ℕ → List ℕ → Bool
same_bytes [] [] = true
same_bytes [] (b ∷ bs) = false
same_bytes (a ∷ as_) [] = false
same_bytes (a ∷ as_) (b ∷ bs) = a == b && same_bytes as_ bs

-- The `len` bytes at an entry's address.
abbrev pub text : List ℕ → Entry → List ℕ
text bfr e = take e.len (drop e.str bfr)

-- The test in the lookup loop.
unfoldable pub matches : List ℕ → List ℕ → Entry → Bool
unfolding same_bytes
matches bfr str e = hash str == e.hash && length str == e.len && same_bytes (text bfr e) str

-- `mcstrtbl_lookup`, up to the entry whose address it returns.
unfoldable pub lookup_entry : StringTable → List ℕ → Run (Option Entry)
lookup_entry tbl str =
    probe tbl.entry_cap tbl.entries (matches tbl.bfr str) (hash str % tbl.entry_cap)

abbrev address : Option Entry → Run (Option ℕ)
address none = done none
address (some e) = done (some e.str)

unfoldable pub lookup : StringTable → List ℕ → Run (Option ℕ)
lookup tbl str = Probing.bind (lookup_entry tbl str) address

-- The part of `mcstrtbl_intern` that stores a name which is not in the table.
unfoldable pub store : StringTable → List ℕ → Run (Option ℕ × StringTable)
store tbl str = Probing.bind (free_slot tbl.entry_cap tbl.entries (hash str % tbl.entry_cap)) λ idx.
    done (
      some (length tbl.bfr),
      record tbl {
        entries =
            set tbl.entries idx
              (some (record { str = length tbl.bfr; len = length str; hash = hash str }));
        entry_cnt = tbl.entry_cnt + 1;
        bfr = tbl.bfr ++ str ++ 0 ∷ [];
      },
    )

-- `mcstrtbl_intern` after the lookup.
unfoldable pub intern_new : StringTable → List ℕ → Option ℕ → Run (Option ℕ × StringTable)
intern_new tbl str (some existing) = done (some existing, tbl)
intern_new tbl str none =
    if leb tbl.entry_cap tbl.entry_cnt
    then done (none, tbl)
    else if ltb tbl.bfrcap (length tbl.bfr + length str + 1)
    then done (none, tbl)
    else store tbl str

-- `mcstrtbl_intern`
unfoldable pub intern : StringTable → List ℕ → Run (Option ℕ × StringTable)
intern tbl str =
    if length str == 0 then done (none, tbl) else Probing.bind (lookup tbl str) (intern_new tbl str)
