-- ===== src/Tests/Strings.antt =====
-- Strings compared, turned round and appended.
use mclua.Prelude.{ℕ, arith, ◌≡◌, ◌↔◌, refl, List, [], ◌∷◌}
use mclua.Prelude.Int.{pos, negsuc}
use mclua.LStr.{LStr, mclstr_append_lstr, mclstr_cmp, memcmp, cmp_len, mclstr_reverse, reverse_loop}
use mclua.Heap.{McHeap, ObjectType}
use mclua.LStr.Room.{Appended, mclstr_append_lstr-Appended}
use mclua.LStr.Order.{compare_chars, mclstr_cmp-compare_chars, mclstr_cmp_iff}

abbrev ab : List ℕ
ab = b'a' ∷ b'b' ∷ []

abbrev abc : List ℕ
abc = b'a' ∷ b'b' ∷ b'c' ∷ []

prefix_first : mclstr_cmp ab abc ≡ negsuc 0
unfolding mclstr_cmp memcmp cmp_len
prefix_first = refl

reversed :
    mclstr_reverse (record { hdr = 1; chars = abc })
    ≡ record { hdr = 1; chars = b'c' ∷ b'b' ∷ b'a' ∷ [] }
unfolding mclstr_reverse reverse_loop
reversed = refl

mclstr_cmp-compare_chars_example : mclstr_cmp ab abc ≡ compare_chars ab abc
mclstr_cmp-compare_chars_example = mclstr_cmp-compare_chars ab abc

mclstr_cmp_iff_example : (mclstr_cmp ab abc ≡ pos 0) ↔ (ab ≡ abc)
mclstr_cmp_iff_example = mclstr_cmp_iff ab abc

-- An arena of 1000 bytes with a string of 10 bytes, four of them for its length.
abbrev arena : McHeap
arena = record {
  bfr = λ a. 0;
  bfrcap = 1000;
  managed_cap = 966;
  data_top = 10;
  head_bot = 976;
  headers = record { address = 0; objcap = 10; type = ObjectType.str } ∷ [];
  hdr_cnt = 1;
}

abbrev first : LStr
first = record { hdr = 0; chars = abc }

mclstr_append_lstr-Appended_example :
    Appended arena
      (omega arith)
      first
      (record { address = 0; objcap = 10; type = ObjectType.str }, refl, omega arith)
      (record { hdr = 5; chars = ab })
      (mclstr_append_lstr first (record { hdr = 5; chars = ab }) arena)
mclstr_append_lstr-Appended_example =
    mclstr_append_lstr-Appended arena (omega arith) first
      (record { address = 0; objcap = 10; type = ObjectType.str }, refl, omega arith)
      (record { hdr = 5; chars = ab }) (omega arith)
