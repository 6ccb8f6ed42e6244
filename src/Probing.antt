-- ===== src/Probing.antt =====
-- Open addressing with linear probing, the loop that src/strtbl/mcstrtbl.c (`mcstrtbl_lookup`,
-- `mcstrtbl_intern`) and src/lib/mclfunc.c (`mclfunc_const_int` and its like,
-- `const_index_insert_raw`) run over their tables. A table is the list of its slots, `none` for a
-- free one. The loops have no bound in the source: they run on fuel here, and `spins` says that
-- the fuel ran out.
pub mod Laws
pub mod Count
use mclua.Prelude.{
  ℕ, zero, suc, ◌+◌, ◌%◌, List, Option, none, some, Bool, get_or, length, if◌then◌else◌,
}

pub data Run {ℓ} (A : Type ℓ) : Type ℓ where
  done : A → Run A
  spins : Run A

abbrev pub bind {ℓ κ} : {A : Type ℓ} {B : Type κ} → Run A → (A → Run B) → Run B
bind (done a) f = f a
bind spins f = spins

module _ {ℓ} {E : Type ℓ} where
  -- `idx = (idx + 1) % cap`
  abbrev pub next : List (Option E) → ℕ → ℕ
  next slots idx = (idx + 1) % length slots

  -- `while (slots[idx] is taken) { if (it matches) return it; idx = next; } return none;`
  unfoldable pub probe : ℕ → List (Option E) → (E → Bool) → ℕ → Run (Option E)
  probe zero slots matches idx = spins
  probe (suc fuel) slots matches idx = elim (get_or slots idx none) [
    | none ↦ done none
    | some e ↦
        let rest = probe fuel slots matches (next slots idx) in
        if matches e then done (some e) else rest
  ]

  -- `while (slots[idx] is taken) idx = next;`
  unfoldable pub free_slot : ℕ → List (Option E) → ℕ → Run ℕ
  free_slot zero slots idx = spins
  free_slot (suc fuel) slots idx = elim (get_or slots idx none) [
    | none ↦ done idx
    | some e ↦ free_slot fuel slots (next slots idx)
  ]
