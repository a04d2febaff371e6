-- ===== src/Slots.antt =====
-- The macros of nwk/nwk_internal.h on an array whose entries have a bit `used`, and a count of those:
-- ZB_NWK arrays of routes, of route discoveries and of pending frames.
pub mod Count
pub mod Find
use zboss.Base.{
  ℕ, zero, suc, ◌+◌, ◌%◌, Bool, true, false, ◌&&◌, if◌then◌else◌, update, Option, none, some,
}

-- An entry: its bit `used`, and its other fields.
pub record Slot (A : Type 0) : Type 0 where
  pub used : Bool
  pub ent : A

-- The array and its 8-bit counter of used elements.
pub record Slots (A : Type 0) : Type 0 where
  pub array : ℕ → Slot A
  pub cnt : ℕ

module _ {A : Type 0} where
  -- The loop of NWK_ARRAY_FIND_ENT and of NWK_ARRAY_GET_ENT, for `k` entries from the `i`-th on.
  unfoldable pub find_loop : (Slot A → Bool) → ℕ → (ℕ → Slot A) → ℕ → Option ℕ
  find_loop test zero array i = none
  find_loop test (suc k) array i =
      let rest = find_loop test k array (i + 1) in if test (array i) then some i else rest

  -- `used` and the condition.
  unfoldable pub is_match : (A → Bool) → Slot A → Bool
  is_match condition slot = slot.used && condition slot.ent

  unfoldable pub is_free : Slot A → Bool
  is_free slot = if slot.used then false else true

  -- NWK_ARRAY_FIND_ENT: the index of the entry, or none for NULL. `n` is the number of elements.
  unfoldable pub array_find_ent : ℕ → (A → Bool) → Slots A → Option ℕ
  array_find_ent n condition t = find_loop (is_match condition) n t.array 0

  -- What NWK_ARRAY_GET_ENT does with the free entry.
  unfoldable pub take_ent : Slots A → ℕ → Slots A
  take_ent t i = record {
    array = update t.array i (record (t.array i) { used = true });
    cnt = (t.cnt + 1) % 256;
  }

  -- NWK_ARRAY_GET_ENT: the entry and the array, or none for NULL.
  unfoldable pub array_get_ent : ℕ → Slots A → Option (ℕ × Slots A)
  array_get_ent n t = elim (find_loop is_free n t.array 0) [
    | some i ↦ some (i, take_ent t i)
    | none ↦ none
  ]

  -- NWK_ARRAY_PUT_ENT of an entry.
  unfoldable pub free_ent : Slots A → ℕ → Slots A
  free_ent t i = record {
    array = update t.array i (record (t.array i) { used = false });
    cnt = (t.cnt + 255) % 256;
  }

  -- NWK_ARRAY_PUT_ENT of an entry or NULL.
  unfoldable pub array_put_ent : Slots A → Option ℕ → Slots A
  array_put_ent t none = t
  array_put_ent t (some i) = free_ent t i

  -- An assignment to fields of the entry other than `used`.
  unfoldable pub set_ent : Slots A → ℕ → A → Slots A
  set_ent t i v = record t { array = update t.array i (record (t.array i) { ent = v }) }
