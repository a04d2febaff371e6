-- ===== src/Ring/Fifo.antt =====
-- A ring of include/zb_ringbuffer.h is a bounded FIFO: what the macros do to the sequence of
-- entries between the read and the write position.
use zboss.Base.{
  ℕ, suc, ◌+◌, ◌-◌, ◌%◌, ◌^◌, ◌≤◌, ◌<◌, ◌≡◌, ◌≢◌, ap, ◌∙◌, arith, List, [], ◌∷◌, ◌++◌, none, some,
  length, length-append, set, get_elem?, ltb, if◌then◌else◌, length-set, get_elem?-set_self,
  get_elem?-set_ne,
}
use native.Mathlib.Nat.{mod-lt, mod-add-mod, mod-eq_of_lt, mod-eq-sub-mod, add-zero}
use native.Mathlib.Decide.{dec_lt}
use zboss.Ring.{Ring, capacity, put_reserve, fill, flush_put, peek, flush_get}
use zboss.Ring.Inv.{IsValid, flush_put-IsValid, flush_get-IsValid}

module _ {ℓ} {A : Type ℓ} where
  -- From index `h` on, going round at `cap`, the array holds the entries `xs`.
  abbrev pub Window : List A → ℕ → ℕ → List A → Type ℓ
  Window buf cap h [] = Unit
  Window buf cap h (x ∷ xs) = (get_elem? buf h ≡ some x) × Window buf cap ((h + 1) % cap) xs

  -- The ring holds the entries `xs`, oldest first.
  pub record Holds (rb : Ring A) (xs : List A) : Type ℓ where
    pub valid : IsValid rb
    pub count : rb.written ≡ length xs
    pub entries : Window rb.ring_buf (capacity rb) rb.read_i xs

-- Fewer than `cap` steps ahead on the circle never lead back.
ahead-ne : (cap h k : ℕ) → h < cap → 0 < k → k < cap → (h + k) % cap ≢ h
ahead-ne cap h k hh pos hk = elim (dec_lt (h + k) cap) [
  | yes p ↦ rw (mod-eq_of_lt p) (omega arith)
  | no p ↦
      rw (mod-eq-sub-mod {n = h + k} {m = cap} (omega arith))
        (rw (mod-eq_of_lt {n = h + k - cap} {m = cap} (omega arith)) (omega arith))
]

module _ {ℓ} {A : Type ℓ} where
  -- A write right behind a window extends it.
  Window-set :
      (buf : List A) (cap h i : ℕ) (v : A) (xs : List A)
      → cap ≤ length buf
      → h < cap
      → length xs < cap
      → i ≡ (h + length xs) % cap
      → Window buf cap h xs
      → Window (set buf i v) cap h (xs ++ v ∷ [])
  Window-set buf cap h i v [] fits inside short e w =
      let here : i ≡ h = e ∙ rw (add-zero) (mod-eq_of_lt inside) in
      rw here (get_elem?-set_self buf h v (omega arith), tt)
  Window-set buf cap h i v (x ∷ xs) fits inside short e w = (
    get_elem?-set_ne buf v apart ∙ w.0,
    Window-set buf cap ((h + 1) % cap) i v xs fits (mod-lt (h + 1) (omega arith)) (omega arith)
        (e ∙ shift) w.1,
  )
    where
      apart : i ≢ h
      apart = rw e (ahead-ne cap h (suc (length xs)) inside (omega arith) short)

      shift : (h + suc (length xs)) % cap ≡ ((h + 1) % cap + length xs) % cap
      shift = rw mod-add-mod (ap (λ k. k % cap) (omega arith))

  module _ (rb : Ring A) (xs : List A) (holds : Holds rb xs) where
    -- A reserved slot is the one at the write position, and there is one exactly when fewer
    -- entries than the capacity are queued.
    pub put_reserve_lem :
        put_reserve rb ≡ (if ltb (length xs) (capacity rb) then some rb.write_i else none)
    unfolding put_reserve
    put_reserve_lem = ground (arith, holds.count)

    -- When the ring holds the entries `xs`, fewer than its capacity, filling the slot at the write
    -- position and publishing it leaves a ring that holds `xs` and then the new entry.
    pub flush_put-Holds :
        (v : A) → length xs < capacity rb → Holds (flush_put (fill rb rb.write_i v)) (xs ++ v ∷ [])
    unfolding flush_put fill
    flush_put-Holds v h = record {
      valid = flush_put-IsValid rb v holds.valid (omega (arith, holds.count));
      count =
          omega (
            arith,
            length-append xs (v ∷ []),
            holds.count,
            holds.valid.small,
            holds.valid.count_in,
          );
      entries = rw (length-set rb.ring_buf rb.write_i v) (
          Window-set rb.ring_buf (capacity rb) rb.read_i rb.write_i v xs (omega arith)
            holds.valid.read_in h (rw holds.count at holds.valid.behind) holds.entries);
    }

  -- The macro ZB_RING_BUFFER_PEEK gives the oldest entry.
  pub peek_lem : (rb : Ring A) (x : A) (ys : List A) → Holds rb (x ∷ ys) → peek rb ≡ some x
  unfolding peek
  peek_lem rb x ys h = ground (arith, h.count, h.entries)

  pub peek_empty : (rb : Ring A) → Holds rb [] → peek rb ≡ none
  unfolding peek
  peek_empty rb h = ground (arith, h.count)

  -- When the ring holds `x` and then `ys`, ZB_RING_BUFFER_FLUSH_GET leaves a ring that holds `ys`.
  pub flush_get-Holds :
      (rb : Ring A) (x : A) (ys : List A) → Holds rb (x ∷ ys) → Holds (flush_get rb) ys
  unfolding flush_get
  flush_get-Holds rb x ys h = record {
    valid = flush_get-IsValid rb h.valid (omega (arith, h.count));
    count = omega arith;
    entries = rw moved h.entries.1;
  }
    where
      moved : (rb.read_i + 1) % 2 ^ 32 ≡ rb.read_i + 1
      moved = omega (arith, h.valid.read_in, h.valid.small)
