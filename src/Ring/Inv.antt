-- ===== src/Ring/Inv.antt =====
-- What the index fields of include/zb_ringbuffer.h keep between the macros.
use zboss.Base.{ℕ, ◌+◌, ◌-◌, ◌%◌, ◌^◌, ◌≤◌, ◌<◌, ◌≡◌, ap, ◌∙◌, arith, length-set}
use native.Mathlib.Nat.{mod-lt, mod-add-mod}
use zboss.Ring.{Ring, capacity, fill, flush_put, flush_get}

next_place :
    (cap r n w : ℕ)
    → 0 < cap
    → cap < 2 ^ 31
    → w ≡ (r + n) % cap
    → (w + 1) % 2 ^ 32 % cap ≡ (r + (n + 1)) % cap
next_place cap r n w pos small e =
    let fits : (w + 1) % 2 ^ 32 ≡ w + 1 = omega (arith, mod-lt (r + n) pos) in
    rw (fits, e, mod-add-mod) (ap (λ k. k % cap) (omega arith))

module _ {ℓ} {A : Type ℓ} where
  -- A capacity whose sums stay below 2 ^ 32, indices inside the array, and the write position
  -- `written` places behind the read position, going round.
  pub record IsValid (rb : Ring A) : Type 0 where
    pub room : 0 < capacity rb
    pub small : capacity rb < 2 ^ 31
    pub read_in : rb.read_i < capacity rb
    pub count_in : rb.written ≤ capacity rb
    pub behind : rb.write_i ≡ (rb.read_i + rb.written) % capacity rb

  -- Filling and publishing a reserved slot keeps the invariant.
  pub flush_put-IsValid :
      (rb : Ring A) (v : A)
      → IsValid rb
      → rb.written < capacity rb
      → IsValid (flush_put (fill rb rb.write_i v))
  unfolding flush_put fill
  flush_put-IsValid rb v i h = record {
    room = rw len i.room;
    small = rw len i.small;
    read_in = rw len i.read_in;
    count_in = rw len (omega arith);
    behind = rw (len, one_more) (next_place _ rb.read_i rb.written _ i.room i.small i.behind);
  }
    where
      len : capacity (flush_put (fill rb rb.write_i v)) ≡ capacity rb
      len = length-set rb.ring_buf rb.write_i v

      one_more : (rb.written + 1) % 2 ^ 32 ≡ rb.written + 1
      one_more = omega arith

  -- Dropping the entry at the read position keeps the invariant, if there is one.
  pub flush_get-IsValid : (rb : Ring A) → IsValid rb → 0 < rb.written → IsValid (flush_get rb)
  unfolding flush_get
  flush_get-IsValid rb i h = record {
    room = i.room;
    small = i.small;
    read_in = mod-lt _ i.room;
    count_in = omega arith;
    behind = rw (moved, one_less, mod-add-mod) (i.behind ∙ ap (λ k. k % capacity rb) (omega arith));
  }
    where
      moved : (rb.read_i + 1) % 2 ^ 32 ≡ rb.read_i + 1
      moved = omega arith

      one_less : (rb.written + 2 ^ 32 - 1) % 2 ^ 32 ≡ rb.written - 1
      one_less = omega arith
