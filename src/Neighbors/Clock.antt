-- ===== src/Neighbors/Clock.antt =====
-- `zb_nwk_neighbor_incoming_frame_counter_clock` of nwk/nwk_neighbor.c comes round to every entry.
use zboss.Base.{
  ℕ, zero, suc, ◌+◌, ◌-◌, ◌%◌, ◌<◌, ◌≤◌, ◌≡◌, refl, sym, ap, subst, ◌∙◌, arith, true, false, ◌==◌,
  ltb, if◌then◌else◌, Bool-cases, inl, inr, update,
}
use zboss.Neighbors.{Neighbor, Neighbors}
use zboss.Neighbors.Next.{key_lag, expire, neighbor_incoming_frame_counter_clock}

-- Calls one after the other, for the same key.
abbrev pub clocked : ℕ → Neighbors → ℕ → Neighbors
clocked zero s key = s
clocked (suc m) s key = neighbor_incoming_frame_counter_clock (clocked m s key) key

turn : ℕ → ℕ → ℕ
turn x n = if x + 1 == n then 0 else x + 1

mod_turn : (x n : ℕ) → x < n → (x + 1) % n ≡ turn x n
unfolding turn
mod_turn x n h = elim (Bool-cases (x + 1 == n)) [
  | inl end ↦ let whole : x + 1 ≡ n = ground arith in rw end (grind arith)
  | inr inner ↦ let below : x + 1 < n = ground arith in rw inner (grind arith)
]

-- Where the clock stands after `m` calls, and how many calls it takes to get behind an entry.
place : ℕ → ℕ → ℕ → ℕ
place c n m = if ltb (c + m) n then c + m else c + m - n

calls_until : ℕ → ℕ → ℕ → ℕ
calls_until c n i = if ltb c i then i - c - 1 else i + n - c - 1

module _ (c n : ℕ) (c_in : c < n) where
  turn-place : (m : ℕ) → m < n → turn (place c n m) n ≡ place c n (m + 1)
  unfolding turn place
  turn-place m below = ground arith

  place-lt : (m : ℕ) → m ≤ n → place c n m < n
  unfolding place
  place-lt m below = ground arith

  -- The entry that the next call comes to is the one that takes as many calls.
  reached : (m i : ℕ) → m < n → i < n → (i == place c n (m + 1)) ≡ (calls_until c n i == m)
  unfolding place calls_until
  reached m i below inside = ground arith

module _ (s : Neighbors) (key : ℕ) where
  abbrev n : ℕ
  n = s.base_neighbor_size

  abbrev c : ℕ
  c = s.incoming_frame_counter_clock

  -- The table after `m` calls.
  record After (m : ℕ) (t : Neighbors) : Type 0 where
    size : t.base_neighbor_size ≡ n
    clock : t.incoming_frame_counter_clock ≡ place c n m
    entries :
        (i : ℕ)
        → i < n
        → t.base_neighbor i ≡ (
            if ltb (calls_until c n i) m then expire key (s.base_neighbor i) else s.base_neighbor i)
    beyond : (i : ℕ) → n ≤ i → t.base_neighbor i ≡ s.base_neighbor i

  module _ (c_in : c < n) where
    module _ (m : ℕ) (t : Neighbors) (below : m < n) (a : After m t) where
      next_place : (t.incoming_frame_counter_clock + 1) % t.base_neighbor_size ≡ place c n (m + 1)
      next_place =
          rw (a.size, a.clock)
            (mod_turn (place c n m) n (place-lt c n c_in m (omega arith))
              ∙ turn-place c n c_in m below)

      stepped : neighbor_incoming_frame_counter_clock t key ≡ record t {
        incoming_frame_counter_clock = place c n (m + 1);
        base_neighbor =
            update t.base_neighbor
              (place c n (m + 1))
              (expire key (t.base_neighbor (place c n (m + 1))));
      }
      unfolding neighbor_incoming_frame_counter_clock
      stepped =
          let size = a.size in
          let some_size : (t.base_neighbor_size == 0) ≡ false = ground arith in
          rw (some_size, next_place) refl

      step_entries :
          (i : ℕ)
          → i < n
          → update t.base_neighbor
              (place c n (m + 1))
              (expire key (t.base_neighbor (place c n (m + 1))))
              i
            ≡ (if ltb (calls_until c n i) (m + 1)
                then expire key (s.base_neighbor i)
                else s.base_neighbor i)
      step_entries i inside =
          let which = reached c n c_in m i below inside in
          elim (Bool-cases (i == place c n (m + 1))) [
            | inl here ↦
                let now : calls_until c n i ≡ m = ground arith in
                let first : ltb (calls_until c n i) m ≡ false = ground arith in
                let done : ltb (calls_until c n i) (m + 1) ≡ true = ground arith in
                let same : place c n (m + 1) ≡ i = ground arith in
                rw (here, done)
                  (ap (λ j. expire key (t.base_neighbor j)) same
                    ∙ ap (expire key) (a.entries i inside ∙ rw first refl))
            | inr other ↦
                let still : ltb (calls_until c n i) (m + 1) ≡ ltb (calls_until c n i) m =
                  ground arith in
                rw (other, still) (a.entries i inside)
          ]

      step_beyond :
          (i : ℕ)
          → n ≤ i
          → update t.base_neighbor
              (place c n (m + 1))
              (expire key (t.base_neighbor (place c n (m + 1))))
              i
            ≡ s.base_neighbor i
      step_beyond i out =
          let low = place-lt c n c_in (m + 1) (omega arith) in
          let other : (i == place c n (m + 1)) ≡ false = ground arith in rw other (a.beyond i out)

    clocked-After : (m : ℕ) → m ≤ n → After m (clocked m s key)
    clocked-After zero below = record {
      size = refl;
      clock = unfold place in ground arith;
      entries = λ i inside.
          let none_yet : ltb (calls_until c n i) 0 ≡ false = ground arith in rw none_yet refl;
      beyond = λ i out. refl;
    }
    clocked-After (suc m) below =
        let t = clocked m s key in
        let a = clocked-After m (omega arith) in
        let less : m < n = omega arith in
        let next : m + 1 ≡ suc m = omega arith in
        subst (λ k. After k (neighbor_incoming_frame_counter_clock t key)) next
          (rw (stepped m t less a) (record {
            size = a.size;
            clock = refl;
            entries = step_entries m t less a;
            beyond = step_beyond m t less a;
          }))

    soon : (i : ℕ) → i < n → calls_until c n i < n
    unfolding calls_until
    soon i inside = ground arith

clocked-expire :
    (s : Neighbors) (key : ℕ)
    → s.incoming_frame_counter_clock < s.base_neighbor_size
    → let t = clocked s.base_neighbor_size s key in
      (t.base_neighbor_size ≡ s.base_neighbor_size)
      × ((i : ℕ) → i < s.base_neighbor_size → t.base_neighbor i ≡ expire key (s.base_neighbor i))
      × ((i : ℕ) → s.base_neighbor_size ≤ i → t.base_neighbor i ≡ s.base_neighbor i)
clocked-expire s key c_in =
    let a = clocked-After s key c_in s.base_neighbor_size (omega arith) in
    (
      a.size,
      λ i inside.
          let reached_it : ltb (calls_until (c s key) (n s key) i) s.base_neighbor_size ≡ true =
            let near = soon s key c_in i inside in ground arith in
          a.entries i inside ∙ rw reached_it refl,
      a.beyond,
    )

-- An entry before and after the clock has come to it with this key, for a key that is `d` steps of the
-- 8-bit sequence numbers ahead of the entry's.
abbrev pub Expired : ℕ → Neighbor → Neighbor → Type 0
Expired key old new =
    (d : ℕ)
    → d < 256
    → (old.key_seq_number + d) % 256 ≡ key
    → (3 < d → new ≡ record old { incoming_frame_counter = 0; key_seq_number = key })
      × (d ≤ 3 → new ≡ old)

expire-Expired :
    (key : ℕ) (ent : Neighbor) → ent.key_seq_number < 256 → Expired key ent (expire key ent)
unfolding expire key_lag
expire-Expired key ent octet d below ahead =
    let lag : (key + 256 - ent.key_seq_number) % 256 ≡ d = omega arith in
    (
      λ far.
          let test : ltb 3 ((key + 256 - ent.key_seq_number) % 256) ≡ true = ground arith in
          rw test refl,
      λ near.
          let test : ltb 3 ((key + 256 - ent.key_seq_number) % 256) ≡ false = ground arith in
          rw test refl,
    )

-- From a clock inside the table, and with 8-bit key sequence numbers in the entries, as many calls of
-- `zb_nwk_neighbor_incoming_frame_counter_clock` for a key as the base table has places come to every
-- place: an entry whose key sequence number the key is more than three steps ahead of, going round at
-- 256, has the frame counter 0 and the new key sequence number and is else what it was; every other entry
-- stays as it is; and so do the places behind the table and its size.
pub clocked-Expired :
    (s : Neighbors) (key : ℕ)
    → s.incoming_frame_counter_clock < s.base_neighbor_size
    → ((i : ℕ) → i < s.base_neighbor_size → (s.base_neighbor i).key_seq_number < 256)
    → let t = clocked s.base_neighbor_size s key in
      (t.base_neighbor_size ≡ s.base_neighbor_size)
      × ((i : ℕ) → i < s.base_neighbor_size → Expired key (s.base_neighbor i) (t.base_neighbor i))
      × ((i : ℕ) → s.base_neighbor_size ≤ i → t.base_neighbor i ≡ s.base_neighbor i)
clocked-Expired s key c_in octets =
    let (size, entries, behind) = clocked-expire s key c_in in
    (
      size,
      λ i inside.
          subst (Expired key (s.base_neighbor i)) (sym (entries i inside))
            (expire-Expired key (s.base_neighbor i) (octets i inside)),
      behind,
    )
