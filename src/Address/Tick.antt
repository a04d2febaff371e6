-- ===== src/Address/Tick.antt =====
-- What adding an entry to the address table of common/zb_address.c leaves alone.
use zboss.Base.{
  ℕ, zero, suc, ◌+◌, ◌%◌, ◌<◌, ◌≡◌, refl, sym, ap, ◌∙◌, arith, Bool, false, not, ◌&&◌, ◌==◌, ltb,
  if◌then◌else◌, Bool-cases, inl, inr, none, some, some-inj, update,
}
use zboss.Address.{Addresses, ieee_addr_table_size}
use zboss.Address.Entries.{tick_past, tick_loop, tick_again, clock_tick, free_loop}

-- The two tables differ in nothing but the clock bits and the clock's place.
pub record SameEntries (s t : Addresses) : Type 0 where
  pub used_manufacturer : t.used_manufacturer ≡ s.used_manufacturer
  pub device_manufacturer : t.device_manufacturer ≡ s.device_manufacturer
  pub ieee_addr : t.ieee_addr ≡ s.ieee_addr
  pub used : t.used ≡ s.used
  pub lock_cnt : t.lock_cnt ≡ s.lock_cnt
  pub shorts : t.shorts ≡ s.shorts
  pub n_elements : t.n_elements ≡ s.n_elements

pub marked-SameEntries :
    (s : Addresses) (clock : ℕ → Bool) (clock_i : ℕ)
    → SameEntries s (record s { clock = clock; clock_i = clock_i })
marked-SameEntries s clock clock_i = record {
  used_manufacturer = refl;
  device_manufacturer = refl;
  ieee_addr = refl;
  used = refl;
  lock_cnt = refl;
  shorts = refl;
  n_elements = refl;
}

pub SameEntries-refl : (s : Addresses) → SameEntries s s
SameEntries-refl s = marked-SameEntries s s.clock s.clock_i

pub SameEntries-trans : (s t u : Addresses) → SameEntries s t → SameEntries t u → SameEntries s u
SameEntries-trans s t u a b = record {
  used_manufacturer = b.used_manufacturer ∙ a.used_manufacturer;
  device_manufacturer = b.device_manufacturer ∙ a.device_manufacturer;
  ieee_addr = b.ieee_addr ∙ a.ieee_addr;
  used = b.used ∙ a.used;
  lock_cnt = b.lock_cnt ∙ a.lock_cnt;
  shorts = b.shorts ∙ a.shorts;
  n_elements = b.n_elements ∙ a.n_elements;
}

tick_loop-SameEntries :
    (k bound : ℕ) (s : Addresses) (cnt : ℕ) → SameEntries s (tick_loop k bound s cnt).0
unfolding tick_loop tick_past
tick_loop-SameEntries zero bound s cnt = SameEntries-refl s
tick_loop-SameEntries (suc k) bound s cnt =
    let i = s.clock_i in
    let rest = tick_loop-SameEntries k bound (tick_past s) (if s.used i then cnt + 1 else cnt) in
    elim (Bool-cases (ltb i bound && ltb cnt s.n_elements)) [
      | inr end ↦ rw end (SameEntries-refl s)
      | inl more ↦ rw more (elim (Bool-cases (s.used i && s.lock_cnt i == 0)) [
        | inl found ↦ rw found (marked-SameEntries s (update s.clock i false) (i + 1))
        | inr passed ↦
            rw passed
              (SameEntries-trans s (tick_past s) _ (marked-SameEntries s s.clock (i + 1)) rest)
      ])
    ]

tick_again-SameEntries :
    (limit : ℕ) (s : Addresses) (r : Addresses × ℕ × Bool)
    → SameEntries s r.0
    → SameEntries s (tick_again limit r)
unfolding tick_again
tick_again-SameEntries limit s (t, cnt, found) same =
    let start = record t { clock_i = 0 } in
    elim (Bool-cases (not found && ltb cnt t.n_elements)) [
      | inl more ↦ rw more (
          SameEntries-trans s t _ same (
            SameEntries-trans t start _ (marked-SameEntries t t.clock 0)
              (tick_loop-SameEntries ieee_addr_table_size limit start cnt)))
      | inr end ↦ rw end same
    ]

-- `clock_tick` changes nothing but the clock bits and the clock's place.
pub clock_tick-SameEntries : (s : Addresses) → SameEntries s (clock_tick s)
unfolding clock_tick
clock_tick-SameEntries s =
    tick_again-SameEntries s.clock_i s _
      (tick_loop-SameEntries ieee_addr_table_size ieee_addr_table_size s 0)

-- The entry that `addr_add` takes is one of the table that is not in use.
pub free_loop-some :
    (k : ℕ) (s : Addresses) (i_end i r : ℕ)
    → i < ieee_addr_table_size
    → free_loop k s i_end i ≡ some r
    → (r < ieee_addr_table_size) × (s.used r ≡ false)
unfolding free_loop
free_loop-some zero s i_end i r inside e = ground arith
free_loop-some (suc k) s i_end i r inside e =
    let next = (i + 1) % ieee_addr_table_size in
    elim (Bool-cases (s.used i)) [
      | inr free ↦
          let same : i ≡ r = some-inj (rw free at e) in (omega arith, ap s.used (sym same) ∙ free)
      | inl used ↦ elim (Bool-cases (next == i_end)) [
        | inl end ↦ let bad : none ≡ some r = rw (used, end) at e in cc
        | inr more ↦ free_loop-some k s i_end next r (omega arith) (rw (used, more) at e)
      ]
    ]
