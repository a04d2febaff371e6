-- ===== src/Dups/Tick.antt =====
-- `zb_aps_check_timer_cb` visits the entries in use, each once, and stays inside the table.
use zboss.Base.{
  ℕ, zero, suc, ◌+◌, ◌-◌, ◌<◌, ◌≤◌, ◌≡◌, refl, sym, ap, ◌∙◌, arith, Bool, true, false, ◌&&◌, ltb,
  leb, ◌==◌, if◌then◌else◌, Bool-cases, inl, inr,
}
use native.Mathlib.Decide.{dec_lt}
use zboss.Dups.{Dups, tick_entry, tick_loop, ieee_addr_table_size}
use zboss.Dups.Count.{
  IsCounted, count_used, count_used-le, count_used-suc, count_used-skip, clock_skipped, clock_seen,
  not_again,
}

-- What the loop does from the index `i` on.
pub record Ticked (s : Dups) (i : ℕ) (out : Dups × ℕ) : Type 0 where
  pub inside : out.1 ≤ ieee_addr_table_size
  pub clocks :
      (j : ℕ)
      → j < ieee_addr_table_size
      → out.0.aps_dup_clock j
        ≡ (if s.used j && leb i j then s.aps_dup_clock j - 1 else s.aps_dup_clock j)
  pub quiet :
      out.0.dups_alarm_running ≡ false
      → (s.dups_alarm_running ≡ false)
        × ((j : ℕ) → j < ieee_addr_table_size → s.used j ≡ true → i ≤ j → out.0.aps_dup_clock j ≡ 0)
  pub counters : out.0.aps_dup_counter ≡ s.aps_dup_counter
  pub same_used : out.0.used ≡ s.used
  pub same_n : out.0.n_elements ≡ s.n_elements

tick_entry-clock :
    (s : Dups) (i j : ℕ)
    → (tick_entry s i).aps_dup_clock j
      ≡ (if j == i then s.aps_dup_clock i - 1 else s.aps_dup_clock j)
unfolding tick_entry
tick_entry-clock s i j = ground arith

tick_entry_fields :
    (s : Dups) (i : ℕ)
    → ((tick_entry s i).used ≡ s.used)
      × ((tick_entry s i).n_elements ≡ s.n_elements)
      × ((tick_entry s i).aps_dup_counter ≡ s.aps_dup_counter)
unfolding tick_entry
tick_entry_fields s i = elim (Bool-cases (s.aps_dup_clock i == 0)) [
  | inl h ↦ rw h (refl, refl, refl)
  | inr h ↦ rw h (refl, refl, refl)
]

-- The loop stops where all entries in use have been seen: there is none from there on.
none_left :
    (s : Dups) (i n j : ℕ)
    → IsCounted s
    → n ≡ count_used s.used i
    → s.n_elements ≤ n
    → i ≤ j
    → j < ieee_addr_table_size
    → s.used j ≡ false
none_left s i n j counted seen stop from inside = elim (Bool-cases (s.used j)) [
  | inl h ↦ absurd (
      omega (
        arith,
        count_used-suc s.used j h,
        count_used-le s.used i j from,
        count_used-le s.used (j + 1) ieee_addr_table_size (omega arith),
      ))
  | inr h ↦ h
]

clash : (b : Bool) → b ≡ true → b ≡ false → ⊥
clash b h k = cc

stopped :
    (s : Dups) (i n : ℕ)
    → IsCounted s
    → n ≡ count_used s.used i
    → s.n_elements ≤ n
    → i ≤ ieee_addr_table_size
    → Ticked s i (s, i)
stopped s i n counted seen stop top = record {
  inside = top;
  clocks = λ j inside. elim (Bool-cases (leb i j)) [
    | inl from ↦ rw (none_left s i n j counted seen stop (ground arith) inside) refl
    | inr before ↦
        rw before (elim (Bool-cases (s.used j)) [ inl h ↦ rw h refl | inr h ↦ rw h refl ])
  ];
  quiet = λ off. (
    off,
    λ j inside h from.
        absurd (clash (s.used j) h (none_left s i n j counted seen stop from inside)),
  );
  counters = refl;
  same_used = refl;
  same_n = refl;
}

not_at_end :
    (s : Dups) (i n : ℕ)
    → IsCounted s
    → n ≡ count_used s.used i
    → n < s.n_elements
    → i ≤ ieee_addr_table_size
    → i < ieee_addr_table_size
not_at_end s i n counted seen more top = elim (dec_lt i ieee_addr_table_size) [
  | yes p ↦ p
  | no p ↦
      let end : i ≡ ieee_addr_table_size = omega arith in
      absurd (omega (arith, ap (count_used s.used) end))
]

quiet_skipped :
    (s : Dups) (i : ℕ) (out : Dups × ℕ)
    → s.used i ≡ false
    → Ticked s (i + 1) out
    → out.0.dups_alarm_running ≡ false
    → (s.dups_alarm_running ≡ false)
      × ((j : ℕ) → j < ieee_addr_table_size → s.used j ≡ true → i ≤ j → out.0.aps_dup_clock j ≡ 0)
quiet_skipped s i out h rest off =
    let (idle, zeros) = rest.quiet off in
    (
      idle,
      λ j below on from. elim (dec_lt i j) [
        | yes p ↦ zeros j below on (omega arith)
        | no p ↦ let at : i ≡ j = omega arith in absurd (clash (s.used i) (ap s.used at ∙ on) h)
      ],
    )

-- An entry that keeps a count keeps the timer running.
tick_entry-quiet :
    (s : Dups) (i : ℕ)
    → (tick_entry s i).dups_alarm_running ≡ false
    → (s.dups_alarm_running ≡ false) × ((tick_entry s i).aps_dup_clock i ≡ 0)
unfolding tick_entry
tick_entry-quiet s i off = ground arith

quiet_seen :
    (s : Dups) (i k m : ℕ)
    → s.used i ≡ true
    → i < ieee_addr_table_size
    → Ticked (tick_entry s i) (i + 1) (tick_loop k (tick_entry s i) (i + 1) m)
    → let out = tick_loop k (tick_entry s i) (i + 1) m in
      out.0.dups_alarm_running ≡ false
      → (s.dups_alarm_running ≡ false)
        × ((j : ℕ) → j < ieee_addr_table_size → s.used j ≡ true → i ≤ j → out.0.aps_dup_clock j ≡ 0)
quiet_seen s i k m h inside rest off =
    let (same_used, _, _) = tick_entry_fields s i in
    let (idle, zeros) = rest.quiet off in
    let (idle', zero_i) = tick_entry-quiet s i idle in
    let still =
      rest.clocks i inside
      ∙ not_again ((tick_entry s i).used i) i ((tick_entry s i).aps_dup_clock i) in
    (
      idle',
      λ j below on from. elim (dec_lt i j) [
        | yes p ↦ zeros j below (ap (λ u. u j) same_used ∙ on) (omega arith)
        | no p ↦
            let at : j ≡ i = omega arith in
            ap (tick_loop k (tick_entry s i) (i + 1) m).0.aps_dup_clock at ∙ still ∙ zero_i
      ],
    )

pub loop-Ticked :
    (k : ℕ) (s : Dups) (i n : ℕ)
    → IsCounted s
    → n ≡ count_used s.used i
    → i ≤ ieee_addr_table_size
    → ieee_addr_table_size < k + i
    → Ticked s i (tick_loop k s i n)
unfolding tick_loop
loop-Ticked zero s i n counted seen top fuel = absurd (omega arith)
loop-Ticked (suc k) s i n counted seen top fuel = elim (Bool-cases (ltb n s.n_elements)) [
  | inr stop ↦ rw stop (stopped s i n counted seen (ground arith) top)
  | inl go ↦
      let more : n < s.n_elements = ground arith in
      let inside : i < ieee_addr_table_size = not_at_end s i n counted seen more top in
      elim (Bool-cases (s.used i)) [
        | inl h ↦
            let (same_used, same_n, same_counter) = tick_entry_fields s i in
            let rest =
              loop-Ticked k (tick_entry s i) (i + 1) (n + 1)
                (same_n ∙ counted ∙ ap (λ u. count_used u ieee_addr_table_size) (sym same_used))
                (ap (λ m. m + 1) seen
                  ∙ sym (count_used-suc s.used i h)
                  ∙ ap (λ u. count_used u (i + 1)) (sym same_used))
                (omega arith) (omega arith) in
            rw (go, h)
              (record {
                inside = rest.inside;
                clocks = λ j below.
                    rest.clocks j below
                    ∙ ap
                        (λ u.
                          if u j && leb (i + 1) j
                          then (tick_entry s i).aps_dup_clock j - 1
                          else (tick_entry s i).aps_dup_clock j)
                        same_used
                    ∙ clock_seen s.used i j s.aps_dup_clock _ h (tick_entry-clock s i j);
                quiet = λ off. quiet_seen s i k (n + 1) h inside rest off;
                counters = rest.counters ∙ same_counter;
                same_used = rest.same_used ∙ same_used;
                same_n = rest.same_n ∙ same_n;
              })
        | inr h ↦
            let rest =
              loop-Ticked k s (i + 1) n counted (seen ∙ sym (count_used-skip s.used i h))
                (omega arith) (omega arith) in
            rw (go, h)
              (record {
                inside = rest.inside;
                clocks =
                    λ j below. rest.clocks j below ∙ clock_skipped s.used i j (s.aps_dup_clock j) h;
                quiet = λ off. quiet_skipped s i (tick_loop k s (i + 1) n) h rest off;
                counters = rest.counters;
                same_used = rest.same_used;
                same_n = rest.same_n;
              })
      ]
]
