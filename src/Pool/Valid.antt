-- ===== src/Pool/Valid.antt =====
-- When the counts of the pool and its free list are right, and that each operation keeps them right.
use zboss.Base.{
  ℕ, ◌+◌, ◌%◌, ◌≤◌, ◌<◌, ◌≡◌, refl, sym, ap, ap₂, ◌∙◌, arith, Bool, true, false, not, ◌&&◌, ltb,
  update, update_self, ◌==◌, Bool-cases, ltb→lt, inl, inr, List, [], ◌∷◌, Option, none, some,
}
use zboss.Alarm.{Ret}
use zboss.Pool.{
  Pool, iobuf_pool_size, bufs_limit, allocated, set_allocated, set_queue, take_head, get_buf,
  schedule_buf, wait_buf, get_buf_delayed, cut_queue, hand_over, serve, is_free, give_back,
}
use zboss.Pool.Taken.{has_direction, taken, is_free_list, taken_more, taken_same, taken_marked}

-- The free list has buffers of the pool, each at most once; every other buffer is counted as allocated for
-- the direction it was handed out for, and each direction has at most half of them.
pub record IsValid (s : Pool) : Type 0 where
  pub free_list : is_free_list s.free ≡ true
  pub ins : s.allocated_in ≡ taken s.free s.is_in_buf true
  pub outs : s.allocated_out ≡ taken s.free s.is_in_buf false
  pub in_limit : s.allocated_in ≤ bufs_limit
  pub out_limit : s.allocated_out ≤ bufs_limit

-- The head of a free list.
head_apart :
    (b : ℕ) (free : List ℕ)
    → is_free_list (b ∷ free) ≡ true
    → (b < iobuf_pool_size) × (is_free b free ≡ false) × (is_free_list free ≡ true)
unfolding is_free_list
head_apart b free h = (ground arith, ground arith, ground arith)

module _ (b : ℕ) (free : List ℕ) (is_in_buf : ℕ → Bool) (out : is_free b free ≡ false)
    (below : b < iobuf_pool_size) where
  handed : (d e : Bool) → has_direction e (update is_in_buf b d b) ≡ has_direction e d
  handed d e = ap (has_direction e) (update_self is_in_buf b d)

  -- Handing the buffer out for a direction adds it to the taken ones of this direction.
  taken_handed :
      (d : Bool)
      → (taken free (update is_in_buf b d) d ≡ taken (b ∷ free) is_in_buf d + 1)
        × (taken free (update is_in_buf b d) (not d) ≡ taken (b ∷ free) is_in_buf (not d))
  unfolding has_direction
  taken_handed true = (
    taken_more b free out below (update is_in_buf b true) true (handed true true)
        ∙ ap (λ n. n + 1) (taken_marked b free out below is_in_buf true true),
    taken_same b free out below (update is_in_buf b true) false (handed true false)
        ∙ taken_marked b free out below is_in_buf false true,
  )
  taken_handed false = (
    taken_more b free out below (update is_in_buf b false) false (handed false false)
        ∙ ap (λ n. n + 1) (taken_marked b free out below is_in_buf false false),
    taken_same b free out below (update is_in_buf b false) true (handed false true)
        ∙ taken_marked b free out below is_in_buf true false,
  )

take_head-IsValid :
    (s : Pool) (is_in : Bool) (free : List ℕ)
    → free ≡ s.free
    → allocated s is_in < bufs_limit
    → IsValid s
    → IsValid (take_head s is_in free).1
unfolding take_head set_allocated
take_head-IsValid s is_in [] e below valid = valid
take_head-IsValid s true (b ∷ bs) e below valid =
    let (inside, out, list) = head_apart b bs (ap is_free_list e ∙ valid.free_list) in
    let (more, same) = taken_handed b bs s.is_in_buf out inside true in
    record {
      free_list = list;
      ins = omega (arith, valid.ins, more, ap (λ f. taken f s.is_in_buf true) e);
      outs = valid.outs ∙ ap (λ f. taken f s.is_in_buf false) (sym e) ∙ sym same;
      in_limit = omega arith;
      out_limit = valid.out_limit;
    }
take_head-IsValid s false (b ∷ bs) e below valid =
    let (inside, out, list) = head_apart b bs (ap is_free_list e ∙ valid.free_list) in
    let (more, same) = taken_handed b bs s.is_in_buf out inside false in
    record {
      free_list = list;
      ins = valid.ins ∙ ap (λ f. taken f s.is_in_buf true) (sym e) ∙ sym same;
      outs = omega (arith, valid.outs, more, ap (λ f. taken f s.is_in_buf false) e);
      in_limit = valid.in_limit;
      out_limit = omega arith;
    }

pub get_buf-IsValid : (s : Pool) (is_in : Bool) → IsValid s → IsValid (get_buf s is_in).1
unfolding get_buf
get_buf-IsValid s is_in valid = elim (Bool-cases (ltb (allocated s is_in) bufs_limit)) [
  | inl below ↦ rw below (take_head-IsValid s is_in s.free refl (ltb→lt _ _ below) valid)
  | inr full ↦ rw full valid
]

-- The other fields play no part.
same_counts :
    (s s' : Pool)
    → s'.free ≡ s.free
    → s'.allocated_in ≡ s.allocated_in
    → s'.allocated_out ≡ s.allocated_out
    → s'.is_in_buf ≡ s.is_in_buf
    → IsValid s
    → IsValid s'
same_counts s s' free ins outs directions valid = record {
  free_list = ap is_free_list free ∙ valid.free_list;
  ins = ins ∙ valid.ins ∙ sym (ap₂ (λ f d. taken f d true) free directions);
  outs = outs ∙ valid.outs ∙ sym (ap₂ (λ f d. taken f d false) free directions);
  in_limit = omega (arith, valid.in_limit);
  out_limit = omega (arith, valid.out_limit);
}

set_queue-IsValid :
    (s : Pool) (is_in : Bool) (q : List ℕ) → IsValid s → IsValid (set_queue s is_in q)
unfolding set_queue
set_queue-IsValid s true q valid = same_counts s _ refl refl refl refl valid
set_queue-IsValid s false q valid = same_counts s _ refl refl refl refl valid

schedule_buf-IsValid : (s : Pool) (func b : ℕ) → IsValid s → IsValid (schedule_buf s func b).1
unfolding schedule_buf
schedule_buf-IsValid s func b valid = same_counts s _ refl refl refl refl valid

wait_buf-IsValid :
    (s : Pool) (callback : ℕ) (is_in : Bool) → IsValid s → IsValid (wait_buf s callback is_in).1
unfolding wait_buf
wait_buf-IsValid s callback is_in valid = elim (Bool-cases (s.buf_freelist == 0)) [
  | inl none_left ↦ rw none_left valid
  | inr left ↦ rw left (set_queue-IsValid _ is_in _ (same_counts s _ refl refl refl refl valid))
]

pub get_buf_delayed-IsValid :
    (s : Pool) (callback : ℕ) (is_in : Bool)
    → IsValid s
    → IsValid (get_buf_delayed s callback is_in).1
unfolding get_buf_delayed
get_buf_delayed-IsValid s callback is_in valid =
    delayed (get_buf s is_in).0 (get_buf s is_in).1 (get_buf-IsValid s is_in valid)
  where
    delayed :
        (buf : Option ℕ) (s' : Pool)
        → IsValid s'
        → IsValid
            (elim buf as (λ x. Option Ret × Pool) [
              | some b ↦ let (ret, s'') = schedule_buf s' callback b in (some ret, s'')
              | none ↦ wait_buf s' callback is_in
            ]).1
    delayed (some b) s' v = schedule_buf-IsValid s' callback b v
    delayed none s' v = wait_buf-IsValid s' callback is_in v

hand_over-IsValid :
    (func : ℕ) (got : Option ℕ × Pool) → IsValid got.1 → IsValid (hand_over func got)
unfolding hand_over
hand_over-IsValid func (some b, s) v =
    same_counts (schedule_buf s func b).1 _ refl refl refl refl (schedule_buf-IsValid s func b v)
hand_over-IsValid func (none, s) v = v

serve-IsValid :
    (s : Pool) (is_in : Bool) (waiting : List ℕ)
    → IsValid s
    → IsValid (serve is_in (cut_queue s is_in waiting))
unfolding serve cut_queue
serve-IsValid s is_in [] valid = valid
serve-IsValid s is_in (func ∷ funcs) valid =
    hand_over-IsValid func (get_buf (set_queue s is_in funcs) is_in)
      (get_buf-IsValid (set_queue s is_in funcs) is_in (set_queue-IsValid s is_in funcs valid))

-- A taken buffer is counted for its direction.
pub taken-allocated :
    (s : Pool) (b : ℕ)
    → b < iobuf_pool_size
    → is_free b s.free ≡ false
    → IsValid s
    → allocated s (s.is_in_buf b) ≡ taken (b ∷ s.free) s.is_in_buf (s.is_in_buf b) + 1
unfolding has_direction
taken-allocated s b below out valid = elim (Bool-cases (s.is_in_buf b)) [
  | inl ins ↦ rw ins (valid.ins ∙ taken_more b s.free out below s.is_in_buf true ins)
  | inr outs ↦ rw outs (valid.outs ∙ taken_more b s.free out below s.is_in_buf false (ap not outs))
]

-- A buffer goes back to the free list and out of the count of its direction.
freed-IsValid :
    (s : Pool) (b : ℕ) (is_in : Bool)
    → s.is_in_buf b ≡ is_in
    → b < iobuf_pool_size
    → is_free b s.free ≡ false
    → IsValid s
    → IsValid
        (set_allocated (record s { free = b ∷ s.free }) is_in ((allocated s is_in + 255) % 256))
unfolding set_allocated has_direction is_free_list
freed-IsValid s b true way below out valid =
    let more = taken_more b s.free out below s.is_in_buf true way in
    let inside : ltb b iobuf_pool_size ≡ true = ground arith in
    record {
      free_list = rw (inside, out) valid.free_list;
      ins = omega (arith, valid.ins, valid.in_limit, more);
      outs = valid.outs ∙ taken_same b s.free out below s.is_in_buf false (ap not way);
      in_limit = omega (arith, valid.ins, valid.in_limit, more);
      out_limit = valid.out_limit;
    }
freed-IsValid s b false way below out valid =
    let more = taken_more b s.free out below s.is_in_buf false (ap not way) in
    let inside : ltb b iobuf_pool_size ≡ true = ground arith in
    record {
      free_list = rw (inside, out) valid.free_list;
      ins = valid.ins ∙ taken_same b s.free out below s.is_in_buf true way;
      outs = omega (arith, valid.outs, valid.out_limit, more);
      in_limit = valid.in_limit;
      out_limit = omega (arith, valid.outs, valid.out_limit, more);
    }

pub give_back-IsValid :
    (s : Pool) (b : ℕ)
    → b < iobuf_pool_size
    → is_free b s.free ≡ false
    → IsValid s
    → IsValid (give_back s b)
unfolding give_back
give_back-IsValid s b below out valid =
    let v = freed-IsValid s b (s.is_in_buf b) refl below out valid in
    elim (Bool-cases (s.is_in_buf b && s.rx_need_buf)) [
      | inl reserved ↦ rw reserved v
      | inr not_reserved ↦ rw not_reserved (serve-IsValid _ (s.is_in_buf b) _ v)
    ]
