-- ===== src/Pool/Limits.antt =====
-- Every buffer of the pool is free or counted for a direction, and each direction keeps its limit.
use zboss.Base.{
  ℕ, ◌<◌, ◌≡◌, refl, subst, arith, Bool, some-inj, Bool-cases, inl, inr, [], none, some,
}
use zboss.Pool.{
  Pool, iobuf_pool_size, get_buf, get_buf_delayed, is_free, give_back, free_buf, init_buffers,
  link_loop,
}
use zboss.Pool.Taken.{count, is_taken, taken, is_free_list}
use zboss.Pool.Valid.{IsValid, get_buf-IsValid, get_buf_delayed-IsValid, give_back-IsValid}

free_buf-IsValid :
    (s t : Pool) (b : ℕ) → b < iobuf_pool_size → free_buf s b ≡ some t → IsValid s → IsValid t
unfolding free_buf
free_buf-IsValid s t b below e valid = elim (Bool-cases (is_free b s.free)) [
  | inl twice ↦ let wrong : none ≡ some t = rw twice at e in absurd (ground arith)
  | inr out ↦
      let same : give_back s b ≡ t = some-inj (rw out at e) in
      subst IsValid same (give_back-IsValid s b below out valid)
]

-- What the layers do with the pool: a buffer that is freed is one of the pool's, and not free already.
pub data PoolStep (s : Pool) : Pool → Type 0 where
  gets : (is_in : Bool) → PoolStep s (get_buf s is_in).1
  asks : (callback : ℕ) (is_in : Bool) → PoolStep s (get_buf_delayed s callback is_in).1
  frees : (b : ℕ) (t : Pool) → b < iobuf_pool_size → free_buf s b ≡ some t → PoolStep s t

-- Runs of any length.
pub data PoolSteps (s : Pool) : Pool → Type 0 where
  rests : PoolSteps s s
  continues : (s' s'' : Pool) → PoolSteps s s' → PoolStep s' s'' → PoolSteps s s''

PoolStep-IsValid : (s s' : Pool) → PoolStep s s' → IsValid s → IsValid s'
PoolStep-IsValid s _ (gets is_in) valid = get_buf-IsValid s is_in valid
PoolStep-IsValid s _ (asks callback is_in) valid = get_buf_delayed-IsValid s callback is_in valid
PoolStep-IsValid s _ (frees b t below e) valid = free_buf-IsValid s t b below e valid

-- Let the free list hold buffers of the pool, each at most once, let every other buffer of the pool be
-- counted as allocated for the direction that it was handed out for, and let no direction have more
-- than half of them. After any run of `zb_get_buf`, `zb_get_buf_delayed`, and `zb_free_buf` of buffers of
-- the pool that are not on the free list, all this holds again.
pub PoolSteps-IsValid : (s s' : Pool) → PoolSteps s s' → IsValid s → IsValid s'
PoolSteps-IsValid s s' rests valid = valid
PoolSteps-IsValid s t (continues s' t' steps step) valid =
    PoolStep-IsValid s' t' step (PoolSteps-IsValid s s' steps valid)

-- The state that `zb_init_buffers` makes.
pub init_buffers-IsValid :
    (s : Pool) → s.allocated_in ≡ 0 → s.allocated_out ≡ 0 → IsValid (init_buffers s [])
unfolding init_buffers link_loop is_free_list taken count is_taken is_free
init_buffers-IsValid s ins outs = record {
  free_list = refl;
  ins = ins;
  outs = outs;
  in_limit = omega arith;
  out_limit = omega arith;
}
