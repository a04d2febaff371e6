-- ===== src/Tests/Links.antt =====
-- Concrete lists and rings.
use zboss.Base.{ℕ, refl, arith, [], ◌∷◌, update}
use zboss.Dlist.{Dlist}
use zboss.Dlist.Rep.{IsList}
use zboss.Ring.{Ring, fill, flush_put}
use zboss.Ring.Fifo.{Holds, flush_put-Holds}

-- The entries 5, 6 and 7 in a list.
abbrev three : Dlist
three = record {
  head = 5;
  next = update (update (λ p. 0) 5 6) 6 7;
  prev = update (update (update (λ p. 0) 5 7) 6 5) 7 6;
}

three-IsList : IsList three (5 ∷ 6 ∷ 7 ∷ [])
three-IsList = record {
  heads = refl;
  nexts = (refl, (refl, (refl, tt)));
  prevs = (refl, (refl, (refl, tt)));
  distinct = (refl, (refl, (refl, tt)));
  non_null = (omega arith, (omega arith, (omega arith, tt)));
}

-- A ring of three places whose two entries go round the end.
abbrev around : Ring ℕ
around = record { ring_buf = 11 ∷ 0 ∷ 10 ∷ []; read_i = 2; write_i = 1; written = 2 }

around-Holds : Holds around (10 ∷ 11 ∷ [])
around-Holds = record {
  valid = record {
    room = omega arith;
    small = omega arith;
    read_in = omega arith;
    count_in = omega arith;
    behind = refl;
  };
  count = refl;
  entries = (refl, (refl, tt));
}

flush_put-Holds_example : Holds (flush_put (fill around 1 12)) (10 ∷ 11 ∷ 12 ∷ [])
flush_put-Holds_example = flush_put-Holds around (10 ∷ 11 ∷ []) around-Holds 12 (omega arith)
