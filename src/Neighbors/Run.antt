-- ===== src/Neighbors/Run.antt =====
-- Runs of `zb_nwk_neighbor_get` and `zb_nwk_neighbor_delete` of nwk/nwk_neighbor.c.
use zboss.Base.{
  ℕ, ◌+◌, ◌-◌, ◌%◌, ◌^◌, ◌<◌, ◌≡◌, ◌≢◌, refl, sym, ap, subst, ◌∙◌, arith, Bool, true, false, ◌==◌,
  Bool-cases, inl, inr, Option, none, some, some-inj, update_self,
}
use zboss.Alarm.{Ret, ok, not_found, no_memory}
use zboss.Address.{Addresses, address_lock}
use zboss.Neighbors.{
  Neighbors, Handed, no_neighbor, neighbor_clear, neighbor_delete, create_neighbor, neighbor_get,
}
use zboss.Neighbors.Valid.{
  IsValid, neighbor_clear-IsValid, with_entry, without_entry-IsValid, with_entry-IsValid, Entry,
  new-Entry,
}

-- What a call of `zb_nwk_neighbor_get` that returns has done.
data Got (s : Neighbors) (depth ref : ℕ) (ret : Ret) (o : Option ℕ) (t : Neighbors) : Type 0 where
  there :
      s.addr_to_neighbor ref ≢ no_neighbor
      → o ≡ some (s.addr_to_neighbor ref)
      → t ≡ s
      → Got s depth ref ret o t
  made :
      s.addr_to_neighbor ref ≡ no_neighbor
      → s.base_neighbor_used ≢ (s.base_neighbor_size + 2 ^ 32 - 1) % 2 ^ 32
      → o ≡ some (s.base_neighbor_used % 256)
      → t ≡ with_entry s depth ref
      → Got s depth ref ret o t
  failed : ret ≢ ok → t ≡ s → Got s depth ref ret o t

module _ (s : Neighbors) (depth ref : ℕ) (ret : Ret) (o : Option ℕ) (t : Neighbors)
    (b : Addresses) where
  created-Got :
      (locked : Option Addresses)
      → s.addr_to_neighbor ref ≡ no_neighbor
      → s.base_neighbor_used ≢ (s.base_neighbor_size + 2 ^ 32 - 1) % 2 ^ 32
      → create_neighbor s depth ref locked ≡ some (ret, o, t, b)
      → Got s depth ref ret o t
  unfolding create_neighbor
  created-Got none no_entry room e = ground arith
  created-Got (some a) no_entry room e =
      let q = some-inj e in made no_entry room (sym (ap (λ r. r.1) q)) (sym (ap (λ r. r.2) q))

  failed-Got :
      (code : Ret) (a : Addresses)
      → code ≢ ok
      → ◌≡◌ {A = Handed} (some (code, none, s, a)) (some (ret, o, t, b))
      → Got s depth ref ret o t
  failed-Got code a bad e =
      let q = some-inj e in failed (λ r. bad (ap (λ x. x.0) q ∙ r)) (sym (ap (λ x. x.2) q))

  neighbor_get-Got :
      (a : Addresses) (create : Bool)
      → neighbor_get s a depth ref create ≡ some (ret, o, t, b)
      → Got s depth ref ret o t
  unfolding neighbor_get
  neighbor_get-Got a create e =
      let full = s.base_neighbor_used == (s.base_neighbor_size + 2 ^ 32 - 1) % 2 ^ 32 in
      elim (Bool-cases (s.addr_to_neighbor ref == no_neighbor)) [
        | inr known ↦
            let q = some-inj (rw known at e) in
            there (ground arith) (sym (ap (λ x. x.1) q)) (sym (ap (λ x. x.2) q))
        | inl unknown ↦ elim (Bool-cases create) [
          | inr no_create ↦ failed-Got not_found a (λ r. cc) (rw (unknown, no_create) at e)
          | inl create_it ↦ elim (Bool-cases full) [
            | inl no_room ↦ failed-Got no_memory a (λ r. cc) (rw (unknown, create_it, no_room) at e)
            | inr room ↦
                created-Got (address_lock a ref) (ground arith) (ground arith)
                  (rw (unknown, create_it, room) at e)
          ]
        ]
      ]

-- A step: a call of `zb_nwk_neighbor_get` that returns, with whatever address table, or a call of
-- `zb_nwk_neighbor_delete`.
pub data Step (s t : Neighbors) : Type 0 where
  get :
      (depth ref : ℕ) (create : Bool) (ret : Ret) (o : Option ℕ) (a b : Addresses)
      → neighbor_get s a depth ref create ≡ some (ret, o, t, b)
      → Step s t
  delete : (ref : ℕ) → t ≡ (neighbor_delete s ref).1 → Step s t

pub data Run (s : Neighbors) : Neighbors → Type 0 where
  start : Run s s
  next : {t u : Neighbors} → Run s t → Step t u → Run s u

Got-IsValid :
    (s : Neighbors) (depth ref : ℕ) (ret : Ret) (o : Option ℕ) (t : Neighbors)
    → IsValid s
    → Got s depth ref ret o t
    → IsValid t
Got-IsValid s depth ref ret o t v (there _ _ same) = rw same v
Got-IsValid s depth ref ret o t v (failed _ same) = rw same v
Got-IsValid s depth ref ret o t v (made no_entry room _ new) =
    rw new (with_entry-IsValid s v depth ref no_entry room)

neighbor_delete-IsValid : (s : Neighbors) (ref : ℕ) → IsValid s → IsValid (neighbor_delete s ref).1
unfolding neighbor_delete
neighbor_delete-IsValid s ref v = elim (Bool-cases (s.addr_to_neighbor ref == no_neighbor)) [
  | inl unknown ↦ rw unknown v
  | inr known ↦ rw known (without_entry-IsValid s v ref (ground arith))
]

Step-IsValid : (s t : Neighbors) → IsValid s → Step s t → IsValid t
Step-IsValid s t v (get depth ref create ret o a b e) =
    Got-IsValid s depth ref ret o t v (neighbor_get-Got s depth ref ret o t b a create e)
Step-IsValid s t v (delete ref same) = rw same (neighbor_delete-IsValid s ref v)

from_IsValid : (s : Neighbors) {t : Neighbors} → IsValid s → Run s t → IsValid t
from_IsValid s v start = v
from_IsValid s v (next r st) = Step-IsValid _ _ (from_IsValid s v r) st

-- From a table that `zb_nwk_neighbor_clear` has made, every run of calls of `zb_nwk_neighbor_get` and
-- `zb_nwk_neighbor_delete` keeps this: fewer entries are counted than the table has places, of which
-- there are at most 32, and every address reference that leads to an entry leads to a counted one that
-- is in use and leads back to the reference.
pub Run-IsValid : (s : Neighbors) {t : Neighbors} → Run (neighbor_clear s) t → IsValid t
Run-IsValid s r = from_IsValid (neighbor_clear s) (neighbor_clear-IsValid s) r

module _ (t : Neighbors) (ref : ℕ) (known : t.addr_to_neighbor ref ≢ no_neighbor) where
  known_get :
      (b : Addresses) (depth : ℕ) (create : Bool)
      → neighbor_get t b depth ref create ≡ some (ok, some (t.addr_to_neighbor ref), t, b)
  unfolding neighbor_get
  known_get b depth create =
      let test : (t.addr_to_neighbor ref == no_neighbor) ≡ false = ground arith in rw test refl

  deleted_get :
      (b : Addresses) (depth : ℕ)
      → let u = (neighbor_delete t ref).1 in
        neighbor_get u b depth ref false ≡ some (not_found, none, u, b)
  unfolding neighbor_get neighbor_delete
  deleted_get b depth =
      let test : (t.addr_to_neighbor ref == no_neighbor) ≡ false = ground arith in
      let self : (ref == ref) ≡ true = ground arith in rw (test, self) refl

-- After a call that returned RET_OK the reference leads to the entry handed out.
Got-ok :
    (s : Neighbors) (depth ref i : ℕ) (t : Neighbors)
    → IsValid s
    → Got s depth ref ok (some i) t
    → (t.addr_to_neighbor ref ≡ i) × (t.addr_to_neighbor ref ≢ no_neighbor) × Entry ref t
Got-ok s depth ref i t v (there known same t_is) =
    rw t_is (sym (some-inj same), known, (v.inside ref known, v.in_use ref known, v.back ref known))
Got-ok s depth ref i t v (failed bad _) = absurd (bad refl)
Got-ok s depth ref i t v (made no_entry room same t_is) =
    let n = s.base_neighbor_used % 256 in
    let at : (with_entry s depth ref).addr_to_neighbor ref ≡ n =
      update_self s.addr_to_neighbor ref n in
    let some_place = v.room in
    let bound = v.bound in
    rw t_is (at ∙ sym (some-inj same), λ e. omega arith, new-Entry s v depth ref no_entry room)

-- On a valid table, when `zb_nwk_neighbor_get` returns RET_OK and an entry, whether it was there or is
-- new, the entry is a counted one, in use, for the reference; every later call for the reference
-- hands out the same entry and changes nothing; and after `zb_nwk_neighbor_delete` a call that
-- may not create an entry returns RET_NOT_FOUND.
pub neighbor_get-neighbor_get :
    (s : Neighbors) (a b : Addresses) (depth ref i : ℕ) (create : Bool) (t : Neighbors)
    → IsValid s
    → neighbor_get s a depth ref create ≡ some (ok, some i, t, b)
    → (i < t.base_neighbor_used)
      × ((t.base_neighbor i).used ≡ true)
      × ((t.base_neighbor i).addr_ref ≡ ref)
      × ((c : Addresses) (again : Bool)
          → neighbor_get t c depth ref again ≡ some (ok, some i, t, c))
      × ((c : Addresses)
          → let u = (neighbor_delete t ref).1 in
            neighbor_get u c depth ref false ≡ some (not_found, none, u, c))
neighbor_get-neighbor_get s a b depth ref i create t v e =
    let (at, known, entry) =
      Got-ok s depth ref i t v (neighbor_get-Got s depth ref ok (some i) t b a create e) in
    (
      subst (λ n. n < t.base_neighbor_used) at entry.0,
      ap (λ n. (t.base_neighbor n).used) (sym at) ∙ entry.1,
      ap (λ n. (t.base_neighbor n).addr_ref) (sym at) ∙ entry.2,
      λ c again. known_get t ref known c depth again ∙ ap (λ n. some (ok, some n, t, c)) at,
      λ c. deleted_get t ref known c depth,
    )
