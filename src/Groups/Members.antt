-- ===== src/Groups/Members.antt =====
-- Which endpoints are in which groups, and what adding one changes.
use zboss.Base.{
  or_assoc, or_false, ℕ, zero, suc, ◌+◌, ◌≤◌, ◌<◌, ◌≡◌, refl, sym, ap, ap₂, ◌∙◌, arith, Bool, true,
  false, ◌&&◌, ◌||◌, ltb, ◌==◌, Bool-cases, Option-cases, none, some, [], ◌∷◌, any, slice,
  slice_ext, slice-update, any-append, update, update_self, update_ne, ◌⊎◌, inl, inr,
}
use native.Mathlib.Decide.{dec_lt}
use zboss.Groups.{
  GroupEnt, Groups, group_table_size, endpoints_in_group_table, status_table_full, endpoint_loop,
  add_endpoint, group_loop, add_group, add_group_request,
}

-- The endpoint is among those of the entry.
unfoldable pub has_endpoint : GroupEnt → ℕ → Bool
has_endpoint ent endpoint = any (λ e. e == endpoint) (slice ent.endpoints 0 ent.n_endpoints)

-- The entry has the endpoint in the group.
unfoldable pub is_entry : ℕ → ℕ → GroupEnt → Bool
is_entry group_address endpoint ent = ent.group_addr == group_address && has_endpoint ent endpoint

-- The table has the endpoint in the group.
unfoldable pub is_member : Groups → ℕ → ℕ → Bool
is_member s group_address endpoint =
    any (is_entry group_address endpoint) (slice s.groups 0 s.n_groups)

or_swap : (b c d : Bool) → ((b || c) || d) ≡ ((b || d) || c)
or_swap true c d = refl
or_swap false true true = refl
or_swap false true false = refl
or_swap false false true = refl
or_swap false false false = refl

or_twice : (b : Bool) → (b && true) ≡ ((b && true) || (b && true))
or_twice true = refl
or_twice false = refl

or_nothing : (b c : Bool) → (b && c) ≡ ((b && c) || (b && false))
or_nothing true true = refl
or_nothing true false = refl
or_nothing false c = refl

-- Replacing one entry of a range, when the new one passes whatever test the old one passed.
any-update {ℓ} :
    {A : Type ℓ} (p : A → Bool) (f : ℕ → A) (i : ℕ) (v : A) (a n : ℕ)
    → a ≤ i
    → i < a + n
    → (b : Bool) → p v ≡ (p (f i) || b)
    → any p (slice (update f i v) a n) ≡ (any p (slice f a n) || b)
unfolding slice
any-update p f i v a zero from below b e = absurd (omega arith)
any-update p f i v a (suc n) from below b e = elim (dec_lt a i) [
  | yes later ↦
      ap (λ x. p x || any p (slice (update f i v) (a + 1) n))
        (update_ne f i a v (λ same. omega arith))
      ∙ ap (λ c. p (f a) || c) (any-update p f i v (a + 1) n (omega arith) (omega arith) b e)
      ∙ or_assoc (p (f a)) (any p (slice f (a + 1) n)) b
  | no now ↦
      let at : a ≡ i = omega arith in
      let head : p (update f i v a) ≡ (p (f a) || b) =
        ap (λ j. p (update f i v j)) at
        ∙ ap p (update_self f i v)
        ∙ e
        ∙ ap (λ j. p (f j) || b) (sym at) in
      ap₂ ◌||◌ head (
        ap (any p) (
          slice_ext (update f i v) f (a + 1) (a + 1) n
            (λ k h. update_ne f i (a + 1 + k) v (λ same. omega arith))))
      ∙ or_swap (p (f a)) b (any p (slice f (a + 1) n))
]

endpoint_loop-any :
    (k : ℕ) (ent : GroupEnt) (endpoint j : ℕ)
    → endpoint_loop k ent endpoint j ≡ any (λ e. e == endpoint) (slice ent.endpoints j k)
unfolding endpoint_loop slice
endpoint_loop-any zero ent endpoint j = refl
endpoint_loop-any (suc k) ent endpoint j = elim (Bool-cases (ent.endpoints j == endpoint)) [
  | inl hit ↦ rw hit refl
  | inr miss ↦ rw miss (endpoint_loop-any k ent endpoint (j + 1))
]

and_or : (g h c : Bool) → (g && (h || (c || false))) ≡ ((g && h) || (g && c))
and_or false h c = refl
and_or true true c = refl
and_or true false true = refl
and_or true false false = refl

-- A new group.
new_member :
    (s : Groups) (group_address endpoint a e : ℕ)
    → is_member (add_group s group_address endpoint) a e
      ≡ (is_member s a e || (group_address == a && endpoint == e))
unfolding is_member add_group is_entry has_endpoint slice
new_member s group_address endpoint a e =
    ap (any (is_entry a e)) (slice-update s.groups s.n_groups _)
    ∙ any-append (is_entry a e) (slice s.groups 0 s.n_groups) _
    ∙ ap (λ c. is_member s a e || c)
        (or_false _ ∙ ap (λ c. group_address == a && c) (or_false (endpoint == e)))

-- What the entry of a group becomes.
module _ (ent : GroupEnt) (endpoint : ℕ) where
  unfoldable pub Entered : ℕ × GroupEnt → Type 0
  Entered (status, ent') =
      ((status ≡ 0)
        × ((a e : ℕ)
            → is_entry a e ent' ≡ (is_entry a e ent || (ent.group_addr == a && endpoint == e))))
      ⊎ ((status ≡ status_table_full) × (ent' ≡ ent))

  entered_before :
      endpoint_loop ent.n_endpoints ent endpoint 0 ≡ true
      → (a e : ℕ) → is_entry a e ent ≡ (is_entry a e ent || (ent.group_addr == a && endpoint == e))
  unfolding is_entry has_endpoint
  entered_before found a e = elim (Bool-cases (endpoint == e)) [
    | inl same ↦
        let at : endpoint ≡ e = ground arith in
        let known : any (λ x. x == e) (slice ent.endpoints 0 ent.n_endpoints) ≡ true =
          ap (λ y. any (λ x. x == y) (slice ent.endpoints 0 ent.n_endpoints)) (sym at)
          ∙ sym (endpoint_loop-any ent.n_endpoints ent endpoint 0)
          ∙ found in
        rw (known, same) (or_twice (ent.group_addr == a))
    | inr other ↦ rw other (or_nothing (ent.group_addr == a) _)
  ]

  entered_behind :
      (a e : ℕ)
      → is_entry a e (record ent {
        endpoints = update ent.endpoints ent.n_endpoints endpoint;
        n_endpoints = ent.n_endpoints + 1;
      })
        ≡ (is_entry a e ent || (ent.group_addr == a && endpoint == e))
  unfolding is_entry has_endpoint
  entered_behind a e =
      ap (λ l. ent.group_addr == a && any (λ x. x == e) l)
        (slice-update ent.endpoints ent.n_endpoints endpoint)
      ∙ ap (λ c. ent.group_addr == a && c)
          (any-append (λ x. x == e) (slice ent.endpoints 0 ent.n_endpoints) (endpoint ∷ []))
      ∙ and_or (ent.group_addr == a) _ (endpoint == e)

  add_endpoint-Entered : Entered (add_endpoint ent endpoint)
  unfolding add_endpoint Entered
  add_endpoint-Entered = elim (Bool-cases (endpoint_loop ent.n_endpoints ent endpoint 0)) [
    | inl found ↦ rw found (inl (refl, entered_before found))
    | inr absent ↦ elim (Bool-cases (ltb ent.n_endpoints endpoints_in_group_table)) [
      | inl room ↦ rw (absent, room) (inl (refl, entered_behind))
      | inr full ↦ rw (absent, full) (inr (refl, refl))
    ]
  ]

none-some : (j : ℕ) → none ≡ some j → ⊥
none-some j h = ground arith

some_same : (i j : ℕ) → some i ≡ some j → i ≡ j
some_same i j h = cc

group_loop_found :
    (k : ℕ) (s : Groups) (group_address i j : ℕ)
    → group_loop k s group_address i ≡ some j
    → (i ≤ j) × (j < i + k) × ((s.groups j).group_addr ≡ group_address)
unfolding group_loop
group_loop_found zero s group_address i j h = absurd (none-some j h)
group_loop_found (suc k) s group_address i j h =
    elim (Bool-cases ((s.groups i).group_addr == group_address)) [
      | inl hit ↦
          let at : i ≡ j = some_same i j (rw hit at h) in
          (omega arith, omega arith, ap (λ m. (s.groups m).group_addr) (sym at) ∙ ground arith)
      | inr miss ↦
          let (from, below, same) = group_loop_found k s group_address (i + 1) j (rw miss at h) in
          (omega arith, omega arith, same)
    ]

-- `zb_apsme_add_group_request` either answers with the status 0, and the endpoint, and nothing else, has
-- come into the group; or it answers ZB_APS_STATUS_TABLE_FULL and no endpoint has come into a group or
-- left one.
pub add_group_request-is_member :
    (s : Groups) (group_address endpoint a e : ℕ)
    → let (status, s') = add_group_request s group_address endpoint in
      ((status ≡ 0)
        × (is_member s' a e ≡ (is_member s a e || (group_address == a && endpoint == e))))
      ⊎ ((status ≡ status_table_full) × (is_member s' a e ≡ is_member s a e))
unfolding add_group_request is_member Entered
add_group_request-is_member s group_address endpoint a e =
    elim (Option-cases (group_loop s.n_groups s group_address 0)) [
      | inl absent ↦ elim (Bool-cases (ltb s.n_groups group_table_size)) [
        | inl room ↦
            rw (add_group_request, absent, room)
              (inl (refl, new_member s group_address endpoint a e))
        | inr full ↦ rw (add_group_request, absent, full) (inr (refl, refl))
      ]
      | inr (i, found) ↦
          let (_, below, same) = group_loop_found s.n_groups s group_address 0 i found in
          let ent = s.groups i in
          elim (add_endpoint-Entered ent endpoint) [
            | inl (status, entered) ↦
                rw (add_group_request, found)
                  (inl (
                    status,
                    any-update (is_entry a e) s.groups i (add_endpoint ent endpoint).1 0 s.n_groups
                          (omega arith) below (ent.group_addr == a && endpoint == e) (entered a e)
                        ∙ ap (λ g. is_member s a e || (g == a && endpoint == e)) same,
                  ))
            | inr (status, kept) ↦
                rw (add_group_request, found)
                  (inr (
                    status,
                    any-update (is_entry a e) s.groups i (add_endpoint ent endpoint).1 0 s.n_groups
                          (omega arith) below false
                          (ap (is_entry a e) kept ∙ sym (or_false (is_entry a e ent)))
                        ∙ or_false _,
                  ))
          ]
    ]
