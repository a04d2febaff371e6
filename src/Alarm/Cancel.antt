-- ===== src/Alarm/Cancel.antt =====
-- `zb_schedule_alarm_cancel`: which pending entries it takes out of the queue, and that each goes back
-- to the free list.
pub mod Release
use zboss.Base.{
  ℕ, zero, suc, ◌+◌, ◌≡◌, ◌≢◌, ◌<◌, refl, sym, ap, subst, ◌∙◌, arith, Bool, false, true, ◌||◌, List,
  [], ◌∷◌, ◌++◌, append_assoc, Ptr, null, length, length-append, Bool-cases, inl, inr,
  if◌then◌else◌, ◌==◌,
}
use zboss.Dlist.Rep.{first, Next-split, NonNull-split}
use zboss.Dlist.Insert.{test_ne}
use zboss.Alarm.{
  Alarms, Ret, ok, not_found, cancels, release, cancel_loop, schedule_alarm_cancel, alarm_all_cb,
}
use zboss.Alarm.Queue.{Holds}
use Release.{release-Holds, cancels-release}

module _ (hit : Ptr → Bool) (all : Bool) where
  -- What stays: without the first entry that is hit, or without any.
  unfoldable pub remaining : List Ptr → List Ptr
  remaining [] = []
  remaining (x ∷ xs) = if hit x then (if all then remaining xs else xs) else x ∷ remaining xs

  unfoldable pub any : List Ptr → Bool
  any [] = false
  any (x ∷ xs) = hit x || any xs

-- The outcome of a cancellation that has left the entries `ys` and has the entries `zs` to go.
pub record Cancelled (hit : Ptr → Bool) (all : Bool) (ys zs fs : List Ptr) (ret : Ret)
    (out : Ret × Alarms) : Type 0 where
  pub free : List Ptr
  pub held : Holds out.1 (ys ++ remaining hit all zs) free
  pub answer : out.0 ≡ (if any hit all zs then ok else ret)
  pub kept : length (remaining hit all zs) + length free ≡ length zs + length fs

-- Turn what holds after one more entry is passed into what holds now.
passed :
    (hit : Ptr → Bool) (all : Bool) (ys : List Ptr) (z : Ptr) (zs fs : List Ptr) (ret : Ret)
    (out : Ret × Alarms)
    → hit z ≡ false
    → Cancelled hit all (ys ++ z ∷ []) zs fs ret out
    → Cancelled hit all ys (z ∷ zs) fs ret out
unfolding remaining any
passed hit all ys z zs fs ret out miss c =
    let left : remaining hit all (z ∷ zs) ≡ z ∷ remaining hit all zs = rw miss refl in
    record {
      free = c.free;
      held =
          subst (λ l. Holds out.1 l c.free)
            (append_assoc ys (z ∷ []) (remaining hit all zs) ∙ ap (λ l. ys ++ l) (sym left)) c.held;
      answer = c.answer ∙ rw miss refl;
      kept = ap (λ l. length l + length c.free) left ∙ ground (arith, c.kept);
    }

either_ok : (b : Bool) → (if b then ok else ok) ≡ ok
either_ok true = refl
either_ok false = refl

found_all :
    (hit : Ptr → Bool) (all : Bool) (ys : List Ptr) (z : Ptr) (zs fs : List Ptr) (ret : Ret)
    (out : Ret × Alarms)
    → all ≡ true
    → hit z ≡ true
    → Cancelled hit all ys zs (z ∷ fs) ok out
    → Cancelled hit all ys (z ∷ zs) fs ret out
unfolding remaining any
found_all hit all ys z zs fs ret out every found c =
    let left : remaining hit all (z ∷ zs) ≡ remaining hit all zs =
      rw found (ap (λ b. if b then remaining hit all zs else zs) every) in
    record {
      free = c.free;
      held = subst (λ l. Holds out.1 (ys ++ l) c.free) (sym left) c.held;
      answer = c.answer ∙ rw found (either_ok (any hit all zs));
      kept = ap (λ l. length l + length c.free) left ∙ c.kept ∙ ground (arith);
    }

found_one :
    (s : Alarms) (hit : Ptr → Bool) (all : Bool) (ys : List Ptr) (z : Ptr) (zs fs : List Ptr)
    (ret : Ret)
    → all ≡ false
    → hit z ≡ true
    → Holds s (ys ++ zs) (z ∷ fs)
    → Cancelled hit all ys (z ∷ zs) fs ret (ok, s)
unfolding remaining any
found_one s hit all ys z zs fs ret single found h =
    let left : remaining hit all (z ∷ zs) ≡ zs = rw (found, single) refl in
    record {
      free = z ∷ fs;
      held = subst (λ l. Holds s (ys ++ l) (z ∷ fs)) (sym left) h;
      answer = rw found refl;
      kept = ap (λ l. length l + length (z ∷ fs)) left ∙ ground (arith);
    }

nothing_left :
    (s : Alarms) (hit : Ptr → Bool) (all : Bool) (ys fs : List Ptr) (ret : Ret)
    → Holds s (ys ++ []) fs
    → Cancelled hit all ys [] fs ret (ret, s)
unfolding remaining any
nothing_left s hit all ys fs ret h = record { free = fs; held = h; answer = refl; kept = refl }

loop-Cancelled :
    (k : ℕ) (s : Alarms) (func param : ℕ) (ys zs fs : List Ptr) (ret : Ret)
    → Holds s (ys ++ zs) fs
    → length zs < k
    → Cancelled
        (cancels s func param)
        (param == alarm_all_cb)
        ys
        zs
        fs
        ret
        (cancel_loop k s func param (first zs null) ret)
unfolding cancel_loop
loop-Cancelled zero s func param ys zs fs ret h lt = ground arith
loop-Cancelled (suc k) s func param ys [] fs ret h lt =
    nothing_left s (cancels s func param) (param == alarm_all_cb) ys fs ret h
loop-Cancelled (suc k) s func param ys (z ∷ zs) fs ret h lt =
    let present : (z == null) ≡ false =
      test_ne z null (NonNull-split ys (z ∷ zs) h.queued.non_null).1.0 in
    let follow : s.tm_queue.next z ≡ first zs null =
      (Next-split s.tm_queue.next ys (z ∷ zs) null h.queued.nexts).1.0 in
    let after = release-Holds s z ys zs fs h in
    let shown = cancel_loop (suc k) s func param z ret in
    elim (Bool-cases (cancels s func param z)) [
      | inl found ↦ elim (Bool-cases (param == alarm_all_cb)) [
        | inl every ↦
            let rest =
              loop-Cancelled k (release s z) func param ys zs (z ∷ fs) ok after (ground arith) in
            let same : cancel_loop k (release s z) func param (first zs null) ok ≡ shown =
              rw (present, found, every, follow) refl in
            subst
              (λ out.
                Cancelled (cancels s func param) (param == alarm_all_cb) ys (z ∷ zs) fs ret out)
              same
              (found_all (cancels s func param) _ ys z zs fs ret _ every found (
                subst
                  (λ hit.
                    Cancelled hit (param == alarm_all_cb) ys zs (z ∷ fs) ok
                      (cancel_loop k (release s z) func param (first zs null) ok))
                  (cancels-release s z func param) rest))
        | inr single ↦
            let same : (ok, release s z) ≡ shown = rw (present, found, single) refl in
            subst
              (λ out.
                Cancelled (cancels s func param) (param == alarm_all_cb) ys (z ∷ zs) fs ret out)
              same
              (found_one (release s z) (cancels s func param) _ ys z zs fs ret single found after)
      ]
      | inr miss ↦
          let joined = subst (λ l. Holds s l fs) (sym (append_assoc ys (z ∷ []) zs)) h in
          let rest = loop-Cancelled k s func param (ys ++ z ∷ []) zs fs ret joined (ground arith) in
          let same : cancel_loop k s func param (first zs null) ret ≡ shown =
            rw (present, miss, follow) refl in
          subst
            (λ out. Cancelled (cancels s func param) (param == alarm_all_cb) ys (z ∷ zs) fs ret out)
            same (passed (cancels s func param) (param == alarm_all_cb) ys z zs fs ret _ miss rest)
    ]

-- When the queue holds the entries `xs`, at most 16, `zb_schedule_alarm_cancel` answers RET_OK just
-- when it finds an entry with the callback and the parameter (any of them for ZB_ALARM_ANY_PARAM and
-- ZB_ALARM_ALL_CB), and RET_NOT_FOUND else; the queue then holds the other entries in their order:
-- all but the first such entry, or all but all of them for ZB_ALARM_ALL_CB. No entry is lost: the
-- free list grows by as many as the queue shrinks.
pub schedule_alarm_cancel-Cancelled :
    (s : Alarms) (func param : ℕ) (xs fs : List Ptr)
    → Holds s xs fs
    → length xs < 17
    → Cancelled
        (cancels s func param)
        (param == alarm_all_cb)
        []
        xs
        fs
        not_found
        (schedule_alarm_cancel s func param)
unfolding schedule_alarm_cancel
schedule_alarm_cancel-Cancelled s func param xs fs h lt =
    subst
      (λ p.
        Cancelled (cancels s func param) (param == alarm_all_cb) [] xs fs not_found
          (cancel_loop 17 s func param p not_found))
      (sym h.queued.heads) (loop-Cancelled 17 s func param [] xs fs not_found h lt)
