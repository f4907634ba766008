-- ===== src/CountDownLatch/Opens.antt =====
-- base/count_down_latch.cc: when the calls of `wait` return.
use ccnet.Prelude.{
  ℕ, zero, suc, ◌+◌, ◌<◌, ◌≡◌, refl, sym, ap, subst, ◌∙◌, ◌↔◌, inl, inr, Bool, true, false, arith,
  ltb_iff, Bool-cases,
}
use ccnet.Prelude.Int.{
  ℤ, pos, neg_part, pos_part, ltb_ℤ, eqb_ℤ, ◌-ℤ◌, ◌≤ℤ◌, ◌<ℤ◌, int_laws, -ℤ_parts,
}
use ccnet.Condition.{Condition, Pthread, quiet, resume, wake_spuriously, notify_all}
use ccnet.Condition
use ccnet.CountDownLatch.{CountDownLatch, create, wait, count_down}

-- The numbers of calls of `wait` that came, of events, and of calls that returned.
pub record Tally : Type 0 where
  pub came : ℕ
  pub counted : ℕ
  pub returned : ℕ

-- From a latch of count `n`: what holds of it after so many calls.
pub record IsLatch (n : ℤ) (l : CountDownLatch) (t : Tally) : Type 0 where
  pub count_law : l.count ≡ n -ℤ pos t.counted
  pub calls_law : t.came ≡ l.condition.waiting + l.condition.woken + t.returned
  pub waits_shut : 0 < l.condition.waiting → pos 0 <ℤ l.count
  pub returns_open : 0 < t.returned → l.count ≤ℤ pos 0

abbrev tallied : Bool → Tally → Tally
tallied true t = record t { returned = suc t.returned }
tallied false t = t

abbrev resumed : CountDownLatch → CountDownLatch
resumed l = record l { condition = resume l.condition }

-- A step of some thread: a first pass of `wait`, one after a wakeup, `countDown`, or a wakeup without
-- a notification. With it goes the tally.
pub data LatchStep (p : Pthread) : CountDownLatch → Tally → CountDownLatch → Tally → Type 0 where
  enters :
      (l : CountDownLatch) (t : Tally)
      → LatchStep p l t (wait l).left (tallied (wait l).returned (record t { came = suc t.came }))
  resumes :
      (l : CountDownLatch) (t : Tally)
      → 0 < l.condition.woken
      → LatchStep p l t (wait (resumed l)).left (tallied (wait (resumed l)).returned t)
  counts :
      (l : CountDownLatch) (t : Tally)
      → LatchStep p l t (count_down p l) (record t { counted = suc t.counted })
  wakes :
      (l : CountDownLatch) (t : Tally)
      → 0 < l.condition.waiting
      → LatchStep p l t (record l { condition = wake_spuriously l.condition }) t

-- A pass by a thread that is counted neither as waiting nor as woken.
wait-IsLatch :
    (n : ℤ) (l : CountDownLatch) (t : Tally)
    → l.count ≡ n -ℤ pos t.counted
    → t.came ≡ suc (l.condition.waiting + l.condition.woken + t.returned)
    → (0 < l.condition.waiting → pos 0 <ℤ l.count)
    → (0 < t.returned → l.count ≤ℤ pos 0)
    → IsLatch n (wait l).left (tallied (wait l).returned t)
unfolding wait Condition.wait
wait-IsLatch n l t c k s r = elim (Bool-cases (ltb_ℤ (pos 0) l.count)) [
  | inl e ↦ simp e (record {
    count_law = c;
    calls_law = omega (arith, k);
    waits_shut = λ w. (ltb_iff _ _).0 e;
    returns_open = r;
  })
  | inr e ↦ simp e (record {
    count_law = c;
    calls_law = omega (arith, k);
    waits_shut = s;
    returns_open = λ w. ground (arith, e);
  })
]

one_more : (n : ℤ) (k : ℕ) → n -ℤ pos k -ℤ pos 1 ≡ n -ℤ pos (suc k)
one_more n k = omega int_laws

below : (z : ℤ) → z ≤ℤ pos 0 → z -ℤ pos 1 ≤ℤ pos 0
below z h = omega int_laws

above : (z : ℤ) → pos 0 <ℤ z → eqb_ℤ (z -ℤ pos 1) (pos 0) ≡ false → pos 0 <ℤ z -ℤ pos 1
above z h e = ground (arith, -ℤ_parts z (pos 1))

counts-IsLatch :
    (p : Pthread) (n : ℤ) (l : CountDownLatch) (t : Tally)
    → IsLatch n l t
    → IsLatch n (count_down p l) (record t { counted = suc t.counted })
unfolding count_down notify_all
counts-IsLatch p n l t h = elim (Bool-cases (eqb_ℤ (l.count -ℤ pos 1) (pos 0))) [
  | inl e ↦ simp e (record {
    count_law = ap (λ z. z -ℤ pos 1) h.count_law ∙ one_more n t.counted;
    calls_law =
        omega (arith, h.calls_law, p.broadcast_keeps l.condition, p.broadcast_wakes l.condition);
    waits_shut = λ w. absurd (omega (arith, p.broadcast_wakes l.condition));
    returns_open = λ w. below l.count (h.returns_open w);
  })
  | inr e ↦ simp e (record {
    count_law = ap (λ z. z -ℤ pos 1) h.count_law ∙ one_more n t.counted;
    calls_law = omega (arith, h.calls_law);
    waits_shut = λ w. above l.count (h.waits_shut w) e;
    returns_open = λ w. below l.count (h.returns_open w);
  })
]

step-IsLatch :
    (p : Pthread) (n : ℤ) {l m : CountDownLatch} {t u : Tally}
    → LatchStep p l t m u
    → IsLatch n l t
    → IsLatch n m u
step-IsLatch p n (enters l t) h =
    wait-IsLatch n l (record t { came = suc t.came }) h.count_law (omega (arith, h.calls_law))
      h.waits_shut h.returns_open
step-IsLatch p n (resumes l t o) h =
    unfold resume in
    wait-IsLatch n (resumed l) t h.count_law (omega (arith, h.calls_law)) h.waits_shut
      h.returns_open
step-IsLatch p n (counts l t) h = counts-IsLatch p n l t h
step-IsLatch p n (wakes l t o) h =
    unfold wake_spuriously in
    record {
      count_law = h.count_law;
      calls_law = omega (arith, h.calls_law);
      waits_shut = λ w. h.waits_shut o;
      returns_open = h.returns_open;
    }

-- Any steps with their tallies.
pub data Run (p : Pthread) : CountDownLatch → Tally → CountDownLatch → Tally → Type 0 where
  rests : (l : CountDownLatch) (t : Tally) → Run p l t l t
  goes_on :
      {l m o : CountDownLatch} {t u v : Tally} → LatchStep p l t m u → Run p m u o v → Run p l t o v

run-IsLatch :
    (p : Pthread) (n : ℤ) {l m : CountDownLatch} {t u : Tally}
    → IsLatch n l t
    → Run p l t m u
    → IsLatch n m u
run-IsLatch p n h (rests l t) = h
run-IsLatch p n h (goes_on s r) = run-IsLatch p n (step-IsLatch p n s h) r

abbrev pub none_yet : Tally
none_yet = record { came = 0; counted = 0; returned = 0 }

wait_open : (l : CountDownLatch) → l.count ≤ℤ pos 0 → wait l ≡ record { returned = true; left = l }
unfolding wait
wait_open l h = rw (shut l.count h) refl
  where
    shut : (z : ℤ) → z ≤ℤ pos 0 → ltb_ℤ (pos 0) z ≡ false
    shut z k = ground arith

-- Passes of threads that come back from their wait after a notification, and no other steps.
pub data Passes : CountDownLatch → Tally → CountDownLatch → Tally → Type 0 where
  done : (l : CountDownLatch) (t : Tally) → Passes l t l t
  passes :
      {l m : CountDownLatch} {t u : Tally}
      → 0 < l.condition.woken
      → Passes (wait (resumed l)).left (tallied (wait (resumed l)).returned t) m u
      → Passes l t m u

-- The passes of the threads that are woken, until all have returned.
all_return :
    (k : ℕ) (l : CountDownLatch) (t : Tally) (j : ℕ)
    → l.condition.woken ≡ k
    → l.count ≤ℤ pos 0
    → j ≡ k + t.returned
    → (m : CountDownLatch) × Passes l t m (record t { returned = j })
all_return zero l t j e h f =
    (l, subst (λ i. Passes l t l (record t { returned = i })) (omega arith) (done l t))
all_return (suc k) l t j e h f =
    let (m, r) =
      all_return k (resumed l) (record t { returned = suc t.returned }) j
        (unfold resume in omega arith) h (omega arith) in
    (
      m,
      passes (omega arith) (
          subst (λ q. Passes q.left (tallied q.returned t) m (record t { returned = j }))
            (sym (wait_open (resumed l) h)) r),
    )

open_iff : (z n : ℤ) (k : ℕ) → z ≡ n -ℤ pos k → (z ≤ℤ pos 0) ↔ (n ≤ℤ pos k)
open_iff z n k e = (λ h. omega (arith, difference), λ h. omega (arith, difference))
  where
    difference : pos_part z + neg_part n + k ≡ neg_part z + pos_part n
    difference = omega (arith, ap pos_part e, ap neg_part e, -ℤ_parts n (pos k))

new-IsLatch : (n : ℤ) → IsLatch n (create n) none_yet
unfolding create
new-IsLatch n = record {
  count_law = minus_none n;
  calls_law = refl;
  waits_shut = λ w. absurd (omega arith);
  returns_open = λ w. absurd (omega arith);
}
  where
    minus_none : (z : ℤ) → z ≡ z -ℤ pos 0
    minus_none z = omega int_laws

-- On a new latch of count `n`, after any calls of `wait` and `countDown` and any wakeups: where a
-- call of `wait` has returned there were at least `n` events; and once there were `n` events,
-- passes of the threads that are woken by then, without a step of any other thread, let every call of
-- `wait` return that came.
pub run-Returns :
    (p : Pthread) (n : ℤ) {l : CountDownLatch} {t : Tally}
    → Run p (create n) none_yet l t
    → ((0 < t.returned) → n ≤ℤ pos t.counted)
      × (n ≤ℤ pos t.counted → (m : CountDownLatch) × Passes l t m (record t { returned = t.came }))
run-Returns p n {l = l} {t = t} r =
    let h = run-IsLatch p n (new-IsLatch n) r in
    (
      λ w. (open_iff l.count n t.counted h.count_law).0 (h.returns_open w),
      λ d.
          let o = (open_iff l.count n t.counted h.count_law).1 d in
          all_return l.condition.woken l t t.came refl o (omega (arith, h.calls_law, empty h o)),
    )
  where
    empty : IsLatch n l t → l.count ≤ℤ pos 0 → l.condition.waiting ≡ 0
    empty h d = grind (arith, h.waits_shut)
