-- ===== src/TimerQueue/Expired.antt =====
-- net/timer_queue.cc: `getExpired` and the timers that are due.
use ccnet.Prelude.{
  ℕ, ◌<◌, ◌≡◌, refl, sym, ap, subst, ◌∙◌, inl, inr, Bool, true, false, not, ◌&&◌, ◌||◌, some, List,
  [], ◌∷◌, ◌++◌, arith, ltb, leb, Bool-cases,
}
use ccnet.Prelude.Outcome.{Outcome, ok}
use ccnet.Prelude.Sets.{
  Key, same, before, is_in, erase_from, front, back, length-erase_from, IsDistinct,
  is_in-erase_from, erase_from-IsDistinct,
}
use ccnet.TimerQueue.{
  Timer, TimerQueue, entry, active, timer_at, uintptr_max, deactivate, is_after, get_expired,
}
use ccnet.TimerQueue.Matched.{IsMatched, same_timer, sizes_agree_lem, same_self}

-- The order of a `std::set`.
unfoldable pub IsAscending : List Key → Type 0
IsAscending [] = Unit {0}
IsAscending (k ∷ ks) = ((x : Key) → is_in x ks ≡ true → before k x ≡ true) × IsAscending ks

is_in-append : (z : Key) (xs ys : List Key) → is_in z (xs ++ ys) ≡ (is_in z xs || is_in z ys)
unfolding is_in
is_in-append z [] ys = refl
is_in-append z (x ∷ xs) ys = ground (arith, is_in-append z xs ys)

front-append-back : (s : Key) (ks : List Key) → front s ks ++ back s ks ≡ ks
unfolding front back
front-append-back s [] = refl
front-append-back s (k ∷ ks) = elim (Bool-cases (before k s)) [
  | inl e ↦ simp e (ap (λ l. k ∷ l) (front-append-back s ks))
  | inr e ↦ simp e refl
]

not_before : (k x s : Key) → before k x ≡ true → before k s ≡ false → before x s ≡ false
not_before k x s h e = ground arith

same_before : (x y s : Key) → same x y ≡ true → before x s ≡ before y s
same_before x y s e = ground arith

none_before :
    (s k x : Key) (b : Bool)
    → before k s ≡ false
    → (b ≡ true → before k x ≡ true)
    → (same x k || b) ≡ true
    → before x s ≡ false
none_before s k x b e h o = elim (Bool-cases (same x k)) [
  | inl g ↦ same_before x k s g ∙ e
  | inr g ↦ not_before k x s (h (ground (arith, g, o))) e
]

pub is_in_same : (x y : Key) (ks : List Key) → same x y ≡ true → is_in x ks ≡ is_in y ks
unfolding is_in
is_in_same x y [] e = refl
is_in_same x y (k ∷ ks) e = ground (arith, is_in_same x y ks e, e)

taken : (b c : Bool) → (b ≡ true → c ≡ false) → false ≡ (b && c)
taken true c h = sym (h refl)
taken false c h = refl

kept : (b c : Bool) → (b ≡ true → c ≡ false) → b ≡ (b && not c)
kept true c h = rw (h refl) refl
kept false c h = refl

split_lem :
    (s : Key) (ks : List Key) (x : Key)
    → IsAscending ks
    → (is_in x (front s ks) ≡ (is_in x ks && before x s))
      × (is_in x (back s ks) ≡ (is_in x ks && not (before x s)))
unfolding front back is_in IsAscending
split_lem s [] x a = (refl, refl)
split_lem s (k ∷ ks) x (h, a) = elim (Bool-cases (before k s)) [
  | inl e ↦ simp e (
    ground (arith, split_lem s ks x a, same_before x k s, e),
    ground (arith, split_lem s ks x a, same_before x k s, e),
  )
  | inr e ↦ simp e (
    taken (same x k || is_in x ks) (before x s) (none_before s k x (is_in x ks) e (h x)),
    kept (same x k || is_in x ks) (before x s) (none_before s k x (is_in x ks) e (h x)),
  )
]

-- The first of some matched timers leaves both sets.
module _ (q : TimerQueue) (k : Key) (ks : List Key) (t : Timer)
    (m : IsMatched (record q { timers = k ∷ ks })) (there : q.heap k.second ≡ some t)
    (when : t.expiration ≡ k.first)
    (listed : is_in (active k.second t) q.active_timers ≡ true) where
  abbrev left : TimerQueue
  left = record q { timers = ks; active_timers = erase_from (active k.second t) q.active_timers }

  other_timer :
      (x : Key) (u : Timer)
      → q.heap x.second ≡ some u
      → u.expiration ≡ x.first
      → is_in x ks ≡ true
      → same (active x.second u) (active k.second t) ≡ false
  unfolding IsDistinct
  other_timer x u h w i = elim (Bool-cases (same (active x.second u) (active k.second t))) [
    | inr f ↦ f
    | inl f ↦
        let e : x.second ≡ k.second = ground (arith, f) in
        let v = ap (λ (y : Timer). y.expiration) (same_timer q x.second k.second u t h there e) in
        absurd (ground (arith, is_in_same x k ks (ground (arith, v, e, w, when)), i, m.distinct.0))
  ]

  other_entry :
      (x : Key) (u : Timer)
      → q.heap x.first ≡ some u
      → u.sequence ≡ x.second
      → same x (active k.second t) ≡ false
      → same (entry x.first u) k ≡ false
  other_entry x u h w n = elim (Bool-cases (same (entry x.first u) k)) [
    | inr f ↦ f
    | inl f ↦
        let e : x.first ≡ k.second = ground (arith, f) in
        let v = ap (λ (y : Timer). y.sequence) (same_timer q x.first k.second u t h there e) in
        absurd (ground (arith, v, e, w, n))
  ]

  left-IsMatched : IsMatched left
  unfolding is_in IsDistinct
  left-IsMatched = record {
    sizes = omega (arith, m.sizes, length-erase_from (active k.second t) q.active_timers listed);
    distinct = m.distinct.1;
    active_distinct = erase_from-IsDistinct (active k.second t) q.active_timers m.active_distinct;
    entries = λ x e.
        let (u, h, w, i) = m.entries x (ground (arith, e)) in
        (
          u,
          h,
          w,
          is_in-erase_from (active x.second u) (active k.second t) q.active_timers m.active_distinct
              ∙ ground (arith, i, other_timer x u h w e),
        );
    actives = λ x e.
        let f =
          sym (is_in-erase_from x (active k.second t) q.active_timers m.active_distinct) ∙ e in
        let (u, h, w, i) = m.actives x (ground (arith, f)) in
        (u, h, w, ground (arith, i, other_entry x u h w (ground (arith, f))));
  }

pub is_in_own : (k : Key) (ks : List Key) → is_in k (k ∷ ks) ≡ true
unfolding is_in
is_in_own k ks = ground (arith, same_self k)

-- Before the sentry at the largest address is not after its time.
due_lem :
    (now top : ℕ) (k : Key) (b : Bool)
    → (b ≡ true → k.second < top)
    → ((b && before k (record { first = now; second = top })) ≡ (b && leb k.first now))
      × ((b && not (before k (record { first = now; second = top }))) ≡ (b && ltb now k.first))
due_lem now top k false h = (refl, refl)
due_lem now top k true h = let l = h refl in (ground arith, ground arith)

-- All timers of a list that stands before the rest leave the active ones.
pub record Leaves (q : TimerQueue) (rest : List Key) (o : Outcome TimerQueue) : Type 0 where
  pub result : TimerQueue
  pub returns : o ≡ ok result
  pub matched : IsMatched result
  pub timers_law : result.timers ≡ rest
  pub heap_law : (a : ℕ) → result.heap a ≡ q.heap a

abbrev with_timers : TimerQueue → List Key → TimerQueue
with_timers q ks = record q { timers = ks }

deactivate-Leaves :
    (ks rest : List Key) (q : TimerQueue)
    → IsMatched (with_timers q (ks ++ rest))
    → Leaves q rest (deactivate ks (with_timers q rest))
unfolding deactivate timer_at
deactivate-Leaves [] rest q m = record {
  result = with_timers q rest;
  returns = refl;
  matched = m;
  timers_law = refl;
  heap_law = λ a. refl;
}
deactivate-Leaves (k ∷ ks) rest q m =
    let (t, there, when, listed) = m.entries k (is_in_own k (ks ++ rest)) in
    let l =
      deactivate-Leaves ks rest
        (record q { active_timers = erase_from (active k.second t) q.active_timers })
        (left-IsMatched q k (ks ++ rest) t m there when listed) in
    record {
      result = l.result;
      returns = simp (there, listed) l.returns;
      matched = l.matched;
      timers_law = l.timers_law;
      heap_law = l.heap_law;
    }

-- The call returns, and of the timers those that are due and no others are taken out.
pub record Expires (now : ℕ) (q : TimerQueue) (o : Outcome (List Key × TimerQueue)) : Type 0 where
  pub expired : List Key
  pub result : TimerQueue
  pub returns : o ≡ ok (expired, result)
  pub matched : IsMatched result
  pub due : (k : Key) → is_in k expired ≡ (is_in k q.timers && leb k.first now)
  pub others : (k : Key) → is_in k result.timers ≡ (is_in k q.timers && ltb now k.first)
  pub heap_law : (a : ℕ) → result.heap a ≡ q.heap a
  pub distinct : IsDistinct expired

front-IsDistinct : (xs ys : List Key) → IsDistinct (xs ++ ys) → IsDistinct xs
unfolding IsDistinct
front-IsDistinct [] ys d = tt
front-IsDistinct (x ∷ xs) ys (n, d) =
    (ground (arith, sym (is_in-append x xs ys) ∙ n), front-IsDistinct xs ys d)

-- On matched sets in their order, where no timer stands at the largest address, `getExpired` fails no
-- assertion, keeps the sets matched and the timers themselves as they are, and takes out exactly the
-- timers whose expiration is not after the time.
pub get_expired-Expires :
    (now : ℕ) (q : TimerQueue)
    → IsMatched q
    → IsAscending q.timers
    → ((k : Key) → is_in k q.timers ≡ true → k.second < uintptr_max)
    → Expires now q (get_expired now q)
unfolding get_expired
get_expired-Expires now q m a below =
    let first_after : is_after now (back sentry q.timers) ≡ true =
      after (back sentry q.timers) (λ x i. i) in
    let l =
      deactivate-Leaves (front sentry q.timers) (back sentry q.timers) q
        (subst (λ ks. IsMatched (with_timers q ks)) (sym (front-append-back sentry q.timers)) m) in
    record {
      expired = front sentry q.timers;
      result = l.result;
      returns =
          simp (sizes_agree_lem q m, first_after, l.returns, sizes_agree_lem l.result l.matched)
            refl;
      matched = l.matched;
      due = λ k.
          (split_lem sentry q.timers k a).0
          ∙ (due_lem now uintptr_max k (is_in k q.timers) (below k)).0;
      others = λ k.
          ap (is_in k) l.timers_law
          ∙ (split_lem sentry q.timers k a).1
          ∙ (due_lem now uintptr_max k (is_in k q.timers) (below k)).1;
      heap_law = l.heap_law;
      distinct =
          front-IsDistinct (front sentry q.timers) (back sentry q.timers)
            (subst IsDistinct (sym (front-append-back sentry q.timers)) m.distinct);
    }
  where
    sentry : Key
    sentry = record { first = now; second = uintptr_max }

    after :
        (ks : List Key)
        → ((x : Key) → is_in x ks ≡ true → is_in x (back sentry q.timers) ≡ true)
        → is_after now ks ≡ true
    after [] h = refl
    after (k ∷ ks) h =
        let i = sym (split_lem sentry q.timers k a).1 ∙ h k (is_in_own k ks) in
        let j = sym (due_lem now uintptr_max k (is_in k q.timers) (below k)).1 ∙ i in
        ground (arith, j)
