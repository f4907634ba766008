-- ===== src/TimerQueue/Restarted.antt =====
-- net/timer_queue.cc: `reset`, which sets the repeated ones of the expired timers anew.
use ccnet.Prelude.{
  ℕ, ◌≡◌, refl, sym, ap, ap₂, ◌∙◌, ◌≢◌, inl, inr, Bool, true, false, not, ◌&&◌, ◌||◌, Option, none,
  some, List, [], ◌∷◌, if◌then◌else◌, Bool-cases,
}
use ccnet.Prelude.Outcome.{Outcome, ok}
use ccnet.Prelude.Maps.{put_at}
use ccnet.Prelude.Sets.{Key, same, is_in, is_in-insert_in}
use ccnet.TimerQueue.{Timer, TimerQueue, restart, active, timer_at, reset_each}
use ccnet.TimerQueue.Matched.{IsMatched}
use ccnet.TimerQueue.Taken.{
  IsApart, deleted, deleted-IsMatched, deleted-IsApart, renewed, renewed-IsMatched, insert_eq,
  renewed-IsApart, goes_on, is_renewed, is_restarted, IsElsewhere, AreTaken, AreTaken-apart,
  is_restarted-apart,
}

-- Of the timers, those that go on are set anew, and the others are deleted.
abbrev pub AreReset : ℕ → TimerQueue → List Key → (ℕ → Option Timer) → Type 0
AreReset now q [] heap = Unit
AreReset now q (k ∷ ks) heap =
    ((t : Timer)
      → q.heap k.second ≡ some t
      → heap k.second ≡ (if goes_on q k.second t then some (restart now t) else none))
    × AreReset now q ks heap

AreReset-apart :
    (now a : ℕ) (q r : TimerQueue) (ks : List Key) (heap : ℕ → Option Timer)
    → IsApart a q r
    → IsElsewhere a ks
    → AreReset now r ks heap
    → AreReset now q ks heap
AreReset-apart now a q r [] heap p e s = s
AreReset-apart now a q r (k ∷ ks) heap p (n, e) (s, ss) = (
  λ t h.
      s t (p.heaps k.second n ∙ h)
      ∙ ap
          (λ c.
            if t.repeat && not (is_in (active k.second t) c) then some (restart now t) else none)
          p.cancelled,
  AreReset-apart now a q r ks heap p e ss,
)

-- The call returns, keeps the sets matched, and adds the timers to them that go on.
pub record Resets (now : ℕ) (q : TimerQueue) (ks : List Key) (o : Outcome TimerQueue) : Type 0 where
  pub result : TimerQueue
  pub returns : o ≡ ok result
  pub matched : IsMatched result
  pub others :
      (x : Key) → is_in x result.active_timers ≡ (is_in x q.active_timers || is_restarted q ks x)
  pub fates : AreReset now q ks result.heap
  pub kept : (b : ℕ) → IsElsewhere b ks → result.heap b ≡ q.heap b

or_assoc : (a b c : Bool) → ((a || b) || c) ≡ (a || (b || c))
or_assoc true b c = refl
or_assoc false b c = refl

or_comm : (a b : Bool) → (a || b) ≡ (b || a)
or_comm true true = refl
or_comm true false = refl
or_comm false true = refl
or_comm false false = refl

and_true : (b c : Bool) → c ≡ true → b ≡ (b && c)
and_true true c e = sym e
and_true false c e = refl

or_false : (a b c : Bool) → c ≡ false → a ≡ (a || (b && c))
or_false true b c e = refl
or_false false true c e = sym e
or_false false false c e = refl

restart_active : (now a : ℕ) (t : Timer) → active a (restart now t) ≡ active a t
unfolding restart
restart_active now a t = refl

same_some : (t u : Timer) → some t ≡ some u → t ≡ u
same_some t u e = cc

is_elsewhere : (a b : ℕ) → a ≢ b → b ≢ a
is_elsewhere a b n e = n (sym e)

-- One timer, and then the others: `r` is the queue after the first.
module _ (now : ℕ) (q r : TimerQueue) (k : Key) (ks : List Key) (t : Timer)
    (there : q.heap k.second ≡ some t) (else_where : IsElsewhere k.second ks)
    (p : IsApart k.second q r)
    (here : r.heap k.second ≡ (if goes_on q k.second t then some (restart now t) else none))
    (sets : (x : Key)
      → is_in x r.active_timers ≡ (is_in x q.active_timers || is_renewed q x k (some t))) where
  then_Resets :
      Resets now r ks (reset_each now ks r)
      → reset_each now (k ∷ ks) q ≡ reset_each now ks r
      → Resets now q (k ∷ ks) (reset_each now (k ∷ ks) q)
  unfolding is_restarted
  then_Resets s e = record {
    result = s.result;
    returns = e ∙ s.returns;
    matched = s.matched;
    others = λ x.
        s.others x
        ∙ ap₂ (λ b c. b || c) (sets x) (is_restarted-apart k.second q r ks x p else_where)
        ∙ ap (λ o. (is_in x q.active_timers || is_renewed q x k o) || is_restarted q ks x)
            (sym there)
        ∙ or_assoc (is_in x q.active_timers) (is_renewed q x k (q.heap k.second))
            (is_restarted q ks x);
    fates = (
      λ u h.
          s.kept k.second else_where
          ∙ here
          ∙ ap (λ (v : Timer). if goes_on q k.second v then some (restart now v) else none)
              (same_some t u (sym there ∙ h)),
      AreReset-apart now k.second q r ks s.result.heap p else_where s.fates,
    );
    kept = λ b (n, ns). s.kept b ns ∙ p.heaps b (is_elsewhere k.second b n);
  }

-- On matched sets and expired timers that are in neither, the loop of `reset` fails no assertion and keeps
-- the sets matched: the repeated timers that were not cancelled are in them again, one interval from
-- now, with their identifiers, the other expired ones are deleted, and the rest stay as they are.
pub reset_each-Resets :
    (now : ℕ) (q : TimerQueue) (ks : List Key)
    → IsMatched q
    → AreTaken q ks
    → Resets now q ks (reset_each now ks q)
unfolding reset_each is_restarted timer_at
reset_each-Resets now q [] m u = record {
  result = q;
  returns = refl;
  matched = m;
  others = λ x. or_comm false (is_in x q.active_timers);
  fates = tt;
  kept = λ b e. refl;
}
reset_each-Resets now q (k ∷ ks) m ((t, there), idle, o, us) =
    elim (Bool-cases (goes_on q k.second t)) [
      | inl g ↦
          let t' = restart now t in
          let r = renewed q m k.second idle t' in
          let p = renewed-IsApart q m k.second idle t' in
          then_Resets now q r k ks t there o p (put_at q.heap k.second (some t') ∙ rw g refl)
            (λ x.
              is_in-insert_in x (active k.second t') q.active_timers
              ∙ ap (λ y. same x y || is_in x q.active_timers) (restart_active now k.second t)
              ∙ or_comm (same x (active k.second t)) (is_in x q.active_timers)
              ∙ ap (λ b. is_in x q.active_timers || b)
                  (and_true (same x (active k.second t)) (goes_on q k.second t) g))
            (reset_each-Resets now r ks (renewed-IsMatched q m k.second idle t')
              (AreTaken-apart k.second q r ks p o us))
            (simp (there, g, insert_eq q m k.second idle t') refl)
      | inr g ↦
          let r = deleted q m k.second idle in
          let p = deleted-IsApart q m k.second idle in
          then_Resets now q r k ks t there o p (put_at q.heap k.second none ∙ rw g refl)
            (λ x.
              or_false (is_in x q.active_timers) (same x (active k.second t)) (goes_on q k.second t)
                g)
            (reset_each-Resets now r ks (deleted-IsMatched q m k.second idle)
              (AreTaken-apart k.second q r ks p o us))
            (simp (there, g) refl)
    ]
