-- ===== src/TimerQueue/Taken.antt =====
-- net/timer_queue.cc: timers that were taken out of the sets, and one of them deleted or put in again.
use ccnet.Prelude.{
  ℕ, ◌≡◌, refl, sym, ap, ap₂, subst, ◌∙◌, ◌≢◌, inl, inr, Bool, true, false, not, ◌&&◌, ◌||◌, Option,
  none, some, List, [], ◌∷◌, arith, ◌==◌, ==_iff, Bool-cases,
}
use ccnet.Prelude.Outcome.{ok}
use ccnet.Prelude.Maps.{put, put_at, put_other, put_again}
use ccnet.Prelude.Sets.{Key, same, is_in, insert_in, is_in-insert_in}
use ccnet.TimerQueue.{Timer, TimerQueue, entry, active, timer_at, insert_timer, insert, is_earliest}
use ccnet.TimerQueue.Matched.{IsMatched, sizes_agree_lem}
use ccnet.TimerQueue.Inserted.{added-IsMatched, new_entry, new_active}

-- A timer that is repeated, and was not cancelled meanwhile.
abbrev pub goes_on : TimerQueue → ℕ → Timer → Bool
goes_on q a t = t.repeat && not (is_in (active a t) q.canceling_timers)

-- Whether `x` is the identifier of a timer that is set anew.
abbrev pub is_renewed : TimerQueue → Key → Key → Option Timer → Bool
is_renewed q x k none = false
is_renewed q x k (some t) = same x (active k.second t) && goes_on q k.second t

unfoldable pub is_restarted : TimerQueue → List Key → Key → Bool
is_restarted q [] x = false
is_restarted q (k ∷ ks) x = is_renewed q x k (q.heap k.second) || is_restarted q ks x

-- No key of the list has the address.
abbrev pub IsElsewhere : ℕ → List Key → Type 0
IsElsewhere a [] = Unit
IsElsewhere a (k ∷ ks) = (k.second ≢ a) × IsElsewhere a ks

-- Expired timers: each is there, at an address of its own, and in no set.
abbrev pub AreTaken : TimerQueue → List Key → Type 0
AreTaken q [] = Unit
AreTaken q (k ∷ ks) =
    ((t : Timer) × (q.heap k.second ≡ some t))
    × ((x : Key) → is_in x q.active_timers ≡ true → x.first ≢ k.second)
    × IsElsewhere k.second ks
    × AreTaken q ks

-- Two queues that differ in the timer at one address.
pub record IsApart (a : ℕ) (q r : TimerQueue) : Type 0 where
  pub heaps : (b : ℕ) → b ≢ a → r.heap b ≡ q.heap b
  pub sets :
      (x : Key) → is_in x r.active_timers ≡ true → x.first ≢ a → is_in x q.active_timers ≡ true
  pub cancelled : r.canceling_timers ≡ q.canceling_timers

pub AreTaken-apart :
    (a : ℕ) (q r : TimerQueue) (ks : List Key)
    → IsApart a q r
    → IsElsewhere a ks
    → AreTaken q ks
    → AreTaken r ks
AreTaken-apart a q r [] p e t = t
AreTaken-apart a q r (k ∷ ks) p (n, e) ((t, h), idle, o, ts) = (
  (t, p.heaps k.second n ∙ h),
  λ x i. elim (Bool-cases (x.first == a)) [
    | inl f ↦ λ g. n (sym g ∙ (==_iff x.first a).0 f)
    | inr f ↦ idle x (p.sets x i (λ g. ground (arith, f, g)))
  ],
  o,
  AreTaken-apart a q r ks p e ts,
)

is_renewed-apart :
    (q r : TimerQueue) (x k : Key) (o : Option Timer)
    → r.canceling_timers ≡ q.canceling_timers
    → is_renewed r x k o ≡ is_renewed q x k o
is_renewed-apart q r x k none e = refl
is_renewed-apart q r x k (some t) e =
    ap (λ c. same x (active k.second t) && (t.repeat && not (is_in (active k.second t) c))) e

pub is_restarted-apart :
    (a : ℕ) (q r : TimerQueue) (ks : List Key) (x : Key)
    → IsApart a q r
    → IsElsewhere a ks
    → is_restarted r ks x ≡ is_restarted q ks x
unfolding is_restarted
is_restarted-apart a q r [] x p e = refl
is_restarted-apart a q r (k ∷ ks) x p (n, e) =
    ap₂ (λ b c. b || c)
      (is_renewed-apart q r x k (r.heap k.second) p.cancelled
        ∙ ap (is_renewed q x k) (p.heaps k.second n))
      (is_restarted-apart a q r ks x p e)

module _ (q : TimerQueue) (m : IsMatched q) (a : ℕ)
    (idle : (x : Key) → is_in x q.active_timers ≡ true → x.first ≢ a) where
  abbrev pub deleted : TimerQueue
  deleted = record q { heap = put q.heap a none }

  pub deleted-IsMatched : IsMatched deleted
  deleted-IsMatched = record {
    sizes = m.sizes;
    distinct = m.distinct;
    active_distinct = m.active_distinct;
    entries = λ k e.
        let (u, h, x, i) = m.entries k e in
        (u, put_other q.heap a none k.second (idle (active k.second u) i) ∙ h, x, i);
    actives = λ k e.
        let (u, h, x, i) = m.actives k e in
        (u, put_other q.heap a none k.first (idle k e) ∙ h, x, i);
  }

  pub deleted-IsApart : IsApart a q deleted
  deleted-IsApart = record {
    heaps = λ b n. put_other q.heap a none b n;
    sets = λ x i n. i;
    cancelled = refl;
  }

  module _ (t : Timer) where
    abbrev pub renewed : TimerQueue
    renewed = record q {
      heap = put q.heap a (some t);
      timers = insert_in (entry a t) q.timers;
      active_timers = insert_in (active a t) q.active_timers;
    }

    free : deleted.heap a ≡ none
    free = put_at q.heap a none

    pub renewed-IsMatched : IsMatched renewed
    renewed-IsMatched =
        subst (λ f. IsMatched (record renewed { heap = f }))
          (λ i x. put_again q.heap a none (some t) x i)
          (added-IsMatched deleted deleted-IsMatched a t free q.created)

    pub insert_eq :
        insert a (record q { heap = put q.heap a (some t) })
        ≡ ok (is_earliest t.expiration q.timers, renewed)
    unfolding insert insert_timer timer_at
    insert_eq = simp (
      put_at q.heap a (some t),
      sizes_agree_lem q m,
      new_entry deleted deleted-IsMatched a t free q.created,
      new_active deleted deleted-IsMatched a t free q.created,
      sizes_agree_lem renewed renewed-IsMatched,
    )

    pub renewed-IsApart : IsApart a q renewed
    renewed-IsApart = record {
      heaps = λ b n. put_other q.heap a (some t) b n;
      sets = λ x i n. ground (arith, sym (is_in-insert_in x (active a t) q.active_timers) ∙ i, n);
      cancelled = refl;
    }
