-- ===== src/Epoller/Runs.antt =====
-- net/epoller.cc: what the kernel watches after any calls on the channels of a loop.
use ccnet.Prelude.{
  ℕ, ◌≡◌, refl, sym, subst, ◌∙◌, ◌≢◌, ◌⊎◌, inl, inr, Bool, true, false, Option, none, some, List,
  [], ◌∷◌,
}
use ccnet.Prelude.Outcome.{Outcome, ok, assert_failed, ◌>>=◌}
use ccnet.Prelude.Maps.{put, put_at, put_other}
use native.Mathlib.Decide.{ℕ_discrete}
use ccnet.Channel.{
  Interest, Index, Change, create, is_new, is_added, is_deleted, is_none_event, none_event, change,
}
use ccnet.Epoller.{Kernel, EPollPoller, EpollEvent, change_events, remove}
use ccnet.Epoller.Invariant.{Slot, IsConsistent}
use ccnet.Epoller.Requests.{
  none_of, Served, change_events-Served, change_events_refused, remove-Served, remove_refused,
}

-- A call by the owner of the channel at an address.
pub data Request : Type 0 where
  changes : ℕ → Change → Request
  removes : ℕ → Request

-- What each channel asks for after some calls.
pub asked : (ℕ → Interest) → List Request → ℕ → Interest
asked f [] = f
asked f (changes c ch ∷ rs) = asked (put f c (change ch (f c))) rs
asked f (removes c ∷ rs) = asked f rs

module _ (k : Kernel) where
  open k use {Table, interest}

  unfoldable pub serve : EPollPoller k → Request → Outcome (EPollPoller k)
  serve p (changes c ch) = change_events k p c ch
  serve p (removes c) = remove k p c

  unfoldable pub run : EPollPoller k → List Request → Outcome (EPollPoller k)
  run p [] = ok p
  run p (r ∷ rs) = serve p r >>= λ q. run q rs

  -- The channels ask for what the calls say.
  abbrev Asks : EPollPoller k → (ℕ → Interest) → Type 0
  Asks p f = (c : ℕ) → (p.heap c).events ≡ f c

  -- What a call makes of what the channels ask for.
  abbrev now : (ℕ → Interest) → Request → ℕ → Interest
  now f (changes c ch) = put f c (change ch (f c))
  now f (removes c) = f

  -- The call fails an assertion, or keeps the state consistent and does what it says.
  abbrev pub Serves : (ℕ → Interest) → Outcome (EPollPoller k) → Type 0
  Serves f r =
      (r ≡ assert_failed) ⊎ ((q : EPollPoller k) × (r ≡ ok q) × IsConsistent k q × Asks q f)

  Served-Asks :
      (p : EPollPoller k) (f : ℕ → Interest) (c : ℕ) (i : Interest) {v : IsConsistent k p}
      {r : Outcome (EPollPoller k)}
      → Asks p f
      → Served k p c v i r
      → (q : EPollPoller k) × (r ≡ ok q) × IsConsistent k q × Asks q (put f c i)
  Served-Asks p f c i a s = (
    s.result,
    s.returns,
    s.consistent,
    λ d. elim (ℕ_discrete d c) [
      | yes e ↦ rw (e, put_at f c i) s.asks
      | no ne ↦ rw (put_other f c i d ne, s.others d ne) (a d)
    ],
  )

  serve-Serves :
      (p : EPollPoller k) (f : ℕ → Interest) (r : Request)
      → IsConsistent k p
      → Asks p f
      → Serves (now f r) (serve p r)
  unfolding serve
  serve-Serves p f (changes c ch) v a = by (p.heap c).index refl (p.channels (p.heap c).fd) refl
    where
      served :
          ((p.heap c).index ≡ is_new → p.channels (p.heap c).fd ≡ none)
          → Serves (put f c (change ch (f c))) (change_events k p c ch)
      served free = inr (
          Served-Asks p f c (change ch (f c)) a (
            subst (λ i. Served k p c v (change ch i) (change_events k p c ch)) (a c)
              (change_events-Served k p c v ch free)))

      by :
          (i : Index)
          → (p.heap c).index ≡ i
          → (o : Option ℕ) → p.channels (p.heap c).fd ≡ o
          → Serves (put f c (change ch (f c))) (change_events k p c ch)
      by is_new e (some d) taken = inl (change_events_refused k p c v ch d e taken)
      by is_new e none free = served (λ _. free)
      by is_added e o h = served (λ n. cc)
      by is_deleted e o h = served (λ n. cc)
  serve-Serves p f (removes c) v a = by (p.heap c).index refl (is_none_event (p.heap c)) refl
    where
      kept :
          is_none_event (p.heap c) ≡ true
          → Served k p c v none_event (remove k p c)
          → (q : EPollPoller k) × (remove k p c ≡ ok q) × IsConsistent k q × Asks q f
      kept idle s = (
        s.result,
        s.returns,
        s.consistent,
        λ d. elim (ℕ_discrete d c) [
          | yes e ↦ rw e (s.asks ∙ sym (none_of (p.heap c) idle) ∙ a c)
          | no ne ↦ rw (s.others d ne) (a d)
        ],
      )

      by :
          (i : Index)
          → (p.heap c).index ≡ i
          → (b : Bool) → is_none_event (p.heap c) ≡ b
          → Serves f (remove k p c)
      by i e false busy = inl (remove_refused k p c v (inr busy))
      by is_new e true idle = inl (remove_refused k p c v (inl e))
      by is_added e true idle = inr (kept idle (remove-Served k p c v (λ n. cc) idle))
      by is_deleted e true idle = inr (kept idle (remove-Served k p c v (λ n. cc) idle))

  asked-now :
      (f : ℕ → Interest) (r : Request) (rs : List Request) → asked (now f r) rs ≡ asked f (r ∷ rs)
  unfolding asked
  asked-now f (changes c ch) rs = refl
  asked-now f (removes c) rs = refl

  run-Serves :
      (rs : List Request) (p : EPollPoller k) (f : ℕ → Interest)
      → IsConsistent k p
      → Asks p f
      → Serves (asked f rs) (run p rs)
  unfolding run
  run-Serves [] p f v a = inr (p, refl, v, unfold asked in a)
  run-Serves (r ∷ rs) p f v a = elim (serve-Serves p f r v a) [
    | inl e ↦ inl (rw e refl)
    | inr (q, e, w, b) ↦ rw (e, ← asked-now f r rs) (run-Serves rs q (now f r) w b)
  ]

  -- The kernel watches each channel that asks for something, and nothing that no channel asked for.
  pub record Watches (f : ℕ → Interest) (q : EPollPoller k) : Type 0 where
    pub watched :
        (c : ℕ)
        → f c ≢ none_event
        → interest q.table (q.heap c).fd ≡ some (record { events = f c; ptr = c })
    pub asked_for :
        (fd : ℕ) (e : EpollEvent)
        → interest q.table fd ≡ some e
        → ((q.heap e.ptr).fd ≡ fd) × (e.events ≡ f e.ptr)

  module _ (q : EPollPoller k) (f : ℕ → Interest) (v : IsConsistent k q) (a : Asks q f) where
    watched_by_index :
        (c : ℕ) (i : Index)
        → Slot c (q.heap c).events i (q.channels (q.heap c).fd) (interest q.table (q.heap c).fd)
        → f c ≢ none_event
        → interest q.table (q.heap c).fd ≡ some (record { events = f c; ptr = c })
    watched_by_index c is_new s ne = absurd (ne (sym (a c) ∙ s.1))
    watched_by_index c is_added s ne = rw (← a c) s.1
    watched_by_index c is_deleted s ne = absurd (ne (sym (a c) ∙ s.2))

    asked_by_index :
        (fd c : ℕ) (e : EpollEvent) (i : Index)
        → Slot c (q.heap c).events i (q.channels fd) (interest q.table fd)
        → q.channels fd ≡ some c
        → interest q.table fd ≡ some e
        → e ≡ record { events = f c; ptr = c }
    asked_by_index fd c e is_new s held w = absurd (s.0 held)
    asked_by_index fd c e is_added s held w = let same = sym w ∙ s.1 in rw (← a c) cc
    asked_by_index fd c e is_deleted s held w = absurd (cc)

    asked_for_entry :
        (fd : ℕ) (e : EpollEvent) (o : Option ℕ)
        → q.channels fd ≡ o
        → interest q.table fd ≡ some e
        → ((q.heap e.ptr).fd ≡ fd) × (e.events ≡ f e.ptr)
    asked_for_entry fd e none h w = absurd (let n = v.unknown fd h in cc)
    asked_for_entry fd e (some c) h w =
        let at : e ≡ record { events = f c; ptr = c } =
          asked_by_index fd c e (q.heap c).index
            (subst
              (λ x. Slot c (q.heap c).events (q.heap c).index (q.channels x) (interest q.table x))
              (v.known fd c h) (v.slots c))
            h w in
        rw at (v.known fd c h, refl)

    pub IsConsistent-Watches : Watches f q
    IsConsistent-Watches = record {
      watched = λ c. watched_by_index c (q.heap c).index (v.slots c);
      asked_for = λ fd e. asked_for_entry fd e (q.channels fd) refl;
    }

  -- The channels as they are made, on the given descriptors, and a new poller.
  unfoldable pub start : (ℕ → ℕ) → Table → EPollPoller k
  start fds t = record { heap = λ c. create (fds c); channels = λ _. none; table = t }

  pub start-IsConsistent :
      (fds : ℕ → ℕ) (t : Table) → ((x : ℕ) → interest t x ≡ none) → IsConsistent k (start fds t)
  unfolding start create
  start-IsConsistent fds t empty = record {
    slots = λ c. (λ h. cc, refl);
    known = λ fd c h. absurd cc;
    unknown = λ fd _. empty fd;
  }

  -- From new channels and an empty table, any calls either fail an assertion or leave the kernel
  -- watching exactly what the calls ask for, each descriptor for the channel that it belongs to.
  pub run-Watches :
      (fds : ℕ → ℕ) (t : Table)
      → ((x : ℕ) → interest t x ≡ none)
      → (rs : List Request)
      → (run (start fds t) rs ≡ assert_failed)
        ⊎ ((q : EPollPoller k) × (run (start fds t) rs ≡ ok q)
            × Watches (asked (λ _. none_event) rs) q)
  run-Watches fds t empty rs =
      elim (run-Serves rs (start fds t) (λ _. none_event) (start-IsConsistent fds t empty)
        (λ c. unfold start create in refl)) [
          | inl e ↦ inl e
          | inr (q, e, v, a) ↦ inr (q, e, IsConsistent-Watches q _ v a)
        ]
