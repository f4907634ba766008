-- ===== src/Connector/Sound.antt =====
-- net/connector.cc: where the sockets and the delays are; starting an attempt and retrying one.
use ccnet.Prelude.{
  ℕ, suc, ◌+◌, ◌≤◌, ◌≡◌, refl, ap, ◌⊎◌, inl, inr, true, false, Option, none, some, List, [], ◌∷◌,
  ◌++◌, arith, ltb, ◌==◌, if◌then◌else◌, Bool-cases,
}
use ccnet.Prelude.Outcome.{Outcome, ok, assert_failed}
use ccnet.Connector.{
  Connector, State, disconnected, connecting, connected, is_disconnected, is_connecting, Link, Task,
  start_task, stop_task, reset_task, retry_after, max_retry_delay_ms, init_retry_delay_ms, queue,
  close, retry, connecting_on, goes_on, is_retried, connect_with, start_in_loop,
}

-- How often a socket stands in a list.
abbrev pub times : ℕ → List ℕ → ℕ
times s [] = 0
times s (x ∷ xs) = (if x == s then 1 else 0) + times s xs

-- The socket of the attempt under way.
abbrev pub held_by : State → Option Link → List ℕ
held_by disconnected l = []
held_by connected l = []
held_by connecting none = []
held_by connecting (some l) = l.sockfd ∷ []

abbrev pub IsBounded : ℕ → Type 0
IsBounded ms = (init_retry_delay_ms ≤ ms) × (ms ≤ max_retry_delay_ms)

-- The delays of the timers.
abbrev pub AllBounded : List Task → Type 0
AllBounded [] = Unit {0}
AllBounded (start_task ∷ ts) = AllBounded ts
AllBounded (stop_task ∷ ts) = AllBounded ts
AllBounded (reset_task ∷ ts) = AllBounded ts
AllBounded (retry_after ms ∷ ts) = IsBounded ms × AllBounded ts

-- Each socket that was made is closed, handed over, or that of the attempt under way, once in all;
-- an attempt under way has its channel; and every delay is between half a second and 30 seconds.
pub record IsSound (c : Connector) : Type 0 where
  pub once :
      (s : ℕ)
      → times s c.closed + times s c.handed + times s (held_by c.state c.channel)
        ≡ (if ltb s c.created then 1 else 0)
  pub delay : IsBounded c.retry_delay_ms
  pub delays : AllBounded c.tasks

-- The call fails an assertion or leaves a sound connector.
abbrev pub Sound : Outcome Connector → Type 0
Sound r = (r ≡ assert_failed) ⊎ ((c : Connector) × (r ≡ ok c) × IsSound c)

pub AllBounded-append :
    (ts : List Task) (t : Task) → AllBounded ts → AllBounded (t ∷ []) → AllBounded (ts ++ (t ∷ []))
AllBounded-append [] t h b = b
AllBounded-append (start_task ∷ ts) t h b = AllBounded-append ts t h b
AllBounded-append (stop_task ∷ ts) t h b = AllBounded-append ts t h b
AllBounded-append (reset_task ∷ ts) t h b = AllBounded-append ts t h b
AllBounded-append (retry_after ms ∷ ts) t (m, h) b = (m, AllBounded-append ts t h b)

-- A socket that is not yet closed or handed over, in no attempt.
pub record IsLoose (s : ℕ) (c : Connector) : Type 0 where
  pub once :
      (x : ℕ)
      → times x (s ∷ []) + times x c.closed + times x c.handed ≡ (if ltb x c.created then 1 else 0)
  pub delay : IsBounded c.retry_delay_ms
  pub delays : AllBounded c.tasks

pub idle_by :
    (t : State) (l : Option Link) (x : ℕ) → is_connecting t ≡ false → times x (held_by t l) ≡ 0
idle_by disconnected l x e = refl
idle_by connected l x e = refl
idle_by connecting l x e = absurd cc

close-IsSound :
    (s : ℕ) (c : Connector) → IsLoose s c → is_connecting c.state ≡ false → IsSound (close s c)
unfolding close
close-IsSound s c h e = record {
  once = λ x. omega (arith, h.once x, idle_by c.state c.channel x e);
  delay = h.delay;
  delays = h.delays;
}

pub retry-IsSound : (s : ℕ) (c : Connector) → IsLoose s c → IsSound (retry s c)
unfolding retry close queue
retry-IsSound s c h = elim (Bool-cases c.connect) [
  | inl e ↦ simp e (record {
    once = λ x. omega (arith, h.once x);
    delay = (omega (arith, h.delay.0), omega arith);
    delays = AllBounded-append c.tasks _ h.delays (h.delay, tt);
  })
  | inr e ↦
      simp e (record { once = λ x. omega (arith, h.once x); delay = h.delay; delays = h.delays })
]

module _ (c : Connector) (h : IsSound c) where
  -- A new socket, where no attempt is under way.
  abbrev opened : Connector
  opened = record c { created = suc c.created }

  opened-IsLoose : is_connecting c.state ≡ false → IsLoose c.created opened
  opened-IsLoose e = record {
    once = λ x. ground (arith, h.once x, idle_by c.state c.channel x e);
    delay = h.delay;
    delays = h.delays;
  }

  connecting_on-Sound : is_connecting c.state ≡ false → Sound (connecting_on c.created opened)
  unfolding connecting_on
  connecting_on-Sound e = by c.channel refl
    where
      by : (l : Option Link) → c.channel ≡ l → Sound (connecting_on c.created opened)
      by (some l) eq =
          inl (ap (λ (d : Option Link). connecting_on c.created (record opened { channel = d })) eq)
      by none eq = inr (
        _,
        ap (λ (d : Option Link). connecting_on c.created (record opened { channel = d })) eq,
        record {
          once = λ x. omega (arith, (opened-IsLoose e).once x);
          delay = h.delay;
          delays = h.delays;
        },
      )

  connect_with-Sound : (e : ℕ) → is_connecting c.state ≡ false → Sound (connect_with e c)
  unfolding connect_with
  connect_with-Sound e idle = elim (Bool-cases (goes_on e)) [
    | inl g ↦ simp g (connecting_on-Sound idle)
    | inr g ↦ elim (Bool-cases (is_retried e)) [
      | inl r ↦ simp (g, r) (inr (_, refl, retry-IsSound c.created opened (opened-IsLoose idle)))
      | inr r ↦
          simp (g, r) (inr (_, refl, close-IsSound c.created opened (opened-IsLoose idle) idle))
    ]
  ]

not_connecting : (t : State) → is_disconnected t ≡ true → is_connecting t ≡ false
not_connecting disconnected e = refl
not_connecting connecting e = absurd cc
not_connecting connected e = absurd cc

pub start_in_loop-Sound : (e : ℕ) (c : Connector) → IsSound c → Sound (start_in_loop e c)
unfolding start_in_loop
start_in_loop-Sound e c h = elim (Bool-cases (is_disconnected c.state)) [
  | inr d ↦ inl (simp d)
  | inl d ↦ elim (Bool-cases c.connect) [
    | inl k ↦ simp (d, k) (connect_with-Sound c h e (not_connecting c.state d))
    | inr k ↦ simp (d, k) (inr (_, refl, h))
  ]
]
