-- ===== src/Condition.antt =====
-- base/condition.h and base/condition.cc: a condition variable, as the numbers of the threads that
-- wait on it and of those that were woken and have not got the mutex back yet. A critical section
-- is one step, since the mutex is held over it.
use ccnet.Prelude.{ℕ, suc, ◌+◌, ◌-◌, ◌≤◌, ◌<◌, min, ◌≡◌, refl, arith}

pub record Condition : Type 0 where
  pub waiting : ℕ
  pub woken : ℕ

-- What POSIX says of `pthread_cond_signal` and `pthread_cond_broadcast`: they unblock at least one
-- and all of the threads that wait.
pub record Pthread : Type 0 where
  pub signal : Condition → Condition
  pub broadcast : Condition → Condition
  pub signal_keeps : (c : Condition) → (signal c).waiting + (signal c).woken ≡ c.waiting + c.woken
  pub signal_wakes : (c : Condition) → min 1 c.waiting + c.woken ≤ (signal c).woken
  pub broadcast_wakes : (c : Condition) → (broadcast c).waiting ≡ 0
  pub broadcast_keeps : (c : Condition) → (broadcast c).woken ≡ c.waiting + c.woken

-- One thread is woken by a signal, if one waits.
abbrev pub one_by_one : Pthread
one_by_one = record {
  signal = λ c. record { waiting = c.waiting - 1; woken = min 1 c.waiting + c.woken };
  broadcast = λ c. record { waiting = 0; woken = c.waiting + c.woken };
  signal_keeps = λ c. omega arith;
  signal_wakes = λ c. omega arith;
  broadcast_wakes = λ c. refl;
  broadcast_keeps = λ c. refl;
}

abbrev pub quiet : Condition
quiet = record { waiting = 0; woken = 0 }

unfoldable pub wait : Condition → Condition
wait c = record c { waiting = suc c.waiting }

unfoldable pub notify : Pthread → Condition → Condition
notify p c = p.signal c

unfoldable pub notify_all : Pthread → Condition → Condition
notify_all p c = p.broadcast c

-- `wait` returns: a woken thread has the mutex again.
unfoldable pub resume : Condition → Condition
resume c = record c { woken = c.woken - 1 }

-- A wakeup without a notification, which POSIX allows.
unfoldable pub wake_spuriously : Condition → Condition
wake_spuriously c = record { waiting = c.waiting - 1; woken = suc c.woken }

-- While a thread waits, `n` threads at least are woken.
abbrev pub IsCovered : Condition → ℕ → Type 0
IsCovered c n = 0 < c.waiting → n ≤ c.woken

pub notify-IsCovered :
    (p : Pthread) (c : Condition) (n : ℕ) → IsCovered c n → IsCovered (notify p c) (suc n)
unfolding notify
notify-IsCovered p c n h w = grind (arith, h, p.signal_keeps c, p.signal_wakes c)

pub notify_all-IsCovered : (p : Pthread) (c : Condition) (n : ℕ) → IsCovered (notify_all p c) n
unfolding notify_all
notify_all-IsCovered p c n w = absurd (omega (arith, p.broadcast_wakes c))

pub resume-IsCovered :
    (c : Condition) (n : ℕ) → 0 < c.woken → IsCovered c n → IsCovered (resume c) (n - 1)
unfolding resume
resume-IsCovered c n o h w = grind (arith, h)

pub wait-IsCovered : (c : Condition) → IsCovered (wait c) 0
wait-IsCovered c w = omega arith

pub wake_spuriously-IsCovered :
    (c : Condition) (n : ℕ) → 0 < c.waiting → IsCovered c n → IsCovered (wake_spuriously c) n
unfolding wake_spuriously
wake_spuriously-IsCovered c n o h w = grind (arith, h)

pub weaken-IsCovered : (c : Condition) (m n : ℕ) → m ≤ n → IsCovered c n → IsCovered c m
weaken-IsCovered c m n l h w = grind (arith, h)

pub notify_keeps :
    (p : Pthread) (c : Condition)
    → ((notify p c).waiting + (notify p c).woken ≡ c.waiting + c.woken)
      × ((notify p c).waiting ≤ c.waiting)
unfolding notify
notify_keeps p c = (p.signal_keeps c, omega (arith, p.signal_keeps c, p.signal_wakes c))

pub notify_all_keeps :
    (p : Pthread) (c : Condition)
    → ((notify_all p c).waiting ≡ 0) × ((notify_all p c).woken ≡ c.waiting + c.woken)
unfolding notify_all
notify_all_keeps p c = (p.broadcast_wakes c, p.broadcast_keeps c)
