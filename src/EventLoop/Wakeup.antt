-- ===== src/EventLoop/Wakeup.antt =====
-- net/event_loop.cc: the functors that wait while the loop sleeps, wakes and calls them.
use ccnet.Prelude.{ℕ, List, [], ◌∷◌, ◌++◌}
use ccnet.EventLoop.{EventLoop}
use ccnet.EventLoop.Steps.{
  ◌⟶◌, begins, tests, quits, quits_elsewhere, queues, queues_elsewhere, wakes, returns, reads,
  takes, calls, sleeps,
}

-- The functors in the order of their arrival: those called, those of this round, and those pending.
abbrev pub arrived : EventLoop → List ℕ
arrived l = l.called ++ (l.functors ++ l.pending_functors)

-- The functor that a step hands to the loop.
unfoldable pub handed : {l m : EventLoop} → l ⟶ m → List ℕ
handed (begins l m e) = []
handed (tests l e) = []
handed (quits l s) = []
handed (quits_elsewhere l) = []
handed (queues l f s) = f ∷ []
handed (queues_elsewhere l f) = f ∷ []
handed (wakes l one) = []
handed (returns l e) = []
handed (reads l e) = []
handed (takes l e) = []
handed (calls l f fs e s) = []
handed (sleeps l e s) = []

-- Any steps of the loop's thread and of others, and what they hand to the loop.
pub data Run : EventLoop → List ℕ → EventLoop → Type 0 where
  rests : (l : EventLoop) → Run l [] l
  goes_on : {l m n : EventLoop} {fs : List ℕ} (s : l ⟶ m) → Run m fs n → Run l (handed s ++ fs) n
