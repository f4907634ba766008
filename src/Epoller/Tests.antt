-- ===== src/Epoller/Tests.antt =====
-- The poller over an interest list that is a function, and its theorems on short runs.
use ccnet.Prelude.{ℕ, ◌+◌, ◌≡◌, refl, ◌⊎◌, true, Option, none, some, List, [], ◌∷◌, arith}
use ccnet.Prelude.Outcome.{Outcome, ok, assert_failed, ◌>>=◌}
use ccnet.Prelude.Maps.{put, put_other}
use native.Mathlib.Decide.{ℕ_discrete}
use ccnet.Channel.{
  is_added, Flags, Interest, no_flags, none_event, create, change, enable_reading, enable_writing,
  disable_all, is_none_event,
}
use ccnet.Epoller.{
  Kernel, EPollPoller, EpollEvent, Operation, ctl_add, ctl_mod, ctl_del, change_events, remove,
  update_channel, remove_channel, update_by_index, remove_by_index, is_free, holds, has_channel,
  update, set_index, poll, fill_active_channels,
}
use ccnet.Epoller.Invariant.{IsConsistent}
use ccnet.Epoller.Requests.{Served, change_events-Served}
use ccnet.Epoller.Runs.{
  Request, changes, removes, asked, run, serve, start, start-IsConsistent, Watches, run-Watches,
}
use ccnet.Epoller.Active.{Fills, fill-Fills}

abbrev Interests : Type 0
Interests = ℕ → Option EpollEvent

abbrev control : Interests → Operation → ℕ → EpollEvent → Interests
control t ctl_add fd e = put t fd (some e)
control t ctl_mod fd e = put t fd (some e)
control t ctl_del fd e = put t fd none

abbrev functions : Kernel
functions = record {
  Table = Interests;
  interest = λ t. t;
  epoll_ctl = control;
  adds = λ t fd e _ x. refl;
  modifies = λ t fd e old _ x. refl;
  deletes = λ t fd e old _ x. refl;
}

abbrev nothing : Interests
nothing = λ _. none

-- Two channels on descriptors 10 and 11; the first is done with at the end.
abbrev script : List Request
script =
    changes 0 enable_reading
    ∷ changes 1 enable_reading
    ∷ changes 1 enable_writing
    ∷ changes 0 disable_all
    ∷ removes 0
    ∷ []

-- A second channel on the descriptor of the first is refused, and so is removing a channel that
-- still asks for something.
refusals :
    (run functions
        (start functions (λ _. 10) nothing)
        (changes 0 enable_reading ∷ changes 1 enable_reading ∷ [])
      ≡ assert_failed)
    × (run functions
          (start functions (λ c. 10 + c) nothing)
          (changes 0 enable_reading ∷ removes 0 ∷ [])
        ≡ assert_failed)
unfolding run serve start create change_events remove update_channel remove_channel update_by_index
    remove_by_index is_free holds has_channel update set_index put change is_none_event
refusals = (refl, refl)

run-Watches_example :
    (run functions (start functions (λ c. 10 + c) nothing) script ≡ assert_failed)
    ⊎ ((q : EPollPoller functions) × (run functions (start functions (λ c. 10 + c) nothing) script
          ≡ ok q)
        × Watches functions (asked (λ _. none_event) script) q)
run-Watches_example = run-Watches functions (λ c. 10 + c) nothing (λ _. refl) script

abbrev begin : EPollPoller functions
begin = start functions (λ c. 10 + c) nothing

begin-IsConsistent : IsConsistent functions begin
begin-IsConsistent = start-IsConsistent functions (λ c. 10 + c) nothing (λ _. refl)

change_events-Served_example :
    Served functions begin 0 begin-IsConsistent
      (change enable_reading (begin.heap 0).events)
      (change_events functions begin 0 enable_reading)
change_events-Served_example =
    change_events-Served functions begin 0 begin-IsConsistent enable_reading
      (λ _. unfold start in refl)

-- The first channel is watched, for the given interest.
abbrev watching : Interest → EPollPoller functions
watching i = record {
  heap =
      put begin.heap 0
        (record (begin.heap 0) { events = i; index = is_added; added_to_loop = true });
  channels = put begin.channels 10 (some 0);
  table = put nothing 10 (some (record { events = i; ptr = 0 }));
}

watching-IsConsistent : (i : Interest) → IsConsistent functions (watching i)
unfolding start create
watching-IsConsistent i = record {
  slots = λ c. elim (ℕ_discrete c 0) [
    | yes e ↦ rw e (unfold put in (refl, refl))
    | no ne ↦
        rw
          (put_other begin.heap 0
            (record (begin.heap 0) { events = i; index = is_added; added_to_loop = true }) c ne)
          (λ h. unfold put in ground arith, refl)
  ];
  known = λ fd c h. unfold put in ground arith;
  unknown = λ fd h. unfold put in ground arith;
}

abbrev readable : Flags
readable = record no_flags { poll_in = true }

fill-Fills_example :
    Fills functions (watching (change enable_reading none_event)) ((readable, 0) ∷ [])
unfolding put start create
fill-Fills_example =
    fill-Fills functions ((readable, 0) ∷ []) (watching (change enable_reading none_event))
      (watching-IsConsistent (change enable_reading none_event))
      ((change enable_reading none_event, refl), tt)

-- One event fills an array of one place, which is doubled, and two do not fit into it.
abbrev listed : List (Flags × ℕ) → Outcome (List ℕ × ℕ)
listed es = poll functions 1 (watching (change enable_reading none_event)) es >>= λ r. ok (r.0, r.2)

polled :
    (listed ((readable, 0) ∷ []) ≡ ok (0 ∷ [], 2))
    × (listed ((readable, 0) ∷ (readable, 0) ∷ []) ≡ assert_failed)
unfolding poll fill_active_channels is_free has_channel holds put start create
polled = (refl, refl)
