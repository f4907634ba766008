-- ===== src/Connector/Sockets.antt =====
-- net/connector.cc: where the sockets and the delays are after each call.
use ccnet.Prelude.{
  ℕ, ◌≡◌, refl, sym, ap, subst, inl, inr, Bool, true, false, not, ◌||◌, Option, none, some, [], ◌∷◌,
  arith, ◌==◌, if◌then◌else◌, Bool-cases,
}
use ccnet.Prelude.Outcome.{Outcome, ok, assert_failed, ◌>>=◌}
use ccnet.Channel.{change, disable_all}
use ccnet.Connector.{
  Connector, State, disconnected, connecting, connected, is_disconnected, is_connecting, Link,
  reset_task, queue, close, retry, remove_and_reset_channel, stop_in_loop, handle_write,
  handle_error,
}
use ccnet.Connector.Sound.{
  IsSound, IsLoose, times, held_by, Sound, AllBounded-append, retry-IsSound,
}

-- The channel is taken off, and its socket is free of the attempt.
taken_off : (c : Connector) → Link → Connector
unfolding queue
taken_off c l =
    queue reset_task (record c {
      channel = some (record l { events = change disable_all l.events; added = false });
    })

module _ (c : Connector) (h : IsSound c) (busy : is_connecting c.state ≡ true) (l : Link)
    (there : c.channel ≡ some l) where
  held_there : (x : ℕ) → times x (held_by c.state c.channel) ≡ times x (l.sockfd ∷ [])
  held_there x = by c.state busy
    where
      by :
          (t : State)
          → is_connecting t ≡ true
          → times x (held_by t c.channel) ≡ times x (l.sockfd ∷ [])
      by disconnected e = absurd cc
      by connected e = absurd cc
      by connecting e = ap (λ o. times x (held_by connecting o)) there

  taken_off-IsLoose : (t : State) → IsLoose l.sockfd (record (taken_off c l) { state = t })
  unfolding taken_off queue
  taken_off-IsLoose t = record {
    once = λ x. omega (arith, h.once x, held_there x);
    delay = h.delay;
    delays = AllBounded-append c.tasks reset_task h.delays tt;
  }

  remove_eq :
      (t : State)
      → remove_and_reset_channel (record c { state = t })
        ≡ ok (l.sockfd, record (taken_off c l) { state = t })
  unfolding remove_and_reset_channel taken_off queue
  remove_eq t =
      ap (λ (d : Option Link). remove_and_reset_channel (record c { state = t; channel = d })) there

remove_null :
    (c : Connector) (t : State)
    → c.channel ≡ none
    → remove_and_reset_channel (record c { state = t }) ≡ assert_failed
unfolding remove_and_reset_channel
remove_null c t e =
    ap (λ (d : Option Link). remove_and_reset_channel (record c { state = t; channel = d })) e

-- The calls that end an attempt: there is a channel to take off, or they fail.
module _ (c : Connector) (h : IsSound c) (t : State)
    (rest : ℕ × Connector → Outcome Connector) where
  ends-Sound :
      ((s : ℕ) (d : Connector) → IsLoose s d → d.state ≡ t → Sound (rest (s, d)))
      → is_connecting c.state ≡ true
      → Sound (remove_and_reset_channel (record c { state = t }) >>= rest)
  ends-Sound sound busy = by c.channel refl
    where
      by :
          (o : Option Link)
          → c.channel ≡ o
          → Sound (remove_and_reset_channel (record c { state = t }) >>= rest)
      by none e = inl (ap (λ r. r >>= rest) (remove_null c t e))
      by (some l) e =
          subst (λ r. Sound (r >>= rest)) (sym (remove_eq c h busy l e t))
            (sound l.sockfd (record (taken_off c l) { state = t })
              (taken_off-IsLoose c h busy l e t) refl)

retries : (s : ℕ) (d : Connector) → IsLoose s d → Sound (ok (retry s d))
retries s d h = inr (_, refl, retry-IsSound s d h)

pub stop_in_loop-Sound : (c : Connector) → IsSound c → Sound (stop_in_loop c)
unfolding stop_in_loop
stop_in_loop-Sound c h = elim (Bool-cases (is_connecting c.state)) [
  | inl e ↦ simp e (ends-Sound c h disconnected _ (λ s d l _. retries s d l) e)
  | inr e ↦ simp e (inr (_, refl, h))
]

pub handle_error-Sound : (c : Connector) → IsSound c → Sound (handle_error c)
unfolding handle_error
handle_error-Sound c h = elim (Bool-cases (is_connecting c.state)) [
  | inl e ↦ simp e (ends-Sound c h c.state _ (λ s d l _. retries s d l) e)
  | inr e ↦ simp e (inr (_, refl, h))
]

-- The socket is connected, and handed over or closed.
connects : Connector → ℕ → Connector
connects d s =
    if d.connect
    then record d { state = connected; handed = s ∷ d.handed }
    else close s (record d { state = connected })

connects-IsSound : (s : ℕ) (d : Connector) → IsLoose s d → IsSound (connects d s)
unfolding connects close
connects-IsSound s d h = elim (Bool-cases d.connect) [
  | inl e ↦
      simp e (record { once = λ x. omega (arith, h.once x); delay = h.delay; delays = h.delays })
  | inr e ↦
      simp e (record { once = λ x. omega (arith, h.once x); delay = h.delay; delays = h.delays })
]

pub handle_write-Sound :
    (err : ℕ) (self_connect : Bool) (c : Connector)
    → IsSound c
    → Sound (handle_write err self_connect c)
unfolding handle_write connects
handle_write-Sound err self_connect c h = elim (Bool-cases (is_connecting c.state)) [
  | inl e ↦ simp e (ends-Sound c h c.state _ after e)
  | inr e ↦ elim (Bool-cases (is_disconnected c.state)) [
    | inl d ↦ simp (e, d) (inr (_, refl, h))
    | inr d ↦ simp (e, d) (inl refl)
  ]
]
  where
    after :
        (s : ℕ) (d : Connector)
        → IsLoose s d
        → d.state ≡ c.state
        → Sound (if not (err == 0) || self_connect then ok (retry s d) else ok (connects d s))
    after s d l _ = elim (Bool-cases (not (err == 0) || self_connect)) [
      | inl r ↦ simp r (retries s d l)
      | inr r ↦ simp r (inr (_, refl, connects-IsSound s d l))
    ]
