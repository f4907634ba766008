-- ===== src/Connector/Handed.antt =====
-- net/connector.cc: which calls hand a socket over, and what they leave of a connected state.
use ccnet.Prelude.{
  ℕ, suc, ◌≡◌, refl, ap, ◌≢◌, ◌⊎◌, inl, inr, Bool, true, not, ◌||◌, ◌∷◌, ◌==◌, if◌then◌else◌,
  Bool-cases, Option-cases,
}
use ccnet.Prelude.Outcome.{Outcome, ok, assert_failed, length_error, ◌>>=◌}
use ccnet.Connector.{
  Connector, State, disconnected, connecting, connected, is_disconnected, is_connecting, queue,
  close, retry, connecting_on, connect_with, goes_on, is_retried, start_in_loop,
  remove_and_reset_channel, stop_in_loop, handle_write, handle_error,
}

-- No socket is handed over, and a connected state stays one.
abbrev pub Quiet : Connector → Outcome Connector → Type 0
Quiet c (ok d) = (d.handed ≡ c.handed) × (c.state ≡ connected → d.state ≡ connected)
Quiet c assert_failed = Unit
Quiet c length_error = Unit

-- The attempt under way may end with its socket handed over.
abbrev pub Gives : Connector → Outcome Connector → Type 0
Gives c (ok d) =
    Quiet c (ok d)
    ⊎ ((s : ℕ) × (d.handed ≡ s ∷ c.handed) × (d.state ≡ connected) × (c.state ≢ connected))
Gives c assert_failed = Unit
Gives c length_error = Unit

disconnected_other : (t : State) → is_disconnected t ≡ true → t ≢ connected
disconnected_other disconnected e f = cc
disconnected_other connecting e f = cc
disconnected_other connected e f = cc

connecting_other : (t : State) → is_connecting t ≡ true → t ≢ connected
connecting_other disconnected e f = cc
connecting_other connecting e f = cc
connecting_other connected e f = cc

module _ (c : Connector) (other : c.state ≢ connected) where
  retry-Quiet : (s : ℕ) (d : Connector) → d.handed ≡ c.handed → Quiet c (ok (retry s d))
  unfolding retry close queue
  retry-Quiet s d e = elim (Bool-cases d.connect) [
    | inl k ↦ simp k (e, λ f. absurd (other f))
    | inr k ↦ simp k (e, λ f. absurd (other f))
  ]

  connecting_on-Quiet : (s : ℕ) (d : Connector) → d.handed ≡ c.handed → Quiet c (connecting_on s d)
  unfolding connecting_on
  connecting_on-Quiet s d e = elim (Option-cases d.channel) [
    | inl k ↦ simp k (e, λ f. absurd (other f))
    | inr (l, k) ↦ simp k tt
  ]

  connect_with-Quiet : (e : ℕ) (d : Connector) → d.handed ≡ c.handed → Quiet c (connect_with e d)
  unfolding connect_with close
  connect_with-Quiet e d f = elim (Bool-cases (goes_on e)) [
    | inl g ↦ simp g (connecting_on-Quiet d.created (record d { created = suc d.created }) f)
    | inr g ↦ elim (Bool-cases (is_retried e)) [
      | inl r ↦ simp (g, r) (retry-Quiet d.created (record d { created = suc d.created }) f)
      | inr r ↦ simp (g, r) (f, λ h. absurd (other h))
    ]
  ]

pub start_in_loop-Quiet : (e : ℕ) (c : Connector) → Quiet c (start_in_loop e c)
unfolding start_in_loop
start_in_loop-Quiet e c = elim (Bool-cases (is_disconnected c.state)) [
  | inr d ↦ simp d tt
  | inl d ↦ elim (Bool-cases c.connect) [
    | inl k ↦ simp (d, k) (connect_with-Quiet c (disconnected_other c.state d) e c refl)
    | inr k ↦ simp (d, k) (refl, λ f. f)
  ]
]

-- The calls that end an attempt: its channel is taken off, or there is none.
module _ (c : Connector) (t : State) (P : Outcome Connector → Type 0) (failed : P assert_failed)
    (rest : ℕ × Connector → Outcome Connector) where
  taken :
      ((s : ℕ) (d : Connector) → d.handed ≡ c.handed → P (rest (s, d)))
      → P (remove_and_reset_channel (record c { state = t }) >>= rest)
  unfolding remove_and_reset_channel queue
  taken k = elim (Option-cases c.channel) [
    | inl e ↦ simp e failed
    | inr (l, e) ↦ simp e (k l.sockfd _ refl)
  ]

pub stop_in_loop-Quiet : (c : Connector) → Quiet c (stop_in_loop c)
unfolding stop_in_loop
stop_in_loop-Quiet c = elim (Bool-cases (is_connecting c.state)) [
  | inl e ↦ simp e (
      taken c disconnected (Quiet c) tt _
        (λ s d f. retry-Quiet c (connecting_other c.state e) s d f))
  | inr e ↦ simp e (refl, λ f. f)
]

pub handle_error-Quiet : (c : Connector) → Quiet c (handle_error c)
unfolding handle_error
handle_error-Quiet c = elim (Bool-cases (is_connecting c.state)) [
  | inl e ↦
      simp e
        (taken c c.state (Quiet c) tt _ (λ s d f. retry-Quiet c (connecting_other c.state e) s d f))
  | inr e ↦ simp e (refl, λ f. f)
]

pub handle_write-Gives :
    (err : ℕ) (self_connect : Bool) (c : Connector) → Gives c (handle_write err self_connect c)
unfolding handle_write close
handle_write-Gives err self_connect c = elim (Bool-cases (is_connecting c.state)) [
  | inl e ↦ simp e (taken c c.state (Gives c) tt _ (λ s d f. after e s d f))
  | inr e ↦ elim (Bool-cases (is_disconnected c.state)) [
    | inl d ↦ simp (e, d) (inl (refl, λ f. f))
    | inr d ↦ simp (e, d) tt
  ]
]
  where
    after :
        is_connecting c.state ≡ true
        → (s : ℕ) (d : Connector) → d.handed ≡ c.handed
        → Gives c (
            if not (err == 0) || self_connect
            then ok (retry s d)
            else ok (
                let e : Connector = record d { state = connected } in
                if e.connect then record e { handed = s ∷ e.handed } else close s e))
    after e s d f =
        let other = connecting_other c.state e in
        elim (Bool-cases (not (err == 0) || self_connect)) [
          | inl r ↦ simp r (inl (retry-Quiet c other s d f))
          | inr r ↦ elim (Bool-cases d.connect) [
            | inl k ↦ simp (r, k) (inr (s, ap (λ xs. s ∷ xs) f, refl, other))
            | inr k ↦ simp (r, k) (inl (f, λ h. absurd (other h)))
          ]
        ]
