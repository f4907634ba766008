-- ===== src/TimeZone/LocalTrip.antt =====
-- base/time_zone.cc: `toLocalTime` and `fromLocalTime` one after the other.
use ccnet.Prelude.{
  ℕ, ◌≤◌, ◌≡◌, refl, sym, ap, subst, ◌∙◌, inl, inr, Bool, true, false, some, arith, leb_iff, length,
  get_elem?, drop,
}
use ccnet.Prelude.Outcome.{ok, ◌>>=◌}
use ccnet.Prelude.Int.{ℤ, pos, ◌+ℤ◌, ◌-ℤ◌, int_laws}
use ccnet.TimeZone.{Transition, LocalTime, Data, Tm, find_localtime, localtime_at}
use ccnet.TimeZone.Bound.{time_of, IsSorted, IsLatest, some_same}
use ccnet.TimeZone.Search.{Latest, find_localtime-Latest}
use ccnet.TimeZone.Local.{LocalTm, local_tm, to_local_time, corrected, from_local_time}

-- There is one latest entry only, which the search then finds.
find_latest :
    (zone : Data) (sentry : Transition) (gmt : Bool) (i : ℕ) (t : Transition)
    → IsSorted gmt zone.transitions
    → IsLatest gmt (time_of gmt sentry) zone.transitions i t
    → find_localtime zone sentry gmt ≡ localtime_at zone t.localtime_idx
unfolding Latest
find_latest zone sentry gmt i t s l = elim (find_localtime-Latest zone sentry gmt s) [
  | inl (a, e) ↦ absurd (omega (arith, a i t l.entry_law, l.not_after))
  | inr (j, u, m, e) ↦
      e
      ∙ ap (λ x. localtime_at zone x.localtime_idx)
          (sym (
            some_same t u (
              sym l.entry_law
              ∙ ap (get_elem? zone.transitions) {x = i} {y = j} (
                  omega (
                    arith,
                    l.others j u m.entry_law m.not_after,
                    m.others i t l.entry_law l.not_after,
                  ))
              ∙ m.entry_law)))
]

module _ (gmtime_r : ℤ → Tm) (timegm : Tm → ℤ) (timegm-gmtime_r : (z : ℤ) → timegm (gmtime_r z) ≡ z)
    (zone : Data) (up_gmt : IsSorted true zone.transitions)
    (up_local : IsSorted false zone.transitions) where
  abbrev local_of : ℤ → LocalTime → LocalTm
  local_of s l = record {
    tm = gmtime_r (s +ℤ l.gmt_offset);
    tm_isdst = l.is_dst;
    tm_gmtoff = l.gmt_offset;
    tm_zone = drop l.arrb_idx zone.abbreviation;
  }

  to_local_time_lem :
      (s : ℤ) (i : ℕ) (t : Transition) (l : LocalTime)
      → IsLatest true s zone.transitions i t
      → localtime_at zone t.localtime_idx ≡ ok l
      → l.arrb_idx ≤ length zone.abbreviation
      → to_local_time gmtime_r (some zone) s ≡ ok (local_of s l)
  unfolding to_local_time local_tm
  to_local_time_lem s i t l a e k =
      simp
        (
          find_latest zone (record { gmt_time = s; local_time = pos 0; localtime_idx = 0 }) true i t
                up_gmt a
              ∙ e,
          (leb_iff l.arrb_idx (length zone.abbreviation)).1 k,
          to_local_time,
          local_tm,
        )
        refl

  back_again : (s o : ℤ) → s +ℤ o -ℤ o ≡ s
  back_again s o = omega int_laws

  uncorrected :
      (s : ℤ) (l : LocalTime) (x : ℤ)
      → l.is_dst ≡ true
      → corrected (local_of s l) (local_of s l) x ≡ x
  unfolding corrected
  uncorrected s l x e = rw e refl

  -- What is left of `fromLocalTime` once the local time is found.
  settled :
      (s x : ℤ) (l : LocalTime) (d : Bool)
      → x -ℤ l.gmt_offset ≡ s
      → to_local_time gmtime_r (some zone) s ≡ ok (local_of s l)
      → l.is_dst ≡ d
      → ((elim d [
        | true ↦ (do
          try_tm ← to_local_time gmtime_r (some zone) (x -ℤ l.gmt_offset)
          ok (corrected try_tm (local_of s l) x))
        | false ↦ ok x
      ])
          >>= λ y. ok (y -ℤ l.gmt_offset))
        ≡ ok s
  settled s x l true h e d = simp (h, e, uncorrected s l x d) refl
  settled s x l false h e d = ap ok h

  -- With a `timegm` that undoes `gmtime_r`, in a zone whose transitions go up both in UTC and in
  -- local time: where a second and its local time follow the same transition, whose local time and
  -- abbreviation exist, the second has a local time, and that stands for the second, daylight saving
  -- or not.
  pub from_local_time-to_local_time :
      (s : ℤ) (i : ℕ) (t : Transition) (l : LocalTime)
      → IsLatest true s zone.transitions i t
      → localtime_at zone t.localtime_idx ≡ ok l
      → IsLatest false (s +ℤ l.gmt_offset) zone.transitions i t
      → l.arrb_idx ≤ length zone.abbreviation
      → (r : LocalTm) × (to_local_time gmtime_r (some zone) s ≡ ok r)
        × (from_local_time gmtime_r timegm (some zone) r ≡ ok s)
  unfolding from_local_time corrected
  from_local_time-to_local_time s i t l a e b k = (
    local_of s l,
    to_local_time_lem s i t l a e k,
    simp (found timegm-gmtime_r) (
        settled s (timegm (gmtime_r (s +ℤ l.gmt_offset))) l l.is_dst
          (ap (λ z. z -ℤ l.gmt_offset) (timegm-gmtime_r (s +ℤ l.gmt_offset))
            ∙ back_again s l.gmt_offset)
          (to_local_time_lem s i t l a e k) refl),
  )
    where
      found :
          ((z : ℤ) → timegm (gmtime_r z) ≡ z)
          → find_localtime zone
              (record {
                gmt_time = pos 0;
                local_time = timegm (gmtime_r (s +ℤ l.gmt_offset));
                localtime_idx = 0;
              })
              false
            ≡ ok l
      found inverse =
          find_latest zone
            (record {
              gmt_time = pos 0;
              local_time = timegm (gmtime_r (s +ℤ l.gmt_offset));
              localtime_idx = 0;
            })
            false i t up_local
            (subst (λ z. IsLatest false z zone.transitions i t) (sym (inverse (s +ℤ l.gmt_offset)))
              b)
          ∙ e
