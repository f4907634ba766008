-- ===== src/TimeZone/FileTrip.antt =====
-- base/time_zone.cc: `readTimeZoneFile` on a zone in the format of tzfile(5).
use ccnet.Prelude.{
  ℕ, suc, ◌<◌, ◌≡◌, refl, sym, ap, subst, ◌∙◌, inl, inr, true, not, Option, none, some, List, [],
  ◌∷◌, ◌++◌, append-nil, append_assoc, arith, Option-cases, length, get_elem?,
}
use ccnet.Prelude.Int.{ℤ, pos, ◌+ℤ◌}
use ccnet.TimeZone.{Transition, LocalTime, Data}
use ccnet.Prelude.Outcome.{ok}
use ccnet.TimeZone.Bound.{some_same}
use ccnet.TimeZone.File.{
  unless_error, caught, read, read_bytes, read_int32, read_uint8, read_each, push_transition,
  push_transitions, set_abbreviation, magic, read_head, read_body, read_zone, read_time_zone_file,
  no_data,
}
use ccnet.TimeZone.Format.{
  write_int32, write_int32s, IsInt32, read_int32-write_int32, AreInt32, after,
  read_each-write_int32s, read_each-bytes, not_negative, read_bytes_append, write_localtimes,
  AreStored, read_localtimes-write_localtimes,
}

-- A transition as it is written: its time and the index of its local time.
pub record Change : Type 0 where
  pub time : ℤ
  pub index : ℕ

abbrev made : Change → Option LocalTime → Option Transition
made c none = none
made c (some l) =
    some
      (record { gmt_time = c.time; local_time = c.time +ℤ l.gmt_offset; localtime_idx = c.index })

abbrev pub transition_of : List LocalTime → Change → Option Transition
transition_of ls c = made c (get_elem? ls c.index)

-- `ts` are the transitions of the changes, each with the local time of its index.
unfoldable pub AreMade : List LocalTime → List Change → List Transition → Type 0
AreMade ls [] ts = ts ≡ []
AreMade ls (c ∷ cs) [] = ⊥
AreMade ls (c ∷ cs) (t ∷ ts) = (transition_of ls c ≡ some t) × AreMade ls cs ts

abbrev pub times : List Change → List ℤ
times [] = []
times (c ∷ cs) = c.time ∷ times cs

abbrev pub indices : List Change → List ℕ
indices [] = []
indices (c ∷ cs) = c.index ∷ indices cs

push_made :
    (c : Change) (t : Transition) (rest : List ℕ) (zone : Data)
    → transition_of zone.localtimes c ≡ some t
    → push_transition c.time c.index rest zone
      ≡ read tt rest (record zone { transitions = zone.transitions ++ (t ∷ []) })
unfolding push_transition
push_made c t rest zone e = elim (Option-cases (get_elem? zone.localtimes c.index)) [
  | inl n ↦ absurd (ground (arith, sym (ap (made c) n) ∙ e))
  | inr (l, k) ↦
      simp (k, push_transition)
        (ap (λ u. read tt rest (record zone { transitions = zone.transitions ++ (u ∷ []) }))
          (some_same _ t (sym (ap (made c) k) ∙ e)))
]

push_transitions-made :
    (cs : List Change) (ts : List Transition) (rest : List ℕ) (zone : Data)
    → AreMade zone.localtimes cs ts
    → push_transitions (times cs) (indices cs) rest zone
      ≡ read tt rest (record zone { transitions = zone.transitions ++ ts })
unfolding push_transitions AreMade
push_transitions-made [] ts rest zone h =
    ap (λ l. read tt rest (record zone { transitions = l }))
      (sym (append-nil zone.transitions) ∙ ap (λ l. zone.transitions ++ l) (sym h))
push_transitions-made (c ∷ cs) [] rest zone h = absurd h
push_transitions-made (c ∷ cs) (t ∷ ts) rest zone (h, hs) =
    after _ _ (push_made c t rest zone h)
    ∙ push_transitions-made cs ts rest _ hs
    ∙ ap (λ k. read tt rest (record zone { transitions = k }))
        (append_assoc zone.transitions (t ∷ []) ts)

-- The content of a file, less its end, which is not read.
pub record ZoneFile : Type 0 where
  pub version : ℕ
  pub reserved : List ℕ
  pub isgmtcnt : ℤ
  pub isstdcnt : ℤ
  pub leapcnt : ℤ
  pub changes : List Change
  pub localtimes : List LocalTime
  pub abbreviation : List ℕ

abbrev write_counts : ZoneFile → List ℕ → List ℕ
write_counts z rest =
    write_int32 z.isgmtcnt
    ++ (write_int32 z.isstdcnt
        ++ (write_int32 z.leapcnt
            ++ (write_int32 (pos (length z.changes))
                ++ (write_int32 (pos (length z.localtimes))
                    ++ (write_int32 (pos (length z.abbreviation)) ++ rest)))))

abbrev write_body : ZoneFile → List ℕ → List ℕ
write_body z rest =
    write_int32s (times z.changes)
    ++ (indices z.changes ++ (write_localtimes z.localtimes ++ (z.abbreviation ++ rest)))

unfoldable pub write_zone : ZoneFile → List ℕ → List ℕ
write_zone z rest =
    magic ++ ((z.version ∷ []) ++ (z.reserved ++ write_counts z (write_body z rest)))

-- What the format can hold, with the transitions `ts`.
pub record IsWritten (z : ZoneFile) (ts : List Transition) : Type 0 where
  pub reserved_law : length z.reserved ≡ 15
  pub counts_law : IsInt32 z.isgmtcnt × IsInt32 z.isstdcnt × IsInt32 z.leapcnt
  pub changes_law : length z.changes < 2147483648
  pub types_law : length z.localtimes < 2147483648
  pub text_law : length z.abbreviation < 2147483648
  pub times_law : AreInt32 (times z.changes)
  pub stored_law : AreStored z.localtimes
  pub made_law : AreMade z.localtimes z.changes ts

length-times : (cs : List Change) → length (times cs) ≡ length cs
length-times [] = refl
length-times (c ∷ cs) = ap suc (length-times cs)

length-indices : (cs : List Change) → length (indices cs) ≡ length cs
length-indices [] = refl
length-indices (c ∷ cs) = ap suc (length-indices cs)

read_head-written :
    (z : ZoneFile) (rest : List ℕ) (zone : Data)
    → length z.reserved ≡ 15
    → read_head (magic ++ ((z.version ∷ []) ++ (z.reserved ++ rest))) zone ≡ read tt rest zone
unfolding read_head
read_head-written z rest zone e =
    after _ _ (read_bytes_append magic _ zone)
    ∙ after _ _ refl
    ∙ after _ _ (read_bytes_append (z.version ∷ []) _ zone)
    ∙ after _ _ (
        subst (λ n. read_bytes (pos n) (z.reserved ++ rest) zone ≡ read z.reserved rest zone) e
          (read_bytes_append z.reserved rest zone))

read_body-written :
    (z : ZoneFile) (ts : List Transition) (rest : List ℕ)
    → IsWritten z ts
    → read_body
        (pos (length z.changes))
        (pos (length z.localtimes))
        (pos (length z.abbreviation))
        (write_body z rest)
        no_data
      ≡ read tt rest
          (record { transitions = ts; localtimes = z.localtimes; abbreviation = z.abbreviation })
unfolding read_body set_abbreviation
read_body-written z ts rest w =
    after _ _
      (ap (λ b. unless_error (not b) (write_body z rest) no_data) (not_negative (length z.changes)))
    ∙ after _ _ (
        subst
          (λ n.
            read_each read_int32 n (write_body z rest) no_data
            ≡ read (times z.changes)
                (indices z.changes ++ (write_localtimes z.localtimes ++ (z.abbreviation ++ rest)))
                no_data)
          (length-times z.changes) (read_each-write_int32s (times z.changes) _ no_data w.times_law))
    ∙ after _ _ (
        subst
          (λ n.
            read_each read_uint8 n
              (indices z.changes ++ (write_localtimes z.localtimes ++ (z.abbreviation ++ rest)))
              no_data
            ≡ read (indices z.changes) (write_localtimes z.localtimes ++ (z.abbreviation ++ rest))
                no_data)
          (length-indices z.changes) (read_each-bytes (indices z.changes) _ no_data))
    ∙ after _ _ (read_localtimes-write_localtimes z.localtimes _ no_data w.stored_law)
    ∙ after _ _ (push_transitions-made z.changes ts _ _ w.made_law)
    ∙ after _ _ (read_bytes_append z.abbreviation rest _)

pos-IsInt32 : (n : ℕ) → n < 2147483648 → IsInt32 (pos n)
pos-IsInt32 n h = (h, omega arith)

-- A zone within the bounds of the format, whose indices name its local times, is read from the
-- bytes that the format has for it, whatever follows them, with a local time for each transition.
pub read_time_zone_file-write_zone :
    (z : ZoneFile) (ts : List Transition) (rest : List ℕ)
    → IsWritten z ts
    → read_time_zone_file (some (write_zone z rest)) no_data
      ≡ ok (
        true,
        record { transitions = ts; localtimes = z.localtimes; abbreviation = z.abbreviation },
      )
unfolding read_time_zone_file read_zone write_zone
read_time_zone_file-write_zone z ts rest w = ap caught (
    after _ _ (read_head-written z (write_counts z (write_body z rest)) no_data w.reserved_law)
    ∙ after _ _ (read_int32-write_int32 z.isgmtcnt _ no_data w.counts_law.0)
    ∙ after _ _ (read_int32-write_int32 z.isstdcnt _ no_data w.counts_law.1)
    ∙ after _ _ (read_int32-write_int32 z.leapcnt _ no_data w.counts_law.2)
    ∙ after _ _
        (read_int32-write_int32 (pos (length z.changes)) _ no_data (pos-IsInt32 _ w.changes_law))
    ∙ after _ _
        (read_int32-write_int32 (pos (length z.localtimes)) _ no_data (pos-IsInt32 _ w.types_law))
    ∙ after _ _
        (read_int32-write_int32 (pos (length z.abbreviation)) _ no_data (pos-IsInt32 _ w.text_law))
    ∙ read_body-written z ts rest w)
