-- ===== src/TcpServer/Counts.antt =====
-- How often net/tcp_server.cc established and destroyed a connection, and how often the map holds it.
use ccnet.Prelude.{ℕ, suc, ◌+◌, ◌≡◌, refl, Bool, List, [], ◌∷◌, ◌++◌, arith, ◌==◌, if◌then◌else◌}
use ccnet.TcpServer.{Connection, Functor, established, destroyed, assign, erase, count}

-- How often the connection of a number was established, and destroyed.
unfoldable pub established_count : ℕ → List Functor → ℕ
established_count k [] = 0
established_count k (established c ∷ fs) =
    let rest = established_count k fs in if c.id == k then suc rest else rest
established_count k (destroyed c ∷ fs) = established_count k fs

unfoldable pub destroyed_count : ℕ → List Functor → ℕ
destroyed_count k [] = 0
destroyed_count k (established c ∷ fs) = destroyed_count k fs
destroyed_count k (destroyed c ∷ fs) =
    let rest = destroyed_count k fs in if c.id == k then suc rest else rest

abbrev pub one_if : Bool → ℕ
one_if b = if b then 1 else 0

pub established_count-append :
    (k : ℕ) (fs gs : List Functor)
    → established_count k (fs ++ gs) ≡ established_count k fs + established_count k gs
unfolding established_count
established_count-append k [] gs = omega arith
established_count-append k (established c ∷ fs) gs =
    ground (arith, established_count-append k fs gs)
established_count-append k (destroyed c ∷ fs) gs = established_count-append k fs gs

pub destroyed_count-append :
    (k : ℕ) (fs gs : List Functor)
    → destroyed_count k (fs ++ gs) ≡ destroyed_count k fs + destroyed_count k gs
unfolding destroyed_count
destroyed_count-append k [] gs = omega arith
destroyed_count-append k (established c ∷ fs) gs = destroyed_count-append k fs gs
destroyed_count-append k (destroyed c ∷ fs) gs = ground (arith, destroyed_count-append k fs gs)

-- One more functor.
pub established_more :
    (k : ℕ) (fs : List Functor) (c : Connection)
    → (established_count k (fs ++ (established c ∷ []))
        ≡ established_count k fs + one_if (c.id == k))
      × (destroyed_count k (fs ++ (established c ∷ [])) ≡ destroyed_count k fs)
unfolding established_count destroyed_count
established_more k fs c = (
  established_count-append k fs (established c ∷ []),
  omega (arith, destroyed_count-append k fs (established c ∷ [])),
)

pub destroyed_more :
    (k : ℕ) (fs : List Functor) (c : Connection)
    → (destroyed_count k (fs ++ (destroyed c ∷ [])) ≡ destroyed_count k fs + one_if (c.id == k))
      × (established_count k (fs ++ (destroyed c ∷ [])) ≡ established_count k fs)
unfolding established_count destroyed_count
destroyed_more k fs c = (
  destroyed_count-append k fs (destroyed c ∷ []),
  omega (arith, established_count-append k fs (destroyed c ∷ [])),
)

pub count-assign :
    (k : ℕ) (c : Connection) (ds : List Connection)
    → count c.id ds ≡ 0
    → count k (assign c ds) ≡ count k ds + one_if (c.id == k)
unfolding count assign
count-assign k c [] h = ground arith
count-assign k c (d ∷ ds) h = ground (arith, count-assign k c ds, h)

pub count-erase :
    (k i : ℕ) (ds : List Connection) → count k (erase i ds) ≡ (if i == k then 0 else count k ds)
unfolding count erase
count-erase k i [] = ground arith
count-erase k i (d ∷ ds) = ground (arith, count-erase k i ds)

pub count-append : (k : ℕ) (cs ds : List Connection) → count k (cs ++ ds) ≡ count k cs + count k ds
unfolding count
count-append k [] ds = omega arith
count-append k (c ∷ cs) ds = ground (arith, count-append k cs ds)

pub count_cons :
    (k : ℕ) (c : Connection) (ds : List Connection)
    → count k (c ∷ ds) ≡ one_if (c.id == k) + count k ds
unfolding count
count_cons k c ds = ground arith

pub count_none : (k : ℕ) → count k [] ≡ 0
unfolding count
count_none k = refl
