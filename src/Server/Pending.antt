-- ===== src/Server/Pending.antt =====
-- The accept loop of `run_server` of server/src/server.rs, and that of server/src/file_transfer.rs:
-- the semaphore that bounds how many connections may be before the end of their pairing, and the
-- ids that connections get. The system chooses when a connection comes and when one gives its
-- permit back.
use xkvm.Base.{
  ℕ, ◌+◌, ◌-◌, ◌≤◌, ◌<◌, ◌≡◌, refl, inl, inr, true, false, Option, none, some, List, [], ◌∷◌, arith,
  leb, ◌==◌, if◌then◌else◌, Bool-cases, length, All, nat_eq, contains, without, contains-without,
  text_eq,
}

abbrev pub max_pending_connections : ℕ
max_pending_connections = 256

-- The permits that are left, the next id and the ids of the connections that hold a permit.
pub record Listener : Type 0 where
  pub permits : ℕ
  pub next_id : ℕ
  pub pending : List ℕ

unfoldable pub listen : Listener
listen = record { permits = max_pending_connections; next_id = 1; pending = [] }

-- `listener.accept`: the new state, and the id of the connection if it is not dropped.
unfoldable pub accept : Listener → Listener × Option ℕ
accept l = if l.permits == 0 then (l, none) else (
  record l { permits = l.permits - 1; next_id = l.next_id + 1; pending = l.next_id ∷ l.pending },
  some l.next_id,
)

-- The permit of a connection is dropped, once it is paired or its handler ends.
unfoldable pub release : ℕ → Listener → Listener
release id l =
    if contains id l.pending
    then record l { permits = l.permits + 1; pending = without id l.pending }
    else l

pub data Step : Listener → Listener → Type 0 where
  accepts : (l : Listener) → Step l (accept l).0
  releases : (id : ℕ) (l : Listener) → Step l (release id l)

pub data Reach : Listener → Type 0 where
  here : Reach listen
  next : {l l' : Listener} → Reach l → Step l l' → Reach l'

-- Each id at most once.
abbrev AreDistinct : List ℕ → Type 0
AreDistinct [] = Unit
AreDistinct (id ∷ ids) = (contains id ids ≡ false) × AreDistinct ids

-- Each permit is left or held, and the ids that were given out are below the next one.
pub record IsValid (l : Listener) : Type 0 where
  pub counted : l.permits + length l.pending ≡ max_pending_connections
  pub distinct : AreDistinct l.pending
  pub below : All (λ id. id < l.next_id) l.pending

fresh_above : (n : ℕ) (ids : List ℕ) → All (λ id. id < n) ids → contains n ids ≡ false
unfolding contains
fresh_above n [] h = refl
fresh_above n (id ∷ ids) h = ground (arith, fresh_above n ids h.1)

All-weaken : (n : ℕ) (ids : List ℕ) → All (λ id. id < n) ids → All (λ id. id < n + 1) ids
All-weaken n [] h = tt
All-weaken n (id ∷ ids) h = (omega (arith, h.0), All-weaken n ids h.1)

All-without : (n id : ℕ) (ids : List ℕ) → All (λ i. i < n) ids → All (λ i. i < n) (without id ids)
unfolding without
All-without n id [] h = tt
All-without n id (j ∷ ids) h = ground (arith, All-without n id ids h.1)

without_absent : (id : ℕ) (ids : List ℕ) → contains id ids ≡ false → without id ids ≡ ids
unfolding without contains
without_absent id [] h = refl
without_absent id (j ∷ ids) h = ground (arith, without_absent id ids)

without-AreDistinct : (id : ℕ) (ids : List ℕ) → AreDistinct ids → AreDistinct (without id ids)
unfolding without
without-AreDistinct id [] h = tt
without-AreDistinct id (j ∷ ids) h =
    ground (arith, without-AreDistinct id ids h.1, contains-without {0} id j ids)

length-without :
    (id : ℕ) (ids : List ℕ)
    → AreDistinct ids
    → contains id ids ≡ true
    → length (without id ids) + 1 ≡ length ids
unfolding without contains
length-without id [] d h = cc
length-without id (j ∷ ids) d h =
    ground (arith, length-without id ids d.1, without_absent id ids, d.0)

accept-IsValid : (l : Listener) → IsValid l → IsValid (accept l).0
unfolding accept
accept-IsValid l v = elim (Bool-cases (l.permits == 0)) [
  | inl full ↦ rw full v
  | inr room ↦ rw room (record {
    counted = ground (arith, v.counted);
    distinct = (fresh_above l.next_id l.pending v.below, v.distinct);
    below = (omega arith, All-weaken l.next_id l.pending v.below);
  })
]

release-IsValid : (id : ℕ) (l : Listener) → IsValid l → IsValid (release id l)
unfolding release
release-IsValid id l v = elim (Bool-cases (contains id l.pending)) [
  | inr absent ↦ rw absent v
  | inl there ↦ rw there (record {
    counted = omega (arith, v.counted, length-without id l.pending v.distinct there);
    distinct = without-AreDistinct id l.pending v.distinct;
    below = All-without l.next_id id l.pending v.below;
  })
]

listen-IsValid : IsValid listen
unfolding listen
listen-IsValid = record { counted = refl; distinct = tt; below = tt }

pub Reach-IsValid : {l : Listener} → Reach l → IsValid l
Reach-IsValid here = listen-IsValid
Reach-IsValid (next r (accepts l)) = accept-IsValid l (Reach-IsValid r)
Reach-IsValid (next r (releases id l)) = release-IsValid id l (Reach-IsValid r)

-- In whatever order connections come and give their permits back, at most 256 of them are pending;
-- a new one is dropped exactly if 256 are, and else gets the next id, which no pending one has.
pub accept_bounded :
    (l : Listener)
    → Reach l
    → (length l.pending ≤ max_pending_connections)
      × ((accept l).1
          ≡ (if leb max_pending_connections (length l.pending) then none else some l.next_id))
      × (contains l.next_id l.pending ≡ false)
unfolding accept
accept_bounded l r =
    let v = Reach-IsValid r in
    let counted = v.counted in
    let fresh = fresh_above l.next_id l.pending v.below in (omega arith, ground arith, fresh)
