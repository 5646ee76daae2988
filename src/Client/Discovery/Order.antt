-- ===== src/Client/Discovery/Order.antt =====
-- The list of the servers that were found: in the order of the names, and no server lost.
use xkvm.Base.{
  ◌≡◌, refl, inl, inr, true, false, List, [], ◌∷◌, arith, Bool-cases, All, nat_eq, Text, text_eq,
}
use mathlib.Core.List.{Perm}
use mathlib.Core.List.Perm
use xkvm.Client.Discovery.{
  DiscoveredServer, Event, collect, text_le, insert_by_name, sort_by_name, values, discover_servers,
}

text_le_total : (s t : Text) → text_le s t ≡ false → text_le t s ≡ true
unfolding text_le
text_le_total [] t h = absurd (cc h)
text_le_total (c ∷ s) [] h = refl
text_le_total (c ∷ s) (d ∷ t) h = elim (Bool-cases (text_le s t)) [
  | inl e ↦ ground arith
  | inr e ↦ let back = text_le_total s t e in ground arith
]

text_le_trans : (s t u : Text) → text_le s t ≡ true → text_le t u ≡ true → text_le s u ≡ true
unfolding text_le
text_le_trans [] t u h k = refl
text_le_trans (c ∷ s) [] u h k = absurd (cc h)
text_le_trans (c ∷ s) (d ∷ t) [] h k = absurd (cc k)
text_le_trans (c ∷ s) (d ∷ t) (x ∷ u) h k = elim (Bool-cases (text_le s t)) [
  | inl e ↦ elim (Bool-cases (text_le t u)) [
    | inl f ↦ let through = text_le_trans s t u e f in ground arith
    | inr f ↦ ground arith
  ]
  | inr e ↦ ground arith
]

-- No server of the list has a smaller name.
abbrev pub IsLeast : DiscoveredServer → List DiscoveredServer → Type 0
IsLeast s = All (λ t. text_le s.name t.name ≡ true)

unfoldable pub IsSorted : List DiscoveredServer → Type 0
IsSorted [] = Unit
IsSorted (s ∷ servers) = IsLeast s servers × IsSorted servers

IsLeast-below :
    (s t : DiscoveredServer) (servers : List DiscoveredServer)
    → text_le s.name t.name ≡ true
    → IsLeast t servers
    → IsLeast s servers
IsLeast-below s t [] h k = tt
IsLeast-below s t (u ∷ servers) h (k, ks) =
    (text_le_trans s.name t.name u.name h k, IsLeast-below s t servers h ks)

insert_by_name-IsLeast :
    (s t : DiscoveredServer) (servers : List DiscoveredServer)
    → text_le t.name s.name ≡ true
    → IsLeast t servers
    → IsLeast t (insert_by_name s servers)
unfolding insert_by_name
insert_by_name-IsLeast s t [] h k = (h, tt)
insert_by_name-IsLeast s t (u ∷ servers) h (k, ks) = elim (Bool-cases (text_le s.name u.name)) [
  | inl e ↦ rw e (h, (k, ks))
  | inr e ↦ rw e (k, insert_by_name-IsLeast s t servers h ks)
]

insert_by_name-IsSorted :
    (s : DiscoveredServer) (servers : List DiscoveredServer)
    → IsSorted servers
    → IsSorted (insert_by_name s servers)
unfolding insert_by_name IsSorted
insert_by_name-IsSorted s [] h = (tt, tt)
insert_by_name-IsSorted s (t ∷ servers) (h, hs) = elim (Bool-cases (text_le s.name t.name)) [
  | inl e ↦ rw e ((e, IsLeast-below s t servers e h), (h, hs))
  | inr e ↦ rw e (
    insert_by_name-IsLeast s t servers (text_le_total s.name t.name e) h,
    insert_by_name-IsSorted s servers hs,
  )
]

insert_by_name-perm :
    (s : DiscoveredServer) (servers : List DiscoveredServer)
    → Perm (insert_by_name s servers) (s ∷ servers)
unfolding insert_by_name
insert_by_name-perm s [] = Perm.rfl
insert_by_name-perm s (t ∷ servers) = elim (Bool-cases (text_le s.name t.name)) [
  | inl e ↦ rw e Perm.rfl
  | inr e ↦ rw e (Perm.trans (Perm.cons t (insert_by_name-perm s servers)) (Perm.swap s t servers))
]

sort_by_name-sorts :
    (servers : List DiscoveredServer)
    → IsSorted (sort_by_name servers) × Perm (sort_by_name servers) servers
unfolding sort_by_name IsSorted
sort_by_name-sorts [] = (tt, Perm.rfl)
sort_by_name-sorts (s ∷ servers) =
    let (sorted, perm) = sort_by_name-sorts servers in
    (
      insert_by_name-IsSorted s (sort_by_name servers) sorted,
      Perm.trans (insert_by_name-perm s (sort_by_name servers)) (Perm.cons s perm),
    )

-- The servers that are given out are those that were kept, one for each full name, in the order of
-- their names.
pub discover_servers-IsSorted :
    (events : List Event)
    → IsSorted (discover_servers events)
      × Perm (discover_servers events) (values (collect events []))
unfolding discover_servers
discover_servers-IsSorted events = sort_by_name-sorts (values (collect events []))
