-- ===== src/Sharding/HashRing/Order.antt =====
-- Sorted hashes and the successor of a hash on the circle.
use metrics_governor.Prelude.{
  ℕ, ◌≤◌, ◌<◌, ◌≡◌, refl, Bool, true, false, ◌||◌, List, [], ◌∷◌, none, some, ◌==◌, arith, inl, inr,
  All, Option-cases,
}
use metrics_governor.Sharding.HashRing.{insert_hash, sort_hashes, search, position}

unfoldable pub contains : ℕ → List ℕ → Bool
contains x [] = false
contains x (h ∷ hs) = h == x || contains x hs

contains-insert_hash :
    (x h : ℕ) (hs : List ℕ) → contains x (insert_hash h hs) ≡ (h == x || contains x hs)
unfolding insert_hash contains
contains-insert_hash x h [] = refl
contains-insert_hash x h (g ∷ gs) = ground (arith, contains-insert_hash x h gs)

pub contains-sort_hashes : (x : ℕ) (hs : List ℕ) → contains x (sort_hashes hs) ≡ contains x hs
unfolding sort_hashes contains
contains-sort_hashes x [] = refl
contains-sort_hashes x (h ∷ hs) =
    ground (arith, contains-insert_hash x h (sort_hashes hs), contains-sort_hashes x hs)

abbrev pub Sorted : List ℕ → Type 0
Sorted [] = Unit
Sorted (h ∷ hs) = All (λ g. h ≤ g) hs × Sorted hs

All-insert :
    (m h : ℕ) (hs : List ℕ) → m ≤ h → All (λ g. m ≤ g) hs → All (λ g. m ≤ g) (insert_hash h hs)
unfolding insert_hash
All-insert m h [] l a = (l, tt)
All-insert m h (g ∷ gs) l a = ground (arith, All-insert m h gs l a.1)

All-below : (m h : ℕ) (hs : List ℕ) → m ≤ h → All (λ g. h ≤ g) hs → All (λ g. m ≤ g) hs
All-below m h [] l a = tt
All-below m h (g ∷ gs) l a = (omega arith, All-below m h gs l a.1)

insert_hash-Sorted : (h : ℕ) (hs : List ℕ) → Sorted hs → Sorted (insert_hash h hs)
unfolding insert_hash
insert_hash-Sorted h [] s = (tt, tt)
insert_hash-Sorted h (g ∷ gs) s =
    ground (arith, insert_hash-Sorted h gs s.1, All-insert g h gs, All-below h g gs)

pub sort_hashes-Sorted : (hs : List ℕ) → Sorted (sort_hashes hs)
unfolding sort_hashes
sort_hashes-Sorted [] = tt
sort_hashes-Sorted (h ∷ hs) = insert_hash-Sorted h (sort_hashes hs) (sort_hashes-Sorted hs)

All-contains : (m t : ℕ) (hs : List ℕ) → All (λ g. m ≤ g) hs → contains t hs ≡ true → m ≤ t
unfolding contains
All-contains m t [] a h = cc
All-contains m t (g ∷ gs) a h = ground (arith, All-contains m t gs a.1)

search-some :
    (x s t : ℕ) (hs : List ℕ)
    → Sorted hs
    → search x hs ≡ some s
    → (contains s hs ≡ true) × (x ≤ s) × (contains t hs ≡ true → x ≤ t → s ≤ t)
unfolding search contains
search-some x s t [] o h = cc
search-some x s t (g ∷ gs) o h = ground (arith, search-some x s t gs o.1, All-contains g t gs o.0)

search-none : (x t : ℕ) (hs : List ℕ) → search x hs ≡ none → contains t hs ≡ true → t < x
unfolding search contains
search-none x t [] h c = cc
search-none x t (g ∷ gs) h c = ground (arith, search-none x t gs)

-- The successor of `x` among the hashes of a set: the least of those that are not below `x`, or the
-- least of all if all are below.
pub data IsSuccessor (x : ℕ) (mem : ℕ → Bool) (s : ℕ) : Type 0 where
  ahead : mem s ≡ true → x ≤ s → ((t : ℕ) → mem t ≡ true → x ≤ t → s ≤ t) → IsSuccessor x mem s
  wrapped : mem s ≡ true → ((t : ℕ) → mem t ≡ true → (t < x) × (s ≤ t)) → IsSuccessor x mem s

position_ahead :
    (x g s a : ℕ) (gs : List ℕ) → search x (g ∷ gs) ≡ some a → position x (g ∷ gs) ≡ some s → s ≡ a
unfolding position
position_ahead x g s a gs e h = ground arith

position_wrapped :
    (x g s : ℕ) (gs : List ℕ) → search x (g ∷ gs) ≡ none → position x (g ∷ gs) ≡ some s → s ≡ g
unfolding position
position_wrapped x g s gs e h = ground arith

first_least : (g t : ℕ) (gs : List ℕ) → Sorted (g ∷ gs) → contains t (g ∷ gs) ≡ true → g ≤ t
unfolding contains
first_least g t gs o m = ground (arith, All-contains g t gs o.0)

contains_first : (g : ℕ) (gs : List ℕ) → contains g (g ∷ gs) ≡ true
unfolding contains
contains_first g gs = ground arith

pub position-IsSuccessor :
    (x s : ℕ) (hs : List ℕ)
    → Sorted hs
    → position x hs ≡ some s
    → IsSuccessor x (λ t. contains t hs) s
position-IsSuccessor x s [] o h = unfold position in cc
position-IsSuccessor x s (g ∷ gs) o h = elim (Option-cases (search x (g ∷ gs))) [
  | inl n ↦ rw (position_wrapped x g s gs n h) (
      wrapped (contains_first g gs) (λ t m. (search-none x t (g ∷ gs) n m, first_least g t gs o m)))
  | inr (a, e) ↦ rw (position_ahead x g s a gs e h) (
      ahead (search-some x a a (g ∷ gs) o e).0 (search-some x a a (g ∷ gs) o e).1
        (λ t m l. (search-some x a t (g ∷ gs) o e).2 m l))
]

pub successor_unique :
    (x s s' : ℕ) (mem mem' : ℕ → Bool)
    → ((t : ℕ) → mem t ≡ true → mem' t ≡ true)
    → IsSuccessor x mem s
    → IsSuccessor x mem' s'
    → mem s' ≡ true
    → s' ≡ s
successor_unique x s s' mem mem' sub (ahead m l f) (ahead m' l' f') h =
    omega (arith, f s' h l', f' s (sub s m) l)
successor_unique x s s' mem mem' sub (ahead m l f) (wrapped m' f') h =
    absurd (omega (arith, f' s (sub s m)))
successor_unique x s s' mem mem' sub (wrapped m f) (ahead m' l' f') h =
    absurd (omega (arith, f s' h))
successor_unique x s s' mem mem' sub (wrapped m f) (wrapped m' f') h =
    omega (arith, f s' h, f' s (sub s m))

pub position-contains :
    (x t : ℕ) (hs : List ℕ) → contains t hs ≡ true → (s : ℕ) × (position x hs ≡ some s)
unfolding position contains
position-contains x t [] h = cc
position-contains x t (g ∷ gs) h = elim (Option-cases (search x (g ∷ gs))) [
  | inl n ↦ (g, ground arith)
  | inr (a, e) ↦ (a, ground arith)
]
