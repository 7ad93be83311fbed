-- ===== src/Limits/RuleCache/Order.antt =====
-- The list of cache elements: a `container/list` list whose elements have an identity.
use metrics_governor.Prelude.{
  ℕ, zero, suc, ◌-◌, ◌<◌, ◌≡◌, refl, false, List, [], ◌∷◌, Option, none, some, String, length, ◌==◌,
  if◌then◌else◌, arith, map, ap, All, take,
}
use metrics_governor.Prelude.Eq.{string_eq}

pub record Element (R : Type 0) : Type 0 where
  pub id : ℕ
  pub key : String
  pub rule : Option R

module _ {R : Type 0} where
  unfoldable pub find_id : ℕ → List (Element R) → Option (Element R)
  find_id i [] = none
  find_id i (x ∷ xs) = if x.id == i then some x else find_id i xs

  unfoldable pub remove_id : ℕ → List (Element R) → List (Element R)
  remove_id i [] = []
  remove_id i (x ∷ xs) = if x.id == i then xs else x ∷ remove_id i xs

  -- `Back`
  unfoldable pub back : List (Element R) → Option (Element R)
  back [] = none
  back (x ∷ []) = some x
  back (x ∷ y ∷ xs) = back (y ∷ xs)

  -- The list without its last element.
  unfoldable pub remove_back : List (Element R) → List (Element R)
  remove_back [] = []
  remove_back (x ∷ []) = []
  remove_back (x ∷ y ∷ xs) = x ∷ remove_back (y ∷ xs)

  unfoldable pub find_key : String → List (Element R) → Option (Element R)
  find_key k [] = none
  find_key k (x ∷ xs) = if string_eq.beq x.key k then some x else find_key k xs

  -- No two elements share an identity or a key.
  abbrev pub Unique : List (Element R) → Type 0
  Unique [] = Unit
  Unique (x ∷ xs) = (find_id x.id xs ≡ none) × (find_key x.key xs ≡ none) × Unique xs

  pub find_key_lem :
      (k : String) (xs : List (Element R)) (e : Element R) → find_key k xs ≡ some e → e.key ≡ k
  unfolding find_key
  find_key_lem k [] e h = cc
  find_key_lem k (x ∷ xs) e h = ground (arith, string_eq.beq_iff x.key k, find_key_lem k xs e)

  pub find_id_of_key :
      (k : String) (xs : List (Element R)) (e : Element R)
      → Unique xs
      → find_key k xs ≡ some e
      → find_id e.id xs ≡ some e
  unfolding find_key find_id
  find_id_of_key k [] e u h = cc
  find_id_of_key k (x ∷ xs) e u h = ground (arith, find_id_of_key k xs e)

  pub find_id-remove_id :
      (i j : ℕ) (xs : List (Element R)) → find_id j xs ≡ none → find_id j (remove_id i xs) ≡ none
  unfolding find_id remove_id
  find_id-remove_id i j [] h = refl
  find_id-remove_id i j (x ∷ xs) h = ground (arith, find_id-remove_id i j xs)

  pub find_id-remove_id_self :
      (i : ℕ) (xs : List (Element R)) → Unique xs → find_id i (remove_id i xs) ≡ none
  unfolding find_id remove_id
  find_id-remove_id_self i [] u = refl
  find_id-remove_id_self i (x ∷ xs) u = ground (arith, find_id-remove_id_self i xs u.2)

  pub find_key-remove_id :
      (k : String) (i : ℕ) (xs : List (Element R))
      → find_key k xs ≡ none
      → find_key k (remove_id i xs) ≡ none
  unfolding find_key remove_id
  find_key-remove_id k i [] h = refl
  find_key-remove_id k i (x ∷ xs) h = ground (arith, find_key-remove_id k i xs)

  pub remove_id-Unique : (i : ℕ) (xs : List (Element R)) → Unique xs → Unique (remove_id i xs)
  unfolding remove_id
  remove_id-Unique i [] u = tt
  remove_id-Unique i (x ∷ xs) u =
      ground (
        arith,
        remove_id-Unique i xs u.2,
        find_id-remove_id i x.id xs,
        find_key-remove_id x.key i xs,
      )

  -- Moving an element to the front changes no lookup.
  pub find_key-front :
      (k j : String) (xs : List (Element R)) (e : Element R)
      → Unique xs
      → find_key k xs ≡ some e
      → find_key j (remove_id e.id xs) ≡ (if string_eq.beq k j then none else find_key j xs)
  unfolding find_key remove_id find_id
  find_key-front k j [] e u h = cc
  find_key-front k j (x ∷ xs) e u h = ground (
    arith,
    find_key-front k j xs e,
    string_eq.beq_iff x.key k,
    string_eq.beq_iff x.key j,
    string_eq.beq_iff k j,
    find_id_of_key k xs e,
    find_key_lem k xs e,
  )

  -- What a cache promises: names with their rules, most recently used first.
  abbrev pub view : List (Element R) → List (String × Option R)
  view = map λ e. (e.key, e.rule)

  unfoldable pub remove : String → List (String × Option R) → List (String × Option R)
  remove k [] = []
  remove k ((j, r) ∷ l) = if string_eq.beq j k then l else (j, r) ∷ remove k l

  pub view-remove_id :
      (k : String) (xs : List (Element R)) (e : Element R)
      → Unique xs
      → find_key k xs ≡ some e
      → view (remove_id e.id xs) ≡ remove k (view xs)
  unfolding find_key remove_id remove find_id
  view-remove_id k [] e u h = cc
  view-remove_id k (x ∷ xs) e u h = ground (arith, view-remove_id k xs e, find_id_of_key k xs e)

  pub length-remove_id :
      (i : ℕ) (xs : List (Element R)) (e : Element R)
      → find_id i xs ≡ some e
      → suc (length (remove_id i xs)) ≡ length xs
  unfolding remove_id find_id
  length-remove_id i [] e h = cc
  length-remove_id i (x ∷ xs) e h = ground (arith, length-remove_id i xs e)

  pub view-remove_back :
      (n : ℕ) (xs : List (Element R)) → length xs ≡ suc n → view (remove_back xs) ≡ take n (view xs)
  unfolding remove_back
  view-remove_back n [] h = absurd (omega arith)
  view-remove_back zero (x ∷ []) h = refl
  view-remove_back (suc n) (x ∷ []) h = absurd (omega arith)
  view-remove_back zero (x ∷ y ∷ xs) h = absurd (omega arith)
  view-remove_back (suc n) (x ∷ y ∷ xs) h =
      ap (λ l. (x.key, x.rule) ∷ l) (view-remove_back n (y ∷ xs) (omega arith))

  pub find_key-back :
      (k : String) (xs : List (Element R)) (e : Element R)
      → back xs ≡ some e
      → find_key k xs ≡ none
      → string_eq.beq e.key k ≡ false
  unfolding find_key back
  find_key-back k [] e h n = cc
  find_key-back k (x ∷ []) e h n = ground arith
  find_key-back k (x ∷ y ∷ xs) e h n = ground (arith, find_key-back k (y ∷ xs) e)

  pub find_key-remove_back :
      (k : String) (xs : List (Element R)) (e : Element R)
      → Unique xs
      → back xs ≡ some e
      → find_key k (remove_back xs) ≡ (if string_eq.beq e.key k then none else find_key k xs)
  unfolding find_key remove_back back
  find_key-remove_back k [] e u h = cc
  find_key-remove_back k (x ∷ []) e u h = ground arith
  find_key-remove_back k (x ∷ y ∷ xs) e u h = ground (
    arith,
    find_key-remove_back k (y ∷ xs) e,
    find_key-back x.key (y ∷ xs) e,
    string_eq.beq_iff x.key k,
    string_eq.beq_iff e.key k,
    string_eq.beq_iff e.key x.key,
  )

  find_id-remove_back :
      (i : ℕ) (xs : List (Element R)) → find_id i xs ≡ none → find_id i (remove_back xs) ≡ none
  unfolding find_id remove_back
  find_id-remove_back i [] h = refl
  find_id-remove_back i (x ∷ []) h = refl
  find_id-remove_back i (x ∷ y ∷ xs) h = ground (arith, find_id-remove_back i (y ∷ xs))

  pub find_key-remove_back-none :
      (k : String) (xs : List (Element R))
      → find_key k xs ≡ none
      → find_key k (remove_back xs) ≡ none
  unfolding find_key remove_back
  find_key-remove_back-none k [] h = refl
  find_key-remove_back-none k (x ∷ []) h = refl
  find_key-remove_back-none k (x ∷ y ∷ xs) h = ground (arith, find_key-remove_back-none k (y ∷ xs))

  pub remove_back-Unique : (xs : List (Element R)) → Unique xs → Unique (remove_back xs)
  unfolding remove_back
  remove_back-Unique [] u = tt
  remove_back-Unique (x ∷ []) u = tt
  remove_back-Unique (x ∷ y ∷ xs) u = (
    find_id-remove_back x.id (y ∷ xs) u.0,
    find_key-remove_back-none x.key (y ∷ xs) u.1,
    remove_back-Unique (y ∷ xs) u.2,
  )

  pub length-remove_back : (xs : List (Element R)) → length (remove_back xs) ≡ length xs - 1
  unfolding remove_back
  length-remove_back [] = omega arith
  length-remove_back (x ∷ []) = omega arith
  length-remove_back (x ∷ y ∷ xs) = omega (arith, length-remove_back (y ∷ xs))

  pub back-some :
      (x : Element R) (xs : List (Element R)) → (e : Element R) × (back (x ∷ xs) ≡ some e)
  unfolding back
  back-some x [] = (x, refl)
  back-some x (y ∷ xs) = back-some y xs

  pub back-find_key :
      (xs : List (Element R)) (e : Element R)
      → Unique xs
      → back xs ≡ some e
      → find_key e.key xs ≡ some e
  unfolding back find_key
  back-find_key [] e u h = cc
  back-find_key (x ∷ []) e u h = ground (arith, string_eq.beq_iff x.key e.key)
  back-find_key (x ∷ y ∷ xs) e u h = ground (
    arith,
    back-find_key (y ∷ xs) e,
    find_key-back x.key (y ∷ xs) e,
    string_eq.beq_iff x.key e.key,
    string_eq.beq_iff e.key x.key,
  )

  -- Every identity is one that the allocator has given out.
  abbrev pub Below : ℕ → List (Element R) → Type 0
  Below n = All λ x. x.id < n

  pub find_id-Below : (n : ℕ) (xs : List (Element R)) → Below n xs → find_id n xs ≡ none
  unfolding find_id
  find_id-Below n [] b = refl
  find_id-Below n (x ∷ xs) b = ground (arith, find_id-Below n xs)

  pub Below_suc : (n : ℕ) (xs : List (Element R)) → Below n xs → Below (suc n) xs
  Below_suc n [] b = tt
  Below_suc n (x ∷ xs) b = (omega arith, Below_suc n xs b.1)

  pub remove_id-Below : (n i : ℕ) (xs : List (Element R)) → Below n xs → Below n (remove_id i xs)
  unfolding remove_id
  remove_id-Below n i [] b = tt
  remove_id-Below n i (x ∷ xs) b = ground (arith, remove_id-Below n i xs b.1)

  pub remove_back-Below : (n : ℕ) (xs : List (Element R)) → Below n xs → Below n (remove_back xs)
  unfolding remove_back
  remove_back-Below n [] b = tt
  remove_back-Below n (x ∷ []) b = tt
  remove_back-Below n (x ∷ y ∷ xs) b = (b.0, remove_back-Below n (y ∷ xs) b.1)

  pub find_id-Below_some :
      (n i : ℕ) (xs : List (Element R)) (e : Element R)
      → Below n xs
      → find_id i xs ≡ some e
      → e.id < n
  unfolding find_id
  find_id-Below_some n i [] e b h = cc
  find_id-Below_some n i (x ∷ xs) e b h = ground (arith, find_id-Below_some n i xs e b.1)
