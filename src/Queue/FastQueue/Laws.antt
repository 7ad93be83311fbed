-- ===== src/Queue/FastQueue/Laws.antt =====
-- The counters of the layer in memory, and what a peek does to the order.
use metrics_governor.Prelude.{
  ℕ, ◌≡◌, refl, false, List, [], ◌∷◌, ◌++◌, some, length, length-append, sum_map, sum_map-append,
  arith,
}
use metrics_governor.Queue.FastQueue.{FastQueue, push, pop, receive, peek, rotate}

module _ {D : Type 0} (len : D → ℕ) where
  -- All three counters are exact.
  pub record IsValid (fq : FastQueue D) : Type 0 where
    pub counted : fq.active_count ≡ length fq.ch
    pub measured : fq.total_bytes ≡ sum_map len fq.ch
    pub inmemory : fq.inmemory_bytes ≡ sum_map len fq.ch

  pub push-IsValid : (fq : FastQueue D) (d : D) → IsValid fq → IsValid (push len fq d).0
  unfolding push
  push-IsValid fq d v =
      ground (arith, length-append fq.ch (d ∷ []), sum_map-append len fq.ch (d ∷ []))

  pub pop-IsValid : (fq : FastQueue D) → IsValid fq → IsValid (pop len fq).0
  unfolding pop receive
  pop-IsValid fq v = ground arith

  rotate-IsValid :
      (fq : FastQueue D) (xs : List D) → xs ≡ fq.ch → IsValid fq → IsValid (rotate fq xs).0
  unfolding rotate
  rotate-IsValid fq [] c v = v
  rotate-IsValid fq (b ∷ rest) c v =
      ground (arith, length-append rest (b ∷ []), sum_map-append len rest (b ∷ []))

  peek-IsValid : (fq : FastQueue D) → IsValid fq → IsValid (peek fq).0
  unfolding peek
  peek-IsValid fq v = ground (arith, rotate-IsValid fq fq.ch refl v)

  pub peek-rotates :
      (fq : FastQueue D) (x : D) (rest : List D)
      → fq.closed ≡ false
      → fq.ch ≡ x ∷ rest
      → ((peek fq).1 ≡ some x) × ((peek fq).0.ch ≡ rest ++ x ∷ [])
  unfolding peek rotate
  peek-rotates fq x rest o c = ground arith

  -- A peek at a queue of two or more blocks returns the oldest, and the pop that follows removes
  -- another one: the second oldest.
  peek_then_pop :
      (fq : FastQueue D) (x y : D) (rest : List D)
      → fq.closed ≡ false
      → fq.ch ≡ x ∷ y ∷ rest
      → (peek fq).1 ≡ some x
        × (pop len (peek fq).0).1 ≡ some y
        × (pop len (peek fq).0).0.ch ≡ rest ++ x ∷ []
  unfolding peek rotate pop receive
  peek_then_pop fq x y rest o c = ground arith
