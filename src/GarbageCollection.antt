-- ===== src/GarbageCollection.antt =====
-- include/garbage_collection.h: what a session has retired waits, oldest first, until the epoch
-- for the collection has passed it.
pub mod Collected
use yakushima.Common.{
  ℕ, zero, suc, ◌+◌, ◌≡◌, Bool, true, false, List, [], ◌∷◌, ◌++◌, Option, none, some, ◌>>=◌, ◌==◌,
  leb, if◌then◌else◌,
}

-- `concurrent_queue` of the third-party library, as far as one consumer uses it: a queue stands
-- for a list, and is first in, first out.
pub record ConcurrentQueue (A : Type 0) : Type 1 where
  pub Queue : Type 0
  pub contents : Queue → List A
  pub empty : Queue → Bool
  pub try_pop : Queue → Option (A × Queue)
  pub push : Queue → A → Queue
  pub empty-contents : (q : Queue) → contents q ≡ [] → empty q ≡ true
  pub try_pop-contents :
      (q : Queue) (a : A) (later : List A)
      → contents q ≡ a ∷ later
      → (empty q ≡ false) × (q' : Queue) × (try_pop q ≡ some (a, q')) × (contents q' ≡ later)
  pub push-contents : (q : Queue) (a : A) → contents (push q a) ≡ contents q ++ a ∷ []

-- A retired object: epoch, address, and what `operator delete` asks for besides (size and alignment
-- of a value, nothing for a node).
abbrev pub Elem : Type 0 → Type 0
Elem A = ℕ × ℕ × A

-- One container with its cache; a cache with the address null holds nothing.
pub record Container {A : Type 0} (Q : ConcurrentQueue (Elem A)) : Type 0 where
  pub cache : Elem A
  pub queue : Q.Queue

module _ {A : Type 0} (Q : ConcurrentQueue (Elem A)) where
  -- What an operation frees, in this order, and what it leaves.
  abbrev pub Freed : Type 0
  Freed = List (Elem A) × Container Q

  abbrev pub also_freed : Elem A → Option Freed → Option Freed
  also_freed x none = none
  also_freed x (some (freed, c)) = some (x ∷ freed, c)

  -- `std::get<gc_target_index>(cache) = nullptr`
  abbrev pub no_target : Elem A → Elem A
  no_target x = (x.0, 0, x.2)

  -- The loop of `gc_node` over the container, on fuel. A `try_pop` that fails on a queue that is
  -- not empty is tried for ever.
  unfoldable pub gc_node_loop : ℕ → ℕ → Elem A → Q.Queue → Option Freed
  gc_node_loop zero gc_epoch cache q = none
  gc_node_loop (suc fuel) gc_epoch cache q = elim (Q.empty q) [
    | true ↦ some ([], record { cache = cache; queue = q })
    | false ↦ elim (Q.try_pop q) [
      | none ↦ none
      | some (elem, q') ↦ elim (leb gc_epoch elem.0) [
        | true ↦ some ([], record { cache = elem; queue = q' })
        | false ↦ also_freed elem (gc_node_loop fuel gc_epoch cache q')
      ]
    ]
  ]

  unfoldable pub gc_node : ℕ → ℕ → Container Q → Option Freed
  gc_node fuel gc_epoch c =
      if c.cache.1 == 0
      then gc_node_loop fuel gc_epoch c.cache c.queue
      else if leb gc_epoch c.cache.0
      then some ([], c)
      else also_freed c.cache (gc_node_loop fuel gc_epoch (no_target c.cache) c.queue)

  -- The loop of `gc_value`, which asks again whether the queue is empty after a failed `try_pop`.
  unfoldable pub gc_value_loop : ℕ → ℕ → Elem A → Q.Queue → Option Freed
  gc_value_loop zero gc_epoch cache q = none
  gc_value_loop (suc fuel) gc_epoch cache q = elim (Q.empty q) [
    | true ↦ some ([], record { cache = cache; queue = q })
    | false ↦ elim (Q.try_pop q) [
      | none ↦ gc_value_loop fuel gc_epoch cache q
      | some (elem, q') ↦ elim (leb gc_epoch elem.0) [
        | true ↦ some ([], record { cache = elem; queue = q' })
        | false ↦ also_freed elem (gc_value_loop fuel gc_epoch cache q')
      ]
    ]
  ]

  unfoldable pub gc_value : ℕ → ℕ → Container Q → Option Freed
  gc_value fuel gc_epoch c =
      if c.cache.1 == 0
      then gc_value_loop fuel gc_epoch c.cache c.queue
      else if leb gc_epoch c.cache.0
      then some ([], c)
      else also_freed c.cache (gc_value_loop fuel gc_epoch (no_target c.cache) c.queue)

  -- One container of `fin`: everything is freed.
  unfoldable pub fin_loop : ℕ → Elem A → Q.Queue → Option Freed
  fin_loop zero cache q = none
  fin_loop (suc fuel) cache q = elim (Q.empty q) [
    | true ↦ some ([], record { cache = cache; queue = q })
    | false ↦ elim (Q.try_pop q) [
      | none ↦ none
      | some (elem, q') ↦ also_freed elem (fin_loop fuel cache q')
    ]
  ]

  unfoldable pub fin : ℕ → Container Q → Option Freed
  fin fuel c =
      if c.cache.1 == 0
      then fin_loop fuel c.cache c.queue
      else also_freed c.cache (fin_loop fuel (no_target c.cache) c.queue)

  -- `push_node_container` and `push_value_container`
  unfoldable pub push_container : Container Q → Elem A → Container Q
  push_container c elem = record c { queue = Q.push c.queue elem }
