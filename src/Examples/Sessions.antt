-- ===== src/Examples/Sessions.antt =====
-- A container with retired nodes, and a session that comes and goes.
use yakushima.Common.{
  ◌≡◌, ◌≤◌, inr, refl, true, false, Bool, List, [], ◌∷◌, ◌++◌, Option, some, none, arith, update,
}
use yakushima.GarbageCollection.{ConcurrentQueue, Elem, Container, gc_node, gc_value, fin}
use yakushima.GarbageCollection.Collected.{
  held, Collected, Finished, gc_node-Collected, gc_value-Collected, fin-Finished,
}
use yakushima.Epoch.{init_table, gain_the_right, epoch_inc, max_epoch}
use yakushima.Epoch.Reclaim.{
  gained, loaded, inside, verifying, taking_min, System, start, set_begin_epoch, gain, load_epoch,
  publish, load_current, verify, advance, Steps, done, more, Held, held_here, held_on,
}
use yakushima.Epoch.Safety.{epoch_moves_once}

-- A list as a queue.
abbrev is_empty : {A : Type 0} → List A → Bool
is_empty [] = true
is_empty (x ∷ xs) = false

abbrev pop : {A : Type 0} → List A → Option (A × List A)
pop [] = none
pop (x ∷ xs) = some (x, xs)

empty-pop : {A : Type 0} (q : List A) → q ≡ [] → is_empty q ≡ true
empty-pop q e = rw e refl

pop-front :
    {A : Type 0} (q : List A) (a : A) (later : List A)
    → q ≡ a ∷ later
    → (is_empty q ≡ false) × (q' : List A) × (pop q ≡ some (a, q')) × (q' ≡ later)
pop-front q a later e = rw e (refl, later, refl, refl)

abbrev list_queue : (A : Type 0) → ConcurrentQueue A
list_queue A = record {
  Queue = List A;
  contents = λ q. q;
  empty = is_empty;
  try_pop = pop;
  push = λ q a. q ++ a ∷ [];
  empty-contents = empty-pop;
  try_pop-contents = pop-front;
  push-contents = λ q a. refl;
}

abbrev nodes : ConcurrentQueue (Elem Unit)
nodes = list_queue (Elem Unit)

abbrev container : Container nodes
container = record { cache = (3, 100, tt); queue = (4, 200, tt) ∷ (9, 300, tt) ∷ [] }

gc_node-Collected_example : Collected nodes 5 (held nodes container) (gc_node nodes 3 5 container)
gc_node-Collected_example = gc_node-Collected nodes 3 5 container (refl, (refl, tt)) (omega arith)

gc_value-Collected_example : Collected nodes 5 (held nodes container) (gc_value nodes 3 5 container)
gc_value-Collected_example = gc_value-Collected nodes 3 5 container (refl, (refl, tt)) (omega arith)

fin-Finished_example : Finished nodes (held nodes container) (fin nodes 3 container)
fin-Finished_example = fin-Finished nodes 3 container (omega arith)

-- The one session of a system comes, and the epoch thread goes round once.
abbrev taken : System
taken = record start {
  table = update init_table 0 (record { begin_epoch = 0; running = true });
  caller = update start.caller 0 gained;
}

abbrev read : System
read = record taken { caller = update taken.caller 0 (loaded 1) }

abbrev entered : System
entered = record read {
  table = set_begin_epoch read.table 0 1;
  caller = update read.caller 0 inside;
}

entered-Steps : Steps 1 start entered
unfolding gain_the_right
entered-Steps =
    more start read entered
      (more start taken read
        (more start start taken (done start)
          (gain start 0 (record { begin_epoch = 0; running = true }) (omega arith) refl))
        (load_epoch taken 0 (omega arith) refl))
      (publish read 0 1 (omega arith) refl)

abbrev looking : System
looking = record entered { thread = verifying 1 0 }

abbrev looked : System
looked = record entered { thread = verifying 1 1 }

abbrev moved : System
moved = record entered { epoch = epoch_inc 1; thread = taking_min max_epoch 0 }

moved-Held : Held 1 0 entered moved
moved-Held =
    held_on entered looked moved
      (held_on entered looking looked
        (held_on entered entered looking (held_here entered refl) (load_current entered refl) refl)
        (verify looking 1 0 refl (omega arith) (inr refl)) refl)
      (advance looked 1 refl (omega arith)) refl

epoch_moves_once_example :
    ((moved.table 0).begin_epoch ≡ 1) × (moved.epoch ≤ 2) × (moved.gc_epoch ≤ 1)
epoch_moves_once_example = epoch_moves_once entered-Steps moved-Held (omega arith)
