-- ===== src/Examples/Changes.antt =====
-- Border nodes that lose an entry or are split, and an interior node that goes.
use yakushima.Common.{
  ◌+◌, ◌≡◌, ◌≢◌, refl, List, [], ◌∷◌, ◌++◌, Option, some, none, ◌≤◌, arith, update, ℕ, true, false,
  length, inl,
}
use Prim.Native.Nat.{Ordering}
use yakushima.Scheme.{Status}
use yakushima.Key.{Bytes, KeyTuple, prepare, memcmp, load, key_compare}
use yakushima.BaseNode.{init_base, Ptr}
use yakushima.Version.{set_inserting_deleting, set_locked}
use yakushima.Version
use yakushima.Permutation.Refinement.{encode}
use yakushima.Value.{create_inline, is_value_ptr, remove_ptr_flag}
use yakushima.LinkOrValue.{get_value, get_next_layer}
use yakushima.InteriorNode.{InteriorNode, init_interior, get_child_at}
use yakushima.InteriorNode.Routing.{tuple_at}
use yakushima.BorderNode.{BorderNode, init_border}
use yakushima.BorderNode.Change.{Store, RetiredValue, delete_of}
use yakushima.BorderNode.Entries.{Holds, Sorted}
use yakushima.BorderNode.Search.{lookup, count_smaller}
use yakushima.BorderNode.Insertion.{prepare-WellFormed}
use yakushima.BorderNode.Deletion.{Deleted, deleted_version, delete_of-Deleted}
use yakushima.BorderNode.Split.{split_and_insert}
use yakushima.BorderNode.Divided.{stored}
use yakushima.BorderNode.SplitPlaced.{Served, split_and_insert-Served}
use yakushima.Tree.{World, border_node, interior_node}
use yakushima.Tree.Descent.{still, Descent, arrive}
use yakushima.Tree.Get.{Found, get}
use yakushima.Tree.Grow.{grow_root}
use yakushima.Tree.Rooted.{Rooted, grow_root-Rooted}
use yakushima.Tree.Layers.{Layer, answer}
use yakushima.Tree.Put.{changes, put}
use yakushima.Tree.Raised.{pull_up-Descent}
use yakushima.Tree.Remove.{remove, removes}
use yakushima.Tree.RemoveGet.{get-remove}
use yakushima.Tree.Lost.{PutsInline, changed_at, put-lost}
use yakushima.Tree.Put.{put_from, put_fetch_lv}
use yakushima.Tree.LastGet.{LastKey, Emptied, get-remove_last}
use yakushima.Tree.SplitTree.{SplitTree}
use yakushima.Tree.SplitGet.{FullRoot, NewNodes, get-put_full}
use yakushima.Tree.Unlink.{pull_up}
use yakushima.Examples.Trees.{no_values, root_version, root-IsLive, putting_40, leaf-Holds, leaf}

-- The keys "1", "2", ... in the slots 0, 1, ..., each with the value 30.
abbrev numbered : List ℕ → BorderNode
numbered ps = record init_border {
  base = record init_base {
    slices = λ i. (prepare ((i + 1) ∷ [])).slice;
    lengths = λ i. (prepare ((i + 1) ∷ [])).size;
    version = root_version;
  };
  permutation = encode ps;
  lv = λ i. 30;
}

abbrev two_slots : List ℕ
two_slots = 0 ∷ 1 ∷ []

two-Holds : Holds (numbered two_slots) two_slots
two-Holds = record {
  order = record {
    few = omega arith;
    small = (omega arith, (omega arith, tt));
    distinct = (refl, (refl, tt));
  };
  word = refl;
}

two-Sorted : Sorted (tuple_at (numbered two_slots).base) two_slots
unfolding key_compare memcmp load
two-Sorted = (prepare-WellFormed (1 ∷ []), (refl, tt), (prepare-WellFormed (2 ∷ []), tt, tt))

abbrev one_key : Bytes
one_key = 1 ∷ []

delete_of-Deleted_example :
    Deleted
      (numbered two_slots)
      two_slots
      (prepare one_key)
      0
      (deleted_version 2 true root_version)
      (delete_of (numbered two_slots) no_values 1 (prepare one_key) true true)
unfolding lookup key_compare memcmp load is_value_ptr get_value
delete_of-Deleted_example =
    delete_of-Deleted (prepare one_key) no_values 1 true true two-Holds two-Sorted
      (prepare-WellFormed one_key) refl (inl refl)

abbrev two_world : World
two_world = record {
  root = 8;
  nodes = update (λ _. none) 8 (some (border_node (numbered two_slots)));
  memory = no_values;
  fresh = [];
}

two_layer : Layer two_world 8 one_key 0
two_layer = record {
  turns = 0;
  few = omega arith;
  border = 8;
  version = root_version;
  path = arrive 8 (numbered two_slots) root_version refl refl root-IsLive refl;
  is_root = refl;
  node = numbered two_slots;
  slots = two_slots;
  here = refl;
  holds = two-Holds;
  sorted = two-Sorted;
}

get-remove_example :
    (w' : World) × (retired : Option RetiredValue) × (t : ℕ) × (t' : ℕ) × (remove 4 1 3
        (still two_world)
        one_key
        0
      ≡ some (Status.ok, removes w' retired [], t))
    × (get 4 3 (still w') one_key 0
        ≡ some (record { status = Status.warn_not_exist; out = none }, t'))
unfolding two_layer lookup key_compare memcmp load is_value_ptr get_value
get-remove_example =
    get-remove two_layer {q = 0} 1 4 0 refl (omega arith) (omega arith) (inl refl) refl refl
      (omega arith) (omega arith)

putting_40-PutsInline : PutsInline putting_40 40
unfolding create_inline
putting_40-PutsInline = record { inline = refl; all = refl; plain = refl; made = λ m. refl }

put-lost_example :
    (w' : World) × (w'' : World) × (retired : Option RetiredValue) × (t1 : ℕ) × (t2 : ℕ) × (remove 4
        1 3
        (still two_world)
        one_key
        0
      ≡ some (Status.ok, removes w' retired [], t1))
    × (put_from 4 putting_40 3
          (changed_at 6 two_world w')
          one_key
          (put_fetch_lv 8 root_version one_key)
          2
        ≡ some (Status.ok, changes w'' none none, 7))
    × (get 4 3 (still w'') one_key 0
        ≡ some (record { status = Status.warn_not_exist; out = none }, t2))
unfolding two_layer lookup key_compare memcmp load is_value_ptr get_value remove_ptr_flag
put-lost_example =
    put-lost putting_40 two_layer {q = 0} 1 4 0 2 putting_40-PutsInline refl (omega arith)
      (omega arith) (record { no_ptr = refl; no_flag = refl }) refl refl (omega arith) (omega arith)

-- A root with one key.
abbrev last_world : World
last_world = record two_world {
  nodes = update (λ _. none) 8 (some (border_node (leaf root_version (prepare one_key) 30 0)));
}

last_layer : Layer last_world 8 one_key 0
last_layer = record {
  turns = 0;
  few = omega arith;
  border = 8;
  version = root_version;
  path =
      arrive 8 (leaf root_version (prepare one_key) 30 0) root_version refl refl root-IsLive refl;
  is_root = refl;
  node = leaf root_version (prepare one_key) 30 0;
  slots = 0 ∷ [];
  here = refl;
  holds = leaf-Holds root_version (prepare one_key) 30 0;
  sorted = (prepare-WellFormed one_key, tt, tt);
}

last_layer-LastKey : LastKey last_world 8 (leaf root_version (prepare one_key) 30 0)
last_layer-LastKey = record {
  is_tree_root = refl;
  no_prev = refl;
  no_next = refl;
  no_parent = refl;
  marked = refl;
}

get-remove_last_example :
    (w' : World) × (retired : Option RetiredValue) × (t : ℕ) × (remove 4 1 3
        (still last_world)
        one_key
        0
      ≡ some (Status.ok, removes w' retired [], t))
    × Emptied w'
    × (w'.root ≡ last_world.root)
    × ((p : Ptr) → p ≢ last_world.root → w'.nodes p ≡ last_world.nodes p)
    × ((k : Bytes)
        → (t' : ℕ) × (get 4 3 (still w') k 0
            ≡ some (record { status = Status.warn_not_exist; out = none }, t')))
unfolding last_layer lookup key_compare memcmp load is_value_ptr get_value
get-remove_last_example =
    get-remove_last last_layer {q = 0} 1 4 0 refl (omega arith) refl (inl refl) last_layer-LastKey
      refl (omega arith) (omega arith)

-- A full node.
abbrev first_slots : List ℕ
first_slots = 0 ∷ 1 ∷ 2 ∷ 3 ∷ 4 ∷ 5 ∷ 6 ∷ 7 ∷ []

abbrev last_slots : List ℕ
last_slots = 9 ∷ 10 ∷ 11 ∷ 12 ∷ 13 ∷ 14 ∷ []

abbrev all_slots : List ℕ
all_slots = first_slots ++ 8 ∷ last_slots

abbrev full : BorderNode
full = numbered all_slots

full-Holds : Holds full all_slots
full-Holds = record {
  order = record {
    few = omega arith;
    small = (
      omega arith,
      (
        omega arith,
        (
          omega arith,
          (
            omega arith,
            (
              omega arith,
              (
                omega arith,
                (
                  omega arith,
                  (
                    omega arith,
                    (
                      omega arith,
                      (
                        omega arith,
                        (
                          omega arith,
                          (omega arith, (omega arith, (omega arith, (omega arith, tt)))),
                        ),
                      ),
                    ),
                  ),
                ),
              ),
            ),
          ),
        ),
      ),
    );
    distinct = (
      refl,
      (
        refl,
        (
          refl,
          (
            refl,
            (
              refl,
              (refl, (refl, (refl, (refl, (refl, (refl, (refl, (refl, (refl, (refl, tt)))))))))),
            ),
          ),
        ),
      ),
    );
  };
  word = refl;
}

full-Sorted : Sorted (tuple_at full.base) all_slots
unfolding key_compare memcmp load
full-Sorted = (
  prepare-WellFormed (1 ∷ []),
  (
    refl,
    (
      refl,
      (
        refl,
        (refl, (refl, (refl, (refl, (refl, (refl, (refl, (refl, (refl, (refl, (refl, tt))))))))))),
      ),
    ),
  ),
  (
    prepare-WellFormed (2 ∷ []),
    (
      refl,
      (
        refl,
        (refl, (refl, (refl, (refl, (refl, (refl, (refl, (refl, (refl, (refl, (refl, tt))))))))))),
      ),
    ),
    (
      prepare-WellFormed (3 ∷ []),
      (
        refl,
        (refl, (refl, (refl, (refl, (refl, (refl, (refl, (refl, (refl, (refl, (refl, tt))))))))))),
      ),
      (
        prepare-WellFormed (4 ∷ []),
        (refl, (refl, (refl, (refl, (refl, (refl, (refl, (refl, (refl, (refl, (refl, tt))))))))))),
        (
          prepare-WellFormed (5 ∷ []),
          (refl, (refl, (refl, (refl, (refl, (refl, (refl, (refl, (refl, (refl, tt)))))))))),
          (
            prepare-WellFormed (6 ∷ []),
            (refl, (refl, (refl, (refl, (refl, (refl, (refl, (refl, (refl, tt))))))))),
            (
              prepare-WellFormed (7 ∷ []),
              (refl, (refl, (refl, (refl, (refl, (refl, (refl, (refl, tt)))))))),
              (
                prepare-WellFormed (8 ∷ []),
                (refl, (refl, (refl, (refl, (refl, (refl, (refl, tt))))))),
                (
                  prepare-WellFormed (9 ∷ []),
                  (refl, (refl, (refl, (refl, (refl, (refl, tt)))))),
                  (
                    prepare-WellFormed (10 ∷ []),
                    (refl, (refl, (refl, (refl, (refl, tt))))),
                    (
                      prepare-WellFormed (11 ∷ []),
                      (refl, (refl, (refl, (refl, tt)))),
                      (
                        prepare-WellFormed (12 ∷ []),
                        (refl, (refl, (refl, tt))),
                        (
                          prepare-WellFormed (13 ∷ []),
                          (refl, (refl, tt)),
                          (
                            prepare-WellFormed (14 ∷ []),
                            (refl, tt),
                            (prepare-WellFormed (15 ∷ []), tt, tt),
                          ),
                        ),
                      ),
                    ),
                  ),
                ),
              ),
            ),
          ),
        ),
      ),
    ),
  ),
)

abbrev twenty : Bytes
twenty = 20 ∷ []

abbrev nine_key : Bytes
nine_key = 9 ∷ []

abbrev some_store : Store
some_store = record { nodes = λ _. none; memory = no_values; fresh = [] }

split_and_insert-Served_example : Served full all_slots nine_key twenty 40 some_store (
    split_and_insert 2 some_store 8 16 full twenty 40 false
      (count_smaller (tuple_at full.base) (prepare twenty) all_slots))
unfolding lookup key_compare memcmp load
split_and_insert-Served_example =
    split_and_insert-Served 1 some_store 8 16 full first_slots 8 last_slots nine_key twenty 40
      full-Holds full-Sorted refl refl refl (omega arith) refl

abbrev full_world : World
full_world = record {
  root = 8;
  nodes = update (λ _. none) 8 (some (border_node full));
  memory = no_values;
  fresh = 16 ∷ 24 ∷ [];
}

full-FullRoot : FullRoot full first_slots 8 last_slots nine_key
unfolding get_next_layer
full-FullRoot = record {
  holds = full-Holds;
  sorted = full-Sorted;
  eight = refl;
  six = refl;
  front = refl;
  no_layers = λ q. refl;
  top = refl;
  last = refl;
  leaf = refl;
  there = refl;
}

full-NewNodes : NewNodes full_world 8 16 24 []
full-NewNodes = record {
  fresh = refl;
  apart = omega arith;
  new_b = omega arith;
  new_p = omega arith;
  some_b = refl;
  some_p = refl;
}

full_layer : Layer full_world 8 twenty 0
full_layer = record {
  turns = 0;
  few = omega arith;
  border = 8;
  version = root_version;
  path = arrive 8 full root_version refl refl root-IsLive refl;
  is_root = refl;
  node = full;
  slots = all_slots;
  here = refl;
  holds = full-Holds;
  sorted = full-Sorted;
}

get-put_full_example :
    (w' : World) × (t : ℕ) × (put 5 putting_40 4 (still full_world) twenty 0
      ≡ some (Status.ok, changes w' none none, t))
    × SplitTree full_world w' 8 16 24 nine_key
    × ((found : Found)
        → answer no_values (some 40) ≡ some found
        → (t' : ℕ) × (get 6 4 (still w') twenty 0 ≡ some (found, t')))
    × ((k : Bytes) (found : Found)
        → length k ≤ 8
        → key_compare (prepare k) (prepare twenty) ≢ Ordering.eq
        → answer no_values (stored full (prepare k) all_slots) ≡ some found
        → (t' : ℕ) × (get 6 4 (still w') k 0 ≡ some (found, t')))
unfolding full_layer lookup key_compare memcmp load create_inline
get-put_full_example =
    get-put_full putting_40 full_layer 5 1 full-FullRoot full-NewNodes refl (omega arith) refl refl
      refl refl (omega arith) (omega arith) (omega arith)

-- Two nodes that a split has left, and a third address.
abbrev split_world : World
split_world = record {
  root = 8;
  nodes =
      update (update (λ _. none) 8 (some (border_node (numbered two_slots)))) 16
        (some (border_node (leaf root_version (prepare nine_key) 30 0)));
  memory = no_values;
  fresh = 24 ∷ [];
}

grow_root-Rooted_example :
    Rooted split_world 8 16 24
      (numbered two_slots)
      (leaf root_version (prepare nine_key) 30 0)
      (prepare nine_key)
      (grow_root split_world 8 16 (prepare nine_key))
grow_root-Rooted_example =
    grow_root-Rooted split_world 8 16 24 [] (numbered two_slots)
      (leaf root_version (prepare nine_key) 30 0) (prepare nine_key) refl refl refl (omega arith)
      (omega arith) (omega arith) refl refl refl refl refl refl

-- The node above them, which loses the left one.
abbrev going : InteriorNode
going = record init_interior {
  base = record init_interior.base {
    version = set_inserting_deleting true (set_locked true init_interior.base.version);
  };
  n_keys = 1;
  children = update (update init_interior.children 0 8) 1 16;
}

abbrev going_world : World
going_world = record split_world {
  root = 32;
  nodes = update split_world.nodes 32 (some (interior_node going));
}

pull_up-Descent_example :
    (w' : World) × (pull_up going_world 5 32 going 0 ≡ some (w', (5, 32) ∷ []))
    × (w'.root ≡ 16)
    × ((q : Ptr) → q ≢ 32 → q ≢ 16 → w'.nodes q ≡ going_world.nodes q)
    × ((key : KeyTuple) (d : ℕ) (b : Ptr) (v : Version.VersionBody)
        → Descent going_world key d 16 v b
        → (v' : Version.VersionBody) × Descent w' key d 16 v' b × (v'.root ≡ true))
unfolding get_child_at
pull_up-Descent_example =
    pull_up-Descent going_world 5 32 going 0 16
      (border_node (leaf root_version (prepare nine_key) 30 0)) refl refl refl refl refl
      (omega arith)
