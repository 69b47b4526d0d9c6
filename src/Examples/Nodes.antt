-- ===== src/Examples/Nodes.antt =====
-- A border node with two entries and an interior node with two keys.
use yakushima.Common.{◌+◌, ◌≡◌, refl, [], ◌∷◌, some, arith, update}
use yakushima.Key.{prepare, key_slice, memcmp, load, key_compare}
use yakushima.BaseNode.{BaseNode, init_base}
use yakushima.Permutation.Refinement.{encode}
use yakushima.InteriorNode.{InteriorNode, init_interior, find_index, insert}
use yakushima.InteriorNode.Routing.{Routed, find_index-Routed, tuple_at}
use yakushima.InteriorNode.Insert.{Inserted, insert-Inserted}
use yakushima.InteriorNode.Split.{halve}
use yakushima.InteriorNode.Halves.{Halved, halve-Halved}
use yakushima.BorderNode.{
  BorderNode, init_border, search, get_lv_of_without_lock, compute_rank_if_insert,
}
use yakushima.BorderNode.Entries.{Holds, Sorted}
use yakushima.BorderNode.Change.{Store, insert_lv_at}
use yakushima.BorderNode.Insertion.{Placed, insert_lv_at-Placed, prepare-WellFormed}
use yakushima.Permutation.{get_cnk, get_empty_slot, get_index_of_rank, mark_slots, first_clear}
use yakushima.LinkOrValue.{drop_value, get_value}
use yakushima.BorderNode.{rank_from, examine}
use yakushima.BaseNode.{get_key_slice_at, get_key_length_at}
use yakushima.Common.{shr, none, false}
use yakushima.BorderNode.Search.{
  lookup, count_smaller, search-lookup, compute_rank_if_insert-count_smaller,
  get_lv_of_without_lock-search,
}

-- The keys "3" in slot 1 and "5" in slot 0.
abbrev two_keys : BaseNode
two_keys = record init_base {
  slices = update (update init_base.slices 0 (key_slice (5 ∷ []))) 1 (key_slice (3 ∷ []));
  lengths = update (update init_base.lengths 0 1) 1 1;
}

abbrev border : BorderNode
border = record init_border {
  base = two_keys;
  permutation = encode (1 ∷ 0 ∷ []);
  lv = update (update init_border.lv 0 50) 1 30;
}

border-Holds : Holds border (1 ∷ 0 ∷ [])
border-Holds = record {
  order = record {
    few = omega arith;
    small = (omega arith, (omega arith, tt));
    distinct = (refl, (refl, tt));
  };
  word = refl;
}

border-Sorted : Sorted (tuple_at two_keys) (1 ∷ 0 ∷ [])
unfolding load key_compare memcmp
border-Sorted = (prepare-WellFormed (3 ∷ []), (refl, tt), (prepare-WellFormed (5 ∷ []), tt, tt))

search-lookup_example :
    search border (prepare (5 ∷ []))
    ≡ some (lookup (tuple_at two_keys) (prepare (5 ∷ [])) (1 ∷ 0 ∷ []))
search-lookup_example =
    search-lookup (prepare (5 ∷ [])) border-Holds border-Sorted (prepare-WellFormed (5 ∷ []))

get_lv_of_without_lock-search_example :
    get_lv_of_without_lock border (prepare (5 ∷ [])) ≡ search border (prepare (5 ∷ []))
get_lv_of_without_lock-search_example =
    get_lv_of_without_lock-search (prepare (5 ∷ [])) border-Holds border-Sorted
      (prepare-WellFormed (5 ∷ []))

compute_rank_if_insert-count_smaller_example :
    compute_rank_if_insert border (prepare (4 ∷ []))
    ≡ some (count_smaller (tuple_at two_keys) (prepare (4 ∷ [])) (1 ∷ 0 ∷ []))
unfolding lookup key_compare memcmp load
compute_rank_if_insert-count_smaller_example =
    compute_rank_if_insert-count_smaller (prepare (4 ∷ [])) border-Holds border-Sorted
      (prepare-WellFormed (4 ∷ [])) refl

abbrev interior : InteriorNode
interior = record init_interior {
  base = record init_interior.base {
    slices = update (update init_base.slices 0 (key_slice (3 ∷ []))) 1 (key_slice (5 ∷ []));
    lengths = update (update init_base.lengths 0 1) 1 1;
  };
  n_keys = 2;
  children = update (update (update init_interior.children 0 100) 1 200) 2 300;
}

find_index-Routed_example :
    Routed interior (prepare (4 ∷ [])) 0 (find_index 2 interior (prepare (4 ∷ [])) 0)
find_index-Routed_example = find_index-Routed interior (prepare (4 ∷ [])) (omega arith)

insert-Inserted_example :
    Inserted interior 400 (prepare (4 ∷ [])) (insert interior 400 (prepare (4 ∷ [])))
insert-Inserted_example = insert-Inserted interior 400 (prepare (4 ∷ [])) (omega arith)

abbrev full_interior : InteriorNode
full_interior = record interior { n_keys = 15; children = λ i. 100 + i }

halve-Halved_example : Halved full_interior (halve full_interior)
halve-Halved_example = halve-Halved full_interior (λ j lo hi. ground arith)

abbrev store : Store
store = record {
  nodes = λ _. none;
  memory = record { header = λ _. none; bytes = λ _. [] };
  fresh = [];
}

insert_lv_at-Placed_example :
    Placed store border
      (1 ∷ 0 ∷ [])
      2
      1
      (4 ∷ [])
      40
      (insert_lv_at 1 store 1000 border 2 (4 ∷ []) 40 false 1)
unfolding lookup key_compare memcmp load get_empty_slot mark_slots first_clear shr
    compute_rank_if_insert rank_from get_cnk get_index_of_rank examine get_key_slice_at
    get_key_length_at drop_value get_value
insert_lv_at-Placed_example =
    insert_lv_at-Placed 0 store 1000 2 (4 ∷ []) 40 1 border-Holds border-Sorted (omega arith) refl
      refl refl (omega arith) refl
