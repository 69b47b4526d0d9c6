-- ===== src/Examples/Scans.antt =====
-- A tree with two border nodes below an interior node, a range, and two threads.
use yakushima.Common.{◌≡◌, refl, [], ◌∷◌, ◌++◌, some, none, arith, update, ℕ, true}
use yakushima.Scheme.{Status, ScanEndpoint}
use yakushima.Key.{prepare, key_slice, memcmp, load, prefix_compare, remove_prefix}
use yakushima.Key.Lex.{lex}
use yakushima.BaseNode.{init_base, get_key_slice_at, get_key_length_at}
use yakushima.Version.{VersionBody, stable}
use yakushima.Version
use yakushima.Value.{get_body, get_len, remove_ptr_flag}
use yakushima.LinkOrValue.{get_value}
use yakushima.InteriorNode.{InteriorNode, init_interior, pick_child, find_index, get_child_at}
use yakushima.BorderNode.{BorderNode}
use yakushima.Tree.{World, border_node, interior_node, version_at}
use yakushima.Tree.Descent.{still, IsLive, Descent, arrive, turn}
use yakushima.Scan.{Query, Out, visit, below_left, below_right}
use yakushima.Scan.Range.{
  in_left, in_right, placed, left_below, right_below, visit-placed, below_left-in_left,
  below_right-in_right,
}
use yakushima.Scan.Entries.{Entry, wanted}
use yakushima.Scan.Node.{QuietNode}
use yakushima.Scan.Chain.{Chain, last, linked, scan-wanted}
use yakushima.Scan.Layers.{scan, from_top, scan_key}
use yakushima.DestroyManager.{
  outside, Reachable, start, then_step, calls, goes_round, expecting, finished, check_room_round,
}
use yakushima.DestroyManager.Room.{Counts, Reachable-Counts}
use yakushima.Examples.Trees.{no_values, leaf, leaf-Holds, long_key}

-- The keys "3" and "5" in two border nodes.
abbrev leaf_version : VersionBody
leaf_version = record Version.init { border = true }

abbrev first_leaf : BorderNode
first_leaf = leaf leaf_version (prepare (3 ∷ [])) 30 16

abbrev second_leaf : BorderNode
second_leaf = leaf leaf_version (prepare (5 ∷ [])) 50 0

abbrev top : InteriorNode
top = record init_interior {
  base = record init_base {
    slices = update init_base.slices 0 (key_slice (5 ∷ []));
    lengths = update init_base.lengths 0 1;
    version = record Version.init { root = true };
  };
  n_keys = 1;
  children = update (update init_interior.children 0 8) 1 16;
}

abbrev two_leaves : World
two_leaves = record {
  root = 24;
  nodes =
      update
        (update (update (λ _. none) 8 (some (border_node first_leaf))) 16
          (some (border_node second_leaf)))
        24 (some (interior_node top));
  memory = no_values;
  fresh = [];
}

-- From "3", without it, up to "5".
abbrev three_to_five : Query
three_to_five = record {
  l_key = 3 ∷ [];
  l_end = ScanEndpoint.exclusive;
  r_key = 5 ∷ [];
  r_end = ScanEndpoint.inclusive;
  key_prefix = [];
  max_size = 0;
}

abbrev three : Entry
three = record { slot = 0; key = 3 ∷ []; body = 30; len = 8 }

abbrev five : Entry
five = record { slot = 0; key = 5 ∷ []; body = 50; len = 8 }

leaf-IsLive : IsLive leaf_version
leaf-IsLive = record { quiet = refl; kept = refl }

first-QuietNode : QuietNode two_leaves 8 leaf_version first_leaf (three ∷ [])
unfolding version_at get_body get_len get_value remove_ptr_flag
first-QuietNode = record {
  here = refl;
  version = refl;
  live = leaf-IsLive;
  holds = leaf-Holds leaf_version (prepare (3 ∷ [])) 30 16;
  entries = (record { short = omega arith; same = refl; has_body = refl; has_len = refl }, tt);
  sorted = (tt, tt);
}

second-QuietNode : QuietNode two_leaves 16 leaf_version second_leaf (five ∷ [])
unfolding version_at get_body get_len get_value remove_ptr_flag
second-QuietNode = record {
  here = refl;
  version = refl;
  live = leaf-IsLive;
  holds = leaf-Holds leaf_version (prepare (5 ∷ [])) 50 0;
  entries = (record { short = omega arith; same = refl; has_body = refl; has_len = refl }, tt);
  sorted = (tt, tt);
}

both : Chain two_leaves 2 8 leaf_version (three ∷ five ∷ [])
both =
    linked 1 8 first_leaf leaf_version leaf_version (three ∷ []) (five ∷ []) first-QuietNode refl
      (last 16 second_leaf leaf_version (five ∷ []) second-QuietNode refl)

way : Descent two_leaves (scan_key (3 ∷ [])) 1 24 (top.base.version) 8
unfolding pick_child find_index get_child_at get_key_slice_at get_key_length_at prefix_compare
    memcmp load
way =
    turn 24 8 8 top top.base.version leaf_version 0 refl refl (record { quiet = refl; kept = refl })
      refl refl refl (arrive 8 first_leaf leaf_version refl refl leaf-IsLive refl)

abbrev no_tuples : Out
no_tuples = record { tuple_list = []; node_version_vec = none }

scan-wanted_example :
    (o' : Out) × (t' : ℕ) × (scan 0 5 (still two_leaves) three_to_five no_tuples 0
      ≡ some (Status.ok, o', t'))
    × (o'.tuple_list ≡ wanted (from_top three_to_five) (three ∷ five ∷ []))
unfolding lex
scan-wanted_example =
    scan-wanted 0 2 three_to_five no_tuples 0 refl refl refl way refl both ((refl, tt), (tt, tt))
      (omega arith) (omega arith)

visit-placed_example :
    visit three_to_five (prepare (4 ∷ [])) (4 ∷ [])
    ≡ placed
        (in_left ScanEndpoint.exclusive (lex (3 ∷ []) (4 ∷ [])))
        (in_right ScanEndpoint.inclusive (lex (5 ∷ []) (4 ∷ [])))
visit-placed_example = visit-placed three_to_five (4 ∷ []) (4 ∷ []) (omega arith)

-- From "12345678" on.
abbrev from_eight : Query
from_eight = record three_to_five { l_key = 1 ∷ 2 ∷ 3 ∷ 4 ∷ 5 ∷ 6 ∷ 7 ∷ 8 ∷ [] }

below_left-in_left_example :
    left_below (below_left from_eight (key_slice long_key)) (remove_prefix 8 long_key)
    ≡ in_left ScanEndpoint.exclusive (lex from_eight.l_key long_key)
below_left-in_left_example = below_left-in_left from_eight long_key (omega arith)

below_right-in_right_example :
    right_below (below_right three_to_five (key_slice long_key)) (key_slice long_key ++ 9 ∷ [])
    ≡ in_right ScanEndpoint.inclusive (lex (5 ∷ []) (key_slice long_key ++ 9 ∷ []))
below_right-in_right_example = below_right-in_right three_to_five (key_slice long_key) 9 []

-- One processor, two threads, of which one has called `check_room` and taken the room.
one_taken : Reachable 1 2 (
    finished
      (record { destroy_threads_num = 0; threads = update (λ _. outside) 0 (expecting 0) })
      0
      (check_room_round 1 true 0 0))
one_taken =
    then_step (then_step start (calls 0 (omega arith) refl))
      (goes_round 0 0 true (omega arith) refl)

Reachable-Counts_example : Counts 1 2 (
    finished
      (record { destroy_threads_num = 0; threads = update (λ _. outside) 0 (expecting 0) })
      0
      (check_room_round 1 true 0 0))
Reachable-Counts_example = Reachable-Counts (omega arith) one_taken
