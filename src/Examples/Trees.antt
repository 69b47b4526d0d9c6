-- ===== src/Examples/Trees.antt =====
-- A tree of two layers, and a tree with one entry.
use yakushima.Common.{◌+◌, ◌^◌, ◌≡◌, refl, [], ◌∷◌, some, none, arith, update, ℕ, true}
use yakushima.Scheme.{Status}
use yakushima.Key.{Bytes, KeyTuple, prepare, memcmp, load, key_compare, remove_prefix}
use yakushima.BaseNode.{init_base}
use yakushima.Version.{VersionBody, stable}
use yakushima.Version
use yakushima.Permutation.Refinement.{encode}
use yakushima.Value.{Memory, get_body, get_len, remove_ptr_flag}
use yakushima.LinkOrValue.{get_value, get_next_layer, child_flag}
use yakushima.BorderNode.{BorderNode, init_border}
use yakushima.BorderNode.Entries.{Holds}
use yakushima.BorderNode.Search.{lookup}
use yakushima.BorderNode.Insertion.{prepare-WellFormed}
use yakushima.Tree.{World, border_node, find_border}
use yakushima.Tree.Descent.{still, IsLive, Descent, arrive, Arrived, find_border-Arrived}
use yakushima.Tree.Get.{get}
use yakushima.Tree.Layers.{Layer, Stores, ends, goes_on}
use yakushima.Tree.Lookup.{get-Stores}
use yakushima.Tree.Put.{Putting, changes, put}
use yakushima.Tree.PutGet.{get-put}
use yakushima.Tree.HighValue.{get-put_high}
use yakushima.Tree.Remove.{remove, keeps}
use yakushima.Tree.Absent.{remove-absent}
use yakushima.Permutation.{get_empty_slot, mark_slots, first_clear, get_index_of_rank, get_cnk}
use yakushima.Common.{shr, false}
use yakushima.Value.{create_inline}
use yakushima.LinkOrValue.{drop_value}

abbrev pub no_values : Memory
no_values = record { header = λ _. none; bytes = λ _. [] }

abbrev pub root_version : VersionBody
root_version = record Version.init { root = true; border = true }

-- A border node with one entry in slot 0.
abbrev pub leaf : VersionBody → KeyTuple → ℕ → ℕ → BorderNode
leaf v key word next = record init_border {
  base = record init_base {
    slices = update init_base.slices 0 key.slice;
    lengths = update init_base.lengths 0 key.size;
    version = v;
  };
  permutation = encode (0 ∷ []);
  lv = update init_border.lv 0 word;
  next = next;
}

pub leaf-Holds :
    (v : VersionBody) (key : KeyTuple) (word next : ℕ) → Holds (leaf v key word next) (0 ∷ [])
leaf-Holds v key word next = record {
  order = record { few = omega arith; small = (omega arith, tt); distinct = (refl, tt) };
  word = refl;
}

-- "123456789" with the value 30, in two layers.
abbrev pub long_key : Bytes
long_key = 1 ∷ 2 ∷ 3 ∷ 4 ∷ 5 ∷ 6 ∷ 7 ∷ 8 ∷ 9 ∷ []

abbrev upper : BorderNode
upper = leaf root_version (prepare long_key) (child_flag + 16) 0

abbrev lower : BorderNode
lower = leaf root_version (prepare (9 ∷ [])) 30 0

abbrev layers : World
layers = record {
  root = 8;
  nodes = update (update (λ _. none) 8 (some (border_node upper))) 16 (some (border_node lower));
  memory = no_values;
  fresh = [];
}

pub root-IsLive : IsLive root_version
root-IsLive = record { quiet = refl; kept = refl }

single_node :
    (p : ℕ) (n : BorderNode) (key : KeyTuple)
    → layers.nodes p ≡ some (border_node n)
    → n.base.version ≡ root_version
    → Descent layers key 0 p root_version p
single_node p n key e v = arrive p n root_version e v root-IsLive refl

find_border-Arrived_example : Arrived layers 8 (find_border 3 (still layers) 8 (prepare long_key) 0)
find_border-Arrived_example =
    find_border-Arrived 0 0 (omega arith) (single_node 8 upper (prepare long_key) refl refl) refl

upper_layer : Layer layers 8 long_key 0
upper_layer = record {
  turns = 0;
  few = omega arith;
  border = 8;
  version = root_version;
  path = single_node 8 upper (prepare long_key) refl refl;
  is_root = refl;
  node = upper;
  slots = 0 ∷ [];
  here = refl;
  holds = leaf-Holds root_version (prepare long_key) (child_flag + 16) 0;
  sorted = (prepare-WellFormed long_key, tt, tt);
}

lower_layer : Layer layers 16 (9 ∷ []) 0
lower_layer = record {
  turns = 0;
  few = omega arith;
  border = 16;
  version = root_version;
  path = single_node 16 lower (prepare (9 ∷ [])) refl refl;
  is_root = refl;
  node = lower;
  slots = 0 ∷ [];
  here = refl;
  holds = leaf-Holds root_version (prepare (9 ∷ [])) 30 0;
  sorted = (prepare-WellFormed (9 ∷ []), tt, tt);
}

layers-Stores : Stores layers 0 1 8 long_key (some 30)
unfolding lookup key_compare memcmp load get_next_layer remove_prefix lower_layer upper_layer
layers-Stores =
    goes_on 8 long_key upper_layer 0 0 (some 30) refl (omega arith)
      (ends 16 (9 ∷ []) lower_layer 0 refl (omega arith))

get-Stores_example :
    (t' : ℕ) × (get 6 3 (still layers) long_key 0
      ≡ some (record { status = Status.ok; out = some (30, 8) }, t'))
unfolding get_body get_len get_value remove_ptr_flag
get-Stores_example = get-Stores 5 0 0 refl layers-Stores refl (omega arith) (omega arith)

-- "9" alone in a tree, and "4" is put.
abbrev nine : World
nine = record layers { root = 16 }

abbrev pub putting_40 : Putting
putting_40 = record {
  create = λ m. some (m, create_inline 40);
  k_is_inline = true;
  unique_restriction = false;
  wants_created = false;
  begin_epoch = 1;
}

nine_layer : Layer nine 16 (4 ∷ []) 0
nine_layer = record {
  turns = 0;
  few = omega arith;
  border = 16;
  version = root_version;
  path = arrive 16 lower root_version refl refl root-IsLive refl;
  is_root = refl;
  node = lower;
  slots = 0 ∷ [];
  here = refl;
  holds = leaf-Holds root_version (prepare (9 ∷ [])) 30 0;
  sorted = (prepare-WellFormed (9 ∷ []), tt, tt);
}

get-put_example :
    (w' : World) × (t : ℕ) × (t' : ℕ) × (put 5 putting_40 3 (still nine) (4 ∷ []) 0
      ≡ some (Status.ok, changes w' none none, t))
    × (get 6 3 (still w') (4 ∷ []) 0 ≡ some (record { status = Status.ok; out = some (40, 8) }, t'))
unfolding nine_layer lookup key_compare memcmp load get_empty_slot mark_slots first_clear
    get_index_of_rank get_cnk shr drop_value get_value create_inline get_body get_len
    remove_ptr_flag
get-put_example =
    get-put putting_40 nine_layer {p = 1} {word = 40} {m = no_values} 5 0 (omega arith) refl refl
      (omega arith) refl refl refl refl refl (omega arith) (omega arith)

abbrev putting_high : Putting
putting_high = record putting_40 { create = λ m. some (m, create_inline (2 ^ 63 + 42)) }

get-put_high_example :
    (w' : World) × (t : ℕ) × (t' : ℕ) × (put 5 putting_high 3 (still nine) (4 ∷ []) 0
      ≡ some (Status.ok, changes w' none none, t))
    × (get 6 3 (still w') (4 ∷ []) 0 ≡ some (record { status = Status.ok; out = some (0, 8) }, t'))
    × (get_next_layer (create_inline (2 ^ 63 + 42)) ≡ 42)
unfolding nine_layer lookup key_compare memcmp load get_empty_slot mark_slots first_clear
    get_index_of_rank get_cnk shr drop_value get_value
get-put_high_example =
    get-put_high putting_high nine_layer {p = 1} (2 ^ 63 + 42) 5 0 (omega arith) (omega arith)
      (omega arith) refl refl (omega arith) refl refl refl refl (omega arith) (omega arith)

remove-absent_example :
    (t : ℕ) × (remove 4 1 3 (still nine) (4 ∷ []) 0 ≡ some (Status.ok_not_found, keeps, t))
unfolding nine_layer lookup key_compare memcmp load
remove-absent_example = remove-absent nine_layer 4 0 1 refl refl refl (omega arith) (omega arith)
