-- ===== src/InteriorNode/Routing.antt =====
-- Where `interior_node` sends a key.
use yakushima.Common.{
  ℕ, zero, suc, ◌+◌, ◌≤◌, ◌<◌, ◌≡◌, refl, true, false, Option, some, arith, Bool-cases, inl, inr,
  lt→ltb,
}
use yakushima.Key.{KeyTuple}
use yakushima.BaseNode.{BaseNode, key_at, get_key_slice_at, get_key_length_at}
use yakushima.InteriorNode.{InteriorNode, goes_left, find_index}

abbrev pub tuple_at : BaseNode → ℕ → KeyTuple
tuple_at b i = record { slice = b.slices i; size = b.lengths i }

pub key_at-in_range : (b : BaseNode) (i : ℕ) → i < 15 → key_at b i ≡ some (tuple_at b i)
unfolding get_key_slice_at get_key_length_at
key_at-in_range b i h = rw (lt→ltb i 15 h)

-- The index at which a key is found to belong: the keys before it are not greater, and the key
-- there, if the index is in use, is greater.
pub record Routed (n : InteriorNode) (key : KeyTuple) (from : ℕ) (result : Option ℕ) : Type 0 where
  pub index : ℕ
  pub returns : result ≡ some index
  pub lower : from ≤ index
  pub upper : index ≤ n.n_keys
  pub before : (j : ℕ) → from ≤ j → j < index → goes_left key (tuple_at n.base j) ≡ false
  pub after : index < n.n_keys → goes_left key (tuple_at n.base index) ≡ true

find_index-from :
    (left i : ℕ) (n : InteriorNode) (key : KeyTuple)
    → n.n_keys ≤ 15
    → i + left ≡ n.n_keys
    → Routed n key i (find_index left n key i)
unfolding find_index
find_index-from zero i n key few e = record {
  index = i;
  returns = refl;
  lower = omega arith;
  upper = omega arith;
  before = λ j lo hi. absurd (omega arith);
  after = λ lt. absurd (omega arith);
}
find_index-from (suc left) i n key few e = elim (Bool-cases (goes_left key (tuple_at n.base i))) [
  | inl less ↦ record {
    index = i;
    returns = rw (key_at-in_range n.base i (omega arith), less);
    lower = omega arith;
    upper = omega arith;
    before = λ j lo hi. absurd (omega arith);
    after = λ lt. less;
  }
  | inr more ↦
      let rest = find_index-from left (i + 1) n key few (omega arith) in
      record {
        index = rest.index;
        returns = rw (key_at-in_range n.base i (omega arith), more) rest.returns;
        lower = omega (arith, rest.lower);
        upper = rest.upper;
        before = λ j lo hi. ground (arith, rest.before j);
        after = rest.after;
      }
]

-- On a node of at most 15 keys, the loops of `get_child_of` and `insert` read no key out of range, and stop at the first key
-- that is greater than the one that is looked for, or behind the last key.
pub find_index-Routed :
    (n : InteriorNode) (key : KeyTuple)
    → n.n_keys ≤ 15
    → Routed n key 0 (find_index n.n_keys n key 0)
find_index-Routed n key few = find_index-from n.n_keys 0 n key few (omega arith)
