-- ===== src/Tree/SplitGet.antt =====
-- A key that is put into a tree of one full border node is found by `get`, and so are the others,
-- where no other thread runs.
use Prim.Native.Nat.{Ordering}
use yakushima.Common.{
  ℕ, suc, ◌≤◌, ◌≡◌, ◌≢◌, refl, sym, subst, ◌∙◌, ap, Bool, true, false, ◌==◌, List, [], ◌∷◌, ◌++◌,
  length, Option, none, some, some_inj, ◌>>=◌, if◌then◌else◌, arith,
}
use yakushima.Scheme.{Status}
use yakushima.Key.{Bytes, KeyTuple, prepare, key_compare}
use yakushima.BaseNode.{Ptr, key_at}
use yakushima.Version.{set_locked, set_inserting_deleting, set_splitting, released, stable}
use yakushima.Value.{Memory}
use yakushima.LinkOrValue.{get_next_layer}
use yakushima.InteriorNode.{goes_left}
use yakushima.InteriorNode.Routing.{tuple_at, key_at-in_range}
use yakushima.BorderNode.{BorderNode}
use yakushima.BorderNode.Change.{Store}
use yakushima.BorderNode.Entries.{Holds, Sorted}
use yakushima.BorderNode.Search.{
  lookup, count_smaller, search-lookup, compute_rank_if_insert-count_smaller, cnk-Holds,
}
use yakushima.BorderNode.Split.{Parts, split_and_insert}
use yakushima.BorderNode.Divided.{stored, side}
use yakushima.BorderNode.SplitPlaced.{Served, split_and_insert-Served}
use yakushima.Tree.{World, border_node}
use yakushima.Tree.Descent.{still, Descent, border_at-here}
use yakushima.Tree.Nodes.{write_node, set_parents}
use yakushima.Tree.Grow.{spread, climb, grow_root, border_grow}
use yakushima.Tree.Rooted.{Rooted, grow_root-Rooted, rooted_leaf}
use yakushima.Tree.SplitTree.{Leaf, SplitTree}
use yakushima.Tree.Get.{Found, get}
use yakushima.Tree.Layers.{Layer, Stores, absent, ends, answer}
use yakushima.Tree.Lookup.{get-Stores}
use yakushima.Tree.PutSteps.{put-entry}
use yakushima.Permutation.{get_cnk}
use yakushima.BorderNode.{compute_rank_if_insert}
use yakushima.BorderNode.Insertion.{prepare-WellFormed}
use yakushima.BorderNode.Parts.{length-append}
use yakushima.Tree.Put.{
  Putting, changes, put_done, put_version, put_split, put_entry_at, put, with_store,
}

-- What a tree stores for a key is what the border node that the key comes to holds for it.
Layer-Stores :
    {w : World} {root : Ptr} {key : Bytes} {most : ℕ} (l : Layer w root key most) (o : Option ℕ)
    → length key ≤ 8
    → stored l.node (prepare key) l.slots ≡ o
    → Stores w most 0 root key o
Layer-Stores {w} {root} {key} {most} l o short e =
    go (lookup (tuple_at l.node.base) (prepare key) l.slots) refl e
  where
    go :
        (q : Option ℕ)
        → lookup (tuple_at l.node.base) (prepare key) l.slots ≡ q
        → (do r ← q; some (l.node.lv r)) ≡ o
        → Stores w most 0 root key o
    go none found h = subst (Stores w most 0 root key) h (absent root key l found)
    go (some q) found h = subst (Stores w most 0 root key) h (ends root key l q found short)

-- The tree with the two nodes.
abbrev spread_world : World → Ptr → Ptr → Parts → World
spread_world w b p parts =
    write_node (write_node w b (border_node parts.lower)) p (border_node parts.higher)

spread-none :
    (w : World) (b p : Ptr) (parts : Parts)
    → parts.moved_layers ≡ []
    → parts.relinked ≡ 0
    → spread w b p parts ≡ some (spread_world w b p parts)
unfolding spread set_parents
spread-none w b p parts e z =
    let last : (parts.relinked == 0) ≡ true = ground (arith, z) in simp (spread, e, last) refl

-- The split of the root of the tree, without next layers and neighbours.
border_grow-root :
    (w : World) (b p : Ptr) (parts : Parts) (pivot : KeyTuple)
    → parts.moved_layers ≡ []
    → parts.relinked ≡ 0
    → parts.lower.base.parent ≡ 0
    → tuple_at parts.higher.base 0 ≡ pivot
    → b ≢ p
    → border_grow w b p parts ≡ grow_root (spread_world w b p parts) b p pivot
unfolding border_grow climb
border_grow-root w b p parts pivot e z root front apart =
    let first : key_at parts.higher.base 0 ≡ some pivot =
      key_at-in_range parts.higher.base 0 (omega arith) ∙ ap some front in
    let here : (spread_world w b p parts).nodes b ≡ some (border_node parts.lower) = ground arith in
    let top : (parts.lower.base.parent == 0) ≡ true = ground (arith, root) in
    simp (border_grow, spread-none w b p parts e z, first) (simp (climb, here) (simp (top) refl))

module _ {w : World} {b p ni : Ptr} (parts : Parts) (pivot : Bytes) {ls hs : List ℕ}
    {result : Option World} (r : Rooted w b p ni parts.lower parts.higher (prepare pivot) result)
    (lower : Holds parts.lower ls) (lower_sorted : Sorted (tuple_at parts.lower.base) ls)
    (higher : Holds parts.higher hs) (higher_sorted : Sorted (tuple_at parts.higher.base) hs) where
  -- What the two nodes hold for a key is what the tree stores for it.
  Rooted-Stores :
      (k : Bytes) (left : Bool) (o : Option ℕ)
      → goes_left (prepare k) (prepare pivot) ≡ left
      → length k ≤ 8
      → stored (side left parts) (prepare k) (if left then ls else hs) ≡ o
      → Stores r.after 1 0 ni k o
  Rooted-Stores k true o e short h =
      let way : Descent r.after (prepare k) 1 ni r.version b =
        subst (λ t. Descent r.after (prepare k) 1 ni r.version (if t then b else p)) e
          (r.goes_to (prepare k)) in
      let layer : Layer r.after ni k 1 = record {
        turns = 1;
        few = omega arith;
        border = b;
        version = r.version;
        path = way;
        is_root = r.is_root;
        node = rooted_leaf ni parts.lower;
        slots = ls;
        here = r.at_left;
        holds = record { order = lower.order; word = lower.word };
        sorted = lower_sorted;
      } in
      Layer-Stores layer o short h
  Rooted-Stores k false o e short h =
      let way : Descent r.after (prepare k) 1 ni r.version p =
        subst (λ t. Descent r.after (prepare k) 1 ni r.version (if t then b else p)) e
          (r.goes_to (prepare k)) in
      let layer : Layer r.after ni k 1 = record {
        turns = 1;
        few = omega arith;
        border = p;
        version = r.version;
        path = way;
        is_root = r.is_root;
        node = rooted_leaf ni parts.higher;
        slots = hs;
        here = r.at_right;
        holds = record { order = higher.order; word = higher.word };
        sorted = higher_sorted;
      } in
      Layer-Stores layer o short h

-- What the root of the tree is before the split: a full border node with its entries in order, whose
-- eighth entry is followed by that of the key `pivot`; it has no next layers, no parent and no node
-- behind it.
pub record FullRoot (n : BorderNode) (xs : List ℕ) (y : ℕ) (ys : List ℕ) (pivot : Bytes)
    : Type 0 where
  pub holds : Holds n (xs ++ y ∷ ys)
  pub sorted : Sorted (tuple_at n.base) (xs ++ y ∷ ys)
  pub eight : length xs ≡ 8
  pub six : length ys ≡ 6
  pub front : tuple_at n.base y ≡ prepare pivot
  pub no_layers : (q : ℕ) → get_next_layer (n.lv q) ≡ 0
  pub top : n.base.parent ≡ 0
  pub last : n.next ≡ 0
  pub leaf : n.base.version.border ≡ true
  pub there : n.base.version.deleted ≡ false

-- The addresses of the two new nodes.
pub record NewNodes (w : World) (b p ni : Ptr) (later : List Ptr) : Type 0 where
  pub fresh : w.fresh ≡ p ∷ ni ∷ later
  pub apart : b ≢ p
  pub new_b : ni ≢ b
  pub new_p : ni ≢ p
  pub some_b : (b == 0) ≡ false
  pub some_p : (p == 0) ≡ false

module _ (c : Putting) {w : World} {b p ni : Ptr} {later : List Ptr} {n : BorderNode} {xs : List ℕ}
    {y : ℕ} {ys : List ℕ} {pivot : Bytes} (f : FullRoot n xs y ys pivot)
    (a : NewNodes w b p ni later) (m : Memory) (key : Bytes) (word : ℕ) (short : length key ≤ 8)
    (new : lookup (tuple_at n.base) (prepare key) (xs ++ y ∷ ys) ≡ none)
    (plain : c.wants_created ≡ false) where
  opened : BorderNode
  opened = put_version (set_inserting_deleting true n.base.version) n

  store : Store
  store = record { nodes = λ _. none; memory = m; fresh = ni ∷ later }

  rank : ℕ
  rank = count_smaller (tuple_at n.base) (prepare key) (xs ++ y ∷ ys)

  served :
      Served opened
        (xs ++ y ∷ ys)
        pivot
        key
        word
        store
        (split_and_insert (suc (length key)) store b p opened key word false rank)
  unfolding opened rank
  served =
      split_and_insert-Served (length key) store b p opened xs y ys pivot key word
        (record { order = f.holds.order; word = f.holds.word }) f.sorted f.eight f.six f.front short
        new

  parts : Parts
  parts = served.after.parts

  base_world : World
  base_world = with_store w store

  rooted :
      Rooted
        (spread_world base_world b p parts)
        b
        p
        ni
        parts.lower
        parts.higher
        (prepare pivot)
        (grow_root (spread_world base_world b p parts) b p (prepare pivot))
  unfolding opened store base_world parts
  rooted =
      let lower_version = served.lower_version in
      let higher_version = served.higher_version in
      grow_root-Rooted (spread_world base_world b p parts) b p ni later parts.lower parts.higher
        (prepare pivot) refl (ground (arith, a.apart)) (ground (arith, a.apart)) a.apart a.new_b
        a.new_p a.some_b a.some_p (ap (λ v. v.border) lower_version ∙ f.leaf)
        (ap (λ v. v.border) higher_version ∙ f.leaf) (ap (λ v. v.deleted) lower_version ∙ f.there)
        (ap (λ v. v.deleted) higher_version ∙ f.there)

  put_split-returns :
      put_split c w m b n key word rank ≡ some (put_done Status.ok (changes rooted.after none none))
  unfolding put_split opened store base_world parts
  put_split-returns =
      let grown : border_grow (with_store w served.after.store) b p parts ≡ some rooted.after =
        ap (λ s. border_grow (with_store w s) b p parts) served.same_store
        ∙ border_grow-root base_world b p parts (prepare pivot) (served.no_layers f.no_layers)
            (served.relinked ∙ f.last) (served.lower_parent ∙ f.top) served.front a.apart
        ∙ rooted.returns in
      simp (put_split, a.fresh, plain)
        (simp (served.returns) (simp (grown, served.no_address) refl))

  leaf :
      (x : BorderNode) (slots : List ℕ)
      → x.base.version ≡ set_splitting true opened.base.version
      → Holds x slots
      → Sorted (tuple_at x.base) slots
      → Leaf ni (rooted_leaf ni x) slots
  unfolding opened released
  leaf x slots e holds sorted = record {
    parent = refl;
    no_root = ground (arith, e);
    is_border = ground (arith, e, f.leaf);
    quiet = ground (arith, e);
    there = ground (arith, e, f.there);
    holds = record { order = holds.order; word = holds.word };
    sorted = sorted;
  }

  split_tree : SplitTree w rooted.after b p ni pivot
  unfolding base_world store parts
  split_tree = record {
    root = rooted.root;
    top = rooted.top;
    at_top = rooted.at_top;
    top_root = ap (λ v. v.root) rooted.top_version ∙ rooted.is_root;
    top_quiet = ap stable rooted.top_version ∙ rooted.is_stable;
    top_parent = rooted.top_parent;
    one_key = rooted.one_key;
    top_key = rooted.top_key;
    first_child = rooted.first_child;
    second_child = rooted.second_child;
    lower = rooted_leaf ni parts.lower;
    lower_slots = served.lower_slots;
    at_lower = rooted.at_left;
    lower_leaf =
        leaf parts.lower served.lower_slots served.lower_version served.lower_holds
          served.lower_sorted;
    higher = rooted_leaf ni parts.higher;
    higher_slots = served.higher_slots;
    at_higher = rooted.at_right;
    higher_leaf =
        leaf parts.higher served.higher_slots served.higher_version served.higher_holds
          served.higher_sorted;
    others =
        λ x not_ni not_b not_p. rooted.others x not_ni not_b not_p ∙ ground (arith, not_b, not_p);
  }

  Stores-new : Stores rooted.after 1 0 ni key (some word)
  unfolding parts
  Stores-new =
      Rooted-Stores parts pivot rooted served.lower_holds served.lower_sorted served.higher_holds
        served.higher_sorted key (goes_left (prepare key) (prepare pivot)) (some word) refl short
        served.new

  Stores-old :
      (k : Bytes)
      → length k ≤ 8
      → key_compare (prepare k) (prepare key) ≢ Ordering.eq
      → Stores rooted.after 1 0 ni k (stored n (prepare k) (xs ++ y ∷ ys))
  unfolding parts opened
  Stores-old k short_k apart =
      Rooted-Stores parts pivot rooted served.lower_holds served.lower_sorted served.higher_holds
        served.higher_sorted k (goes_left (prepare k) (prepare pivot))
        (stored n (prepare k) (xs ++ y ∷ ys)) refl short_k (served.old k apart)

-- Where no other thread runs: `put` of a key of at most 8 bytes into a tree whose root is a full
-- border node that does not hold the key returns `OK` and leaves a tree of two border nodes below a
-- new interior node: this is the root, with the root mark, and has one key, the pivot, and the two
-- nodes as its children; both have it as their parent and no root mark, are unlocked and not deleted,
-- and have their entries in order; no other node changes. In this tree `get` returns the value that was put, the word that `create_value` has
-- made, and for each other key of at most 8 bytes the value of the word that the node held before, or
-- `warn_not_exist` where it held none. The entries of the node are in order, it has no next layers,
-- no parent and no node behind it, the addresses of the two new nodes differ from each other and from
-- that of the node, none of the three is null, and the caller does not ask for the address of the
-- value. Five jumps are enough, and as much fuel as the descents before and behind it have turns, and
-- three more.
pub get-put_full :
    (c : Putting) {w : World} {most : ℕ} {key : Bytes} (l : Layer w w.root key most) {p ni : Ptr}
    {later : List Ptr} {xs : List ℕ} {y : ℕ} {ys : List ℕ} {pivot : Bytes} {m : Memory} {word : ℕ}
    (jumps fuel : ℕ)
    → FullRoot l.node xs y ys pivot
    → NewNodes w l.border p ni later
    → (ni == 0) ≡ false
    → length key ≤ 8
    → lookup (tuple_at l.node.base) (prepare key) (xs ++ y ∷ ys) ≡ none
    → c.create w.memory ≡ some (m, word)
    → c.wants_created ≡ false
    → (w.root == 0) ≡ false
    → most ≤ fuel
    → 1 ≤ fuel
    → 5 ≤ jumps
    → (w' : World) × (t : ℕ) × (put jumps c (suc (suc (suc fuel))) (still w) key 0
        ≡ some (Status.ok, changes w' none none, t))
      × SplitTree w w' l.border p ni pivot
      × ((found : Found)
          → answer m (some word) ≡ some found
          → (t' : ℕ) × (get (suc jumps) (suc (suc (suc fuel))) (still w') key 0 ≡ some (found, t')))
      × ((k : Bytes) (found : Found)
          → length k ≤ 8
          → key_compare (prepare k) (prepare key) ≢ Ordering.eq
          → answer m (stored l.node (prepare k) (xs ++ y ∷ ys)) ≡ some found
          → (t' : ℕ) × (get (suc jumps) (suc (suc (suc fuel))) (still w') k 0 ≡ some (found, t')))
unfolding rank base_world store put_entry_at
get-put_full c {w} {key = key} l {ni = ni} {xs = xs} {y} {ys} {m = m} {word} jumps fuel f a some_ni
      short new made plain there enough one many =
    let k = prepare key in
    let wf = prepare-WellFormed key in
    let n = put_version (set_locked true l.node.base.version) l.node in
    let f' : FullRoot n xs y ys _ = record {
      holds = record { order = f.holds.order; word = f.holds.word };
      sorted = f.sorted;
      eight = f.eight;
      six = f.six;
      front = f.front;
      no_layers = f.no_layers;
      top = f.top;
      last = f.last;
      leaf = f.leaf;
      there = f.there;
    } in
    let r = rooted c f' a m key word short new plain in
    let ranked : compute_rank_if_insert l.node k
        ≡ some (count_smaller (tuple_at l.node.base) k (xs ++ y ∷ ys)) =
      compute_rank_if_insert-count_smaller k f.holds f.sorted wf new in
    let cnk : (get_cnk l.node.permutation == 15) ≡ true =
      ground (arith, cnk-Holds k f.holds wf, length-append xs (y ∷ ys), f.eight, f.six) in
    let entry : put_entry_at c w l.border key
        ≡ some (put_done Status.ok (changes r.after none none)) =
      simp (border_at-here w l.border l.here, ranked, made, cnk)
        (put_split-returns c f' a m key word short new plain) in
    let missing : lookup (tuple_at l.node.base) k l.slots ≡ none = some_inj (
      sym (search-lookup k l.holds l.sorted wf)
      ∙ search-lookup k f.holds f.sorted wf
      ∙ ap some new) in
    let (t, e) = put-entry c l missing entry jumps fuel there enough many in
    let there' : (r.after.root == 0) ≡ false = ap (λ x. x == 0) r.root ∙ some_ni in
    (
      r.after,
      t,
      e,
      split_tree c f' a m key word short new plain,
      λ found reads.
          get-Stores jumps fuel 0 there'
            (subst (λ x. Stores r.after 1 0 x key (some word)) (sym r.root)
              (Stores-new c f' a m key word short new plain))
            (ap (λ x. answer x (some word)) r.memory ∙ reads) one (omega (arith, many)),
      λ k' found short_k apart reads.
          get-Stores jumps fuel 0 there'
            (subst (λ x. Stores r.after 1 0 x k' (stored n (prepare k') (xs ++ y ∷ ys)))
              (sym r.root) (Stores-old c f' a m key word short new plain k' short_k apart))
            (ap (λ x. answer x (stored n (prepare k') (xs ++ y ∷ ys))) r.memory ∙ reads) one
            (omega (arith, many)),
    )
