-- ===== src/Tree/PutGet.antt =====
-- A key that is put into a layer with room is found by `get`, where no other thread runs.
use yakushima.Common.{
  ℕ, suc, ◌≤◌, ◌<◌, ◌≡◌, ◌≢◌, refl, sym, subst, ◌∙◌, ap, true, false, length, Option, none, some,
  ◌==◌, arith, insert_at, update,
}
use yakushima.Scheme.{Status}
use yakushima.Key.{Bytes, prepare}
use yakushima.BaseNode.{Ptr}
use yakushima.Version.{set_locked}
use yakushima.Permutation.{get_cnk, get_empty_slot}
use yakushima.Permutation.Refinement.{get_cnk-encode}
use yakushima.Value.{Memory}
use yakushima.LinkOrValue.{get_value, drop_value}
use yakushima.InteriorNode.Routing.{tuple_at}
use yakushima.BorderNode.{BorderNode, compute_rank_if_insert}
use yakushima.BorderNode.Entries.{Holds}
use yakushima.BorderNode.Search.{lookup, count_smaller, compute_rank_if_insert-count_smaller}
use yakushima.BorderNode.Insertion.{prepare-WellFormed}
use yakushima.BorderNode.Present.{lookup-has, has-insert_at_self}
use yakushima.Tree.{World, Node, border_node}
use yakushima.Tree.Descent.{still, border_at-here}
use yakushima.Tree.Get.{Found, get}
use yakushima.Tree.Moved.{update_here, update_other, Descent-moved}
use yakushima.Tree.Layers.{node-IsLive, Layer, Stores, ends, answer}
use yakushima.Tree.Lookup.{get-Stores}
use yakushima.Tree.Put.{
  Putting, changes, merged, put_done, put_entry_at, put_version, put_node, with_store, empty_store,
  put,
}
use yakushima.Tree.PutSteps.{put-entry}
use yakushima.Tree.Grown.{Grown, insert_lv-Grown}

module _ (c : Putting) {w : World} {most : ℕ} {key : Bytes} (l : Layer w w.root key most)
    {p m_word : ℕ} {m : Memory} (room : length l.slots < 15)
    (empty : get_empty_slot l.node.permutation ≡ some p)
    (new : lookup (tuple_at l.node.base) (prepare key) l.slots ≡ none) (short : length key ≤ 8)
    (made : c.create w.memory ≡ some (m, m_word))
    (idle : drop_value m (get_value (l.node.lv p)) false ≡ some (m, none))
    (plain : c.wants_created ≡ false) where
  rank : ℕ
  rank = count_smaller (tuple_at l.node.base) (prepare key) l.slots

  taken : BorderNode
  taken = put_version (set_locked true l.node.base.version) l.node

  -- The tree behind `put`.
  record After (w' : World) : Type 0 where
    leaf : BorderNode
    grown : Grown taken l.slots p rank key m_word leaf
    at_b : w'.nodes l.border ≡ some (border_node leaf)
    others : (q : Ptr) → q ≢ l.border → w'.nodes q ≡ w.nodes q
    memory : w'.memory ≡ m
    root : w'.root ≡ w.root

  put_entry_at-After :
      (w' : World) × (put_entry_at c w l.border key
        ≡ some (put_done Status.ok (changes w' none none)))
      × After w'
  unfolding put_entry_at taken rank
  put_entry_at-After =
      let o : Holds taken l.slots = record { order = l.holds.order; word = l.holds.word } in
      let ranked : compute_rank_if_insert l.node (prepare key) ≡ some rank =
        compute_rank_if_insert-count_smaller (prepare key) l.holds l.sorted (prepare-WellFormed key)
          new in
      let ranked' : compute_rank_if_insert taken (prepare key) ≡ some rank =
        compute_rank_if_insert-count_smaller (prepare key) o l.sorted (prepare-WellFormed key)
          new in
      let calm : l.node.base.version.splitting ≡ false = ground (arith, (node-IsLive l).0.quiet) in
      let (r, e, kept_store, no_address, g) =
        insert_lv-Grown (length key) (empty_store w m) l.border p key m_word rank o l.sorted room
          empty ranked' new short idle (node-IsLive l).0.kept calm (node-IsLive l).1 in
      let not_full : (get_cnk l.node.permutation == 15) ≡ false =
        ground (arith, ap get_cnk l.holds.word ∙ get_cnk-encode l.holds.order, room) in
      let nodes : Ptr → Option Node = update w.nodes l.border (some (border_node r.node)) in
      (
        with_store (put_node w l.border r.node) r.store,
        simp (border_at-here w l.border l.here, ranked, made, not_full, plain)
            (simp (e, no_address) refl),
        record {
          leaf = r.node;
          grown = g;
          at_b =
              ap (λ s. merged s.nodes nodes l.border) kept_store
              ∙ update_here w.nodes l.border (some (border_node r.node));
          others = λ q apart.
              ap (λ s. merged s.nodes nodes q) kept_store
              ∙ update_other w.nodes l.border (some (border_node r.node)) q apart;
          memory = ap (λ s. s.memory) kept_store;
          root = refl;
        },
      )

  After-Stores : {w' : World} → After w' → Stores w' most 0 w'.root key (some m_word)
  unfolding taken
  After-Stores {w'} a =
      let g = a.grown in
      let (v', way, is_root) =
        Descent-moved l.here a.at_b a.others refl g.live g.border g.root l.path in
      let layer : Layer w' w.root key most = record {
        turns = l.turns;
        few = l.few;
        border = l.border;
        version = v';
        path = way;
        is_root = is_root ∙ l.is_root;
        node = a.leaf;
        slots = insert_at rank p l.slots;
        here = a.at_b;
        holds = g.holds;
        sorted = g.sorted;
      } in
      let found : lookup (tuple_at a.leaf.base) (prepare key) (insert_at rank p l.slots) ≡ some p =
        ap (λ k. lookup (tuple_at a.leaf.base) k (insert_at rank p l.slots)) (sym g.entry)
        ∙ lookup-has (tuple_at a.leaf.base) p (insert_at rank p l.slots)
            (has-insert_at_self p rank l.slots) g.sorted in
      subst (λ r. Stores w' most 0 r key (some m_word)) (sym a.root)
        (subst (λ x. Stores w' most 0 w.root key (some x)) g.value
          (ends w.root key layer p found short))

-- Where no other thread runs: `put` of a key of at most 8 bytes that the tree does not hold, into a
-- border node of the first layer that has room, returns `OK` and leaves a tree in which `get` finds
-- the value that was put: the word that `create_value` has made, as readers read it. The slot that the entry
-- goes to holds no value to be deleted, and the caller does not ask for the address of the value. Five
-- jumps are enough.
pub get-put :
    (c : Putting) {w : World} {most : ℕ} {key : Bytes} (l : Layer w w.root key most) {p word : ℕ}
    {m : Memory} {f : Found} (jumps fuel : ℕ)
    → length l.slots < 15
    → get_empty_slot l.node.permutation ≡ some p
    → lookup (tuple_at l.node.base) (prepare key) l.slots ≡ none
    → length key ≤ 8
    → c.create w.memory ≡ some (m, word)
    → drop_value m (get_value (l.node.lv p)) false ≡ some (m, none)
    → c.wants_created ≡ false
    → answer m (some word) ≡ some f
    → (w.root == 0) ≡ false
    → most ≤ fuel
    → 5 ≤ jumps
    → (w' : World) × (t : ℕ) × (t' : ℕ) × (put jumps c (suc (suc (suc fuel))) (still w) key 0
        ≡ some (Status.ok, changes w' none none, t))
      × (get (suc jumps) (suc (suc (suc fuel))) (still w') key 0 ≡ some (f, t'))
get-put c {w} {key = key} l {word = word} {f = f} jumps fuel room empty new short made idle plain
      reads there enough many =
    let (w', entry, a) = put_entry_at-After c l room empty new short made idle plain in
    let (t, e) = put-entry c l new entry jumps fuel there enough many in
    let s = After-Stores c l room empty new short made idle plain a in
    let (t', e') =
      get-Stores jumps fuel 0 (ap (λ r. r == 0) a.root ∙ there) s
        (ap (λ x. answer x (some word)) a.memory ∙ reads) enough (omega (arith, many)) in
    (w', t, t', e, e')
