-- ===== src/Tree/RemoveGet.antt =====
-- A key that is removed is not found by `get`, where no other thread runs.
use Prim.Native.Nat.{Ordering}
use yakushima.Common.{
  ℕ, zero, suc, ◌≤◌, ◌<◌, ◌≡◌, ◌≢◌, refl, sym, subst, ◌∙◌, ap, true, false, List, [], length,
  Option, none, some, ◌==◌, arith,
}
use yakushima.Scheme.{Status}
use yakushima.Key.{Bytes, KeyTuple, prepare, key_compare}
use yakushima.BaseNode.{Ptr}
use yakushima.Version.{VersionBody, set_locked, released}
use yakushima.Permutation.{get_cnk}
use yakushima.Value.{is_value_ptr}
use yakushima.LinkOrValue.{get_value}
use yakushima.InteriorNode.Routing.{tuple_at}
use yakushima.BorderNode.{BorderNode, get_lv_of_without_lock}
use yakushima.BorderNode.Change.{Retiring, RetiredValue}
use yakushima.BorderNode.Entries.{Holds, Sorted, WellFormed}
use yakushima.BorderNode.Search.{lookup, search-lookup, get_lv_of_without_lock-search, cnk-Holds}
use yakushima.BorderNode.Insertion.{prepare-WellFormed}
use yakushima.BorderNode.Deletion.{IsOwned, delete_of-Deleted}
use yakushima.Tree.{World, border_node}
use yakushima.Tree.Descent.{still, IsLive, border_at-here}
use yakushima.Tree.Moved.{Descent-moved, update_here, update_other}
use yakushima.Tree.Get.{get}
use yakushima.Tree.Layers.{Layer, Stores, absent, node-IsLive}
use yakushima.Tree.RemoveSteps.{remove-entry}
use yakushima.Tree.Lookup.{get-Stores}
use yakushima.Tree.Put.{put_version, put_node}
use yakushima.Tree.Remove.{removes, remove_done, removal, remove_under_lock, remove}

-- A node is locked and unlocked again.
pub released-locked :
    (v : VersionBody)
    → IsLive v
    → IsLive (released (set_locked true v))
      × ((released (set_locked true v)).border ≡ v.border)
      × ((released (set_locked true v)).root ≡ v.root)
unfolding released
released-locked v live = (
  record { quiet = ground (arith, live.quiet); kept = ground (arith, live.kept, live.quiet) },
  ground (arith, live.quiet),
  ground (arith, live.quiet),
)

-- A node with other entries stays.
removal_several :
    (fuel begin_epoch : ℕ) (w : World) (b : Ptr) (cnk : ℕ) (r : Retiring)
    → (cnk == 1) ≡ false
    → removal fuel begin_epoch w b cnk r
      ≡ some (removes (put_node (record w { memory = r.memory }) b r.node) r.retired [])
removal_several fuel begin_epoch w b cnk r e = rw (removal, e) refl

module _ {w : World} {most : ℕ} {key : Bytes} (l : Layer w w.root key most) {q : ℕ}
    (found : lookup (tuple_at l.node.base) (prepare key) l.slots ≡ some q) (short : length key ≤ 8)
    (several : 1 < length l.slots) (owned : IsOwned w.memory (get_value (l.node.lv q)))
    (begin_epoch : ℕ) where
  taken : BorderNode
  taken = put_version (set_locked true l.node.base.version) l.node

  -- The tree behind `remove`.
  pub record After (w' : World) : Type 0 where
    pub left : List ℕ
    pub leaf : BorderNode
    pub at_b : w'.nodes l.border ≡ some (border_node leaf)
    pub others : (p : Ptr) → p ≢ l.border → w'.nodes p ≡ w.nodes p
    pub root : w'.root ≡ w.root
    pub holds : Holds leaf left
    pub sorted : Sorted (tuple_at leaf.base) left
    pub gone : lookup (tuple_at leaf.base) (prepare key) left ≡ none
    pub kept :
        (k : KeyTuple)
        → WellFormed k
        → key_compare k (prepare key) ≢ Ordering.eq
        → lookup (tuple_at leaf.base) k left ≡ lookup (tuple_at l.node.base) k l.slots
    pub values : (r : ℕ) → r ≢ q → leaf.lv r ≡ l.node.lv r
    pub inline : is_value_ptr (get_value (l.node.lv q)) ≡ false → leaf.lv q ≡ l.node.lv q
    pub version : leaf.base.version ≡ released (set_locked true l.node.base.version)

  pub remove_under_lock-After :
      (fuel : ℕ)
      → (w' : World) × (retired : Option RetiredValue) × (remove_under_lock begin_epoch fuel w
            l.border key
          ≡ some (remove_done Status.ok (removes w' retired [])))
        × After w'
  unfolding remove_under_lock taken
  remove_under_lock-After fuel =
      let wf = prepare-WellFormed key in
      let o : Holds taken l.slots = record { order = l.holds.order; word = l.holds.word } in
      let again : get_lv_of_without_lock taken (prepare key) ≡ some (some q) =
        get_lv_of_without_lock-search (prepare key) o l.sorted wf
        ∙ search-lookup (prepare key) o l.sorted wf
        ∙ ap some found in
      let d =
        delete_of-Deleted {n = taken} (prepare key) w.memory begin_epoch true (w.root == l.border) o
          l.sorted wf found owned in
      let more : (length l.slots == 1) ≡ false = ground (arith, several) in
      let cnk : get_cnk l.node.permutation ≡ length l.slots = cnk-Holds (prepare key) l.holds wf in
      let w' : World = put_node (record w { memory = d.after.memory }) l.border d.after.node in
      (
        w',
        d.after.retired,
        simp (border_at-here w l.border l.here, again)
            (simp (d.returns) (
              simp (cnk) (
                simp (removal_several fuel begin_epoch w l.border (length l.slots) d.after more)
                  refl))),
        record {
          left = d.left;
          leaf = d.after.node;
          at_b = update_here w.nodes l.border (some (border_node d.after.node));
          others = update_other w.nodes l.border (some (border_node d.after.node));
          root = refl;
          holds = d.holds;
          sorted = d.sorted;
          gone = d.gone;
          kept = d.others;
          values = d.values;
          inline = d.inline;
          version = d.version ∙ simp (more) refl;
        },
      )

  After-Stores : {w' : World} → After w' → Stores w' most 0 w'.root key none
  After-Stores {w'} a =
      let u = released (set_locked true l.node.base.version) in
      let facts = released-locked l.node.base.version (node-IsLive l).0 in
      let (v', way, is_root) =
        Descent-moved {u = u} l.here a.at_b a.others a.version facts.0 (facts.1 ∙ (node-IsLive l).1)
          facts.2 l.path in
      let layer : Layer w' w.root key most = record {
        turns = l.turns;
        few = l.few;
        border = l.border;
        version = v';
        path = way;
        is_root = is_root ∙ l.is_root;
        node = a.leaf;
        slots = a.left;
        here = a.at_b;
        holds = a.holds;
        sorted = a.sorted;
      } in
      subst (λ r. Stores w' most 0 r key none) (sym a.root) (absent w.root key layer a.gone)

-- Where no other thread runs: `remove` of a key of at most 8 bytes that the first layer of the tree
-- holds, in a border node with other entries, returns `OK` and leaves a tree in which `get` does not
-- find the key. The value can be read, and the node is not at the null address. Four jumps are
-- enough for `remove`.
pub get-remove :
    {w : World} {most : ℕ} {key : Bytes} (l : Layer w w.root key most) {q : ℕ}
    (begin_epoch jumps fuel : ℕ)
    → lookup (tuple_at l.node.base) (prepare key) l.slots ≡ some q
    → length key ≤ 8
    → 1 < length l.slots
    → IsOwned w.memory (get_value (l.node.lv q))
    → (w.root == 0) ≡ false
    → (l.border == 0) ≡ false
    → most ≤ fuel
    → 4 ≤ jumps
    → (w' : World) × (retired : Option RetiredValue) × (t : ℕ) × (t' : ℕ) × (remove jumps
          begin_epoch
          (suc (suc (suc fuel)))
          (still w)
          key
          0
        ≡ some (Status.ok, removes w' retired [], t))
      × (get jumps (suc (suc (suc fuel))) (still w') key 0
          ≡ some (record { status = Status.warn_not_exist; out = none }, t'))
get-remove {w} {key = key} l begin_epoch zero fuel found short several owned there some_border
      enough many =
    absurd (omega arith)
get-remove {w} {key = key} l begin_epoch (suc jumps) fuel found short several owned there
      some_border enough many =
    let (w', retired, entry, a) =
      remove_under_lock-After l found short several owned begin_epoch (suc (suc (suc fuel))) in
    let (t, e) =
      remove-entry l found short begin_epoch fuel entry (suc jumps) there some_border enough many in
    let (t', e') =
      get-Stores jumps fuel 0 (ap (λ r. r == 0) a.root ∙ there)
        (After-Stores l found short several owned begin_epoch a) refl enough
        (omega (arith, many)) in
    (w', retired, t, t', e, e')
