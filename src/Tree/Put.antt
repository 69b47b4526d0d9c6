-- ===== src/Tree/Put.antt =====
-- include/interface_put.h: a value is put under a key. The reads go over the history of the tree;
-- what is done under the lock of a border node is done to the tree as it is when the lock is taken.
use yakushima.Common.{
  ℕ, zero, suc, ◌+◌, Bool, true, false, not, [], ◌∷◌, length, Option, none, some, ◌>>=◌, ◌==◌, ltb,
  if◌then◌else◌, update,
}
use yakushima.Scheme.{Status, slice_size, key_slice_length}
use yakushima.Key.{Bytes, prepare, remove_prefix, key_length}
use yakushima.BaseNode.{Ptr, get_key_length_at}
use yakushima.Version.{VersionBody, set_locked, set_inserting_deleting, released}
use yakushima.Permutation.{get_cnk, get_empty_slot}
use yakushima.Value.{Memory, get_gc_info}
use yakushima.LinkOrValue.{get_next_layer, set_value}
use yakushima.BorderNode.{BorderNode, get_lv_at, put_lv_at, compute_rank_if_insert}
use yakushima.BorderNode.Change.{Store, insert_lv, insert_lv_at, new_layer, RetiredValue}
use yakushima.BorderNode.Split.{split_and_insert}
use yakushima.Tree.{
  World, History, Node, border_node, border_at, version_at, stable_version_at, find_done,
  retry_from_root_of_all, Find, find_retry, find_at, find_border, lv_of_at,
}
use yakushima.Tree.Grow.{border_grow}
use yakushima.Tree.Get.{is_wrong}

-- The arguments of `put`. `create` is its call of `create_value`: the memory and the word behind it.
pub record Putting : Type 0 where
  pub create : Memory → Option (Memory × ℕ)
  pub k_is_inline : Bool
  pub unique_restriction : Bool
  pub wants_created : Bool
  pub begin_epoch : ℕ

-- What `put` does to the tree: the tree behind it, with the address of the value's bytes and the
-- value that it retires.
pub data Effect : Type 0 where
  untouched : Effect
  changes : World → Option ℕ → Option RetiredValue → Effect

-- Where `put` stands, at its labels.
pub data Put : Type 0 where
  root_nullptr : Put
  put_retry_from_root : Put
  put_find_border : Ptr → Bytes → Put
  put_fetch_lv : Ptr → VersionBody → Bytes → Put
  put_done : Status → Effect → Put

-- `lock` from the time `t` on: the time at which it takes the lock.
unfoldable pub locked_at : ℕ → History → Ptr → ℕ → Option ℕ
locked_at zero h p t = none
locked_at (suc left) h p t =
    let rest = locked_at left h p (t + 1) in
    do v ← version_at (h t) p; if v.locked then rest else some t

abbrev pub put_version : VersionBody → BorderNode → BorderNode
put_version v n = record n { base = record n.base { version = v } }

abbrev pub put_node : World → Ptr → BorderNode → World
put_node w p n = record w { nodes = update w.nodes p (some (border_node n)) }

-- The new layers come into the tree.
abbrev pub merged : (Ptr → Option BorderNode) → (Ptr → Option Node) → Ptr → Option Node
merged new nodes p = elim (new p) [ none ↦ nodes p | some n ↦ some (border_node n) ]

abbrev pub with_store : World → Store → World
with_store w s = record w { nodes = merged s.nodes w.nodes; memory = s.memory; fresh = s.fresh }

abbrev pub empty_store : World → Memory → Store
empty_store w m = record { nodes = λ _. none; memory = m; fresh = w.fresh }

-- The tree is empty: a new border node becomes its root.
unfoldable pub put_root : Putting → World → Bytes → Option Put
put_root c w key = elim w.fresh [
  | [] ↦ none
  | p ∷ later ↦ do
    (m, word) ← c.create w.memory
    slot ← get_empty_slot (new_layer true).permutation
    let s : Store = record { nodes = λ _. none; memory = m; fresh = later }
    r ← insert_lv_at (suc (length key)) s p (new_layer true) slot key word c.wants_created 0
    let w' = with_store (record (put_node w p r.node) { root = p }) r.store
    some (put_done Status.ok (changes w' r.created none))
]

-- `root_nullptr`: the exchange of the root fails where another thread has set it.
unfoldable pub put_root_step : Putting → History → Bytes → ℕ → Option (Put × ℕ)
put_root_step c h key t =
    if not ((h t).root == 0)
    then some (put_retry_from_root, t + 1)
    else if not ((h (t + 1)).root == 0)
    then some (put_retry_from_root, t + 1 + 1)
    else do s ← put_root c (h (t + 1)) key; some (s, t + 1 + 1)

-- The split of a full node by `insert_lv`, with the address of the new node.
unfoldable pub put_split : Putting → World → Memory → Ptr → BorderNode → Bytes → ℕ → ℕ → Option Put
put_split c w m b n key word rank = elim w.fresh [
  | [] ↦ none
  | p ∷ later ↦ do
    let s : Store = record { nodes = λ _. none; memory = m; fresh = later }
    let n' = put_version (set_inserting_deleting true n.base.version) n
    r ← split_and_insert (suc (length key)) s b p n' key word c.wants_created rank
    w' ← border_grow (with_store w r.store) b p r.parts
    some (put_done Status.ok (changes w' r.created none))
]

-- `insert_lv` on the node at `b`, which is locked.
unfoldable pub put_entry_at : Putting → World → Ptr → Bytes → Option Put
put_entry_at c w b key = do
  n ← border_at w b
  rank ← compute_rank_if_insert n (prepare key)
  (m, word) ← c.create w.memory
  let n' = put_version (set_locked true n.base.version) n
  if get_cnk n.permutation == key_slice_length then put_split c w m b n' key word rank else do
    r ← insert_lv (suc (length key)) (empty_store w m) b n' key word c.wants_created rank
    some (put_done Status.ok (changes (with_store (put_node w b r.node) r.store) r.created none))

-- A value that is not inline is retired where it was replaced.
abbrev pub retired_of : Bool → ℕ → Memory → Option ℕ → Option (Option RetiredValue)
retired_of true begin_epoch m old = some none
retired_of false begin_epoch m none = some none
retired_of false begin_epoch m (some old) = do
  (o_ptr, o_len, o_align) ← get_gc_info m old
  some (some (begin_epoch, o_ptr, o_len, o_align))

-- `set_value` on the slot of the key.
unfoldable pub put_value_at : Putting → World → Ptr → ℕ → Option Put
put_value_at c w b lv_pos = do
  n ← border_at w b
  (m, word) ← c.create w.memory
  old ← get_lv_at n lv_pos
  r ← set_value m old word c.wants_created (not c.k_is_inline)
  n' ← put_lv_at n lv_pos r.lv
  retired ← retired_of c.k_is_inline c.begin_epoch r.memory r.old_value
  let n'' = put_version (released (set_locked true n'.base.version)) n'
  some (
      put_done Status.ok
        (changes (record (put_node w b n'') { memory = r.memory }) r.created_value retired))

-- Where a check sends `put` back to, if it does.
abbrev pub put_checked :
    VersionBody → VersionBody → VersionBody → Ptr → Bytes → ℕ → Option (Put × ℕ) → Option (Put × ℕ)
put_checked v v_at_fb v_at_fetch_lv b key t next =
    if is_wrong v v_at_fb
    then some (put_retry_from_root, t)
    else if not (v.vinsert_delete == v_at_fetch_lv.vinsert_delete)
    then some (put_fetch_lv b v_at_fb key, t)
    else next

abbrev pub at_time : Option Put → ℕ → Option (Put × ℕ)
at_time none t = none
at_time (some s) t = some (s, t)

-- The lock is taken, the node is checked, and the change is made.
unfoldable pub under_lock :
    ℕ
    → History
    → VersionBody
    → VersionBody
    → Ptr
    → Bytes
    → (World → Option Put)
    → ℕ
    → Option (Put × ℕ)
under_lock fuel h v_at_fb v_at_fetch_lv b key change t = do
  t' ← locked_at fuel h b t
  v ← version_at (h t') b
  put_checked v v_at_fb v_at_fetch_lv b key (t' + 1) (at_time (change (h t')) (t' + 1))

-- The next layer, or back where the node has changed.
unfoldable pub put_below :
    ℕ → History → VersionBody → VersionBody → Ptr → Bytes → ℕ → ℕ → Option (Put × ℕ)
put_below fuel h v_at_fb v_at_fetch_lv b key lv_pos t = do
  n ← border_at (h t) b
  word ← get_lv_at n lv_pos
  (final, t') ← stable_version_at fuel h b (t + 1)
  put_checked final v_at_fb v_at_fetch_lv b key t'
      (some (put_find_border (get_next_layer word) (remove_prefix slice_size key), t'))

-- The entry ends in the layer, but the key does not: the node is checked first.
unfoldable pub put_odd :
    ℕ → History → VersionBody → VersionBody → Ptr → Bytes → ℕ → ℕ → Option (Put × ℕ)
put_odd fuel h v_at_fb v_at_fetch_lv b key lv_pos t = do
  v ← version_at (h t) b
  put_checked v v_at_fb v_at_fetch_lv b key (t + 1)
      (put_below fuel h v_at_fb v_at_fetch_lv b key lv_pos (t + 1))

-- The key is there.
unfoldable pub put_at_slot :
    Putting → ℕ → History → VersionBody → VersionBody → Ptr → Bytes → ℕ → ℕ → Option (Put × ℕ)
put_at_slot c fuel h v_at_fb v_at_fetch_lv b key lv_pos t = do
  n ← border_at (h t) b
  size ← get_key_length_at n.base lv_pos
  if ltb slice_size size
      then put_below fuel h v_at_fb v_at_fetch_lv b key lv_pos (t + 1)
      else if ltb slice_size (key_length key)
      then put_odd fuel h v_at_fb v_at_fetch_lv b key lv_pos (t + 1)
      else if c.unique_restriction
      then some (put_done Status.warn_unique_restriction untouched, t + 1)
      else under_lock fuel h v_at_fb v_at_fetch_lv b key (λ w. put_value_at c w b lv_pos) (t + 1)

abbrev pub put_slot :
    Putting
    → ℕ
    → History
    → VersionBody
    → VersionBody
    → Ptr
    → Bytes
    → Option ℕ
    → ℕ
    → Option (Put × ℕ)
put_slot c fuel h v_at_fb v_at_fetch_lv b key none t =
    under_lock fuel h v_at_fb v_at_fetch_lv b key (λ w. put_entry_at c w b key) t
put_slot c fuel h v_at_fb v_at_fetch_lv b key (some lv_pos) t =
    put_at_slot c fuel h v_at_fb v_at_fetch_lv b key lv_pos t

abbrev pub put_found : Find → Bytes → Option Put
put_found (find_done border v) key = some (put_fetch_lv border v key)
put_found retry_from_root_of_all key = some put_retry_from_root
put_found find_retry key = none
put_found (find_at n v) key = none

unfoldable pub put_step : Putting → ℕ → History → Bytes → Put → ℕ → Option (Put × ℕ)
put_step c fuel h key root_nullptr t = put_root_step c h key t
put_step c fuel h key put_retry_from_root t =
    let root = (h t).root in
    if root == 0 then some (root_nullptr, t + 1) else some (put_find_border root key, t + 1)
put_step c fuel h key (put_find_border root rest) t = do
  (found, t') ← find_border fuel h root (prepare rest) t
  s ← put_found found rest
  some (s, t')
put_step c fuel h key (put_fetch_lv b v_at_fb rest) t = do
  (slot, v_at_fetch_lv, t') ← lv_of_at fuel h b (prepare rest) t
  if is_wrong v_at_fetch_lv v_at_fb
      then some (put_retry_from_root, t')
      else put_slot c fuel h v_at_fb v_at_fetch_lv b rest slot t'
put_step c fuel h key (put_done status e) t = some (put_done status e, t)

-- `put` on fuel for its jumps; each wait and each descent has the same fuel.
unfoldable pub put_from : ℕ → Putting → ℕ → History → Bytes → Put → ℕ → Option (Status × Effect × ℕ)
put_from zero c fuel h key s t = none
put_from (suc jumps) c fuel h key (put_done status e) t = some (status, e, t)
put_from (suc jumps) c fuel h key root_nullptr t = do
  (s, t') ← put_step c fuel h key root_nullptr t
  put_from jumps c fuel h key s t'
put_from (suc jumps) c fuel h key put_retry_from_root t = do
  (s, t') ← put_step c fuel h key put_retry_from_root t
  put_from jumps c fuel h key s t'
put_from (suc jumps) c fuel h key (put_find_border root rest) t = do
  (s, t') ← put_step c fuel h key (put_find_border root rest) t
  put_from jumps c fuel h key s t'
put_from (suc jumps) c fuel h key (put_fetch_lv b v rest) t = do
  (s, t') ← put_step c fuel h key (put_fetch_lv b v rest) t
  put_from jumps c fuel h key s t'

unfoldable pub put : ℕ → Putting → ℕ → History → Bytes → ℕ → Option (Status × Effect × ℕ)
put jumps c fuel h key t = put_from jumps c fuel h key root_nullptr t
