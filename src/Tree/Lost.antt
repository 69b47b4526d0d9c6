-- ===== src/Tree/Lost.antt =====
-- `put` of a key whose entry is removed between the reads of `put` and its lock.
use yakushima.Common.{
  ℕ, zero, suc, ◌+◌, ◌≤◌, ◌<◌, ◌≡◌, refl, sym, subst, ap, ◌∙◌, true, false, [], length, Option,
  none, some, ◌==◌, ltb, lt→ltb, if◌then◌else◌, update, inl, inr, Bool-cases, arith,
}
use yakushima.Scheme.{Status}
use yakushima.Key.{Bytes, KeyTuple, prepare, key_length}
use yakushima.BaseNode.{Ptr, get_key_length_at}
use yakushima.Version.{VersionBody, released, set_locked, stable}
use yakushima.Value.{Memory, is_value_ptr, remove_ptr_flag, need_delete}
use yakushima.LinkOrValue.{set_value, drop_value, created_body, get_value}
use yakushima.InteriorNode.Routing.{tuple_at}
use yakushima.BorderNode.{BorderNode, search, get_lv_at, put_lv_at}
use yakushima.BorderNode.Change.{RetiredValue}
use yakushima.Permutation.Slots.{Slot}
use yakushima.BorderNode.Search.{lookup, lookup-found}
use yakushima.Tree.{
  World, History, border_node, border_at, version_at, stable_version_at, lv_of_at, lv_from,
}
use yakushima.Tree.Descent.{still, IsLive, border_at-here, equal_refl}
use yakushima.Tree.Get.{get, is_wrong}
use yakushima.Tree.Layers.{
  key_compare-size, Layer, Stores, absent, node-IsLive, is_wrong_self, found-Layer, node_version,
}
use yakushima.Tree.Lookup.{get-Stores}
use yakushima.Tree.Moved.{Descent-moved, update_here, update_other}
use yakushima.Tree.RemoveGet.{After, remove_under_lock-After, released-locked}
use yakushima.Tree.RemoveSteps.{remove-entry}
use yakushima.Tree.Remove.{remove, removes}
use yakushima.Tree.Put.{
  Putting, changes, put_done, put_value_at, put_version, put_node, under_lock, locked_at,
  put_at_slot, put_step, put_from, put_fetch_lv,
}

-- The tree changes once, at the time `switch`.
abbrev pub changed_at : ℕ → World → World → History
changed_at switch w w' t = if ltb t switch then w else w'

-- An inline value, by the two tests of the code.
pub record IsInline (v : ℕ) : Type 0 where
  pub no_ptr : is_value_ptr v ≡ false
  pub no_flag : (remove_ptr_flag v == v) ≡ true

-- `put` of inline values that does not ask for the address and takes keys that are there.
pub record PutsInline (c : Putting) (word : ℕ) : Type 0 where
  pub inline : c.k_is_inline ≡ true
  pub all : c.unique_restriction ≡ false
  pub plain : c.wants_created ≡ false
  pub made : (m : Memory) → c.create m ≡ some (m, word)

set_value-inline :
    (m : Memory) (lv word : ℕ)
    → IsInline (get_value lv)
    → set_value m lv word false false
      ≡ some (record { lv = word; memory = m; old_value = none; created_value = none })
unfolding set_value drop_value created_body need_delete
set_value-inline m lv word i = elim (Bool-cases (get_value lv == 0)) [
  | inl e ↦ simp (e) refl
  | inr e ↦ simp (e, i.no_flag) refl
]

-- A version is locked and unlocked without a mark: the counters stay.
released-counters :
    (v : VersionBody)
    → IsLive v
    → (is_wrong (released (set_locked true v)) v ≡ false)
      × (((released (set_locked true v)).vinsert_delete == v.vinsert_delete) ≡ true)
unfolding released
released-counters v live = (ground (arith, live.quiet, live.kept), ground (arith, live.quiet))

released-free : (v : VersionBody) → (released (set_locked true v)).locked ≡ false
unfolding released
released-free v = refl

-- A version that is read once and accepted.
stable_version_at-read :
    (fuel : ℕ) (h : History) (b : Ptr) (t : ℕ) {w : World} {v : VersionBody}
    → h t ≡ w
    → version_at w b ≡ some v
    → stable v ≡ true
    → stable_version_at (suc fuel) h b t ≡ some (v, t + 1)
unfolding stable_version_at
stable_version_at-read fuel h b t now at_b quiet = simp (now) (simp (at_b) (simp (quiet) refl))

-- The reads of `get_lv_of` while the tree stays the same.
lv_of_at-reads :
    (fuel : ℕ) (h : History) (key : KeyTuple) (b : Ptr) (t : ℕ) {w : World} {n : BorderNode}
    {v : VersionBody} {slot : Option ℕ}
    → h t ≡ w
    → h (t + 1) ≡ w
    → h (t + 1 + 1) ≡ w
    → border_at w b ≡ some n
    → version_at w b ≡ some v
    → stable v ≡ true
    → search n key ≡ some slot
    → lv_of_at (suc (suc fuel)) h b key t ≡ some (slot, v, t + 1 + 1 + 1)
unfolding lv_of_at lv_from
lv_of_at-reads fuel h key b t {v = v} one two three here at_b quiet found =
    simp (stable_version_at-read (suc fuel) h b t one at_b quiet) (
      simp (two) (
        simp (here, found)
          (simp (stable_version_at-read fuel h b (t + 1 + 1) three at_b quiet)
            (simp (equal_refl v) refl))))

module _ (c : Putting) {w : World} {most : ℕ} {key : Bytes} (l : Layer w w.root key most)
    {q word : ℕ} (p : PutsInline c word)
    (found : lookup (tuple_at l.node.base) (prepare key) l.slots ≡ some q) (short : length key ≤ 8)
    (several : 1 < length l.slots) (old : IsInline (get_value (l.node.lv q))) (begin_epoch : ℕ)
    {w' : World} (a : After l found short several (inl old.no_ptr) begin_epoch w') where
  fits : q < 15
  fits =
      (lookup-found Slot (tuple_at l.node.base) (prepare key) l.slots l.holds.order.small found).0

  size : l.node.base.lengths q ≡ key_length key
  size = sym (
      key_compare-size (prepare key) (tuple_at l.node.base q)
        (lookup-found Slot (tuple_at l.node.base) (prepare key) l.slots l.holds.order.small
          found).1)

  -- The node with the word in the slot that is no longer in use.
  written : BorderNode
  written =
      let n : BorderNode = record a.leaf { lv = update a.leaf.lv q word } in
      put_version (released (set_locked true a.leaf.base.version)) n

  lost_world : World
  lost_world = put_node w' l.border written

  put_value_at-written :
      put_value_at c w' l.border q ≡ some (put_done Status.ok (changes lost_world none none))
  unfolding put_value_at get_lv_at put_lv_at written lost_world
  put_value_at-written =
      let same : a.leaf.lv q ≡ l.node.lv q = a.inline old.no_ptr in
      simp
        (
          border_at-here w' l.border a.at_b,
          p.made w'.memory,
          lt→ltb q 15 fits,
          p.inline,
          p.plain,
          same,
          set_value-inline w'.memory (l.node.lv q) word old,
        )
        refl

  under_lock-written :
      (fuel t : ℕ) (h : History)
      → h t ≡ w'
      → under_lock
          (suc fuel)
          h
          l.node.base.version
          l.node.base.version
          l.border
          key
          (λ x. put_value_at c x l.border q)
          t
        ≡ some (put_done Status.ok (changes lost_world none none), t + 1)
  unfolding under_lock locked_at version_at
  under_lock-written fuel t h now =
      let live = (node-IsLive l).0 in
      let counters = released-counters l.node.base.version live in
      let free : a.leaf.base.version.locked ≡ false =
        ap (λ v. v.locked) a.version ∙ released-free l.node.base.version in
      let right : is_wrong a.leaf.base.version l.node.base.version ≡ false =
        ap (λ v. is_wrong v l.node.base.version) a.version ∙ counters.0 in
      let counted : (a.leaf.base.version.vinsert_delete == l.node.base.version.vinsert_delete)
          ≡ true =
        ap (λ (v : VersionBody). v.vinsert_delete == l.node.base.version.vinsert_delete) a.version
        ∙ counters.1 in
      simp (locked_at, now, a.at_b, free) (simp (right, counted, put_value_at-written) refl)

  -- `put` from its label `retry_fetch_lv` on, where the tree changes in front of its lock.
  put_from-lost :
      (jumps fuel t : ℕ) (h : History)
      → h t ≡ w
      → h (t + 1) ≡ w
      → h (t + 1 + 1) ≡ w
      → h (t + 1 + 1 + 1) ≡ w
      → h (t + 1 + 1 + 1 + 1) ≡ w'
      → put_from
          (suc (suc jumps))
          c
          (suc (suc fuel))
          h
          key
          (put_fetch_lv l.border l.node.base.version key)
          t
        ≡ some (Status.ok, changes lost_world none none, t + 1 + 1 + 1 + 1 + 1)
  unfolding put_from put_step put_at_slot get_key_length_at
  put_from-lost jumps fuel t h one two three four now =
      let live = (node-IsLive l).0 in
      let here = border_at-here w l.border l.here in
      let small : ltb 8 (key_length key) ≡ false = ground (arith, short) in
      simp
        (lv_of_at-reads fuel h (prepare key) l.border t one two three here (node_version l)
          live.quiet (found-Layer w most l found))
        (simp (is_wrong_self l.node.base.version live) (
          simp (four) (
            simp (here) (
              simp (lt→ltb q 15 fits, size)
                (simp (small, p.all)
                  (simp (under_lock-written (suc fuel) (t + 1 + 1 + 1 + 1) h now) refl))))))

  lost_root : (w.root == 0) ≡ false → (lost_world.root == 0) ≡ false
  unfolding lost_world
  lost_root there = ap (λ r. r == 0) a.root ∙ there

  lost-Stores : Stores lost_world most 0 lost_world.root key none
  unfolding written lost_world
  lost-Stores =
      let v = a.leaf.base.version in
      let live = (node-IsLive l).0 in
      let first = released-locked l.node.base.version live in
      let live_v : IsLive v = subst IsLive (sym a.version) first.0 in
      let facts = released-locked v live_v in
      let (v', way, is_root) =
        Descent-moved {u = released (set_locked true v)} l.here
          (update_here w'.nodes l.border (some (border_node written)))
          (λ x other.
            update_other w'.nodes l.border (some (border_node written)) x other ∙ a.others x other)
          refl facts.0
          (facts.1 ∙ ap (λ (x : VersionBody). x.border) a.version ∙ first.1 ∙ (node-IsLive l).1)
          (facts.2 ∙ ap (λ (x : VersionBody). x.root) a.version ∙ first.2) l.path in
      let layer : Layer lost_world w.root key most = record {
        turns = l.turns;
        few = l.few;
        border = l.border;
        version = v';
        path = way;
        is_root = is_root ∙ l.is_root;
        node = written;
        slots = a.left;
        here = update_here w'.nodes l.border (some (border_node written));
        holds = record { order = a.holds.order; word = a.holds.word };
        sorted = a.sorted;
      } in
      subst (λ r. Stores lost_world most 0 r key none) (sym a.root) (absent w.root key layer a.gone)

-- Where the tree holds a key of at most 8 bytes in a border node with other entries, and an inline
-- value for it: `remove` of the key returns `OK`; and if this happens while a `put` of an inline
-- value for the same key has done its reads of the border node, from its label `retry_fetch_lv` on,
-- but has not taken the lock, then its checks under the lock pass, `put` returns `OK` after the
-- `remove`, and in the tree that it leaves `get` does not find the key. The node is in the first
-- layer, `put` takes keys that are there and does not ask for the address of the value, and neither
-- the root nor the node is null. Four jumps are enough for
-- `remove` and `get`, and two for the rest of `put`.
pub put-lost :
    (c : Putting) {w : World} {most : ℕ} {key : Bytes} (l : Layer w w.root key most) {q word : ℕ}
    (begin_epoch jumps fuel t : ℕ)
    → PutsInline c word
    → lookup (tuple_at l.node.base) (prepare key) l.slots ≡ some q
    → length key ≤ 8
    → 1 < length l.slots
    → IsInline (get_value (l.node.lv q))
    → (w.root == 0) ≡ false
    → (l.border == 0) ≡ false
    → most ≤ fuel
    → 4 ≤ jumps
    → (w' : World) × (w'' : World) × (retired : Option RetiredValue) × (t1 : ℕ) × (t2 : ℕ) × (remove
          jumps begin_epoch
          (suc (suc (suc fuel)))
          (still w)
          key
          0
        ≡ some (Status.ok, removes w' retired [], t1))
      × (put_from jumps c
            (suc (suc (suc fuel)))
            (changed_at (t + 4) w w')
            key
            (put_fetch_lv l.border l.node.base.version key)
            t
          ≡ some (Status.ok, changes w'' none none, t + 1 + 1 + 1 + 1 + 1))
      × (get jumps (suc (suc (suc fuel))) (still w'') key 0
          ≡ some (record { status = Status.warn_not_exist; out = none }, t2))
put-lost c l begin_epoch zero fuel t p found short several old there some_border enough many =
    absurd (omega arith)
put-lost c l begin_epoch (suc zero) fuel t p found short several old there some_border enough many =
    absurd (omega arith)
put-lost c {w} {key = key} l {q} begin_epoch (suc (suc jumps)) fuel t p found short several old
      there some_border enough many =
    let owned = inl old.no_ptr in
    let (w', retired, entry, a) =
      remove_under_lock-After l found short several owned begin_epoch (suc (suc (suc fuel))) in
    let (t1, e) =
      remove-entry l found short begin_epoch fuel entry (suc (suc jumps)) there some_border enough
        many in
    let (t2, e') =
      get-Stores (suc jumps) fuel 0 (lost_root c l p found short several old begin_epoch a there)
        (lost-Stores c l p found short several old begin_epoch a) refl enough
        (omega (arith, many)) in
    let h = changed_at (t + 4) w w' in
    (
      w',
      lost_world c l p found short several old begin_epoch a,
      retired,
      t1,
      t2,
      e,
      put_from-lost c l p found short several old begin_epoch a jumps (suc fuel) t h (ground arith)
          (ground arith) (ground arith) (ground arith) (ground arith),
      e',
    )
