-- ===== src/BorderNode/Deletion.antt =====
-- `delete_of` removes the entry of a key and leaves the others.
use Prim.Native.Nat.{Ordering}
use yakushima.Common.{
  ℕ, zero, suc, ◌+◌, ◌<◌, ◌≡◌, ◌≢◌, refl, sym, subst, ◌∙◌, ap, Bool, true, false, ◌==◌, ==_refl,
  ◌&&◌, List, [], ◌∷◌, All, length, get_elem?, lt-length_of_get_elem?, remove_at, length-remove_at,
  bind-some, All-remove_at, Option, some, none, some_inj, if◌then◌else◌, arith, Bool-cases, inl,
  inr, ◌⊎◌, update, lt→ltb, ◌%◌, ◌^◌,
}
use yakushima.Key.{KeyTuple, memcmp, key_compare}
use yakushima.Key.Lex.{memcmp_self}
use yakushima.BaseNode.{BaseNode, zero_slice}
use yakushima.Version.{VersionBody, released}
use yakushima.Value.{Memory, Header, is_value_ptr, remove_ptr_flag, remove_delete_flag, get_gc_info}
use yakushima.LinkOrValue.{get_value, init_lv}
use yakushima.Permutation.{get_cnk, delete_rank, dec_key_num}
use yakushima.Permutation.Slots.{Slot}
use yakushima.Permutation.Refinement.{encode, delete-encode}
use yakushima.InteriorNode.Routing.{tuple_at}
use yakushima.BorderNode.{BorderNode, get_lv_at, put_lv_at}
use yakushima.BorderNode.Change.{
  Retiring, RetiredValue, retire, retire_at, delete_at, is_target, target_from, mark_empty,
  delete_of,
}
use yakushima.BorderNode.Entries.{WellFormed, Holds, Sorted, All-get_elem?, key_compare_trans}
use yakushima.BorderNode.Present.{key_compare_sym}
use yakushima.BorderNode.Search.{
  lookup, lookup-none, nothing_behind, From, From-start, From-tail, From-entry, cnk-Holds,
  lookup-found,
}

-- The test of `delete_of` decides equality.
is_target-key_compare :
    {key target : KeyTuple}
    → WellFormed key
    → WellFormed target
    → is_target key target ≡ elim (key_compare key target) [ Ordering.eq ↦ true | _ ↦ false ]
unfolding is_target key_compare
is_target-key_compare {key} {target} p q = elim (Bool-cases (key.size == 0 && target.size == 0)) [
  | inl empty ↦
      let same : memcmp 8 key.slice target.slice ≡ Ordering.eq =
        rw (p.empty (ground arith), q.empty (ground arith)) (memcmp_self 8 zero_slice) in
      ground (arith, same)
  | inr some_size ↦ ground (arith, some_size)
]

-- The value of a word can be read.
abbrev pub IsOwned : Memory → ℕ → Type 0
IsOwned m vp = (is_value_ptr vp ≡ false) ⊎ ((h : Header) × (m.header (remove_ptr_flag vp) ≡ some h))

-- What `retire_at` leaves of a node: all but the word of the slot.
record Kept (n : BorderNode) (pos : ℕ) (result : Option Retiring) : Type 0 where
  after : Retiring
  returns : result ≡ some after
  same_base : after.node.base ≡ n.base
  same_order : after.node.permutation ≡ n.permutation
  others : (q : ℕ) → q ≢ pos → after.node.lv q ≡ n.lv q
  inline : is_value_ptr (get_value (n.lv pos)) ≡ false → after.node.lv pos ≡ n.lv pos
  same_prev : after.node.prev ≡ n.prev
  same_next : after.node.next ≡ n.next

abbrev cleared : BorderNode → ℕ → BorderNode
cleared n pos = record n { lv = update n.lv pos init_lv }

cleared-Kept :
    (n : BorderNode) (pos : ℕ) (m : Memory) (retired : Option RetiredValue)
    {result : Option Retiring}
    → is_value_ptr (get_value (n.lv pos)) ≡ true
    → result ≡ some (record { node = cleared n pos; memory = m; retired = retired })
    → Kept n pos result
cleared-Kept n pos m retired pointer e = record {
  after = record { node = cleared n pos; memory = m; retired = retired };
  returns = e;
  same_base = refl;
  same_order = refl;
  others = λ q apart. ground arith;
  inline = λ plain. absurd (ground (arith, pointer, plain));
  same_prev = refl;
  same_next = refl;
}

retire-Kept :
    (n : BorderNode) (m : Memory) (begin_epoch pos vp : ℕ) {h : Header}
    → pos < 15
    → is_value_ptr (get_value (n.lv pos)) ≡ true
    → m.header (remove_ptr_flag vp) ≡ some h
    → Kept n pos (retire n m begin_epoch pos vp)
unfolding retire remove_delete_flag get_gc_info put_lv_at
retire-Kept n m begin_epoch pos vp {h} fits pointer owned =
    elim (Bool-cases (remove_ptr_flag vp == vp)) [
      | inl e ↦
          cleared-Kept n pos m (some (begin_epoch, 0, 0, 0)) pointer
            (simp (e, lt→ltb pos 15 fits) refl)
      | inr e ↦
          let m' : Memory = record m {
            header = update m.header (remove_ptr_flag vp) (some (record h { need_delete = false }));
          } in
          cleared-Kept n pos m'
            (some (begin_epoch, remove_ptr_flag vp, (h.len + h.align) % 2 ^ 32, h.align)) pointer
            (simp (e, owned, lt→ltb pos 15 fits) (simp (==_refl (remove_ptr_flag vp)) refl))
    ]

retire_at-plain :
    (n : BorderNode) (m : Memory) (begin_epoch pos : ℕ)
    → pos < 15
    → is_value_ptr (get_value (n.lv pos)) ≡ false
    → Kept n pos (retire_at n m begin_epoch pos true)
unfolding retire_at get_lv_at
retire_at-plain n m begin_epoch pos fits plain = record {
  after = record { node = n; memory = m; retired = none };
  returns = simp (lt→ltb pos 15 fits, plain) refl;
  same_base = refl;
  same_order = refl;
  others = λ q apart. refl;
  inline = λ plain. refl;
  same_prev = refl;
  same_next = refl;
}

retire_at-Kept :
    (n : BorderNode) (m : Memory) (begin_epoch pos : ℕ) (target_is_value : Bool)
    → pos < 15
    → IsOwned m (get_value (n.lv pos))
    → Kept n pos (retire_at n m begin_epoch pos target_is_value)
unfolding retire_at get_lv_at
retire_at-Kept n m begin_epoch pos false fits owned = record {
  after = record { node = n; memory = m; retired = none };
  returns = refl;
  same_base = refl;
  same_order = refl;
  others = λ q apart. refl;
  inline = λ plain. refl;
  same_prev = refl;
  same_next = refl;
}
retire_at-Kept n m begin_epoch pos true fits (inl plain) =
    retire_at-plain n m begin_epoch pos fits plain
retire_at-Kept n m begin_epoch pos true fits (inr (h, owned)) =
    elim (Bool-cases (is_value_ptr (get_value (n.lv pos)))) [
      | inl e ↦
          let opened : retire_at n m begin_epoch pos true
              ≡ retire n m begin_epoch pos (get_value (n.lv pos)) =
            simp (lt→ltb pos 15 fits, e) refl in
          subst (Kept n pos) (sym opened)
            (retire-Kept n m begin_epoch pos (get_value (n.lv pos)) fits e owned)
      | inr plain ↦ retire_at-plain n m begin_epoch pos fits plain
    ]

module _ {n : BorderNode} {ps : List ℕ} (key : KeyTuple) (o : Holds n ps) (w : WellFormed key) where
  -- The search of `delete_of` finds the slot that the search of `get_lv_of` finds, and its rank.
  target_from-lookup :
      (i : ℕ) (qs : List ℕ) (q : ℕ)
      → Sorted (tuple_at n.base) qs
      → From ps i qs
      → lookup (tuple_at n.base) key qs ≡ some q
      → (j : ℕ) × (target_from (length qs) n key i ≡ some (some (i + j, q)))
        × (get_elem? qs j ≡ some q)
  unfolding target_from lookup
  target_from-lookup i [] q s at_i e = absurd (ground arith)
  target_from-lookup i (p ∷ qs) q s at_i e =
      let test = is_target-key_compare w s.0 in
      let here = From-entry key o w i p qs at_i in
      elim (Bool-cases (is_target key (tuple_at n.base p))) [
        | inl hit ↦
            let same : p ≡ q = ground (arith, test, hit, e) in
            (
              0,
              rw (target_from, here, hit)
                  (ap (λ (x : ℕ). some (some (i, x))) same
                    ∙ ap (λ (r : ℕ). some (some (r, q))) {x = i} {y = i + 0} (omega arith)),
              ap some same,
            )
        | inr miss ↦
            let later : lookup (tuple_at n.base) key qs ≡ some q = ground (arith, test, miss, e) in
            let (j, found, at_j) =
              target_from-lookup (i + 1) qs q s.2 (From-tail ps i p qs at_i) later in
            (
              suc j,
              rw (target_from, here, miss)
                  (found
                    ∙ ap (λ (r : ℕ). some (some (r, q))) {x = i + 1 + j} {y = i + suc j}
                        (omega arith)),
              at_j,
            )
      ]

Sorted-WellFormed : (f : ℕ → KeyTuple) (ps : List ℕ) → Sorted f ps → All (λ r. WellFormed (f r)) ps
Sorted-WellFormed f [] s = tt
Sorted-WellFormed f (p ∷ ps) s = (s.0, Sorted-WellFormed f ps s.2)

-- The entries that are left.
module _ (f : ℕ → KeyTuple) (k : KeyTuple) (w : WellFormed k) where
  lookup-remove_at :
      (ps : List ℕ) (rank : ℕ) {q : ℕ}
      → Sorted f ps
      → get_elem? ps rank ≡ some q
      → (key_compare k (f q) ≢ Ordering.eq → lookup f k (remove_at rank ps) ≡ lookup f k ps)
        × (key_compare k (f q) ≡ Ordering.eq → lookup f k (remove_at rank ps) ≡ none)
  unfolding lookup
  lookup-remove_at [] rank s e = absurd (ground arith)
  lookup-remove_at (p ∷ ps) zero {q} s e =
      let same : p ≡ q = some_inj e in
      let test : key_compare k (f p) ≡ key_compare k (f q) = ap (λ r. key_compare k (f r)) same in
      (
        λ apart. ground (arith, test, apart),
        λ hit.
            lookup-none f k ps
              (nothing_behind f k p ps w (λ more. absurd (ground (arith, test, hit, more))) s),
      )
  lookup-remove_at (p ∷ ps) (suc rank) {q} s e =
      let ih = lookup-remove_at ps rank s.2 e in
      let less : key_compare (f p) (f q) ≡ Ordering.lt =
        All-get_elem? (λ r. key_compare (f p) (f r) ≡ Ordering.lt) ps rank s.1 e in
      let fine = All-get_elem? (λ r. WellFormed (f r)) ps rank (Sorted-WellFormed f ps s.2) e in
      let t = key_compare_trans w s.0 fine in
      (λ apart. ground (arith, ih.0, apart), λ hit. ground (arith, ih.1, hit, t.1, less))

Sorted-remove_at :
    (f : ℕ → KeyTuple) (ps : List ℕ) (rank : ℕ) → Sorted f ps → Sorted f (remove_at rank ps)
Sorted-remove_at f [] rank s = tt
Sorted-remove_at f (p ∷ ps) zero s = s.2
Sorted-remove_at f (p ∷ ps) (suc rank) s = (
  s.0,
  All-remove_at (λ r. key_compare (f p) (f r) ≡ Ordering.lt) rank ps s.1,
  Sorted-remove_at f ps rank s.2,
)

-- What `delete_of` leaves.
pub record Deleted (n : BorderNode) (ps : List ℕ) (key : KeyTuple) (q : ℕ) (v : VersionBody)
    (result : Option Retiring) : Type 0 where
  pub after : Retiring
  pub left : List ℕ
  pub returns : result ≡ some after
  pub holds : Holds after.node left
  pub sorted : Sorted (tuple_at after.node.base) left
  pub fewer : suc (length left) ≡ length ps
  pub gone : lookup (tuple_at after.node.base) key left ≡ none
  pub others :
      (k : KeyTuple)
      → WellFormed k
      → key_compare k key ≢ Ordering.eq
      → lookup (tuple_at after.node.base) k left ≡ lookup (tuple_at n.base) k ps
  pub values : (r : ℕ) → r ≢ q → after.node.lv r ≡ n.lv r
  pub inline : is_value_ptr (get_value (n.lv q)) ≡ false → after.node.lv q ≡ n.lv q
  pub version : after.node.base.version ≡ v
  pub same_parent : after.node.base.parent ≡ n.base.parent
  pub same_prev : after.node.prev ≡ n.prev
  pub same_next : after.node.next ≡ n.next

-- The version that `delete_of` leaves on a node with so many entries.
abbrev pub deleted_version : ℕ → Bool → VersionBody → VersionBody
deleted_version cnk is_tree_root v = if cnk == 1 then mark_empty is_tree_root v else released v

-- On a node whose entries are in order and that holds a key, `delete_of` removes the entry of the key
-- and no other: no other key is found or missed because of it, the entries stay in order, the
-- values in the other slots stay, and so does an inline value in the slot of the entry. It faults nowhere where the value of the entry can be read.
pub delete_of-Deleted :
    {n : BorderNode} {ps : List ℕ} (key : KeyTuple) (m : Memory) (begin_epoch : ℕ)
    (target_is_value is_tree_root : Bool) {q : ℕ}
    → Holds n ps
    → Sorted (tuple_at n.base) ps
    → WellFormed key
    → lookup (tuple_at n.base) key ps ≡ some q
    → IsOwned m (get_value (n.lv q))
    → Deleted n ps key q
        (deleted_version (length ps) is_tree_root n.base.version)
        (delete_of n m begin_epoch key target_is_value is_tree_root)
unfolding delete_of delete_at
delete_of-Deleted {n} {ps} key m begin_epoch target_is_value is_tree_root {q} o s w found owned =
    let (rank, target, at_rank) = target_from-lookup key o w 0 ps q s (From-start ps) found in
    let fits : q < 15 = All-get_elem? Slot ps rank o.order.small at_rank in
    let below : rank < length ps = lt-length_of_get_elem? ps rank at_rank in
    let cnk : get_cnk n.permutation ≡ length ps = cnk-Holds key o w in
    let r = retire_at-Kept n m begin_epoch q target_is_value fits owned in
    let cut = delete-encode rank o.order below in
    let (word, dropped, counted) = bind-some (delete_rank (encode ps) rank) dec_key_num cut.0 in
    let dropped' : delete_rank r.after.node.permutation rank ≡ some word =
      ap (λ x. delete_rank x rank) (r.same_order ∙ o.word) ∙ dropped in
    let f = tuple_at n.base in
    let keys : tuple_at r.after.node.base ≡ f = ap tuple_at r.same_base in
    let v = deleted_version (length ps) is_tree_root r.after.node.base.version in
    let target' : target_from (length ps) n key 0 ≡ some (some (rank, q)) =
      target ∙ ap (λ (x : ℕ). some (some (x, q))) {x = 0 + rank} {y = rank} (omega arith) in
    let match = lookup-found (λ r. WellFormed (f r)) f key ps (Sorted-WellFormed f ps s) found in
    record {
      after = record r.after {
        node = record r.after.node {
          base = record r.after.node.base { version = v };
          permutation = dec_key_num word;
        };
      };
      left = remove_at rank ps;
      returns = simp (cnk) (simp (target', r.returns, cnk) (simp (dropped') refl));
      holds = record { order = cut.1; word = counted };
      sorted = subst (λ g. Sorted g (remove_at rank ps)) (sym keys) (Sorted-remove_at f ps rank s);
      fewer = length-remove_at rank ps below;
      gone =
          ap (λ g. lookup g key (remove_at rank ps)) keys
          ∙ (lookup-remove_at f key w ps rank s at_rank).1 match.1;
      others = λ k wk apart.
          ap (λ g. lookup g k (remove_at rank ps)) keys
          ∙ (lookup-remove_at f k wk ps rank s at_rank).0 (λ hit.
              apart
                (sym ((key_compare_trans wk match.0 w).1 hit) ∙ key_compare_sym key (f q) match.1));
      values = r.others;
      inline = r.inline;
      same_parent = ap (λ (b : BaseNode). b.parent) r.same_base;
      same_prev = r.same_prev;
      same_next = r.same_next;
      version =
          ap (λ (b : BaseNode). deleted_version (length ps) is_tree_root b.version) r.same_base;
    }
