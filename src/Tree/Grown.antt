-- ===== src/Tree/Grown.antt =====
-- `insert_lv` of include/border_helper.h on a node that is locked and has room.
use yakushima.Common.{
  ℕ, suc, ◌≤◌, ◌<◌, ◌≡◌, refl, sym, subst, ◌∙◌, ap, Bool, true, false, List, length, none, some,
  ◌==◌, if◌then◌else◌, arith, insert_at,
}
use yakushima.Key.{Bytes, prepare}
use yakushima.Version.{VersionBody, set_inserting_deleting, set_deleted, released}
use yakushima.Permutation.{get_cnk, get_empty_slot}
use yakushima.LinkOrValue.{get_value, drop_value}
use yakushima.InteriorNode.Routing.{tuple_at}
use yakushima.BorderNode.{BorderNode, compute_rank_if_insert}
use yakushima.BorderNode.Change.{Store, Inserted, insert_lv}
use yakushima.BorderNode.Entries.{Holds, Sorted}
use yakushima.BorderNode.Search.{lookup, compute_rank_if_insert-count_smaller}
use yakushima.BorderNode.Insertion.{insert_lv_at-Placed, prepare-WellFormed}
use yakushima.Tree.Descent.{IsLive}
use yakushima.Tree.Put.{put_version}

-- A node that holds one more entry, with a version that readers accept.
pub record Grown (n : BorderNode) (ps : List ℕ) (p rank : ℕ) (key : Bytes) (word : ℕ)
    (n' : BorderNode) : Type 0 where
  pub holds : Holds n' (insert_at rank p ps)
  pub sorted : Sorted (tuple_at n'.base) (insert_at rank p ps)
  pub entry : tuple_at n'.base p ≡ prepare key
  pub value : n'.lv p ≡ word
  pub live : IsLive n'.base.version
  pub border : n'.base.version.border ≡ true
  pub root : n'.base.version.root ≡ n.base.version.root

-- The version with which `insert_lv` opens a node.
abbrev pub opened : Bool → VersionBody → VersionBody
opened e v = let v' = set_inserting_deleting true v in if e then set_deleted false v' else v'

-- And with which it leaves it.
released-opened :
    (e : Bool) (v : VersionBody)
    → v.deleted ≡ false
    → v.splitting ≡ false
    → IsLive (released (opened e v))
      × ((released (opened e v)).border ≡ v.border)
      × ((released (opened e v)).root ≡ v.root)
unfolding released
released-opened true v kept calm = (
  record { quiet = ground (arith, calm); kept = ground (arith, kept, calm) },
  ground (arith, calm),
  ground (arith, calm),
)
released-opened false v kept calm = (
  record { quiet = ground (arith, calm); kept = ground (arith, kept, calm) },
  ground (arith, calm),
  ground (arith, calm),
)

-- `insert_lv` on a node that is locked and has room.
pub insert_lv-Grown :
    {n : BorderNode} {ps : List ℕ} (fuel : ℕ) (s : Store) (self p : ℕ) (key : Bytes) (word rank : ℕ)
    → Holds n ps
    → Sorted (tuple_at n.base) ps
    → length ps < 15
    → get_empty_slot n.permutation ≡ some p
    → compute_rank_if_insert n (prepare key) ≡ some rank
    → lookup (tuple_at n.base) (prepare key) ps ≡ none
    → length key ≤ 8
    → drop_value s.memory (get_value (n.lv p)) false ≡ some (s.memory, none)
    → n.base.version.deleted ≡ false
    → n.base.version.splitting ≡ false
    → n.base.version.border ≡ true
    → (r : Inserted) × (insert_lv (suc fuel) s self n key word false rank ≡ some r)
      × (r.store ≡ s)
      × (r.created ≡ none)
      × Grown n ps p rank key word r.node
unfolding insert_lv
insert_lv-Grown {n} {ps} fuel s self p key word rank o sorted room empty ranked new short idle kept
      calm leaf =
    let v' = opened (get_cnk n.permutation == 0) n.base.version in
    let n' : BorderNode = record n { base = record n.base { version = v' } } in
    let o' : Holds n' ps = record { order = o.order; word = o.word } in
    let rank' : compute_rank_if_insert n' (prepare key) ≡ some rank =
      compute_rank_if_insert-count_smaller (prepare key) o' sorted (prepare-WellFormed key) new
      ∙ sym
          (compute_rank_if_insert-count_smaller (prepare key) o sorted (prepare-WellFormed key) new)
      ∙ ranked in
    let placed =
      insert_lv_at-Placed {n = n'} fuel s self p key word rank o' sorted room empty rank' new short
        idle in
    let u = released placed.after.node.base.version in
    let same : u ≡ released v' = ap released placed.same_version in
    let facts = released-opened (get_cnk n.permutation == 0) n.base.version kept calm in
    (
      record placed.after { node = put_version u placed.after.node },
      simp (empty, placed.returns) refl,
      placed.same_store,
      placed.no_address,
      record {
        holds = record { order = placed.holds.order; word = placed.holds.word };
        sorted = placed.sorted;
        entry = placed.entry;
        value = placed.value;
        live = subst IsLive (sym same) facts.0;
        border = ap (λ x. x.border) same ∙ facts.1 ∙ leaf;
        root = ap (λ x. x.root) same ∙ facts.2;
      },
    )
