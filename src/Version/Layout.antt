-- ===== src/Version/Layout.antt =====
-- The comparison of version words decides equality.
use yakushima.Common.{Bool, false, ==_iff, ◌<◌, ◌≡◌, ◌↔◌, true, arith, ap}
use yakushima.Version.{VersionBody, counter_mod, bit, image, equal}

-- The counters fit their 29 bits.
pub record IsBody (v : VersionBody) : Type 0 where
  pub vinsert_delete : v.vinsert_delete < counter_mod
  pub vsplit : v.vsplit < counter_mod

bit-lt : (b : Bool) → bit b < 2
bit-lt true = omega arith
bit-lt false = omega arith

bit-injective : (a b : Bool) → bit a ≡ bit b → a ≡ b
bit-injective a b h = ground arith

ruleset fields = (arith, bit-lt)

image-injective : (v w : VersionBody) → IsBody v → IsBody w → image v ≡ image w → v ≡ w
unfolding image
image-injective v w p q e = λ i. record {
  vinsert_delete = vinsert_delete i;
  locked = bit-injective v.locked w.locked locked i;
  inserting_deleting = bit-injective v.inserting_deleting w.inserting_deleting inserting i;
  splitting = bit-injective v.splitting w.splitting splitting i;
  vsplit = vsplit i;
  deleted = bit-injective v.deleted w.deleted deleted i;
  root = bit-injective v.root w.root root i;
  border = bit-injective v.border w.border border i;
}
  where
    vinsert_delete : v.vinsert_delete ≡ w.vinsert_delete
    vinsert_delete = omega fields

    vsplit : v.vsplit ≡ w.vsplit
    vsplit = omega fields

    locked : bit v.locked ≡ bit w.locked
    locked = omega fields

    inserting : bit v.inserting_deleting ≡ bit w.inserting_deleting
    inserting = omega fields

    splitting : bit v.splitting ≡ bit w.splitting
    splitting = omega fields

    deleted : bit v.deleted ≡ bit w.deleted
    deleted = omega fields

    root : bit v.root ≡ bit w.root
    root = omega fields

    border : bit v.border ≡ bit w.border
    border = omega fields

-- Two version words compare equal exactly when every field is the same.
pub equal_iff : {v w : VersionBody} → IsBody v → IsBody w → (equal v w ≡ true) ↔ (v ≡ w)
unfolding equal
equal_iff {v} {w} p q =
    (λ h. image-injective v w p q ((==_iff _ _).0 h), λ e. (==_iff _ _).1 (ap image e))
