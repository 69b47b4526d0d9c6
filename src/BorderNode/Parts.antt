-- ===== src/BorderNode/Parts.antt =====
-- The split of a full border node: the entries of the lower ranks stay, those of the upper ranks go
-- to the new node in the same order.
use yakushima.Common.{
  ℕ, zero, suc, ◌+◌, ◌≤◌, ◌<◌, ◌≡◌, ◌≢◌, refl, subst, ◌∙◌, ap, true, false, ◌==◌, List, [], ◌∷◌,
  ◌++◌, length, get_elem?, remove_at, has, Distinct, Option, some, some_inj, if◌then◌else◌, arith,
  update, lt→ltb, bind-some, Bool-cases, inl, inr,
}
use yakushima.BaseNode.{Ptr, zero_slice, set_key, set_key_slice_at, set_key_length_at, init_base_at}
use yakushima.Version.{set_splitting}
use yakushima.LinkOrValue.{get_next_layer, init_lv}
use yakushima.Permutation.{get_index_of_rank, delete_rank, dec_key_num}
use yakushima.Permutation.Slots.{Slot}
use yakushima.Permutation.Refinement.{encode, IsOrder, delete-encode, get_index_of_rank-encode}
use yakushima.Permutation.Split.{count_from, split_dest-encode}
use yakushima.InteriorNode.Routing.{tuple_at, key_at-in_range}
use yakushima.BorderNode.{BorderNode, get_lv_at, put_lv_at, init_border_at, init_border}
use yakushima.BorderNode.Entries.{Holds, All-get_elem?}
use yakushima.BorderNode.Split.{
  Parts, put_entry, drop_rank, move_entry, move_entries, split_entries,
}

get_elem?-append :
    (xs : List ℕ) (y : ℕ) (ys : List ℕ) → get_elem? (xs ++ y ∷ ys) (length xs) ≡ some y
get_elem?-append [] y ys = refl
get_elem?-append (x ∷ xs) y ys = get_elem?-append xs y ys

remove_at-append :
    (xs : List ℕ) (y : ℕ) (ys : List ℕ) → remove_at (length xs) (xs ++ y ∷ ys) ≡ xs ++ ys
remove_at-append [] y ys = refl
remove_at-append (x ∷ xs) y ys = ap (λ zs. x ∷ zs) (remove_at-append xs y ys)

pub length-append : (xs ys : List ℕ) → length (xs ++ ys) ≡ length xs + length ys
length-append [] ys = omega arith
length-append (x ∷ xs) ys = omega (arith, length-append xs ys)

append-[] : (xs : List ℕ) → xs ++ [] ≡ xs
append-[] [] = refl
append-[] (x ∷ xs) = ap (λ zs. x ∷ zs) (append-[] xs)

-- An element behind the first part is in no other place.
Distinct-append : (xs : List ℕ) (y : ℕ) (ys : List ℕ) → Distinct (xs ++ y ∷ ys) → has y ys ≡ false
Distinct-append [] y ys d = d.0
Distinct-append (x ∷ xs) y ys d = Distinct-append xs y ys d.1

has-get_elem? : (ys : List ℕ) (i : ℕ) {q y : ℕ} → has y ys ≡ false → get_elem? ys i ≡ some q → q ≢ y
has-get_elem? [] i h e = absurd (ground arith)
has-get_elem? (x ∷ ys) zero h e = ground (arith, h, some_inj e)
has-get_elem? (x ∷ ys) (suc i) h e = has-get_elem? ys i (ground (arith, h)) e

-- The entry at a slot goes.
abbrev cleared : BorderNode → ℕ → ℕ → BorderNode
cleared n y word = record n {
  base = record n.base {
    slices = update n.base.slices y zero_slice;
    lengths = update n.base.lengths y 0;
  };
  lv = update n.lv y init_lv;
  permutation = word;
}

-- The entry at the slot `y` of the one node comes to the slot `j` of the other.
abbrev copied : BorderNode → BorderNode → ℕ → ℕ → BorderNode
copied n from y j = record n {
  base = record n.base {
    slices = update n.base.slices j (from.base.slices y);
    lengths = update n.base.lengths j (from.base.lengths y);
  };
  lv = update n.lv j (from.lv y);
}

abbrev more_layers : Parts → ℕ → List Ptr
more_layers p y =
    let nl = get_next_layer (p.lower.lv y) in
    if nl == 0 then p.moved_layers else p.moved_layers ++ nl ∷ []

abbrev moved : Parts → ℕ → ℕ → ℕ → Parts
moved p y j word = record p {
  lower = cleared p.lower y word;
  higher = copied p.higher p.lower y j;
  moved_layers = more_layers p y;
}

move_entry-moved :
    (p : Parts) (j : ℕ) (xs : List ℕ) (y : ℕ) (ys : List ℕ)
    → Holds p.lower (xs ++ y ∷ ys)
    → length xs ≡ 8
    → j < 15
    → (move_entry p j ≡ some (moved p y j (encode (xs ++ ys)))) × IsOrder (xs ++ ys)
unfolding move_entry put_entry drop_rank set_key set_key_slice_at set_key_length_at init_border_at
    init_base_at get_lv_at put_lv_at
move_entry-moved p j xs y ys o eight fits =
    let at_8 : get_elem? (xs ++ y ∷ ys) 8 ≡ some y =
      subst (λ r. get_elem? (xs ++ y ∷ ys) r ≡ some y) eight (get_elem?-append xs y ys) in
    let removed : remove_at 8 (xs ++ y ∷ ys) ≡ xs ++ ys =
      subst (λ r. remove_at r (xs ++ y ∷ ys) ≡ xs ++ ys) eight (remove_at-append xs y ys) in
    let cut = delete-encode 8 o.order (omega (arith, eight, length-append xs (y ∷ ys))) in
    let (word, dropped, counted) =
      bind-some (delete_rank (encode (xs ++ y ∷ ys)) 8) dec_key_num cut.0 in
    let index : get_index_of_rank p.lower.permutation 8 ≡ some y =
      ap (λ x. get_index_of_rank x 8) o.word ∙ get_index_of_rank-encode 8 o.order at_8 in
    let dropped' : delete_rank p.lower.permutation 8 ≡ some word =
      ap (λ x. delete_rank x 8) o.word ∙ dropped in
    let small : y < 15 = All-get_elem? Slot (xs ++ y ∷ ys) 8 o.order.small at_8 in
    let word' : dec_key_num word ≡ encode (xs ++ ys) = counted ∙ ap encode removed in
    (
      simp (index) (
          simp (key_at-in_range p.lower.base y small, lt→ltb y 15 small, lt→ltb j 15 fits, dropped')
            (ap (λ x. some (moved p y j x)) word')),
      subst IsOrder removed cut.1,
    )

-- What the loop leaves from the slot `j` of the new node on, where the slots `xs` stay and the slots
-- `ys` go.
pub record Moved (xs ys : List ℕ) (j : ℕ) (p : Parts) (result : Option Parts) : Type 0 where
  pub after : Parts
  pub returns : result ≡ some after
  pub holds : Holds after.lower xs
  pub kept : (q : ℕ) → has q ys ≡ false → tuple_at after.lower.base q ≡ tuple_at p.lower.base q
  pub kept_lv : (q : ℕ) → has q ys ≡ false → after.lower.lv q ≡ p.lower.lv q
  pub arrived :
      (i q : ℕ)
      → get_elem? ys i ≡ some q
      → tuple_at after.higher.base (j + i) ≡ tuple_at p.lower.base q
  pub arrived_lv : (i q : ℕ) → get_elem? ys i ≡ some q → after.higher.lv (j + i) ≡ p.lower.lv q
  pub earlier : (i : ℕ) → i < j → tuple_at after.higher.base i ≡ tuple_at p.higher.base i
  pub earlier_lv : (i : ℕ) → i < j → after.higher.lv i ≡ p.higher.lv i
  pub gone_lv : (q : ℕ) → has q ys ≡ true → after.lower.lv q ≡ init_lv
  pub later_lv : (i : ℕ) → j + length ys ≤ i → after.higher.lv i ≡ p.higher.lv i
  pub no_layers :
      ((q : ℕ) → get_next_layer (p.lower.lv q) ≡ 0) → after.moved_layers ≡ p.moved_layers
  pub lower_parent : after.lower.base.parent ≡ p.lower.base.parent
  pub lower_version : after.lower.base.version ≡ p.lower.base.version
  pub higher_version : after.higher.base.version ≡ p.higher.base.version
  pub lower_next : after.lower.next ≡ p.lower.next
  pub lower_prev : after.lower.prev ≡ p.lower.prev
  pub higher_next : after.higher.next ≡ p.higher.next
  pub higher_prev : after.higher.prev ≡ p.higher.prev
  pub relinked : after.relinked ≡ p.relinked

cleared-other :
    (n : BorderNode) (y word q : ℕ)
    → q ≢ y
    → (tuple_at (cleared n y word).base q ≡ tuple_at n.base q) × ((cleared n y word).lv q ≡ n.lv q)
cleared-other n y word q apart = (ground arith, ground arith)

cleared-no_layers :
    (n : BorderNode) (y word : ℕ)
    → ((q : ℕ) → get_next_layer (n.lv q) ≡ 0)
    → (q : ℕ) → get_next_layer ((cleared n y word).lv q) ≡ 0
unfolding get_next_layer
cleared-no_layers n y word h q = elim (Bool-cases (q == y)) [
  | inl e ↦ rw e refl
  | inr e ↦ rw e (h q)
]

more_layers-none :
    (p : Parts) (y : ℕ) → get_next_layer (p.lower.lv y) ≡ 0 → more_layers p y ≡ p.moved_layers
more_layers-none p y e = rw (more_layers, e) refl

cleared-here : (n : BorderNode) (y word : ℕ) → (cleared n y word).lv y ≡ init_lv
cleared-here n y word = ground arith

copied-later : (n from : BorderNode) (y j i : ℕ) → j < i → (copied n from y j).lv i ≡ n.lv i
copied-later n from y j i lt = ground arith

copied-here :
    (n from : BorderNode) (y j : ℕ)
    → (tuple_at (copied n from y j).base j ≡ tuple_at from.base y)
      × ((copied n from y j).lv j ≡ from.lv y)
copied-here n from y j = (ground arith, ground arith)

copied-other :
    (n from : BorderNode) (y j i : ℕ)
    → i < j
    → (tuple_at (copied n from y j).base i ≡ tuple_at n.base i)
      × ((copied n from y j).lv i ≡ n.lv i)
copied-other n from y j i lt = (ground arith, ground arith)

move_entries-Moved :
    (xs ys : List ℕ) (j : ℕ) (p : Parts)
    → Holds p.lower (xs ++ ys)
    → length xs ≡ 8
    → j + length ys ≤ 15
    → Moved xs ys j p (move_entries (length ys) p j)
unfolding move_entries
move_entries-Moved xs [] j p o eight fits = record {
  after = p;
  returns = refl;
  holds = subst (Holds p.lower) (append-[] xs) o;
  kept = λ q h. refl;
  kept_lv = λ q h. refl;
  arrived = λ i q e. absurd (ground arith);
  arrived_lv = λ i q e. absurd (ground arith);
  earlier = λ i lt. refl;
  earlier_lv = λ i lt. refl;
  gone_lv = λ q h. absurd (ground (arith, h));
  later_lv = λ i le. refl;
  no_layers = λ h. refl;
  lower_parent = refl;
  lower_version = refl;
  higher_version = refl;
  lower_next = refl;
  lower_prev = refl;
  higher_next = refl;
  higher_prev = refl;
  relinked = refl;
}
move_entries-Moved xs (y ∷ ys) j p o eight fits =
    let (e, order) = move_entry-moved p j xs y ys o eight (omega (arith, fits)) in
    let p' = moved p y j (encode (xs ++ ys)) in
    let o' : Holds p'.lower (xs ++ ys) = record { order = order; word = refl } in
    let rest = move_entries-Moved xs ys (j + 1) p' o' eight (omega (arith, fits)) in
    record {
      after = rest.after;
      returns = simp (e) rest.returns;
      holds = rest.holds;
      kept = λ q h.
          rest.kept q (ground (arith, h))
          ∙ (cleared-other p.lower y (encode (xs ++ ys)) q (ground (arith, h))).0;
      kept_lv = λ q h.
          rest.kept_lv q (ground (arith, h))
          ∙ (cleared-other p.lower y (encode (xs ++ ys)) q (ground (arith, h))).1;
      arrived = arrived_at rest;
      arrived_lv = arrived_lv_at rest;
      earlier =
          λ i lt. rest.earlier i (omega (arith, lt)) ∙ (copied-other p.higher p.lower y j i lt).0;
      earlier_lv = λ i lt.
          rest.earlier_lv i (omega (arith, lt)) ∙ (copied-other p.higher p.lower y j i lt).1;
      gone_lv = λ q h. elim (Bool-cases (y == q)) [
        | inl here ↦
            let same : q ≡ y = ground arith in
            ap rest.after.lower.lv same
            ∙ rest.kept_lv y alone'
            ∙ cleared-here p.lower y (encode (xs ++ ys))
        | inr there ↦ rest.gone_lv q (ground (arith, h, there))
      ];
      later_lv = λ i le.
          rest.later_lv i (omega (arith, le))
          ∙ copied-later p.higher p.lower y j i (omega (arith, le));
      no_layers = λ h.
          rest.no_layers (cleared-no_layers p.lower y (encode (xs ++ ys)) h)
          ∙ more_layers-none p y (h y);
      lower_parent = rest.lower_parent;
      lower_version = rest.lower_version;
      higher_version = rest.higher_version;
      lower_next = rest.lower_next;
      lower_prev = rest.lower_prev;
      higher_next = rest.higher_next;
      higher_prev = rest.higher_prev;
      relinked = rest.relinked;
    }
  where
    alone' : has y ys ≡ false
    alone' = Distinct-append xs y ys o.order.distinct

    arrived_at :
        {result : Option Parts}
        (rest : Moved xs ys (j + 1) (moved p y j (encode (xs ++ ys))) result) (i q : ℕ)
        → get_elem? (y ∷ ys) i ≡ some q
        → tuple_at rest.after.higher.base (j + i) ≡ tuple_at p.lower.base q
    arrived_at rest zero q e =
        ap (λ (i : ℕ). tuple_at rest.after.higher.base i) {x = j + 0} {y = j} (omega arith)
        ∙ rest.earlier j (omega arith)
        ∙ (copied-here p.higher p.lower y j).0
        ∙ ap (tuple_at p.lower.base) (some_inj e)
    arrived_at rest (suc i) q e =
        ap (λ (i : ℕ). tuple_at rest.after.higher.base i) {x = j + suc i} {y = j + 1 + i}
          (omega arith)
        ∙ rest.arrived i q e
        ∙ (cleared-other p.lower y (encode (xs ++ ys)) q (has-get_elem? ys i alone' e)).0

    arrived_lv_at :
        {result : Option Parts}
        (rest : Moved xs ys (j + 1) (moved p y j (encode (xs ++ ys))) result) (i q : ℕ)
        → get_elem? (y ∷ ys) i ≡ some q
        → rest.after.higher.lv (j + i) ≡ p.lower.lv q
    arrived_lv_at rest zero q e =
        ap (λ (i : ℕ). rest.after.higher.lv i) {x = j + 0} {y = j} (omega arith)
        ∙ rest.earlier_lv j (omega arith)
        ∙ (copied-here p.higher p.lower y j).1
        ∙ ap p.lower.lv (some_inj e)
    arrived_lv_at rest (suc i) q e =
        ap (λ (i : ℕ). rest.after.higher.lv i) {x = j + suc i} {y = j + 1 + i} (omega arith)
        ∙ rest.arrived_lv i q e
        ∙ (cleared-other p.lower y (encode (xs ++ ys)) q (has-get_elem? ys i alone' e)).1

-- What `split_entries` leaves of a node with the slots `xs` and `ys`, in the order of their ranks.
pub record Halved (border : BorderNode) (self fresh : Ptr) (xs ys : List ℕ) (result : Option Parts)
    : Type 0 where
  pub after : Parts
  pub returns : result ≡ some after
  pub lower_holds : Holds after.lower xs
  pub kept : (q : ℕ) → has q ys ≡ false → tuple_at after.lower.base q ≡ tuple_at border.base q
  pub kept_lv : (q : ℕ) → has q ys ≡ false → after.lower.lv q ≡ border.lv q
  pub higher_holds : Holds after.higher (count_from 0 7)
  pub moved_key :
      (i q : ℕ) → get_elem? ys i ≡ some q → tuple_at after.higher.base i ≡ tuple_at border.base q
  pub moved_lv : (i q : ℕ) → get_elem? ys i ≡ some q → after.higher.lv i ≡ border.lv q
  pub gone_lv : (q : ℕ) → has q ys ≡ true → after.lower.lv q ≡ init_lv
  pub free_lv : (i : ℕ) → 7 ≤ i → after.higher.lv i ≡ init_lv
  pub no_layers : ((q : ℕ) → get_next_layer (border.lv q) ≡ 0) → after.moved_layers ≡ []
  pub lower_parent : after.lower.base.parent ≡ border.base.parent
  pub lower_version : after.lower.base.version ≡ set_splitting true border.base.version
  pub higher_version : after.higher.base.version ≡ set_splitting true border.base.version
  pub lower_next : after.lower.next ≡ fresh
  pub lower_prev : after.lower.prev ≡ border.prev
  pub higher_next : after.higher.next ≡ border.next
  pub higher_prev : after.higher.prev ≡ self
  pub relinked : after.relinked ≡ border.next

-- The split of a full node faults nowhere. The 8 entries of the lower ranks stay in their slots; the 7
-- entries of the upper ranks come to the slots 0 to 6 of the new node, each with its key and its
-- value, in the same order. The new node comes behind the old one in the chain, and both have the
-- version of the old node with the mark for a split. The slots that are free now hold nothing.
pub split_entries-Halved :
    (border : BorderNode) (self fresh : Ptr) (xs ys : List ℕ)
    → Holds border (xs ++ ys)
    → length xs ≡ 8
    → length ys ≡ 7
    → Halved border self fresh xs ys (split_entries border self fresh)
unfolding split_entries
split_entries-Halved border self fresh xs ys o eight seven =
    let v = set_splitting true border.base.version in
    let b : BorderNode = record border {
      base = record border.base { version = v };
      next = fresh;
    } in
    let n : BorderNode = record init_border {
      base = record init_border.base { version = v };
      next = border.next;
      prev = self;
    } in
    let p : Parts = record { lower = b; higher = n; moved_layers = []; relinked = border.next } in
    let o' : Holds p.lower (xs ++ ys) = record { order = o.order; word = o.word } in
    let m = move_entries-Moved xs ys 0 p o' eight (omega (arith, seven)) in
    let dest = split_dest-encode 7 (omega arith) in
    let returns : move_entries 7 p 0 ≡ some m.after =
      subst (λ c. move_entries c p 0 ≡ some m.after) seven m.returns in
    record {
      after = record m.after {
        higher = record m.after.higher { permutation = encode (count_from 0 7) };
      };
      returns = simp (returns) (simp (dest.0) refl);
      lower_holds = m.holds;
      kept = m.kept;
      kept_lv = m.kept_lv;
      higher_holds = record { order = dest.1; word = refl };
      moved_key = λ i q e.
          ap (λ (k : ℕ). tuple_at m.after.higher.base k) {x = i} {y = 0 + i} (omega arith)
          ∙ m.arrived i q e;
      moved_lv = λ i q e.
          ap (λ (k : ℕ). m.after.higher.lv k) {x = i} {y = 0 + i} (omega arith)
          ∙ m.arrived_lv i q e;
      gone_lv = m.gone_lv;
      free_lv = λ i le. m.later_lv i (omega (arith, le, seven));
      no_layers = m.no_layers;
      lower_parent = m.lower_parent;
      lower_version = m.lower_version;
      higher_version = m.higher_version;
      lower_next = m.lower_next;
      lower_prev = m.lower_prev;
      higher_next = m.higher_next;
      higher_prev = m.higher_prev;
      relinked = m.relinked;
    }
