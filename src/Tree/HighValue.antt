-- ===== src/Tree/HighValue.antt =====
-- An inline value with bit 63 set, put into the tree and read back, where no other thread runs.
use yakushima.Common.{
  ℕ, suc, ◌-◌, ◌^◌, ◌≤◌, ◌<◌, ◌≡◌, refl, ◌∙◌, ap, false, length, none, some, ◌==◌, arith,
}
use yakushima.Scheme.{Status}
use yakushima.Key.{Bytes, prepare}
use yakushima.Permutation.{get_empty_slot}
use yakushima.Value.{Memory, create_inline, get_body, get_len, remove_ptr_flag}
use yakushima.LinkOrValue.{get_value, get_next_layer, drop_value}
use yakushima.LinkOrValue.Kinds.{inline_value_taken_for_link}
use yakushima.InteriorNode.Routing.{tuple_at}
use yakushima.BorderNode.Search.{lookup}
use yakushima.Tree.{World}
use yakushima.Tree.Descent.{still}
use yakushima.Tree.Get.{get}
use yakushima.Tree.Layers.{Layer, answer}
use yakushima.Tree.Put.{Putting, changes, put}
use yakushima.Tree.PutGet.{get-put}

create_inline-word : (value : ℕ) → value < 2 ^ 64 → create_inline value ≡ value
unfolding create_inline
create_inline-word value fits = omega (arith, fits)

-- What `get` hands out for the null pointer as an inline value.
answer-null :
    (m : Memory) (word : ℕ)
    → get_value word ≡ 0
    → answer m (some word) ≡ some (record { status = Status.ok; out = some (0, 8) })
unfolding get_body get_len remove_ptr_flag
answer-null m word e = simp (e) refl

-- Where no other thread runs: `put` of an inline value of `2 ^ 63` or more, of 8 bytes, for a key of at
-- most 8 bytes that the tree does not hold, into a border node of the first layer that has room,
-- returns `OK`; but `get` of the key then returns `OK` with the null pointer and the length 8 in place
-- of the value, and the word that was put, read as a link, is the node at the value less `2 ^ 63`. The
-- slot that the entry goes to holds no value to be deleted, and the caller does not ask for the
-- address of the value. Five jumps are enough.
pub get-put_high :
    (c : Putting) {w : World} {most : ℕ} {key : Bytes} (l : Layer w w.root key most) {p : ℕ}
    (value jumps fuel : ℕ)
    → 2 ^ 63 ≤ value
    → value < 2 ^ 64
    → length l.slots < 15
    → get_empty_slot l.node.permutation ≡ some p
    → lookup (tuple_at l.node.base) (prepare key) l.slots ≡ none
    → length key ≤ 8
    → c.create w.memory ≡ some (w.memory, create_inline value)
    → drop_value w.memory (get_value (l.node.lv p)) false ≡ some (w.memory, none)
    → c.wants_created ≡ false
    → (w.root == 0) ≡ false
    → most ≤ fuel
    → 5 ≤ jumps
    → (w' : World) × (t : ℕ) × (t' : ℕ) × (put jumps c (suc (suc (suc fuel))) (still w) key 0
        ≡ some (Status.ok, changes w' none none, t))
      × (get (suc jumps) (suc (suc (suc fuel))) (still w') key 0
          ≡ some (record { status = Status.ok; out = some (0, 8) }, t'))
      × (get_next_layer (create_inline value) ≡ value - 2 ^ 63)
get-put_high c {w} l value jumps fuel high fits room empty new short made idle plain there enough
      many =
    let same = create_inline-word value fits in
    let reads = inline_value_taken_for_link value high fits in
    let (w', t, t', e, e') =
      get-put c l jumps fuel room empty new short made idle plain
        (answer-null w.memory (create_inline value) (ap get_value same ∙ reads.0)) there enough
        many in
    (w', t, t', e, e', ap get_next_layer same ∙ reads.1)
