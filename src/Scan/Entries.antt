-- ===== src/Scan/Entries.antt =====
-- The entries that a range contains, and what a scan of entries in order may leave out.
use Prim.Native.Nat.{Ordering}
use yakushima.Common.{
  ℕ, ◌≤◌, ◌≡◌, refl, Bool, false, ◌&&◌, List, [], ◌∷◌, ◌++◌, length, All, some, if◌then◌else◌,
  arith,
}
use yakushima.Key.{Bytes, prepare}
use yakushima.Key.Lex.{lex}
use yakushima.Value.{get_body, get_len}
use yakushima.LinkOrValue.{get_value}
use yakushima.InteriorNode.Routing.{tuple_at}
use yakushima.BorderNode.{BorderNode}
use yakushima.Tree.{World}
use yakushima.Scan.{Query, ScanTuple}
use yakushima.Scan.Range.{in_left, in_right}

-- An entry with a value: its slot, the rest of its key, and what a reader gets.
pub record Entry : Type 0 where
  pub slot : ℕ
  pub key : Bytes
  pub body : ℕ
  pub len : ℕ

-- It stands in the node, its key ends in this layer, and its value can be read.
pub record IsAt (w : World) (n : BorderNode) (e : Entry) : Type 0 where
  pub short : length e.key ≤ 8
  pub same : tuple_at n.base e.slot ≡ prepare e.key
  pub has_body : get_body w.memory (get_value (n.lv e.slot)) ≡ some e.body
  pub has_len : get_len w.memory (get_value (n.lv e.slot)) ≡ some e.len

abbrev pub IsSorted : List Entry → Type 0
IsSorted [] = Unit
IsSorted (e ∷ es) = All (λ f. lex e.key f.key ≡ Ordering.lt) es × IsSorted es

abbrev pub in_left_of : Query → Entry → Bool
in_left_of q e = in_left q.l_end (lex q.l_key e.key)

abbrev pub in_right_of : Query → Entry → Bool
in_right_of q e = in_right q.r_end (lex q.r_key (q.key_prefix ++ e.key))

abbrev pub tuple_of : Query → Entry → ScanTuple
tuple_of q e = record { key = q.key_prefix ++ e.key; body = e.body; len = e.len }

-- The entries whose keys are in the range.
unfoldable pub wanted : Query → List Entry → List ScanTuple
wanted q [] = []
wanted q (e ∷ es) =
    let rest = wanted q es in
    if in_left_of q e && in_right_of q e then tuple_of q e ∷ rest else rest

lex-append_both : (p a b : Bytes) → lex (p ++ a) (p ++ b) ≡ lex a b
unfolding lex
lex-append_both [] a b = refl
lex-append_both (x ∷ p) a b = ground (arith, lex-append_both p a b)

lex_trans :
    (a b c : Bytes)
    → (lex a b ≡ Ordering.eq → lex a c ≡ lex b c)
      × (lex b c ≡ Ordering.eq → lex a c ≡ lex a b)
      × (lex a b ≡ Ordering.lt → lex b c ≡ Ordering.lt → lex a c ≡ Ordering.lt)
unfolding lex
lex_trans [] [] c = (λ e. refl, λ e. ground arith, λ e f. ground arith)
lex_trans [] (y ∷ b) [] = (λ e. ground arith, λ e. ground arith, λ e f. ground arith)
lex_trans [] (y ∷ b) (z ∷ c) = (λ e. ground arith, λ e. ground arith, λ e f. ground arith)
lex_trans (x ∷ a) [] [] = (λ e. ground arith, λ e. ground arith, λ e f. ground arith)
lex_trans (x ∷ a) [] (z ∷ c) = (λ e. ground arith, λ e. ground arith, λ e f. ground arith)
lex_trans (x ∷ a) (y ∷ b) [] = (λ e. ground arith, λ e. ground arith, λ e f. ground arith)
lex_trans (x ∷ a) (y ∷ b) (z ∷ c) =
    let ih = lex_trans a b c in
    (
      λ e. ground (arith, ih.0, ih.1),
      λ e. ground (arith, ih.0, ih.1),
      λ e f. ground (arith, ih.0, ih.1, ih.2),
    )

-- Behind an entry that the right end excludes, it excludes all entries.
in_right_of-later :
    (q : Query) (e f : Entry)
    → in_right_of q e ≡ false
    → lex e.key f.key ≡ Ordering.lt
    → in_right_of q f ≡ false
in_right_of-later q e f out less =
    let t = lex_trans q.r_key (q.key_prefix ++ e.key) (q.key_prefix ++ f.key) in
    let next = lex-append_both q.key_prefix e.key f.key in ground (arith, t.0, t.1, t.2, next, less)

pub wanted-none :
    (q : Query) (e : Entry) (es : List Entry)
    → in_right_of q e ≡ false
    → All (λ f. lex e.key f.key ≡ Ordering.lt) es
    → wanted q es ≡ []
unfolding wanted
wanted-none q e [] out less = refl
wanted-none q e (f ∷ es) out less =
    let rest = wanted-none q e es out less.1 in
    let beyond = in_right_of-later q e f out less.0 in ground (arith, rest, beyond)
