-- ===== src/Examples/Words.antt =====
-- Permutations, version words, values and keys.
use yakushima.Common.{
  ℕ, ◌+◌, ◌^◌, ◌<◌, ◌≡◌, refl, true, false, List, [], ◌∷◌, some, none, arith, update, insert_at,
  remove_at, has, bit_or, ◌>>=◌,
}
use yakushima.Permutation.{inc_key_num, dec_key_num, delete_rank, insert, get_empty_slot}
use yakushima.Permutation.Refinement.{IsOrder, encode, insert-encode, delete-encode}
use yakushima.Permutation.EmptySlot.{get_empty_slot-free}
use yakushima.Version.{
  VersionBody, init, set_locked, set_inserting_deleting, released, equal, unlock, exchange_loop,
  image, Attempt, Exchange,
}
use yakushima.Version.Layout.{IsBody}
use yakushima.Version.Atomic.{Released, unlock-Released, unlock-returns}
use yakushima.Version.Protocol.{
  idle, spin, trying, holding, leaving, call_lock, see_free, lock_win, call_unlock, unlock_win,
  System, pick, Steps, here, next, start, critical,
}
use yakushima.Version.Exclusion.{mutual_exclusion}
use yakushima.Version.Optimistic.{optimistic_read}
use yakushima.Value.{Memory, get_len, new_header, at_least_8, val_ptr_flag}
use yakushima.Value.Region.{Created, create_value-Created, get_len-truncated}
use yakushima.Key.{prepare, key_compare, prefix_compare, and_then, remove_prefix}
use yakushima.Key.Lex.{lex, lex-key_compare, prefix_compare-key_compare}

abbrev order : List ℕ
order = 0 ∷ 2 ∷ 1 ∷ []

order-IsOrder : IsOrder order
order-IsOrder = record {
  few = omega arith;
  small = (omega arith, (omega arith, (omega arith, tt)));
  distinct = (refl, (refl, (refl, tt)));
}

insert-encode_example :
    (insert (inc_key_num (encode order)) 1 5 ≡ some (encode (insert_at 1 5 order)))
    × IsOrder (insert_at 1 5 order)
insert-encode_example =
    insert-encode 1 5 order-IsOrder (omega arith) (omega arith) (omega arith) refl

delete-encode_example :
    ((do w ← delete_rank (encode order) 1; some (dec_key_num w))
      ≡ some (encode (remove_at 1 order)))
    × IsOrder (remove_at 1 order)
delete-encode_example = delete-encode 1 order-IsOrder (omega arith)

get_empty_slot-free_example :
    (p : ℕ) × (get_empty_slot (encode order) ≡ some p)
    × (p < 15)
    × (has p order ≡ false)
    × ((q : ℕ) → q < p → has q order ≡ true)
get_empty_slot-free_example = get_empty_slot-free order-IsOrder (omega arith)

init-IsBody : IsBody init
init-IsBody = record { vinsert_delete = omega arith; vsplit = omega arith }

abbrev marked : VersionBody
marked = set_inserting_deleting true (set_locked true init)

marked-IsBody : IsBody marked
marked-IsBody = record { vinsert_delete = omega arith; vsplit = omega arith }

abbrev attempt : VersionBody → Attempt
attempt v = record { loaded = v; found = v; spurious = false }

unlock-Released_example : Released marked (released marked)
unfolding unlock equal exchange_loop image
unlock-Released_example =
    unlock-Released marked (attempt marked ∷ [])
      {x = record { before = marked; after = released marked }} marked-IsBody
      (marked-IsBody, marked-IsBody, tt) refl marked-IsBody

unlock-returns_example :
    (x : Exchange) × (unlock init (attempt marked ∷ attempt marked ∷ []) ≡ some x)
unlock-returns_example = unlock-returns init (attempt marked) (attempt marked) [] refl refl

-- Thread 0 of two threads takes the lock, and gives it back.
abbrev locked_once : System
locked_once = record {
  body = set_locked true init;
  pc = update (update (update (λ _. idle) 0 spin) 0 (trying init)) 0 holding;
  inserts = 0;
  splits = 0;
}

locked_once-Steps : Steps 2 (start init) locked_once
locked_once-Steps =
    next (next (next here (pick 0 (omega arith) call_lock)) (pick 0 (omega arith) (see_free refl)))
      (pick 0 (omega arith) (lock_win refl))

mutual_exclusion_example : (◌≡◌ {A = ℕ} 0 0) × (locked_once.body.locked ≡ true)
mutual_exclusion_example = mutual_exclusion init-IsBody locked_once-Steps 0 0 refl refl

abbrev released_once : System
released_once = record {
  body = released (set_locked true init);
  pc = update (update locked_once.pc 0 (leaving (set_locked true init))) 0 idle;
  inserts = 0;
  splits = 0;
}

released_once-Steps : Steps 2 (start init) released_once
released_once-Steps =
    next (next locked_once-Steps (pick 0 (omega arith) call_unlock))
      (pick 0 (omega arith) (unlock_win refl))

optimistic_read_example :
    (released_once.inserts ≡ 0)
    × (released_once.splits ≡ 0)
    × ((i : ℕ) → critical ((start init).pc i) ≡ false)
    × ((i : ℕ) → critical (released_once.pc i) ≡ false)
unfolding released
optimistic_read_example =
    optimistic_read init-IsBody here released_once-Steps refl refl (omega arith) (omega arith)

abbrev no_values : Memory
no_values = record { header = λ _. none; bytes = λ _. [] }

create_value-Created_example : Created no_values 4096 (7 ∷ 8 ∷ 9 ∷ []) 3 1
create_value-Created_example =
    create_value-Created no_values 4096 (7 ∷ 8 ∷ 9 ∷ []) 3 1 (omega arith) (omega arith)
      (omega arith)

get_len-truncated_example :
    (n : ℕ) × (get_len
        (record no_values {
          header = update no_values.header 4096 (some (new_header (2 ^ 32 + 5) (at_least_8 8)));
        })
        (bit_or 4096 val_ptr_flag)
      ≡ some n)
    × (n < 2 ^ 32 + 5)
get_len-truncated_example =
    get_len-truncated no_values 4096 (2 ^ 32 + 5) 8 (omega arith) (omega arith)

lex-key_compare_example :
    lex (1 ∷ 2 ∷ []) (1 ∷ 3 ∷ [])
    ≡ and_then
        (key_compare (prepare (1 ∷ 2 ∷ [])) (prepare (1 ∷ 3 ∷ [])))
        (lex (remove_prefix 8 (1 ∷ 2 ∷ [])) (remove_prefix 8 (1 ∷ 3 ∷ [])))
lex-key_compare_example = lex-key_compare (1 ∷ 2 ∷ []) (1 ∷ 3 ∷ [])

prefix_compare-key_compare_example :
    prefix_compare (prepare (1 ∷ [])) (prepare (1 ∷ 0 ∷ []))
    ≡ key_compare (prepare (1 ∷ [])) (prepare (1 ∷ 0 ∷ []))
prefix_compare-key_compare_example = prefix_compare-key_compare (1 ∷ []) (1 ∷ 0 ∷ [])
