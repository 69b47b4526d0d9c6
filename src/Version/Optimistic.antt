-- ===== src/Version/Optimistic.antt =====
-- The optimistic reads of the tree: a reader takes a stable version, reads the node, and takes a
-- stable version again. If they compare equal, no section that was marked as inserting or
-- splitting was under way or came to its end in between.
use yakushima.Common.{ℕ, ◌+◌, ◌≤◌, ◌<◌, ◌≡◌, true, false, arith, ap}
use yakushima.Version.{VersionBody, counter_mod, stable}
use yakushima.Version.Layout.{IsBody}
use yakushima.Version.Protocol.{System, pick, Steps, here, next, start, critical}
use yakushima.Version.Exclusion.{Inv, Steps-Inv, reached-Inv}

-- Sections end, and never come back.
Steps-mono : {n : ℕ} {s t : System} → Steps n s t → (s.inserts ≤ t.inserts) × (s.splits ≤ t.splits)
Steps-mono here = omega arith
Steps-mono (next r (pick i lt mv)) = omega (arith, Steps-mono r)

-- A stable word has no lock holder.
stable-quiet :
    {v : VersionBody} {s : System}
    → Inv v s
    → stable s.body ≡ true
    → (i : ℕ) → critical (s.pc i) ≡ false
stable-quiet inv h i = ground (arith, inv.held i)

-- Between two states with equal stable versions no marked section was completed, unless a counter
-- went round (`2 ^ 29` sections of one kind), and in neither state does a thread hold the lock.
pub optimistic_read :
    {n : ℕ} {v : VersionBody} {s t : System}
    → IsBody v
    → Steps n (start v) s
    → Steps n s t
    → stable s.body ≡ true
    → s.body ≡ t.body
    → t.inserts < s.inserts + counter_mod
    → t.splits < s.splits + counter_mod
    → (t.inserts ≡ s.inserts)
      × (t.splits ≡ s.splits)
      × ((i : ℕ) → critical (s.pc i) ≡ false)
      × ((i : ℕ) → critical (t.pc i) ≡ false)
optimistic_read {s} {t} h r later quiet same few_inserts few_splits =
    let before = reached-Inv h r in
    let after = Steps-Inv before later in
    let inserts_same : s.body.vinsert_delete ≡ t.body.vinsert_delete =
      ap (λ (b : VersionBody). b.vinsert_delete) same in
    let splits_same : s.body.vsplit ≡ t.body.vsplit = ap (λ (b : VersionBody). b.vsplit) same in
    let mono = Steps-mono later in
    (
      omega (arith, before.inserts, after.inserts, mono, inserts_same),
      omega (arith, before.splits, after.splits, mono, splits_same),
      stable-quiet before quiet,
      stable-quiet after (rw (← same) quiet),
    )
