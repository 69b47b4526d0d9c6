-- ===== src/Version.antt =====
-- include/version.h: the version word of a node, its atomic updates and its lock.
-- A read-modify-write loop is run against the values that the other threads leave in memory: one
-- `Attempt` for each round, in the order in which they happen.
pub mod Layout
pub mod Atomic
pub mod Protocol
pub mod Exclusion
pub mod Optimistic
use yakushima.Common.{
  ℕ, ◌+◌, ◌*◌, ◌%◌, ◌^◌, Bool, true, false, not, ◌&&◌, List, [], ◌∷◌, Option, none, some, ◌==◌,
  if◌then◌else◌,
}

-- `node_version64_body`
pub record VersionBody : Type 0 where
  pub vinsert_delete : ℕ
  pub locked : Bool
  pub inserting_deleting : Bool
  pub splitting : Bool
  pub vsplit : ℕ
  pub deleted : Bool
  pub root : Bool
  pub border : Bool

-- The two counters have 29 bits.
abbrev pub counter_mod : ℕ
counter_mod = 2 ^ 29

abbrev pub inc_vinsert_delete : VersionBody → VersionBody
inc_vinsert_delete v = record v { vinsert_delete = (v.vinsert_delete + 1) % counter_mod }

abbrev pub inc_vsplit : VersionBody → VersionBody
inc_vsplit v = record v { vsplit = (v.vsplit + 1) % counter_mod }

-- `node_version64_body::init`, which is also the body of `node_version64::init`.
abbrev pub init : VersionBody
init = record {
  vinsert_delete = 0;
  locked = false;
  inserting_deleting = false;
  splitting = false;
  vsplit = 0;
  deleted = false;
  root = false;
  border = false;
}

abbrev pub set_border : Bool → VersionBody → VersionBody
set_border tf v = record v { border = tf }

abbrev pub set_deleted : Bool → VersionBody → VersionBody
set_deleted tf v = record v { deleted = tf }

abbrev pub set_inserting_deleting : Bool → VersionBody → VersionBody
set_inserting_deleting tf v = record v { inserting_deleting = tf }

abbrev pub set_locked : Bool → VersionBody → VersionBody
set_locked tf v = record v { locked = tf }

abbrev pub set_root : Bool → VersionBody → VersionBody
set_root tf v = record v { root = tf }

abbrev pub set_splitting : Bool → VersionBody → VersionBody
set_splitting tf v = record v { splitting = tf }

abbrev pub bit : Bool → ℕ
bit true = 1
bit false = 0

-- The object representation: the fields from the low bits up, in two units of 32 bits.
unfoldable pub image : VersionBody → ℕ
image v =
    v.vinsert_delete
    + 2 ^ 29 * bit v.locked
    + 2 ^ 30 * bit v.inserting_deleting
    + 2 ^ 31 * bit v.splitting
    + 2 ^ 32 * (v.vsplit + 2 ^ 29 * bit v.deleted + 2 ^ 30 * bit v.root + 2 ^ 31 * bit v.border)

-- `operator==`: `memcmp` of the two objects.
unfoldable pub equal : VersionBody → VersionBody → Bool
equal v w = image v == image w

-- The test of `get_stable_version`.
abbrev pub stable : VersionBody → Bool
stable v = not v.inserting_deleting && (not v.locked && not v.splitting)

-- `get_stable_version` over the values that its loads see; `none` while it still waits.
unfoldable pub get_stable_version : List VersionBody → Option VersionBody
get_stable_version [] = none
get_stable_version (v ∷ later) =
    let rest = get_stable_version later in if stable v then some v else rest

-- One round: what the load of `lock` sees, what `compare_exchange_weak` then finds in memory, and
-- whether it fails spuriously.
pub record Attempt : Type 0 where
  pub loaded : VersionBody
  pub found : VersionBody
  pub spurious : Bool

abbrev pub exchanges : VersionBody → Attempt → Bool
exchanges expected a = equal a.found expected && not a.spurious

-- What an exchange that succeeds replaces, and by what.
pub record Exchange : Type 0 where
  pub before : VersionBody
  pub after : VersionBody

-- The loop that the atomic updates share: a failed exchange loads `expected` again.
unfoldable pub exchange_loop :
    (VersionBody → VersionBody) → VersionBody → List Attempt → Option Exchange
exchange_loop f expected [] = none
exchange_loop f expected (a ∷ later) =
    let rest = exchange_loop f a.found later in
    if exchanges expected a then some (record { before = a.found; after = f expected }) else rest

unfoldable pub atomic_inc_vinsert : VersionBody → List Attempt → Option Exchange
atomic_inc_vinsert = exchange_loop inc_vinsert_delete

unfoldable pub atomic_set_border : Bool → VersionBody → List Attempt → Option Exchange
atomic_set_border tf = exchange_loop (set_border tf)

unfoldable pub atomic_set_deleted : Bool → VersionBody → List Attempt → Option Exchange
atomic_set_deleted tf = exchange_loop (set_deleted tf)

unfoldable pub atomic_set_inserting_deleting : Bool → VersionBody → List Attempt → Option Exchange
atomic_set_inserting_deleting tf = exchange_loop (set_inserting_deleting tf)

unfoldable pub atomic_set_root : Bool → VersionBody → List Attempt → Option Exchange
atomic_set_root tf = exchange_loop (set_root tf)

unfoldable pub atomic_set_splitting : Bool → VersionBody → List Attempt → Option Exchange
atomic_set_splitting tf = exchange_loop (set_splitting tf)

-- `lock`: pauses and sleeps change nothing.
unfoldable pub lock : List Attempt → Option Exchange
lock [] = none
lock (a ∷ later) =
    let rest = lock later in
    if a.loaded.locked
    then rest
    else if exchanges a.loaded a
    then some (record { before = a.found; after = set_locked true a.loaded })
    else rest

-- `desired` of `unlock`: a section that is marked is counted, and the marks go with the lock.
abbrev pub finish_insert : VersionBody → VersionBody
finish_insert v =
    if v.inserting_deleting then set_inserting_deleting false (inc_vinsert_delete v) else v

abbrev pub finish_split : VersionBody → VersionBody
finish_split v = if v.splitting then set_splitting false (inc_vsplit v) else v

unfoldable pub released : VersionBody → VersionBody
released v = set_locked false (finish_split (finish_insert v))

unfoldable pub unlock : VersionBody → List Attempt → Option Exchange
unlock = exchange_loop released
