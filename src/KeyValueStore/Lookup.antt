-- ===== src/KeyValueStore/Lookup.antt =====
-- Lists of SET records with different keys, as `compact` collects and sorts them.
use mini_kvstore.Prelude.{
  ℕ, ◌+◌, ◌≡◌, refl, ◌∙◌, false, Option, none, some, Bool-cases, inl, inr, List, [], ◌∷◌, All,
  Bytes, bytes_key, bytes_eq, bytes_eq_iff, bytes_lt, insert_sorted, sort, arith, if◌then◌else◌,
}
use mini_kvstore.UnorderedMap.{find, IsMap, IsMap-assign}
use mini_kvstore.Record.{Operation, Record}
use mini_kvstore.AppendOnlyStore.{metadata_of, record_size}
use mini_kvstore.AppendOnlyStore.Recovery.{Index}
use mini_kvstore.AppendOnlyStore.Recovery.Log.{log_size}
use mini_kvstore.AppendOnlyStore.Compaction.Replacing.{indexed}
use mini_kvstore.KeyValueStore.Slots.{Slot, slot_of, slot_from}
use mini_kvstore.KeyValueStore.Represents.{Agrees, live, assign-Agrees}

-- The first record of a key.
abbrev pub lookup : Bytes → List Record → Option Record
lookup k [] = none
lookup k (r ∷ rs) = if bytes_eq r.key k then some r else lookup k rs

-- SET records, no two with the same key.
abbrev pub AreEntries : List Record → Type 0
AreEntries [] = Unit
AreEntries (r ∷ rs) = (r.operation ≡ Operation.set) × (lookup r.key rs ≡ none) × AreEntries rs

abbrev pub by_key : Record → Bytes
by_key r = r.key

abbrev insert : Record → List Record → List Record
insert r rs = insert_sorted by_key r rs

lookup-insert :
    (k : Bytes) (r : Record) (rs : List Record)
    → lookup r.key rs ≡ none
    → lookup k (insert r rs) ≡ (if bytes_eq r.key k then some r else lookup k rs)
unfolding insert_sorted
lookup-insert k r [] new = refl
lookup-insert k r (y ∷ ys) new = ground (
  arith,
  bytes_eq_iff r.key k,
  bytes_eq_iff y.key k,
  bytes_eq_iff y.key r.key,
  lookup-insert k r ys,
)

insert-AreEntries :
    (r : Record) (rs : List Record)
    → r.operation ≡ Operation.set
    → lookup r.key rs ≡ none
    → AreEntries rs
    → AreEntries (insert r rs)
unfolding insert_sorted
insert-AreEntries r [] op new h = (op, refl, tt)
insert-AreEntries r (y ∷ ys) op new h = elim (Bool-cases (bytes_lt y.key r.key)) [
  | inl after ↦
      let new' : lookup r.key ys ≡ none = ground arith in
      let apart : bytes_eq r.key y.key ≡ false =
        ground (arith, bytes_eq_iff r.key y.key, bytes_eq_iff y.key r.key) in
      let absent : lookup y.key (insert r ys) ≡ none =
        lookup-insert y.key r ys new' ∙ (rw (apart, h.1) refl) in
      rw after (h.0, absent, insert-AreEntries r ys op new' h.2)
  | inr before ↦ rw before (op, new, h)
]

log_size-insert :
    (r : Record) (rs : List Record) → log_size (insert r rs) ≡ record_size r + log_size rs
unfolding insert_sorted
log_size-insert r [] = refl
log_size-insert r (y ∷ ys) = elim (Bool-cases (bytes_lt y.key r.key)) [
  | inl after ↦ rw after (omega (arith, log_size-insert r ys))
  | inr before ↦ rw before refl
]

All-insert :
    (P : Record → Type 0) (r : Record) (rs : List Record) → P r → All P rs → All P (insert r rs)
unfolding insert_sorted
All-insert P r [] p h = (p, tt)
All-insert P r (y ∷ ys) p h = elim (Bool-cases (bytes_lt y.key r.key)) [
  | inl after ↦ rw after (h.0, All-insert P r ys p h.1)
  | inr before ↦ rw before (p, h)
]

-- What sorting keeps.
pub lookup-sort :
    (k : Bytes) (rs : List Record) → AreEntries rs → lookup k (sort by_key rs) ≡ lookup k rs
unfolding sort
lookup-sort k [] h = refl
lookup-sort k (r ∷ rs) h =
    lookup-insert k r (sort by_key rs) (lookup-sort r.key rs h.2 ∙ h.1)
    ∙ (rw (lookup-sort k rs h.2) refl)

pub sort-AreEntries : (rs : List Record) → AreEntries rs → AreEntries (sort by_key rs)
unfolding sort
sort-AreEntries [] h = tt
sort-AreEntries (r ∷ rs) h =
    insert-AreEntries r (sort by_key rs) h.0 (lookup-sort r.key rs h.2 ∙ h.1)
      (sort-AreEntries rs h.2)

pub log_size-sort : (rs : List Record) → log_size (sort by_key rs) ≡ log_size rs
unfolding sort
log_size-sort [] = refl
log_size-sort (r ∷ rs) = omega (arith, log_size-insert r (sort by_key rs), log_size-sort rs)

pub All-sort : (P : Record → Type 0) (rs : List Record) → All P rs → All P (sort by_key rs)
unfolding sort
All-sort P [] h = tt
All-sort P (r ∷ rs) h = All-insert P r (sort by_key rs) h.0 (All-sort P rs h.1)

-- What a SET record says, wherever it stands.
abbrev pub entry_view : ℕ → Option Record → Option Bytes → Option Bytes
entry_view later none before = before
entry_view later (some r) before =
    live later (some (record { metadata = metadata_of r 0; value = r.value }))

set_slot :
    (position later : ℕ) (r : Record)
    → r.operation ≡ Operation.set
    → live later (slot_of position r) ≡ entry_view later (some r) none
set_slot position later r op = rw op refl

-- What the records say of a key is what the record of the key says.
pub live-slot_from :
    (later position : ℕ) (k : Bytes) (rs : List Record) (slot : Option Slot)
    → AreEntries rs
    → live later (slot_from k position rs slot) ≡ entry_view later (lookup k rs) (live later slot)
unfolding slot_from
live-slot_from later position k [] slot h = refl
live-slot_from later position k (r ∷ rs) slot h = elim (Bool-cases (bytes_eq r.key k)) [
  | inl same ↦
      let absent : lookup k rs ≡ none = rw ((bytes_eq_iff r.key k).0 same) at h.1 in
      live-slot_from later (position + record_size r) k rs _ h.2
      ∙ (rw (absent, same) (set_slot position later r h.0))
  | inr other ↦ live-slot_from later (position + record_size r) k rs _ h.2 ∙ (rw other refl)
]

-- The index that a compaction builds agrees with the slots of the new file.
pub indexed-IsMap :
    (position : ℕ) (rs : List Record) (index : Index)
    → IsMap index
    → IsMap (indexed position rs index)
unfolding indexed
indexed-IsMap position [] index m = m
indexed-IsMap position (r ∷ rs) index m =
    indexed-IsMap (position + record_size r) rs _
      (IsMap-assign r.key (metadata_of r position) index m)

pub indexed-Agrees :
    (now_ms position : ℕ) (k : Bytes) (rs : List Record) (index : Index) (slot : Option Slot)
    → AreEntries rs
    → Agrees now_ms (find k index) slot
    → Agrees now_ms (find k (indexed position rs index)) (slot_from k position rs slot)
unfolding indexed slot_from
indexed-Agrees now_ms position k [] index slot h a = a
indexed-Agrees now_ms position k (r ∷ rs) index slot h a =
    indexed-Agrees now_ms (position + record_size r) k rs _ _ h.2
      (rw h.0 (assign-Agrees now_ms r.key k index (metadata_of r position) r.value slot a))
