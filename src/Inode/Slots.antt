-- ===== src/Inode/Slots.antt =====
-- The sectors of a file by what they are for, and what it means that an inode of so many sectors is
-- laid out on the device.
use cs439_pcs.Base.{ℕ, ◌+◌, ◌-◌, ◌*◌, ◌/◌, ◌%◌, ◌≤◌, ◌<◌, List, [], some, min}
use cs439_pcs.Base.{◌≡◌, refl, sym, ◌∙◌, ap, ltb, if◌then◌else◌, length, lt→ltb}
use cs439_pcs.Device.{Device, InodeDisk, index_block, read_index, block_read}
use cs439_pcs.Inode.{entry}
use native.Mathlib.Decide.{dec_lt}

-- Sector `k` of the file, the index block of the first level, the one of the second level, and the
-- index blocks that this one lists.
pub data Slot : Type 0 where
  file : ℕ → Slot
  single double : Slot
  inner : ℕ → Slot

-- The entries of the index block at a sector.
abbrev pub entries : Device → ℕ → List ℕ
entries dev s = elim (dev.sectors s) [ index_block p ↦ p | _ ↦ [] ]

-- The sector that a slot has, by the pointers of the inode, the entries of its second index block
-- and the entries of any other.
unfoldable pub slot_at : List ℕ → List ℕ → (ℕ → List ℕ) → Slot → ℕ
slot_at ptr second rd (file k) =
    if ltb k 10
    then entry ptr k
    else if ltb k 138
    then entry (rd (entry ptr 10)) (k - 10)
    else entry (rd (entry second ((k - 138) / 128))) ((k - 138) % 128)
slot_at ptr second rd single = entry ptr 10
slot_at ptr second rd double = entry ptr 11
slot_at ptr second rd (inner j) = entry second j

abbrev pub second_of : InodeDisk → Device → List ℕ
second_of d dev = entries dev (entry d.ptr 11)

-- The sector that a slot has on the device.
abbrev pub place_of : InodeDisk → Device → Slot → ℕ
place_of d dev = slot_at d.ptr (second_of d dev) (entries dev)

-- The slots that a file of `n` sectors has. The block of the second level counts from `b` on.
abbrev pub Live : ℕ → ℕ → Slot → Type 0
Live n b (file k) = k < n
Live n b single = 10 < n
Live n b double = 138 < b
Live n b (inner j) = 138 + 128 * j < n

abbrev pub Has : ℕ → Slot → Type 0
Has n = Live n n

pub Live-dec : (n b : ℕ) (t : Slot) → Dec (Live n b t)
Live-dec n b (file k) = dec_lt k n
Live-dec n b single = dec_lt 10 n
Live-dec n b double = dec_lt 138 b
Live-dec n b (inner j) = dec_lt (138 + 128 * j) n

-- The slots whose sectors are index blocks.
abbrev pub IsMeta : Slot → Type 0
IsMeta (file k) = ⊥
IsMeta single = Unit
IsMeta double = Unit
IsMeta (inner j) = Unit

abbrev pub max_sectors : ℕ
max_sectors = 10 + 128 + 128 * 128

-- The sectors that a file of `n` sectors takes up, its index blocks included.
abbrev pub total : ℕ → ℕ
total n = n + (if ltb 10 n then 1 else 0) + (if ltb 138 n then 1 else 0) + (n - 138 + 127) / 128

-- The three indices at which the next sector of a file of `n` sectors is entered.
pub record Counters (d : InodeDisk) (n : ℕ) : Type 0 where
  pub low :
      n < 138
      → (d.direct_level_index ≡ min n 10)
        × (d.first_level_index ≡ n - 10)
        × (d.second_level_index ≡ 0)
  pub high :
      138 ≤ n
      → (d.direct_level_index ≡ 11)
        × (d.first_level_index ≡ (n - 138) / 128)
        × (d.second_level_index ≡ (n - 138) % 128)

-- The sector is an index block of full size.
pub record IsIndex (dev : Device) (s : ℕ) : Type 0 where
  pub kind : dev.sectors s ≡ index_block (entries dev s)
  pub full : length (entries dev s) ≡ 128

pub read_index_lem :
    (dev : Device) (s : ℕ) → s < dev.size → IsIndex dev s → read_index dev s ≡ some (entries dev s)
unfolding read_index block_read
read_index_lem dev s h i = rw (lt→ltb s dev.size h) (rw i.kind refl)

-- A sector whose contents stay has the same entries, and stays an index block.
pub entries-kept :
    (dev dev' : Device) (s : ℕ) → dev'.sectors s ≡ dev.sectors s → entries dev' s ≡ entries dev s
entries-kept dev dev' s e = ap (λ c. elim c [ index_block p ↦ p | _ ↦ [] ]) e

pub IsIndex-kept :
    (dev dev' : Device) (s : ℕ) → dev'.sectors s ≡ dev.sectors s → IsIndex dev s → IsIndex dev' s
IsIndex-kept dev dev' s e i =
    let same_list = entries-kept dev dev' s e in
    record {
      kind = e ∙ i.kind ∙ ap index_block (sym same_list);
      full = ap length same_list ∙ i.full;
    }

-- A sector that an index block was stored in.
pub IsIndex-stored :
    (dev : Device) (s : ℕ) (new : List ℕ)
    → dev.sectors s ≡ index_block new
    → length new ≡ 128
    → IsIndex dev s
IsIndex-stored dev s new e full =
    let listed : entries dev s ≡ new = rw (e, entries) refl in
    record { kind = e ∙ ap index_block (sym listed); full = ap length listed ∙ full }
