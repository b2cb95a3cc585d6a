-- ===== src/Inode/Tests.antt =====
-- Inodes run on a small device, and the theorems at inputs that meet their hypotheses.
use cs439_pcs.Base.{ℕ, zero, suc, ◌/◌, ◌<◌, word_mod, false, some, none}
use cs439_pcs.Base.{List, [], ◌∷◌, ◌≡◌, refl, arith, replicate, ◌-◌, ◌∙◌, ap, sym}
use cs439_pcs.Bitmap.{Bitmap, elem_at}
use cs439_pcs.Bitmap.Range.{tally}
use cs439_pcs.Bitmap.Single.{bit}
use cs439_pcs.Bits.{digit}
use cs439_pcs.FreeMap.{store}
use cs439_pcs.FreeMap.Count.{Stores, free_cnt}
use cs439_pcs.Device.{InodeDisk, zeros}
use cs439_pcs.Inode.{byte_to_sector}
use cs439_pcs.Inode.Grow.{Fs, inode_grow}
use cs439_pcs.Inode.Grow.Fresh.{IsReady, Used}
use cs439_pcs.Inode.Slots.{Has, place_of, IsMeta, Slot, file, single, double, inner, slot_at}
use cs439_pcs.Inode.Layout.{Holds, byte_to_sector_injective}
use cs439_pcs.Inode.Growth.{Grows, inode_grow-Grows}

-- A file is its elements, and a write stores all of them.
abbrev pub write_all : List ℕ → List ℕ → ℕ → ℕ → ℕ × List ℕ
write_all elems new size ofs = (size, new)

pub write_all-Stores : Stores write_all
unfolding store cs439_pcs.Bitmap.write
write_all-Stores map none = refl
write_all-Stores map (some stored) = ground arith

-- Sectors 0 and 1 are taken.
abbrev map : Bitmap
map = record { bit_cnt = 32; bits = 3 ∷ [] }

map-words : (j : ℕ) → elem_at map j < word_mod
map-words zero = omega arith
map-words (suc j) = omega arith

abbrev fs : Fs (List ℕ)
fs = record {
  map = record { free_map = map; free_map_file = some [] };
  dev = record { size = 32; sectors = λ k. zeros };
}

fs-IsReady : IsReady fs
fs-IsReady = record {
  valid = record { small = omega arith; stored = omega arith; words = map-words };
  sized = refl;
}

abbrev no_file : InodeDisk
no_file = record {
  length = 0;
  magic = 0x494e4f44;
  ptr = replicate 12 0;
  parent = 1;
  direct_level_index = 0;
  first_level_index = 0;
  second_level_index = 0;
  sub_dir = false;
}

no_slot : (t : Slot) → Has 0 t → ⊥
no_slot (file k) l = omega arith
no_slot single l = omega arith
no_slot double l = omega arith
no_slot (inner j) l = omega arith

no_file-Holds : Holds no_file fs 0
no_file-Holds = record {
  ready = fs-IsReady;
  counters = record { low = λ q. (refl, refl, refl); high = λ q. absurd (omega arith) };
  room = refl;
  fits = omega arith;
  owns = record {
    used = λ t l. absurd (no_slot t l);
    in_range = λ t l. absurd (no_slot t l);
    apart = λ t u l m e. absurd (no_slot t l);
  };
  blocks = λ t l m. absurd (no_slot t l);
}

abbrev pub junk : Fs (List ℕ) → List ℕ
junk s = replicate 128 0

free_at_first : free_cnt map ≡ 30
unfolding free_cnt tally bit digit
free_at_first = refl

-- Twelve sectors: ten direct ones, an index block, and two that it lists.
inode_grow-Grows_example :
    Grows write_all junk write_all-Stores
      (λ s. refl)
      0
      12
      12
      6144
      no_file
      fs
      (inode_grow write_all junk 6144 no_file fs)
inode_grow-Grows_example =
    inode_grow-Grows write_all junk write_all-Stores (λ s. refl) 6144 0 12 no_file fs no_file-Holds
      refl refl (omega arith) (omega arith) (omega (arith, free_at_first))

-- A file of two sectors, at 2 and 3.
abbrev pub small_file : InodeDisk
small_file = record no_file { length = 1000; ptr = 2 ∷ 3 ∷ replicate 10 0; direct_level_index = 2 }

abbrev pub small_fs : Fs (List ℕ)
small_fs = record {
  map = record { free_map = record { bit_cnt = 32; bits = 15 ∷ [] }; free_map_file = some [] };
  dev = record { size = 32; sectors = λ k. zeros };
}

small-words : (j : ℕ) → elem_at small_fs.map.free_map j < word_mod
small-words zero = omega arith
small-words (suc j) = omega arith

abbrev small_place : Slot → ℕ
small_place = place_of small_file small_fs.dev

small-Used : (t : Slot) → Has 2 t → Used small_fs (small_place t)
unfolding bit digit slot_at
small-Used (file zero) l = refl
small-Used (file (suc zero)) l = refl
small-Used (file (suc (suc k))) l = absurd (omega arith)
small-Used single l = absurd (omega arith)
small-Used double l = absurd (omega arith)
small-Used (inner j) l = absurd (omega arith)

small-in_range : (t : Slot) → Has 2 t → small_place t < 32
unfolding slot_at
small-in_range (file zero) l = omega arith
small-in_range (file (suc zero)) l = omega arith
small-in_range (file (suc (suc k))) l = absurd (omega arith)
small-in_range single l = absurd (omega arith)
small-in_range double l = absurd (omega arith)
small-in_range (inner j) l = absurd (omega arith)

-- The two slots of the file, by their sectors.
small-slot : (t : Slot) → Has 2 t → t ≡ file (small_place t - 2)
unfolding slot_at
small-slot (file zero) l = refl
small-slot (file (suc zero)) l = refl
small-slot (file (suc (suc k))) l = absurd (omega arith)
small-slot single l = absurd (omega arith)
small-slot double l = absurd (omega arith)
small-slot (inner j) l = absurd (omega arith)

small-no_meta : (t : Slot) → Has 2 t → IsMeta t → ⊥
small-no_meta (file k) l m = m
small-no_meta single l m = omega arith
small-no_meta double l m = omega arith
small-no_meta (inner j) l m = omega arith

pub small_file-Holds : Holds small_file small_fs 2
small_file-Holds = record {
  ready = record {
    valid = record { small = omega arith; stored = omega arith; words = small-words };
    sized = refl;
  };
  counters = record { low = λ q. (refl, refl, refl); high = λ q. absurd (omega arith) };
  room = refl;
  fits = omega arith;
  owns = record {
    used = small-Used;
    in_range = small-in_range;
    apart = λ t u l m e. small-slot t l ∙ ap (λ s. file (s - 2)) e ∙ sym (small-slot u m);
  };
  blocks = λ t l m. absurd (small-no_meta t l m);
}

byte_to_sector_injective_example :
    (s s' : ℕ) × (byte_to_sector small_file small_fs.dev 700 ≡ some s)
    × (byte_to_sector small_file small_fs.dev 3 ≡ some s')
    × (s ≡ place_of small_file small_fs.dev (file (700 / 512)))
    × (s' ≡ place_of small_file small_fs.dev (file (3 / 512)))
    × Used small_fs s
    × Used small_fs s'
    × (s ≡ s' → 700 / 512 ≡ 3 / 512)
byte_to_sector_injective_example =
    byte_to_sector_injective small_file small_fs 2 700 3 small_file-Holds (omega arith)
      (omega arith) (omega arith) (omega arith)
