-- ===== src/Ext2/Tests.antt =====
-- The theorems on ext2.cpp at concrete volumes, and runs of the code.
use podumat_os.Prelude.{
  ap, sym, subst, ◌∙◌, ltb, ltb→lt, ltb→le, get_or_past, ◌⊎◌, ℕ, ◌+◌, ◌-◌, ◌*◌, ◌/◌, ◌%◌, ◌^◌, ◌≡◌,
  ◌≢◌, refl, inl, inr, Bool, true, false, Option, none, some, List, [], ◌∷◌, ◌++◌, ◌==◌,
  if◌then◌else◌, replicate, length, length-replicate, arith, Bool-cases,
}
use podumat_os.Prelude.Words.{byte_at, word_at, short_at, put_word, put_short, put_bytes}
use podumat_os.Disk.Ram.{Medium, ram, ram-IsReliable}
use podumat_os.Ext2.Actions.{Fs, Volume}
use podumat_os.Ext2.Mount.{unmounted, mount}
use podumat_os.Ext2.Tree.{get_inode_block}
use podumat_os.Ext2.Entries.{
  at, missing, seek, seek_in, stops, same_bytes, has_name, has_room, entry_room, dir_entry,
  insert_at,
}
use podumat_os.Ext2.Calls.{dots, create_dir}
use podumat_os.Ext2.Files.{write_file}
use podumat_os.Ext2.Relative.{write_file_root}
use podumat_os.Ext2.Sought.{Sought, seek_in-Sought}
use podumat_os.Ext2.Geometry.{MountResult, mount-MountResult}
use podumat_os.Ext2.Blocks.{IsSectored}
use podumat_os.Ext2.Loaded.{IsReady, Answers}
use podumat_os.Ext2.BlockMap.{IsBlockOf, node, leaf, in_tree}
use podumat_os.Ext2.Bitmaps.{first_clear, clear_in_byte}
use podumat_os.Prelude.Bytes.{bit_of}
use podumat_os.Ext2.FirstClear.{FirstFree, first_clear-FirstFree}
use podumat_os.Ext2.Mapped.{get_inode_block-Answers}
use podumat_os.Prelude.Bytes.{holds_under, at_index}
use podumat_os.Ext2.Reached.{Links, first, next, IsDirBlock, Names}
use podumat_os.Ext2.Inserted.{insert_at-Names}

-- Blocks of 1024 bytes on a disk of 64 sectors; block 5 lists block 7 at its entry 1.
abbrev some_fs : Fs
some_fs = record (unmounted 0) {
  mounted = true;
  block_size = 1024;
  sectors_per_block = 2;
  inode_size = 128;
  inodes_per_group = 8;
  blocks_per_group = 32;
  groups_count = 1;
  root_inode = 2;
  current_inode = 2;
}

abbrev index_sector : List ℕ
index_sector = 0 ∷ 0 ∷ 0 ∷ 0 ∷ 7 ∷ replicate 507 0

abbrev some_disk : Medium
some_disk = record { cells = λ l. if l == 10 then index_sector else replicate 512 0; size = 64 }

abbrev some_volume : Volume ram
some_volume = record {
  fs = some_fs;
  g_buf = replicate 8192 0;
  g_buf2 = replicate 8192 0;
  dir_buf = replicate 8192 0;
  disk = some_disk;
}

-- An inode whose tree of one level has the block 5.
abbrev some_inode : List ℕ
some_inode = replicate 88 0 ++ (5 ∷ replicate 39 0)

some_disk-IsSectored : IsSectored ram some_disk
some_disk-IsSectored = record {
  sector_length = λ l. elim (Bool-cases (l == 10)) [ inl e ↦ simp e refl | inr e ↦ simp e refl ];
}

some_volume-IsReady : IsReady ram some_volume
some_volume-IsReady = record {
  sized = record { positive = omega arith; at_most = omega arith; sectors = refl };
  sectored = some_disk-IsSectored;
  sectors = omega arith;
  buffer = length-replicate {A = ℕ} 8192 0;
}

block_13 : IsBlockOf ram some_fs some_disk some_inode 13 7
unfolding word_at
block_13 =
    in_tree 0 7 (omega arith) (omega arith) (omega arith)
      (node 0 5 1 7 (λ e. absurd (omega (arith, e))) (record { ends = omega arith }) (leaf 7 0))

get_inode_block-Answers_example :
    Answers ram some_volume (get_inode_block ram some_inode 13 some_volume) 7
get_inode_block-Answers_example =
    get_inode_block-Answers ram ram-IsReliable some_inode 13 7 some_volume some_volume-IsReady
      block_13

mount-MountResult_example : MountResult ram 0 (mount ram 0 67 some_volume)
mount-MountResult_example = mount-MountResult ram 0 67 some_volume

write_file_root_example :
    (write_file ram (47 ∷ 97 ∷ []) (1 ∷ []) some_volume
      ≡ write_file ram (97 ∷ []) (1 ∷ []) some_volume)
    × (create_dir ram (47 ∷ 97 ∷ []) some_volume ≡ create_dir ram (97 ∷ []) some_volume)
write_file_root_example = write_file_root ram 47 (97 ∷ []) (1 ∷ []) some_volume refl refl

-- The block of a directory of 32 bytes.
abbrev small_block : List ℕ
small_block = dots 32 11 2

seek_in-Sought_example :
    Sought 32
      (has_name (46 ∷ 46 ∷ []))
      small_block
      0
      none
      (seek_in 32 (has_name (46 ∷ 46 ∷ [])) small_block)
seek_in-Sought_example = seek_in-Sought 32 (has_name (46 ∷ 46 ∷ [])) small_block (omega arith)

dotdot_found : seek_in 32 (has_name (46 ∷ 46 ∷ [])) (dots 32 11 2) ≡ at 12 (some 0)
unfolding seek has_name same_bytes stops dots dir_entry word_at short_at
    podumat_os.Prelude.Words.slice
dotdot_found = refl

-- The block of a directory of 64 bytes, with room behind its second entry.
abbrev roomy_block : List ℕ
roomy_block = dots 64 11 2

at_end : stops 64 roomy_block 64 ≡ true
unfolding stops
at_end = refl

inside_block : (y : ℕ) → stops 64 roomy_block y ≡ false → y ≢ 64
inside_block y on e =
    let h : stops 64 roomy_block 64 ≡ false = subst (λ k. stops 64 roomy_block k ≡ false) e on in
    ground (arith, at_end, h)

roomy_places : (y : ℕ) → Links 64 roomy_block y → (y ≡ 0) ⊎ ((y ≡ 12) ⊎ (y ≡ 64))
unfolding stops dots dir_entry short_at
roomy_places _ first = inl refl
roomy_places _ (next y l on) = elim (roomy_places y l) [
  | inl e ↦ inr (inl (ap (λ k. k + short_at roomy_block (k + 4)) e))
  | inr (inl e) ↦ inr (inr (ap (λ k. k + short_at roomy_block (k + 4)) e))
  | inr (inr e) ↦ absurd (inside_block y on e)
]

roomy_block-IsDirBlock : IsDirBlock 64 roomy_block
unfolding dots dir_entry short_at holds_under
roomy_block-IsDirBlock = record {
  positive = omega arith;
  room = omega arith;
  small = omega arith;
  byte = λ i. elim (Bool-cases (ltb i 64)) [
    | inl h ↦ ltb→lt _ _ (at_index (λ k. ltb (byte_at roomy_block k) 256) 64 i (ltb→lt _ _ h) refl)
    | inr h ↦ omega (arith, get_or_past roomy_block i 0 (ltb→le _ _ h))
  ];
  name = λ y l on. elim (roomy_places y l) [
    | inl e ↦ simp e (omega arith)
    | inr (inl e) ↦ simp e (omega arith)
    | inr (inr e) ↦ absurd (inside_block y on e)
  ];
}

room_found : seek_in 64 (has_room (entry_room 1)) roomy_block ≡ at 12 (some 0)
unfolding seek has_room stops dots dir_entry word_at short_at
room_found = refl

a_absent : seek_in 64 (has_name (97 ∷ [])) roomy_block ≡ missing
unfolding seek has_name same_bytes stops dots dir_entry word_at short_at
    podumat_os.Prelude.Words.slice
a_absent = refl

insert_at-Names_example : Names 64 (97 ∷ []) 15 1 (insert_at roomy_block 12 15 (97 ∷ []) 1)
insert_at-Names_example =
    insert_at-Names 64 roomy_block (97 ∷ []) 15 1 12 (some 0) roomy_block-IsDirBlock (omega arith)
      (omega arith) (omega arith) (omega arith) room_found a_absent

-- A bitmap whose first ten bits are set.
abbrev ten_set : List ℕ
ten_set = 255 ∷ 3 ∷ []

first_clear-FirstFree_example :
    FirstFree (λ idx. true) ten_set 0 (2 * 8) (first_clear (λ idx. true) 2 0 ten_set)
first_clear-FirstFree_example = first_clear-FirstFree (λ idx. true) ten_set 2

tenth_is_clear : first_clear (λ idx. true) 2 0 ten_set ≡ some 10
unfolding first_clear clear_in_byte bit_of
tenth_is_clear = refl
