-- ===== src/Mbr/Tests.antt =====
-- The theorems on mbr.cpp at concrete disks, and runs of its functions.
use podumat_os.Prelude.{◌≡◌, ◌≤◌, ◌+◌, refl, ap, inl, inr, [], ◌∷◌, some, arith, replicate}
use podumat_os.Disk.Ram.{Medium, ram, blank}
use podumat_os.Disk.{put}
use podumat_os.Mbr.Sector.{Mbr, IsMbr, serialize, parse-serialize_all, empty_partition}
use podumat_os.Mbr.{read, find_free_lba, room, fresh_partition, skip_over, first_gap}
use podumat_os.Mbr.Space.{NoneCovers, find_free_lba_lem}

abbrev empty_table : Mbr
empty_table = record {
  bootstrap = replicate 446 0;
  partitions = replicate 4 empty_partition;
  signature = 0xAA55;
}

-- A disk of 100000 sectors with an empty table.
abbrev fresh_disk : Medium
fresh_disk = record { cells = put (blank 1).cells 0 (serialize empty_table); size = 100000 }

-- Partition 0 takes the sectors from 2048 to 6000, partition 1 those from 10000 to 20000.
abbrev two_partitions : Mbr
two_partitions = record empty_table {
  partitions =
      fresh_partition 2048 3952 0x0B
      ∷ fresh_partition 10000 10000 0x83
      ∷ empty_partition
      ∷ empty_partition
      ∷ [];
}

two_partitions-IsMbr : IsMbr two_partitions
two_partitions-IsMbr = record { boot = refl; fit = omega arith; four = refl; signed = omega arith }

abbrev full_disk : Medium
full_disk = record { cells = put (blank 1).cells 0 (serialize two_partitions); size = 100000 }

full_read : (read ram full_disk).0 ≡ some two_partitions
unfolding read
full_read = ap some (parse-serialize_all two_partitions two_partitions-IsMbr)

full_run : (find_free_lba ram 100 full_disk).0 ≡ 6144
unfolding find_free_lba room first_gap skip_over
full_run = ap (λ o. (room ram 100 (o, full_disk)).0) full_read

find_free_lba_lem_example :
    (2048 ≤ (find_free_lba ram 100 full_disk).0)
    × NoneCovers (find_free_lba ram 100 full_disk).0 two_partitions.partitions
    × ((find_free_lba ram 100 full_disk).0 + 100 ≤ 100000)
unfolding read
find_free_lba_lem_example =
    find_free_lba_lem ram 100 full_disk (omega arith) full_read
      (inr (omega arith, omega arith, inr (omega arith, omega arith, inl (refl, inl (refl, tt)))))
      (omega (arith, full_run))
