-- ===== src/Memory/Tests.antt =====
-- The theorems on memory.cpp at a concrete memory.
use podumat_os.Prelude.{◌≡◌}
use podumat_os.Memory.{Memory, memmove, memcmp}
use podumat_os.Memory.Copy.{memmove_lem}
use podumat_os.Memory.Compare.{Means, memcmp-Means}

-- Address `a` holds `a`.
abbrev ramp : Memory
ramp a = a

-- Eight bytes move up by three, into their own area.
memmove_lem_example : memmove 103 100 8 ramp 105 ≡ 102
memmove_lem_example = memmove_lem 103 100 8 ramp 105

memcmp-Means_example : Means 100 200 4 ramp (memcmp 100 200 4 ramp)
memcmp-Means_example = memcmp-Means 100 200 4 ramp
