-- ===== src/Boot/Multiboot/Tests.antt =====
-- The theorem on the boot loader's tags at concrete tags.
use drupe.Base.{◌==◌, if◌then◌else◌, Bytes, get_u32, get_u64, ◌≡◌, refl, some, List, [], ◌∷◌, arith}
use drupe.Boot.Multiboot.{mb2_get_memory}
use drupe.Boot.Multiboot.Parse.{Region, available, mb2_get_memory_lem, Leads, IsMmap}

-- From 0x1008 on a tag of 9 bytes and of type 1, and behind it a memory map with one region of 640
-- KiB that is available and one that is reserved.
abbrev tags : Bytes
tags a =
    if a == 0x1008
    then 1
    else (if a == 0x100C
        then 9
        else (if a == 0x1018
            then 6
            else (if a == 0x101C
                then 64
                else (if a == 0x1020
                    then 24
                    else (if a == 0x1032
                        then 10
                        else (if a == 0x1038
                            then 1
                            else (if a == 0x1048 then 32 else (if a == 0x1050 then 2 else 0))))))))

abbrev regions : List Region
regions = record { len = 0xA0000; kind = 1 } ∷ record { len = 32; kind = 2 } ∷ []

tags-IsMmap : IsMmap tags 0x1018 24 regions
unfolding get_u32 get_u64
tags-IsMmap = record {
  is_mmap = refl;
  entry_size = refl;
  some_size = omega arith;
  whole = refl;
  below = omega arith;
  laid = (refl, refl, (refl, refl, tt));
}

tags-Leads : Leads tags 0x1008 1 0x1018
unfolding get_u32
tags-Leads = (omega arith, omega arith, refl)

mb2_get_memory_lem_example : mb2_get_memory 4 tags 0x36d76289 0x1000 ≡ some 0xA0000
unfolding available
mb2_get_memory_lem_example =
    mb2_get_memory_lem 1 4 tags 0x1000 0x1018 24 regions (omega arith) tags-Leads tags-IsMmap
