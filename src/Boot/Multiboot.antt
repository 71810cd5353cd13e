-- ===== src/Boot/Multiboot.antt =====
-- source/boot/multiboot.c: the size of the available memory, from the tags of the boot loader.
pub mod Parse
pub mod Tests
use drupe.Base.{
  ltb, ◌==◌, if◌then◌else◌, u32, u64, not32, Bytes, get_u32, get_u64, ℕ, zero, suc, ◌+◌, bit_and,
  Option, none, some,
}

abbrev pub multiboot_tag_type_end : ℕ
multiboot_tag_type_end = 0

abbrev pub multiboot_tag_type_mmap : ℕ
multiboot_tag_type_mmap = 6

abbrev pub multiboot_memory_available : ℕ
multiboot_memory_available = 1

-- fields of `multiboot_tag_t`, `multiboot_tag_mmap_t` and `multiboot_mmap_entry_t`
abbrev pub tag_type : Bytes → ℕ → ℕ
tag_type m tag = get_u32 m tag

abbrev pub tag_size : Bytes → ℕ → ℕ
tag_size m tag = get_u32 m (tag + 4)

abbrev pub mmap_entry_size : Bytes → ℕ → ℕ
mmap_entry_size m tag = get_u32 m (tag + 8)

abbrev pub entry_len : Bytes → ℕ → ℕ
entry_len m entry = get_u64 m (entry + 8)

abbrev pub entry_type : Bytes → ℕ → ℕ
entry_type m entry = get_u32 m (entry + 16)

-- The loop over the entries of the memory map; `none` if the fuel runs out.
unfoldable pub sum_entries : ℕ → Bytes → ℕ → ℕ → ℕ → ℕ → Option ℕ
sum_entries zero m entry_ptr end size available_memory = none
sum_entries (suc fuel) m entry_ptr end size available_memory =
    let sum =
      if entry_type m entry_ptr == multiboot_memory_available
      then u64 (available_memory + entry_len m entry_ptr)
      else available_memory in
    let rest = sum_entries fuel m (u32 (entry_ptr + size)) end size sum in
    if ltb entry_ptr end then rest else some available_memory

-- the next tag, at the next multiple of 8
abbrev pub next_tag : Bytes → ℕ → ℕ
next_tag m tag = u32 (tag + bit_and (u32 (tag_size m tag + 7)) (not32 7))

-- The loop over the tags, which ends with the memory map.
unfoldable pub find_mmap : ℕ → Bytes → ℕ → Option ℕ
unfolding sum_entries
find_mmap zero m tag = none
find_mmap (suc fuel) m tag =
    let rest = find_mmap fuel m (next_tag m tag) in
    if tag_type m tag == multiboot_tag_type_end
    then some 0
    else (if tag_type m tag == multiboot_tag_type_mmap
        then sum_entries (suc fuel) m (u32 (tag + 16)) (u32 (tag + tag_size m tag))
            (mmap_entry_size m tag) 0
        else rest)

-- `none` if the fuel runs out; a tag of size 0 or entries of size 0 keep the source in its loops.
unfoldable pub mb2_get_memory : ℕ → Bytes → ℕ → ℕ → Option ℕ
mb2_get_memory fuel m magic addr =
    if magic == 0x36d76289 then find_mmap fuel m (u32 (addr + 8)) else some 0
