-- ===== src/Boot/Multiboot/Parse.antt =====
-- What `mb2_get_memory` makes of tags that are laid out as the boot loader does it.
use drupe.Base.{
  ◌==◌, if◌then◌else◌, lt→ltb, Bool-cases, length, u32, u64, Bytes, ℕ, zero, suc, ◌+◌, ◌*◌, ◌^◌,
  ◌<◌, ◌≡◌, refl, sym, ap, subst, ◌∙◌, ◌≢◌, inl, inr, false, some, List, [], ◌∷◌, arith,
}
use drupe.Boot.Multiboot.{
  tag_type, tag_size, mmap_entry_size, mb2_get_memory, entry_len, entry_type, sum_entries, next_tag,
  find_mmap, multiboot_memory_available,
}

-- an entry of the memory map
pub record Region : Type 0 where
  pub len : ℕ
  pub kind : ℕ

-- the bytes of all available regions
unfoldable pub available : List Region → ℕ
available [] = 0
available (r ∷ rs) = (if r.kind == multiboot_memory_available then r.len else 0) + available rs

-- The regions stand one behind the other from address `p` on, `size` bytes for each.
abbrev pub Laid : Bytes → ℕ → ℕ → List Region → Type 0
Laid m size p [] = Unit {0}
Laid m size p (r ∷ rs) =
    (entry_len m p ≡ r.len) × (entry_type m p ≡ r.kind) × Laid m size (p + size) rs

u64-add : (acc x y : ℕ) → u64 (u64 (acc + x) + y) ≡ u64 (acc + (x + y))
u64-add acc x y = omega arith

-- one entry of the loop
sum_entries-step :
    (r : Region) (fuel : ℕ) (m : Bytes) (p end size acc : ℕ)
    → p < end
    → p + size < 2 ^ 32
    → entry_len m p ≡ r.len
    → entry_type m p ≡ r.kind
    → sum_entries (suc fuel) m p end size acc
      ≡ sum_entries fuel m
          (p + size)
          end
          size
          (if r.kind == multiboot_memory_available then u64 (acc + r.len) else acc)
unfolding sum_entries
sum_entries-step r fuel m p end size acc inside small l k =
    let same : u32 (p + size) ≡ p + size = omega arith in rw (lt→ltb p end inside, same, l, k) refl

sum_entries-Laid :
    (rs : List Region) (fuel : ℕ) (m : Bytes) (p end size acc : ℕ)
    → length rs < fuel
    → 0 < size
    → p + length rs * size ≡ end
    → end < 2 ^ 32
    → acc < 2 ^ 64
    → Laid m size p rs
    → sum_entries fuel m p end size acc ≡ some (u64 (acc + available rs))
unfolding available
sum_entries-Laid rs zero m p end size acc enough some_size e small fits laid = absurd (omega arith)
sum_entries-Laid [] (suc fuel) m p end size acc enough some_size e small fits laid =
    unfold sum_entries in ground arith
sum_entries-Laid (r ∷ rs) (suc fuel) m p end size acc enough some_size e small fits laid =
    let step = sum_entries-step r fuel m p end size acc (omega arith) (omega arith) laid.0 laid.1 in
    let ih : (sum : ℕ)
        → sum < 2 ^ 64
        → sum_entries fuel m (p + size) end size sum ≡ some (u64 (sum + available rs)) =
      λ sum small_sum.
        sum_entries-Laid rs fuel m (p + size) end size sum (omega arith) some_size (omega arith)
          small small_sum laid.2 in
    elim (Bool-cases (r.kind == multiboot_memory_available)) [
      | inl hit ↦ rw hit (
          rw hit at step
          ∙ ih (u64 (acc + r.len)) (omega arith)
          ∙ ap some (u64-add acc r.len (available rs)))
      | inr miss ↦
          let none_more : available rs ≡ 0 + available rs = omega arith in
          rw miss (rw miss at step ∙ ih acc fits ∙ ap (λ (s : ℕ). some (u64 (acc + s))) none_more)
    ]

-- From `tag` on `n` tags that are neither the last nor a memory map lead to `target`.
abbrev pub Leads : Bytes → ℕ → ℕ → ℕ → Type 0
Leads m tag zero target = tag ≡ target
Leads m tag (suc n) target =
    (tag_type m tag ≢ 0) × (tag_type m tag ≢ 6) × Leads m (next_tag m tag) n target

-- the memory map at `target`: its tag, and its entries behind it
pub record IsMmap (m : Bytes) (target size : ℕ) (rs : List Region) : Type 0 where
  pub is_mmap : tag_type m target ≡ 6
  pub entry_size : mmap_entry_size m target ≡ size
  pub some_size : 0 < size
  pub whole : tag_size m target ≡ 16 + length rs * size
  pub below : target + tag_size m target < 2 ^ 32
  pub laid : Laid m size (target + 16) rs

find_mmap-IsMmap :
    (rs : List Region) (fuel : ℕ) (m : Bytes) (target size : ℕ)
    → length rs < suc fuel
    → IsMmap m target size rs
    → find_mmap (suc fuel) m target ≡ some (u64 (available rs))
find_mmap-IsMmap rs fuel m target size enough h =
    let start : u32 (target + 16) ≡ target + 16 = omega (arith, h.whole, h.below) in
    let end : u32 (target + tag_size m target) ≡ target + tag_size m target =
      omega (arith, h.below) in
    let whole : target + 16 + length rs * size ≡ target + tag_size m target =
      omega (arith, h.whole) in
    unfold find_mmap in
    rw (h.is_mmap, start, end, h.entry_size)
      (sum_entries-Laid rs (suc fuel) m (target + 16) (target + tag_size m target) size 0 enough
          h.some_size whole h.below (omega arith) h.laid
        ∙ ap (λ (s : ℕ). some (u64 s)) (omega arith))

find_mmap-next :
    (fuel : ℕ) (m : Bytes) (tag : ℕ)
    → (tag_type m tag == 0) ≡ false
    → (tag_type m tag == 6) ≡ false
    → find_mmap (suc fuel) m tag ≡ find_mmap fuel m (next_tag m tag)
unfolding find_mmap
find_mmap-next fuel m tag not_end not_mmap = rw (not_end, not_mmap) refl

find_mmap-Leads :
    (n fuel : ℕ) (m : Bytes) (tag target size : ℕ) (rs : List Region)
    → n + length rs < fuel
    → Leads m tag n target
    → IsMmap m target size rs
    → find_mmap fuel m tag ≡ some (u64 (available rs))
find_mmap-Leads n zero m tag target size rs enough l h = absurd (omega arith)
find_mmap-Leads zero (suc fuel) m tag target size rs enough l h =
    subst (λ t. find_mmap (suc fuel) m t ≡ some (u64 (available rs))) (sym l)
      (find_mmap-IsMmap rs fuel m target size (omega arith) h)
find_mmap-Leads (suc n) (suc fuel) m tag target size rs enough l h =
    let rest = find_mmap-Leads n fuel m (next_tag m tag) target size rs (omega arith) l.2 h in
    let not_end : (tag_type m tag == 0) ≡ false = ground (arith, l.0) in
    let not_mmap : (tag_type m tag == 6) ≡ false = ground (arith, l.1) in
    find_mmap-next fuel m tag not_end not_mmap ∙ rest

-- With the right magic number, `n` other tags from 8 bytes behind the address on, and then a memory
-- map whose entries fill it, the result is the sum of the lengths of the available regions, as a
-- word of 64 bits; the source's loops end after `n` tags and one round for each region.
pub mb2_get_memory_lem :
    (n fuel : ℕ) (m : Bytes) (addr target size : ℕ) (rs : List Region)
    → n + length rs < fuel
    → Leads m (u32 (addr + 8)) n target
    → IsMmap m target size rs
    → mb2_get_memory fuel m 0x36d76289 addr ≡ some (u64 (available rs))
unfolding mb2_get_memory
mb2_get_memory_lem n fuel m addr target size rs enough l h =
    find_mmap-Leads n fuel m (u32 (addr + 8)) target size rs enough l h
