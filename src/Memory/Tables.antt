-- ===== src/Memory/Tables.antt =====
-- kernel/memory.c: the page tables, as 64-bit words in the memory. The memory is a function from the
-- address to the byte.
use Prim.Native.Nat.{bit_and, bit_or}
use ovsb_mk.Base.{
  ℕ, zero, suc, ◌+◌, ◌*◌, ◌/◌, ◌%◌, ◌^◌, Bool, true, false, not, Option, none, some, ◌==◌, ltb,
  if◌then◌else◌, ℤ, pos, negsuc,
}
use ovsb_mk.Memory.Types.{Memory, update}
use ovsb_mk.Memory.Pages.{mmap_user, page_alloc, page_free}

abbrev pub Bytes : Type 0
Bytes = ℕ → ℕ

-- `n` bytes at an address, the lowest first.
unfoldable pub load : Bytes → (at n : ℕ) → ℕ
load b at zero = 0
load b at (suc n) = b at + 256 * load b (at + 1) n

unfoldable pub save : Bytes → (at n v : ℕ) → Bytes
save b at zero v = b
save b at (suc n) v = update (save b (at + 1) n (v / 256)) at (v % 256)

-- A `uint64_t` at an address.
abbrev pub load64 : Bytes → (at : ℕ) → ℕ
load64 b at = load b at 8

abbrev pub save64 : Bytes → (at v : ℕ) → Bytes
save64 b at v = save b at 8 v

-- The loop over the 512 entries of a table: from the entry `i` on, with `n` to go.
unfoldable pub zero_table : Bytes → (table i n : ℕ) → Bytes
zero_table b table i zero = b
zero_table b table i (suc n) = zero_table (save64 b (table + 8 * i) 0) table (i + 1) n

unfoldable pub copy_table : Bytes → (to from i n : ℕ) → Bytes
copy_table b to from i zero = b
copy_table b to from i (suc n) =
    copy_table (save64 b (to + 8 * i) (load64 b (from + 8 * i))) to from (i + 1) n

-- `pml4_create`, with the register CR3; 0 is `none`.
unfoldable pub pml4_create : Memory → Bytes → (cr3 : ℕ) → Option ℕ × Memory × Bytes
pml4_create m b cr3 =
    let (addr, m') = page_alloc m in
    elim addr [ none ↦ (none, m', b) | some p ↦ (some p, m', copy_table b p cr3 0 512) ]

unfoldable pub pml4_destroy : Memory → (pml4 : ℕ) → Memory
pml4_destroy m pml4 = page_free m pml4

-- The table that an entry points to.
abbrev pub table_of : ℕ → ℕ
table_of entry = bit_and entry 0xFFFFFFFFFFFFF000

-- The table below the entry at the address `slot`: a new one if the entry is not present; `none` if
-- there is no page for it.
unfoldable pub next_table : Memory → Bytes → (slot : ℕ) → Option ℕ × Memory × Bytes
next_table m b slot =
    let (addr, m') = mmap_user m 4096 in
    if not (bit_and (load64 b slot) 1 == 0)
    then (some (table_of (load64 b slot)), m, b)
    else elim addr [
      | none ↦ (none, m', b)
      | some p ↦
          (let b' = save64 (zero_table b p 0 512) slot (bit_or p 0x03) in
            (some (table_of (load64 b' slot)), m', b'))
    ]

-- A round of the loop in `pml4_map_phys`, one page of 2 MB; `false` is the return of -1.
unfoldable pub map_page : Memory → Bytes → (pml4 va pa flags : ℕ) → Bool × Memory × Bytes
map_page m b pml4 va pa flags =
    let (pdpt, m1, b1) = next_table m b (pml4 + 8 * (va / 2 ^ 39 % 512)) in
    elim pdpt [
      | none ↦ (false, m1, b1)
      | some t ↦
          (let (pd, m2, b2) = next_table m1 b1 (t + 8 * (va / 2 ^ 30 % 512)) in
            elim pd [
              | none ↦ (false, m2, b2)
              | some u ↦ (true, m2, save64 b2 (u + 8 * (va / 2 ^ 21 % 512)) (bit_or pa flags))
            ])
    ]

-- The loop from `offset` on, with at most `n` rounds.
unfoldable pub map_pages :
    Memory → Bytes → (pml4 virt phys offset size flags n : ℕ) → ℤ × Memory × Bytes
map_pages m b pml4 virt phys offset size flags zero = (pos 0, m, b)
map_pages m b pml4 virt phys offset size flags (suc n) =
    let (done, m', b') =
      map_page m b pml4 ((virt + offset) % 2 ^ 64) ((phys + offset) % 2 ^ 64) flags in
    let rest = map_pages m' b' pml4 virt phys (offset + 2 ^ 21) size flags n in
    if ltb offset size
    then elim done [ false ↦ (negsuc 0, m', b') | true ↦ rest ]
    else (pos 0, m, b)

-- The flag of a writable page is set in any case. A round maps 2 MB.
unfoldable pub pml4_map_phys : Memory → Bytes → (pml4 virt phys size : ℕ) → ℤ × Memory × Bytes
pml4_map_phys m b pml4 virt phys size = map_pages m b pml4 virt phys 0 size 0x87 (size / 2 ^ 21 + 1)
