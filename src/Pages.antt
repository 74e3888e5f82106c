-- ===== src/Pages.antt =====
-- The page allocator of ass5/final_repo/kalloc.c.
use operating_systems_work.Base.{
  ℕ, zero, suc, ◌+◌, ◌-◌, ◌*◌, ◌/◌, ◌%◌, ◌^◌, Bool, true, false, ◌&&◌, ◌||◌, not, Option, none,
  some, ◌==◌, ltb, leb, if◌then◌else◌,
}
pub mod Chain
pub mod Holding
pub mod Boot

-- The word at each address, and `kmem.freelist`; a `struct run` is the word at its address.
pub record Kmem : Type 0 where
  pub word : ℕ → ℕ
  pub freelist : ℕ

-- PGSIZE, KERNBASE and PHYSTOP.
abbrev pub page_size : ℕ
page_size = 4096

abbrev pub kern_base : ℕ
kern_base = 2147483648

abbrev pub phys_stop : ℕ
phys_stop = 234881024

-- `V2P`, on 32 bits.
abbrev pub v2p : ℕ → ℕ
v2p v = (v + 2 ^ 32 - kern_base) % 2 ^ 32

-- `memset(v, 1, PGSIZE)`
abbrev pub junk : ℕ → (ℕ → ℕ) → ℕ → ℕ
junk v word a = if leb v a && ltb a (v + page_size) then 16843009 else word a

-- `end` is the first address after the kernel. `none` is the panic.
unfoldable pub kfree : ℕ → ℕ → Kmem → Option Kmem
kfree end v k =
    if not (v % page_size == 0) || ltb v end || leb phys_stop (v2p v)
    then none
    else some (record { word = λ a. if a == v then k.freelist else junk v k.word a; freelist = v })

-- The page, or 0.
unfoldable pub kalloc : Kmem → ℕ × Kmem
kalloc k =
    if k.freelist == 0 then (0, k) else (k.freelist, record k { freelist = k.word k.freelist })

-- The loop of `freerange` from `p` on.
unfoldable pub freerange_loop : ℕ → ℕ → ℕ → ℕ → Kmem → Option Kmem
freerange_loop end zero p vend k = some k
freerange_loop end (suc rounds) p vend k =
    let next : Option Kmem = elim (kfree end p k) [
      | none ↦ none
      | some k' ↦ freerange_loop end rounds (p + page_size) vend k'
    ] in
    if leb (p + page_size) vend then next else some k

-- `PGROUNDUP` of `vstart`, and a round for each page.
unfoldable pub freerange : ℕ → ℕ → ℕ → Kmem → Option Kmem
freerange end vstart vend k =
    freerange_loop end (vend / page_size) ((vstart + page_size - 1) / page_size * page_size) vend k

-- `kinit1` and `kinit2`, each with the value that it leaves in `kmem.use_lock`. Until then only one
-- CPU runs, and the lock that the flag turns on does not change what the operations do.
unfoldable pub kinit1 : ℕ → ℕ → ℕ → Kmem → Option (Kmem × Bool)
kinit1 end vstart vend k = elim (freerange end vstart vend k) [
  | none ↦ none
  | some k' ↦ some (k', false)
]

unfoldable pub kinit2 : ℕ → ℕ → ℕ → Kmem → Option (Kmem × Bool)
kinit2 end vstart vend k = elim (freerange end vstart vend k) [
  | none ↦ none
  | some k' ↦ some (k', true)
]
