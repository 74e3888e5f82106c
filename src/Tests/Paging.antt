-- ===== src/Tests/Paging.antt =====
-- Runs of the page allocator of ass5/final_repo/kalloc.c with two pages.
use operating_systems_work.Base.{
  ℕ, ◌≡◌, ◌≢◌, ◌==◌, refl, Option, some, [], ◌∷◌, if◌then◌else◌, arith,
}
use operating_systems_work.Pages.{Kmem, kfree, kalloc, freerange, freerange_loop}
use operating_systems_work.Pages.Chain.{IsPage, Chain}
use operating_systems_work.Pages.Holding.{
  Memory, IsHeld, Distinct, Reach, here, next, allocs, no_page_twice,
}

abbrev end : ℕ
end = 2148532224

abbrev low_page : ℕ
low_page = 2148536320

abbrev high_page : ℕ
high_page = 2148540416

abbrev two_pages : Kmem
two_pages = record { word = λ a. if a == 2148540416 then 2148536320 else 0; freelist = 2148540416 }

low-IsPage : IsPage end low_page
low-IsPage = record {
  aligned = refl;
  after_kernel = omega arith;
  below = omega arith;
  nonzero = omega arith;
}

high-IsPage : IsPage end high_page
high-IsPage = record {
  aligned = refl;
  after_kernel = omega arith;
  below = omega arith;
  nonzero = omega arith;
}

two_pages-Chain : Chain end two_pages.word two_pages.freelist (high_page ∷ low_page ∷ [])
two_pages-Chain = (refl, high-IsPage, (omega arith, tt), (refl, low-IsPage, tt, refl))

abbrev start : Memory
start = record { k = two_pages; held = [] }

abbrev both : Memory
both = record { k = (kalloc (kalloc two_pages).1).1; held = low_page ∷ high_page ∷ [] }

both-Reach : Reach end start both
unfolding kalloc
both-Reach = next (next here (allocs (omega arith))) (allocs (omega arith))

no_page_twice_example :
    Distinct both.held
    × ((v : ℕ)
        → IsHeld v both.held
        → ((kalloc both.k).0 ≢ v) × ((k' : Kmem) × (kfree end v both.k ≡ some k')))
no_page_twice_example =
    no_page_twice end two_pages (high_page ∷ low_page ∷ []) both two_pages-Chain both-Reach

-- `freerange` puts the two pages into the list.
abbrev freelist_of : Option Kmem → ℕ
freelist_of (some k) = k.freelist
freelist_of other = 0

made_free :
    freelist_of (freerange end 2148532225 2148544512 (record { word = λ a. 0; freelist = 0 }))
    ≡ high_page
unfolding freerange freerange_loop kfree
made_free = refl

-- The words before the first `kinit1`.
abbrev no_pages : Kmem
no_pages = record { word = λ a. 0; freelist = 0 }
