-- ===== src/Vmpager/Process/Start.antt =====
-- vmpager/vm_pager.cpp: the state in which the pager starts.
use operation_system_proj_c.Prelude.{
  ℕ, zero, suc, ◌+◌, ◌≤◌, ◌≡◌, ◌≢◌, refl, ap, ◌∙◌, [], arith, count, append-nil, if◌then◌else◌, ltb,
  leb, ◌&&◌, tail,
}
use operation_system_proj_c.Vmpager.Api.{VmApi}
use operation_system_proj_c.Vmpager.Process.{range_from, vm_init}
use operation_system_proj_c.Vmpager.Memory.{frames, IsValid}
use operation_system_proj_c.Vmpager.Memory.Caching.{HasMemory}
use operation_system_proj_c.Vmpager.Memory.Accessing.{IsPinned}

count-range_from :
    (page from n : ℕ)
    → count page (range_from from n) ≡ (if leb from page && ltb page (from + n) then 1 else 0)
unfolding range_from
count-range_from page from zero = ground arith
count-range_from page from (suc n) = ground (arith, count-range_from page (from + 1) n)

free_count :
    (page memory_pages : ℕ)
    → count page (tail (range_from 0 memory_pages))
      ≡ (if ltb 0 page && ltb page memory_pages then 1 else 0)
unfolding range_from
free_count page zero = ground arith
free_count page (suc n) = ground (arith, count-range_from page 1 n)

tail-ne : (n : ℕ) → 2 ≤ n → tail (range_from 0 n) ≢ []
unfolding range_from
tail-ne zero h e = absurd (omega (arith, h))
tail-ne (suc zero) h e = absurd (omega (arith, h))
tail-ne (suc (suc n)) h e = cc e

module _ ⦃vm : VmApi⦄ where
  open vm use {Page, Files}

  -- The state in which the pager starts meets the invariant, with page 0 only for `zero_page`. Each page
  -- from 1 to the last can be given out exactly once, and page 0 never; and with two pages there is
  -- memory to give out.
  pub vm_init-IsValid :
      (memory_pages swap_blocks : ℕ) (physmem : ℕ → Page) (files : Files)
      → IsValid (vm_init memory_pages swap_blocks physmem files)
        × IsPinned (vm_init memory_pages swap_blocks physmem files)
        × ((page : ℕ)
            → count page (frames (vm_init memory_pages swap_blocks physmem files))
              ≡ (if ltb 0 page && ltb page memory_pages then 1 else 0))
        × (2 ≤ memory_pages → HasMemory (vm_init memory_pages swap_blocks physmem files))
  unfolding vm_init
  vm_init-IsValid memory_pages swap_blocks physmem files =
      let pages = λ (page : ℕ).
        ap (count page) (append-nil (tail (range_from 0 memory_pages)))
        ∙ free_count page memory_pages in
      (
        record {
          distinct = tt;
          known = λ b n. absurd (n refl);
          cached = λ b n. absurd (n refl);
          blocks = λ b z. record { reserved = λ e. omega arith; away = λ e. cc e };
          zero_resident = refl;
        },
        record { location = refl; is_swap = refl; alone = pages 0; known = omega arith },
        pages,
        λ h e. absurd (tail-ne memory_pages h e),
      )
