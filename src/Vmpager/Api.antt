-- ===== src/Vmpager/Api.antt =====
-- vmpager/vm_pager.h: what the pager uses of the infrastructure, which is outside this repository:
-- the content of a page, and the files that pages are read from and written to.
use operation_system_proj_c.Prelude.{ℕ, Bool, Option, List}

-- A page is what one `memcpy` of VM_PAGESIZE bytes moves. The file name `none` is the swap file.
-- `file_read` gives whether it succeeded, and what the page in memory holds afterwards;
-- `file_write` gives the files afterwards, since the pager does not look at its result.
pub record VmApi : Type 1 where
  pub Page : Type 0
  pub Files : Type 0
  pub zeroes : Page
  pub char_at : Page → ℕ → ℕ
  pub file_read : Files → Option (List ℕ) → ℕ → Bool × Page
  pub file_write : Files → Option (List ℕ) → ℕ → Page → Files
