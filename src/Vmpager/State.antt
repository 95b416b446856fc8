-- ===== src/Vmpager/State.antt =====
-- vmpager/utils.h, vm_pager.h and utils.cpp: the data of the pager and its global variables. A
-- mem_block is named by a number, its address: 0 is `zero_page`. A pointer to a page table entry is
-- the process whose table it is in and its place there. What `operator[]`, `front` and `*` do on a
-- missing element has no defined meaning in C++; it stops the pager here, as a failed assertion
-- does.
use operation_system_proj_c.Prelude.{
  ℕ, ◌%◌, ◌^◌, Bool, true, false, Option, none, some, List, [], ◌∷◌, ◌++◌, ◌==◌, ◌&&◌,
  if◌then◌else◌, update,
}
use operation_system_proj_c.Filesys.Types.{str_eq}

pub data BlockType : Type 0 where
  phys swap file : BlockType

abbrev pub is_phys : BlockType → Bool
is_phys phys = true
is_phys swap = false
is_phys file = false

-- `page_table_entry_t`
pub record PageTableEntry : Type 0 where
  pub ppage : ℕ
  pub read_enable : Bool
  pub write_enable : Bool

-- `mem_block`. The sets `ptes` are lists; their order, which C++ leaves open, is that of insertion.
pub record MemBlock : Type 0 where
  pub dirty : Bool
  pub referenced : Bool
  pub resident : Bool
  pub is_swap : Bool
  pub swap_blocks : List ℕ
  pub ptes : List (ℕ × ℕ)
  pub location : ℕ
  pub type : BlockType
  pub filename : List ℕ
  pub block_num : ℕ

-- `kernel_process_info`, less its page table; `none` is a null `data_location`.
pub record ProcessInfo : Type 0 where
  pub valid : ℕ → Bool
  pub data_location : ℕ → Option ℕ
  pub next_invalid_page : ℕ
  pub num_swap_blocks : ℕ

-- The global variables. `next_block` is the address that the next `make_shared` returns, and `base`
-- the process whose page table `page_table_base_register` points to.
pub record Pager (Page Files : Type 0) : Type 0 where
  pub blocks : ℕ → MemBlock
  pub next_block : ℕ
  pub clock_queue : List ℕ
  pub curr_pid : ℕ
  pub base : ℕ
  pub free_mem_blocks : List ℕ
  pub free_swap_blocks : List ℕ
  pub process_info_mp : ℕ → Option ProcessInfo
  pub page_tables : ℕ → ℕ → PageTableEntry
  pub file_mapping_table : List ℕ → ℕ → Option ℕ
  pub physmem : ℕ → Page
  pub tmp_buffer : Page
  pub files : Files

-- The constructor of a mem_block; what it does not set is `false`, 0 or empty here.
abbrev pub new_mem_block : ℕ → BlockType → MemBlock
new_mem_block location type = record {
  dirty = false;
  referenced = true;
  resident = true;
  is_swap = location == 0 && is_phys type;
  swap_blocks = [];
  ptes = [];
  location = location;
  type = type;
  filename = [];
  block_num = 0;
}

-- The constructor of a kernel_process_info, which leaves `num_swap_blocks` as it finds it.
abbrev pub new_process_info : ℕ → ProcessInfo
new_process_info uninitialized = record {
  valid = λ i. false;
  data_location = λ i. none;
  next_invalid_page = 0;
  num_swap_blocks = uninitialized;
}

abbrev pub default_entry : PageTableEntry
default_entry = record { ppage = 0; read_enable = false; write_enable = false }

-- `file_mapping_table[key] = b`, and `erase(key)` for `none`.
abbrev pub map_file : (List ℕ → ℕ → Option ℕ) → List ℕ → ℕ → Option ℕ → List ℕ → ℕ → Option ℕ
map_file table name n b name' n' = if str_eq name name' && n == n' then b else table name' n'

module _ {P F : Type 0} where
  abbrev pub set_block : Pager P F → ℕ → MemBlock → Pager P F
  set_block s b m = record s { blocks = update s.blocks b m }

  abbrev pub entry : Pager P F → ℕ × ℕ → PageTableEntry
  entry s (pid, i) = s.page_tables pid i

  abbrev pub set_entry : Pager P F → ℕ × ℕ → PageTableEntry → Pager P F
  set_entry s (pid, i) e = record s {
    page_tables = update s.page_tables pid (update (s.page_tables pid) i e);
  }

-- An operation on the pager; `none` stops it.
abbrev pub Op : Type 0 → Type 0 → Type 0 → Type 0
Op P F A = Pager P F → Option (A × Pager P F)

abbrev pub bind_result :
    {P F A B : Type 0} → (A → Op P F B) → Option (A × Pager P F) → Option (B × Pager P F)
bind_result f none = none
bind_result f (some (a, s)) = f a s

infixl 5 ◌>>=◌ ◌>>◌
abbrev pub ◌>>=◌ : {P F A B : Type 0} → Op P F A → (A → Op P F B) → Op P F B
◌>>=◌ m f s = bind_result f (m s)

abbrev pub ◌>>◌ : {P F B : Type 0} → Op P F (Unit {0}) → Op P F B → Op P F B
m >> k = m >>= λ _. k

abbrev pub pure : {P F A : Type 0} → A → Op P F A
pure a s = some (a, s)

abbrev pub get : {P F : Type 0} → Op P F (Pager P F)
get s = some (s, s)

-- A change of the state that cannot fail.
abbrev pub modify : {P F : Type 0} → (Pager P F → Pager P F) → Op P F (Unit {0})
modify f s = some (tt, f s)

abbrev pub assert : {P F : Type 0} → Bool → Op P F (Unit {0})
assert true s = some (tt, s)
assert false s = none

-- A value that has to be there.
abbrev pub need : {P F A : Type 0} → Option A → Op P F A
need none s = none
need (some a) s = some (a, s)

abbrev pub when : {P F : Type 0} → Bool → Op P F (Unit {0}) → Op P F (Unit {0})
when true m = m
when false m = pure tt

-- `process_info_mp[pid]`, which is a null pointer if the process is not there.
abbrev pub process_info : {P F : Type 0} → ℕ → Op P F ProcessInfo
process_info pid s = need (s.process_info_mp pid) s

abbrev pub set_process : {P F : Type 0} → ℕ → Option ProcessInfo → Pager P F → Pager P F
set_process pid p s = record s { process_info_mp = update s.process_info_mp pid p }

-- `front`, and `back` with what is left without it.
abbrev pub front : List ℕ → Option ℕ
front [] = none
front (x ∷ xs) = some x

unfoldable pub pop_back : List ℕ → Option (ℕ × List ℕ)
pop_back [] = none
pop_back (x ∷ xs) = elim (pop_back xs) [ none ↦ some (x, []) | some (y, ys) ↦ some (y, x ∷ ys) ]

-- Sets of pointers to page table entries.
abbrev pub pte_eq : ℕ × ℕ → ℕ × ℕ → Bool
pte_eq (p, i) (q, j) = p == q && i == j

unfoldable pub has_pte : ℕ × ℕ → List (ℕ × ℕ) → Bool
has_pte e [] = false
has_pte e (x ∷ xs) = if pte_eq e x then true else has_pte e xs

unfoldable pub insert_pte : ℕ × ℕ → List (ℕ × ℕ) → List (ℕ × ℕ)
insert_pte e xs = if has_pte e xs then xs else xs ++ e ∷ []

unfoldable pub erase_pte : ℕ × ℕ → List (ℕ × ℕ) → List (ℕ × ℕ)
erase_pte e [] = []
erase_pte e (x ∷ xs) = if pte_eq e x then xs else x ∷ erase_pte e xs

-- `for (page_table_entry_t *ptbr : ptes)`, a change of each entry.
unfoldable pub for_entries :
    List (ℕ × ℕ)
    → (PageTableEntry → PageTableEntry)
    → (ℕ → ℕ → PageTableEntry)
    → ℕ
    → ℕ
    → PageTableEntry
for_entries [] f t = t
for_entries ((pid, i) ∷ xs) f t = for_entries xs f (update t pid (update (t pid) i (f (t pid i))))

abbrev pub for_ptes :
    {P F : Type 0} → List (ℕ × ℕ) → (PageTableEntry → PageTableEntry) → Pager P F → Pager P F
for_ptes xs f s = record s { page_tables = for_entries xs f s.page_tables }

-- A physical page in the 30 bits of an entry.
abbrev pub as_ppage : ℕ → ℕ
as_ppage n = n % 2 ^ 30
