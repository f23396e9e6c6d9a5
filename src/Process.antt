-- ===== src/Process.antt =====
-- The table of processes of kernel/process.c, over the page tables and the user regions.
-- A pointer to a process is its index in the table; processes outside the table are not modelled, nor
-- null pointers for results. `W` is what vfs_close_all_for_pid and gui_destroy_windows_for_pid change.
pub mod Find
pub mod Update
pub mod Alloc
pub mod Exit
pub mod Dispatch
pub mod Fairness
mod Tests
use armonios.Prelude.{
  ℕ, zero, suc, ◌+◌, ◌-◌, ◌*◌, ◌/◌, ◌%◌, Bool, true, false, not, ◌&&◌, ◌||◌, List, [], ◌∷◌, Option,
  none, some, if◌then◌else◌, ltb, leb, ◌==◌, get_or, set, replicate, add32, add64, min,
}
use armonios.Pmm.{Pmm, page_size, pmm_free_page}
use armonios.Vmm.{Vmm, vmm_free_table}
use armonios.Regions.{Region, Regions, region_clear, max_user_regions, mmap_base}
use armonios.RoundRobin.{pick}

abbrev pub max_processes : ℕ
max_processes = 16

abbrev pub name_len : ℕ
name_len = 16

abbrev pub register_count : ℕ
register_count = 31

-- `process_state_t`
pub data ProcessState : Type 0 where
  unused ready running blocked zombie : ProcessState

-- `process_t`, whose name is the text in its own storage
pub record Process : Type 0 where
  pub pid : ℕ
  pub parent_pid : ℕ
  pub name_storage : List ℕ
  pub regs : List ℕ
  pub sp : ℕ
  pub pc : ℕ
  pub pstate : ℕ
  pub page_table : ℕ
  pub state : ProcessState
  pub exit_code : ℕ
  pub regions : Regions

-- `exception_frame_t`
pub record Frame : Type 0 where
  pub x : List ℕ
  pub elr : ℕ
  pub spsr : ℕ
  pub sp_el0 : ℕ

-- The static variables, the page tables, the table register of the processor and the other services.
pub record Kernel {ℓ} (W : Type ℓ) : Type ℓ where
  pub processes : List Process
  pub current : Option ℕ
  pub process_count : ℕ
  pub vmm : Vmm
  pub ttbr0 : ℕ
  pub services : W

-- vfs_close_all_for_pid and gui_destroy_windows_for_pid
pub record Services {ℓ} (W : Type ℓ) : Type ℓ where
  pub close_all : ℕ → W → W
  pub destroy_windows : ℕ → W → W

-- for (i …; i + 1 < PROCESS_NAME_LEN && name[i] != 0; i++), with `n` rounds left
unfoldable pub copy_text_loop : ℕ → ℕ → List ℕ → List ℕ → List ℕ
copy_text_loop zero i name storage = storage
copy_text_loop (suc n) i name storage =
    let rest = copy_text_loop n (i + 1) name (set storage i (get_or name i 0)) in
    if get_or name i 0 == 0 then storage else rest

-- `none` is the null pointer.
abbrev pub process_copy_name : Option (List ℕ) → List ℕ
process_copy_name none = replicate name_len 0
process_copy_name (some name) = copy_text_loop (name_len - 1) 0 name (replicate name_len 0)

abbrev pub process_init : ℕ → Option (List ℕ) → Process
process_init pid name = record {
  pid = pid;
  parent_pid = 0;
  name_storage = process_copy_name name;
  regs = replicate register_count 0;
  sp = 0;
  pc = 0;
  pstate = 0;
  page_table = 0;
  state = ready;
  exit_code = 0;
  regions = record {
    next_user_vaddr = mmap_base;
    user_regions = replicate max_user_regions region_clear;
    count = 0;
  };
}

-- a slot that process_table_init or process_release has cleared
abbrev pub no_process : Process
no_process = record (process_init 0 none) { state = unused }

abbrev pub is_unused : ProcessState → Bool
is_unused unused = true
is_unused ready = false
is_unused running = false
is_unused blocked = false
is_unused zombie = false

abbrev pub is_zombie : ProcessState → Bool
is_zombie unused = false
is_zombie ready = false
is_zombie running = false
is_zombie blocked = false
is_zombie zombie = true

abbrev pub is_process_ready : ProcessState → Bool
is_process_ready unused = false
is_process_ready ready = true
is_process_ready running = false
is_process_ready blocked = false
is_process_ready zombie = false

abbrev pub is_process_running : ProcessState → Bool
is_process_running unused = false
is_process_running ready = false
is_process_running running = true
is_process_running blocked = false
is_process_running zombie = false

-- for (off …; off < size; off += PAGE_SIZE) pmm_free_page(paddr + off), on `n` rounds of fuel
unfoldable pub free_run : ℕ → ℕ → ℕ → ℕ → Pmm → Pmm
free_run zero off size paddr p = p
free_run (suc n) off size paddr p =
    let rest = free_run n (off + page_size) size paddr (pmm_free_page p (add64 paddr off)) in
    if ltb off size then rest else p

-- A region that owns its pages gives them back. A round of `free_run` passes one page, so that a size
-- in pages and one round more are enough.
unfoldable pub free_region : Region → Pmm → Region × Pmm
unfolding free_run
free_region r p = if r.flags % 2 == 0 || r.paddr == 0 then (r, p) else (
  record r { flags = r.flags - r.flags % 2; paddr = 0 },
  (if ltb r.start r.end
      then free_run ((r.end - r.start) / page_size + 1) 0 (r.end - r.start) r.paddr p
      else p),
)

-- the loop of process_free_resources over the first `n` regions
unfoldable pub free_regions : ℕ → List Region → Pmm → List Region × Pmm
free_regions zero rs p = (rs, p)
free_regions (suc n) [] p = ([], p)
free_regions (suc n) (r ∷ rs) p =
    let (freed, q) = free_region r p in
    let (rest, last) = free_regions n rs q in (freed ∷ rest, last)

unfoldable pub process_free_resources : Process → Vmm → Process × Vmm
process_free_resources p vmm =
    let (regions, pmm) =
      free_regions (min p.regions.count max_user_regions) p.regions.user_regions vmm.pmm in
    let freed = record p { regions = record (p.regions) { user_regions = regions } } in
    let u = record vmm { pmm = pmm } in
    if p.page_table == 0
    then (freed, u)
    else (record freed { page_table = 0 }, vmm_free_table u p.page_table)

-- The first slot from index `i` on with this pid that is used.
unfoldable pub find_from : List Process → ℕ → ℕ → Option ℕ
find_from [] i pid = none
find_from (p ∷ ps) i pid =
    let rest = find_from ps (i + 1) pid in
    if not (is_unused p.state) && p.pid == pid then some i else rest

unfoldable pub find_unused_slot : List Process → ℕ → Option ℕ
find_unused_slot [] i = none
find_unused_slot (p ∷ ps) i =
    let rest = find_unused_slot ps (i + 1) in if is_unused p.state then some i else rest

abbrev pub is_index : Option ℕ → ℕ → Bool
is_index none i = false
is_index (some c) i = i == c

abbrev pub process_load_context : Process → Frame
process_load_context p = record { x = p.regs; elr = p.pc; spsr = p.pstate; sp_el0 = p.sp }

abbrev pub process_save_context : Process → List ℕ → ℕ → ℕ → ℕ → Process
process_save_context p regs pc pstate sp = record p {
  regs = regs;
  pc = pc;
  pstate = pstate;
  sp = sp;
}

abbrev pub process_set_entry : Process → ℕ → ℕ → ℕ → Process
process_set_entry p pc sp pstate = record p { pc = pc; sp = sp; pstate = pstate }

abbrev pub process_set_page_table : Process → ℕ → Process
process_set_page_table p page_table = record p { page_table = page_table }

abbrev pub is_none : Option ℕ → Bool
is_none none = true
is_none (some c) = false

module _ {ℓ} {W : Type ℓ} where
  abbrev pub slot : Kernel W → ℕ → Process
  slot k i = get_or k.processes i no_process

  abbrev pub put : Kernel W → ℕ → Process → Kernel W
  put k i p = record k { processes = set k.processes i p }

  unfoldable pub process_table_init : Kernel W → Kernel W
  process_table_init k = record k {
    current = none;
    process_count = 0;
    processes = replicate max_processes no_process;
  }

  abbrev pub process_set_current : Kernel W → Option ℕ → Kernel W
  process_set_current k current = record k { current = current }

  unfoldable pub process_at : Kernel W → ℕ → Option Process
  process_at k index =
      if leb max_processes index || is_unused (slot k index).state
      then none
      else some (slot k index)

  unfoldable pub process_find : Kernel W → ℕ → Option ℕ
  process_find k pid = if pid == 0 then none else find_from k.processes 0 pid

  abbrev pub init_at : Kernel W → Option ℕ → ℕ → Option (List ℕ) → Option ℕ × Kernel W
  init_at k none pid name = (none, k)
  init_at k (some i) pid name =
      (some i, record (put k i (process_init pid name)) { process_count = add32 k.process_count 1 })

  abbrev pub alloc_new : Kernel W → Option ℕ → ℕ → Option (List ℕ) → Option ℕ × Kernel W
  alloc_new k (some i) pid name = (none, k)
  alloc_new k none pid name = init_at k (find_unused_slot k.processes 0) pid name

  unfoldable pub process_alloc : Kernel W → ℕ → Option (List ℕ) → Option ℕ × Kernel W
  process_alloc k pid name =
      if pid == 0 then (none, k) else alloc_new k (process_find k pid) pid name

  unfoldable pub process_release : Kernel W → ℕ → Kernel W
  process_release k i =
      let p = slot k i in
      if is_unused p.state && (p.page_table == 0 && p.regions.count == 0) then k else record k {
        current = if is_index k.current i then none else k.current;
        vmm = (process_free_resources p k.vmm).1;
        processes = set k.processes i no_process;
        process_count =
            if not (is_unused p.state) && ltb 0 k.process_count
            then k.process_count - 1
            else k.process_count;
      }

  unfoldable pub process_next_runnable : Kernel W → Option ℕ → Option ℕ
  process_next_runnable k none =
      pick max_processes (λ i. is_process_ready (slot k i).state) 0 0 max_processes
  process_next_runnable k (some after) =
      pick max_processes (λ i. is_process_ready (slot k i).state) (after + 1) 0 (max_processes - 1)

  abbrev pub process_activate_context : Kernel W → Process → Frame × Kernel W
  process_activate_context k p =
      (process_load_context p, (if p.page_table == 0 then k else record k { ttbr0 = p.page_table }))

  -- PROCESS_DISPATCH_EXIT is 0, PROCESS_DISPATCH_PREEMPT 1.
  abbrev pub suspend : Kernel W → Option ℕ → ℕ → Kernel W
  suspend k none policy = k
  suspend k (some c) policy =
      if policy == 1 && is_process_running (slot k c).state
      then put k c (record (slot k c) { state = ready })
      else k

  abbrev pub resume : Kernel W → ℕ → Frame × Kernel W
  resume k next =
      let p = record (slot k next) { state = running } in
      process_activate_context (process_set_current (put k next p) (some next)) p

  abbrev pub dispatch_to : Kernel W → Option ℕ → Option ℕ → ℕ → Option Frame × Kernel W
  dispatch_to k current none policy = (none, k)
  dispatch_to k current (some next) policy =
      let (frame, t) = resume (suspend k current policy) next in (some frame, t)

  -- The frame to return to, or none where the caller goes on.
  unfoldable pub process_dispatch_next : Kernel W → Option ℕ → ℕ → Option Frame × Kernel W
  process_dispatch_next k current policy =
      if not (policy == 0) && not (policy == 1)
      then (none, k)
      else if is_none current && policy == 1
      then (none, k)
      else dispatch_to k current (process_next_runnable k current) policy

  unfoldable pub process_mark_exited : Services W → Kernel W → ℕ → ℕ → Kernel W
  process_mark_exited v k i exit_code =
      let p = slot k i in
      if is_zombie p.state
      then k
      else record (put k i (record p { exit_code = exit_code; state = zombie })) {
        services = v.destroy_windows p.pid (v.close_all p.pid k.services);
      }

  abbrev pub wait_at : Kernel W → Option ℕ → Option ℕ × Kernel W
  wait_at k none = (none, k)
  wait_at k (some i) =
      if is_index k.current i || not (is_zombie (slot k i).state)
      then (none, k)
      else (some (slot k i).exit_code, process_release k i)

  unfoldable pub process_wait_zombie : Kernel W → ℕ → Option ℕ × Kernel W
  process_wait_zombie k pid = wait_at k (process_find k pid)

  abbrev pub kill_at : Services W → Kernel W → Option ℕ → ℕ → Bool × Kernel W
  kill_at v k none exit_code = (false, k)
  kill_at v k (some i) exit_code =
      if is_index k.current i || is_zombie (slot k i).state
      then (false, k)
      else (true, process_mark_exited v k i exit_code)

  unfoldable pub process_kill : Services W → Kernel W → ℕ → ℕ → Bool × Kernel W
  process_kill v k pid exit_code = kill_at v k (process_find k pid) exit_code

  abbrev pub is_alive : Kernel W → Option ℕ → Bool
  is_alive k none = false
  is_alive k (some i) = not (is_unused (slot k i).state) && not (is_zombie (slot k i).state)

  unfoldable pub reclaim_one : Kernel W → ℕ → Kernel W
  reclaim_one k i =
      let p = slot k i in
      if not (is_zombie p.state)
      then k
      else if not (p.parent_pid == 0) && is_alive k (process_find k p.parent_pid)
      then k
      else process_release k i

  -- the loop of process_reclaim_zombies from slot `i` on, with `n` rounds left
  unfoldable pub reclaim_loop : ℕ → ℕ → Kernel W → Kernel W
  unfolding reclaim_one
  reclaim_loop zero i k = k
  reclaim_loop (suc n) i k = reclaim_loop n (i + 1) (reclaim_one k i)

  unfoldable pub process_reclaim_zombies : Kernel W → Kernel W
  process_reclaim_zombies k = reclaim_loop max_processes 0 k
