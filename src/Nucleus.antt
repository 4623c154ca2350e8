-- ===== src/Nucleus.antt =====
-- The nucleus as a whole: an abstract view of its state, in which queues are lists and a semaphore
-- is a list of processes, and when the memory of the kernel stands for such a view.
pub mod Room
pub mod Frame
pub mod Wake
pub mod Signal
pub mod Join
pub mod Wait
pub mod Semop
pub mod Created
pub mod Offspring
pub mod Create
pub mod Schedule
pub mod Timer
pub mod Devices
pub mod Interrupt
pub mod Vacant
pub mod Calls
pub mod Service
pub mod PassUp
pub mod Trap
pub mod Above
pub mod Cut
pub mod Unready
pub mod Unqueue
pub mod Freed
pub mod Leave
pub mod Retire
pub mod Family
pub mod Child
pub mod Progeny
pub mod Lookup
pub mod Sweep
pub mod Terminate
pub mod End
pub mod Stale
pub mod Exceptions
pub mod Filled
pub mod First
pub mod Boot
pub mod Steps
use jae_so.Common.{
  ℕ, suc, ◌+◌, ◌≤◌, ◌<◌, ◌≡◌, ◌≢◌, sym, ◌∙◌, some, none, List, [], ◌∷◌, map, length, In,
}
use jae_so.Memory.{p_list, s_link, s_procq, semd_free, ready_queue, pcb_free}
use jae_so.Clist.Ring.{IsClist}
use jae_so.Kernel.Machine.{Kernel, max_proc}
use jae_so.Kernel.Cmd.{Exit, load, wait, halt, panic, Run, Stops}
use jae_so.Pcb.Queue.{IsQueue}
use jae_so.Pcb.Tree.{IsFamily}
use jae_so.Asl.Find.{IsActive, Ascending}
use jae_so.Asl.Head.{Ascending-agree}

-- Where a process is: in no list, in the free list, ready, running, or blocked at a descriptor.
pub data Place : Type 0 where
  nowhere unused ready running : Place
  blocked : ℕ → Place

pub record View : Type 0 where
  pub place : ℕ → Place
  pub ready_list : List ℕ
  -- the processes that wait at each descriptor
  pub queue : ℕ → List ℕ
  pub active : List ℕ
  pub semds : List ℕ
  pub blocks : List ℕ
  pub children : ℕ → List ℕ
  -- how many ancestors a process had when it was made
  pub level : ℕ → ℕ

-- The memory of `k` stands for `v`. The semaphores ascend, and each has a process that waits; every
-- list is well formed, and the places keep the processes of two lists apart; every block is in use
-- or free, and so is every descriptor.
pub record IsNucleus (v : View) (k : Kernel) : Type 0 where
  pub active : IsActive k v.active
  pub ascending : Ascending k v.active
  pub queue : (d : ℕ) → In d v.active → IsQueue k (s_procq d) (v.queue d)
  pub busy : (d : ℕ) → In d v.active → v.queue d ≢ []
  pub waits : (d x : ℕ) → In d v.active → In x (v.queue d) → (k.pcb x).p_cursem ≡ some d
  pub semds : IsClist k.links semd_free (map s_link v.semds)
  pub apart : (x y : ℕ) → In x v.active → In y v.semds → x ≢ y
  pub total : length v.active + length v.semds ≡ max_proc
  pub ready : IsQueue k ready_queue v.ready_list
  pub blocks : IsClist k.links pcb_free (map p_list v.blocks)
  pub at_ready : (x : ℕ) → In x v.ready_list → v.place x ≡ Place.ready
  pub at_queue : (d x : ℕ) → In d v.active → In x (v.queue d) → v.place x ≡ blocked d
  pub at_blocks : (x : ℕ) → In x v.blocks → v.place x ≡ unused
  pub at_current : (p : ℕ) → k.current_process ≡ some p → v.place p ≡ running
  pub bound : (x : ℕ) → v.place x ≢ nowhere → x < max_proc
  pub count : k.process_count + length v.blocks ≡ max_proc
  pub family : (p : ℕ) → IsFamily k p (v.children p)
  pub parents : (p c : ℕ) → In c (v.children p) → (k.pcb c).p_parent ≡ some p
  pub listed : (c p : ℕ) → (k.pcb c).p_parent ≡ some p → In c (v.children p)
  pub childless : (x : ℕ) → In x v.blocks → v.children x ≡ []
  pub orphans : (x : ℕ) → In x v.blocks → (k.pcb x).p_parent ≡ none
  pub levels : (p c : ℕ) → In c (v.children p) → v.level c ≡ suc (v.level p)
  pub small : (p c : ℕ) → In c (v.children p) → c < max_proc

-- The memory of `k` stands for some view.
abbrev pub IsOrdered : Kernel → Type 0
IsOrdered k = (v : View) × IsNucleus v k

-- Why the processor is given up: a process is loaded and is the current one, or no process is ready.
abbrev pub Settled : Exit → Kernel → Type 0
Settled (load r) k = (p : ℕ) × (k.current_process ≡ some p)
Settled wait k = k.links ready_queue ≡ none
Settled halt k = k.links ready_queue ≡ none
Settled panic k = k.links ready_queue ≡ none

abbrev pub Settles : Exit → Kernel → Type 0
Settles x k = IsOrdered k × Settled x k

-- The run gives up the processor to a process, or since none is ready, and leaves the kernel in
-- order.
abbrev pub EndsOrdered : Run (Unit {0}) → Type 0
EndsOrdered = Stops Settles

-- A view says nothing of the words, the clock and the registers.
pub IsNucleus-agree :
    (v : View) (k k' : Kernel)
    → k'.links ≡ k.links
    → k'.sem_add ≡ k.sem_add
    → ((x : ℕ) → (k'.pcb x).p_cursem ≡ (k.pcb x).p_cursem)
    → ((x : ℕ) → (k'.pcb x).p_parent ≡ (k.pcb x).p_parent)
    → ((p : ℕ) → k'.current_process ≡ some p → v.place p ≡ running)
    → k'.process_count ≡ k.process_count
    → IsNucleus v k
    → IsNucleus v k'
IsNucleus-agree v k k' links adds sems parents current count n = record {
  active = rw links n.active;
  ascending = Ascending-agree k k' v.active adds n.ascending;
  queue = λ d i. rw links (n.queue d i);
  busy = n.busy;
  waits = λ d x i j. sems x ∙ n.waits d x i j;
  semds = rw links n.semds;
  apart = n.apart;
  total = n.total;
  ready = rw links n.ready;
  blocks = rw links n.blocks;
  at_ready = n.at_ready;
  at_queue = n.at_queue;
  at_blocks = n.at_blocks;
  at_current = current;
  bound = n.bound;
  count = rw count n.count;
  family = λ p. rw links (n.family p);
  parents = λ p c i. parents c ∙ n.parents p c i;
  orphans = λ x i. parents x ∙ n.orphans x i;
  listed = λ c p e. n.listed c p (sym (parents c) ∙ e);
  childless = n.childless;
  levels = n.levels;
  small = n.small;
}
