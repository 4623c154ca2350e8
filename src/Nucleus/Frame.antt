-- ===== src/Nucleus/Frame.antt =====
-- Changes that concern no list: times, registers, words and areas.
use jae_so.Common.{ℕ, ◌≡◌, refl, ◌∙◌, Option, none, some, Bool-cases, inl, inr, ◌==◌, sym}
use jae_so.Kernel.Machine.{Kernel, Pcb, set_pcb, update_field}
use jae_so.Kernel.Cmd.{Returns}
use jae_so.Accounting.{on_handler_enter, on_handler_exit}
use jae_so.Nucleus.{View, IsNucleus, IsOrdered, IsNucleus-agree}

-- The kernel `k'` has the lists, the semaphores, the parents and the current process of `k`.
pub record Frame (k k' : Kernel) : Type 0 where
  pub links : k'.links ≡ k.links
  pub semaphores : k'.sem_add ≡ k.sem_add
  pub sems : (x : ℕ) → (k'.pcb x).p_cursem ≡ (k.pcb x).p_cursem
  pub parents : (x : ℕ) → (k'.pcb x).p_parent ≡ (k.pcb x).p_parent
  pub current : k'.current_process ≡ k.current_process
  pub count : k'.process_count ≡ k.process_count
  pub clock : k'.pseudo_clock_blk ≡ k.pseudo_clock_blk

pub IsNucleus-Frame : (v : View) (k k' : Kernel) → Frame k k' → IsNucleus v k → IsNucleus v k'
IsNucleus-Frame v k k' f n =
    IsNucleus-agree v k k' f.links f.semaphores f.sems f.parents
      (λ p e. n.at_current p (sym f.current ∙ e)) f.count n

pub IsOrdered-Frame : (k k' : Kernel) → Frame k k' → IsOrdered k → IsOrdered k'
IsOrdered-Frame k k' f (v, n) = (v, IsNucleus-Frame v k k' f n)

-- A change that spares the blocks, too.
pub Frame-of :
    (k k' : Kernel)
    → k'.links ≡ k.links
    → k'.sem_add ≡ k.sem_add
    → k'.pcb ≡ k.pcb
    → k'.current_process ≡ k.current_process
    → k'.process_count ≡ k.process_count
    → k'.pseudo_clock_blk ≡ k.pseudo_clock_blk
    → Frame k k'
Frame-of k k' links semaphores blocks current count clock = record {
  links = links;
  semaphores = semaphores;
  sems = λ x. rw blocks refl;
  parents = λ x. rw blocks refl;
  current = current;
  count = count;
  clock = clock;
}

pub Frame-trans : (k k' k'' : Kernel) → Frame k k' → Frame k' k'' → Frame k k''
Frame-trans k k' k'' f g = record {
  links = g.links ∙ f.links;
  semaphores = g.semaphores ∙ f.semaphores;
  sems = λ x. g.sems x ∙ f.sems x;
  parents = λ x. g.parents x ∙ f.parents x;
  current = g.current ∙ f.current;
  count = g.count ∙ f.count;
  clock = g.clock ∙ f.clock;
}

-- A change of a block that keeps its semaphore and its parent.
pub set_pcb-Frame :
    (k : Kernel) (p : ℕ) (b : Pcb)
    → b.p_cursem ≡ (k.pcb p).p_cursem
    → b.p_parent ≡ (k.pcb p).p_parent
    → Frame k (set_pcb p b k)
set_pcb-Frame k p b e f = record {
  links = refl;
  semaphores = refl;
  sems = λ x. update_field (λ (c : Pcb). c.p_cursem) k.pcb p b x e;
  parents = λ x. update_field (λ (c : Pcb). c.p_parent) k.pcb p b x f;
  current = refl;
  count = refl;
  clock = refl;
}

-- The kernel `k'` has the devices and the interrupts of `k`.
abbrev pub SameDevices : Kernel → Kernel → Type 0
SameDevices k k' = (k'.dev ≡ k.dev) × (k'.bitmap ≡ k.bitmap) × (k'.cause ≡ k.cause)

module _ (now : ℕ) (k : Kernel) where
  enter_cases :
      (c : Option ℕ)
      → k.current_process ≡ c
      → Returns (λ _ k'. Frame k k' × SameDevices k k') (on_handler_enter now k)
  unfolding on_handler_enter
  enter_cases none e =
      rw (e, on_handler_enter) (Frame-of _ _ refl refl refl refl refl refl, (refl, refl, refl))
  enter_cases (some p) e =
      rw (e, on_handler_enter)
        (
          record {
            links = refl;
            semaphores = refl;
            sems = λ x. update_field (λ (c : Pcb). c.p_cursem) k.pcb p _ x refl;
            parents = λ x. update_field (λ (c : Pcb). c.p_parent) k.pcb p _ x refl;
            current = refl;
            count = refl;
            clock = refl;
          },
          (refl, refl, refl),
        )

  pub on_handler_enter-Frame :
      Returns (λ _ k'. Frame k k' × SameDevices k k') (on_handler_enter now k)
  on_handler_enter-Frame = enter_cases k.current_process refl

  exit_cases :
      (flag : ℕ) (c : Option ℕ)
      → k.current_process ≡ c
      → Returns (λ _ k'. Frame k k') (on_handler_exit now flag k)
  unfolding on_handler_exit
  exit_cases flag none e = elim (Bool-cases (flag == 1)) [
    | inl f ↦ rw (e, on_handler_exit, f) (Frame-of _ _ refl refl refl refl refl refl)
    | inr f ↦ rw (on_handler_exit, f) (Frame-of _ _ refl refl refl refl refl refl)
  ]
  exit_cases flag (some p) e = elim (Bool-cases (flag == 1)) [
    | inl f ↦
        rw (e, on_handler_exit, f)
          (record {
            links = refl;
            semaphores = refl;
            sems = λ x. update_field (λ (c : Pcb). c.p_cursem) k.pcb p _ x refl;
            parents = λ x. update_field (λ (c : Pcb). c.p_parent) k.pcb p _ x refl;
            current = refl;
            count = refl;
            clock = refl;
          })
    | inr f ↦ rw (on_handler_exit, f) (Frame-of _ _ refl refl refl refl refl refl)
  ]

  pub on_handler_exit-Frame : (flag : ℕ) → Returns (λ _ k'. Frame k k') (on_handler_exit now flag k)
  on_handler_exit-Frame flag = exit_cases flag k.current_process refl
