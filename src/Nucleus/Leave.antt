-- ===== src/Nucleus/Leave.antt =====
-- The end of terminateProgeny for one process: what it leaves, and the steps that end it.
use jae_so.Common.{
  ℕ, ◌<◌, ◌≡◌, ◌≢◌, refl, sym, ap, ◌∙◌, inl, inr, none, some, Option, List, [], ◌∷◌, ◌++◌, In,
  Bool-cases, if◌then◌else◌, ne→==,
}
use jae_so.Common.Without.{without-In, In-append_left, In-append_last}
use jae_so.Memory.{p_list, ready_queue, Links}
use jae_so.Clist.Ring.{Fresh-map}
use jae_so.Kernel.Arch.{Arch, is_dev}
use jae_so.Kernel.Machine.{Kernel, Pcb, sub32, max_proc}
use jae_so.Kernel.Cmd.{done}
use jae_so.Pcb.{out_proc_q, free_pcb}
use jae_so.Pcb.FreeList.{free_pcb-append}
use jae_so.Asl.{out_blocked}
use jae_so.Asl.Remove.{active_after}
use jae_so.Syscalls.Process.{terminate_one}
use jae_so.Nucleus.{View, IsNucleus}
use jae_so.Nucleus.Freed.{IsLoose, Freed, freed, freed_view, freed-IsNucleus}

-- The kernel with no process running.
abbrev pub idle : Kernel → Kernel
idle k = record k { current_process = none }

-- A block in use that has a semaphore in its block does wait there.
abbrev pub IsHonest : View → Kernel → ℕ → Type 0
IsHonest v k x =
    ((y : ℕ) → In y v.blocks → y ≢ x)
    → (d : ℕ) → (k.pcb x).p_cursem ≡ some d
    → In d v.active × In x (v.queue d)

-- The kernel when `p` has been freed, and was in at most one queue before.
pub record Retired (v : View) (k : Kernel) (p : ℕ) (v' : View) (k' : Kernel) : Type 0 where
  pub ordered : IsNucleus v' (idle k')
  pub blocks : v'.blocks ≡ v.blocks ++ p ∷ []
  pub children : v'.children ≡ v.children
  pub level : v'.level ≡ v.level
  pub places : (x : ℕ) → x ≢ p → v'.place x ≡ v.place x
  pub honest : (x : ℕ) → IsHonest v k x → IsHonest v' k' x
  pub pcb : k'.pcb ≡ k.pcb
  pub current : k'.current_process ≡ k.current_process

module _ (arch : Arch) where
  -- The two branches of terminate_one, by what the operations in them return.
  pub ready_run :
      (k : Kernel) (p : ℕ) (r : Option ℕ) (σ ρ : Links)
      → (k.pcb p).p_cursem ≡ none
      → out_proc_q ready_queue p k ≡ done r (record k { links = σ })
      → free_pcb p (record k { links = σ }) ≡ done tt (record k { links = ρ })
      → terminate_one arch p k ≡ done tt (freed k ρ)
  unfolding terminate_one
  ready_run k p r σ ρ e q f = rw (e, q, f)

  -- The count of soft-blocked processes when one that waits at `d` goes.
  abbrev pub uncounted : ℕ → Kernel → Kernel
  uncounted d k = record k {
    soft_block_count =
        if is_dev arch (arch.semd_addr d) then sub32 k.soft_block_count 1 else k.soft_block_count;
  }

  pub waiting_run :
      (k : Kernel) (p d : ℕ) (r : Option ℕ) (σ ρ : Links)
      → (k.pcb p).p_cursem ≡ some d
      → out_blocked p (uncounted d k) ≡ done r (record (uncounted d k) { links = σ })
      → free_pcb p (record (uncounted d k) { links = σ })
        ≡ done tt (record (uncounted d k) { links = ρ })
      → terminate_one arch p k ≡ done tt (freed (uncounted d k) ρ)
  unfolding terminate_one
  waiting_run k p d r σ ρ e q f = elim (Bool-cases (is_dev arch (arch.semd_addr d))) [
    | inl b ↦ rw (e, b, rw b at q, rw b at f)
    | inr b ↦ rw (e, b, rw b at q, rw b at f)
  ]

-- A process that has no parent and no children and can be freed: it is in use, and honest.
pub record Dying (v : View) (k : Kernel) (p : ℕ) : Type 0 where
  pub orphan : (k.pcb p).p_parent ≡ none
  pub low : p < max_proc
  pub used : (x : ℕ) → In x v.blocks → x ≢ p
  pub honest : IsHonest v k p
  pub childless : v.children p ≡ []

-- freePcb of a block that is not free.
pub freeing :
    (v : View) (k : Kernel) (p : ℕ)
    → IsNucleus v (idle k)
    → ((x : ℕ) → In x v.blocks → x ≢ p)
    → (σ : Links) × (free_pcb p k ≡ done tt (record k { links = σ })) × Freed v (idle k) p σ
freeing v k p n u =
    let f =
      free_pcb-append k p v.blocks n.blocks
        (Fresh-map (p_list p) p_list v.blocks λ x i e. u x i (cc)) in
    (f.0, f.1, record { blocks = f.2; same = f.3 })

pub In-active_after :
    (d e : ℕ) (ps ds : List ℕ) → In e ds → (e ≡ d → ps ≢ []) → In e (active_after d ps ds)
In-active_after d e [] ds i h = without-In d e ds i (λ q. h q refl)
In-active_after d e (x ∷ xs) ds i h = i

module _ (arch : Arch) (v : View) (k : Kernel) (p : ℕ) (n : IsNucleus v (idle k))
    (y : Dying v k p) where
  -- The last step, from a state that differs in queues only.
  pub finish :
      (w : View) (k1 : Kernel) (σ : Links)
      → IsNucleus w (idle k1)
      → IsLoose w p
      → Freed w (idle k1) p σ
      → record v { ready_list = w.ready_list; queue = w.queue; active = w.active; semds = w.semds }
        ≡ w
      → k1.pcb ≡ k.pcb
      → k1.current_process ≡ k.current_process
      → ((x : ℕ) → x ≢ p → IsHonest v k x → IsHonest w k1 x)
      → Retired v k p (freed_view p w) (freed k1 σ)
  finish w k1 σ m l f e b c h = record {
    ordered =
        freed-IsNucleus m
          (record {
            loose = l;
            idle = refl;
            childless = ap (λ (u : View). u.children p) (sym e) ∙ y.childless;
            orphan = ap (λ (g : ℕ → Pcb). (g p).p_parent) b ∙ y.orphan;
            low = y.low;
          })
          f;
    blocks = ap (λ (u : View). u.blocks ++ p ∷ []) (sym e);
    children = ap (λ (u : View). u.children) (sym e);
    level = ap (λ (u : View). u.level) (sym e);
    places = λ x z. rw (ne→== x p z) (ap (λ (u : View). u.place x) (sym e));
    honest = λ x a u.
        h x (λ q. u p (In-append_last w.blocks p) (sym q)) a
          (λ z i. u z (In-append_left z w.blocks p i));
    pcb = b;
    current = c;
  }
