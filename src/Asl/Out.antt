-- ===== src/Asl/Out.antt =====
-- outBlocked: a process leaves the queue of the semaphore that it waits on.
use jae_so.Common.Without.{without}
use jae_so.Common.{ℕ, ◌≤◌, ◌≡◌, ◌≢◌, refl, ◌∙◌, some, List, [], ◌∷◌, map, length, In}
use jae_so.Memory.{Loc, p_list, s_link, s_procq, aslh, semd_free, Links}
use jae_so.Clist.Ring.{IsClist, IsClist-agree_map, Fresh-map}
use jae_so.Clist.Map.{In-map, erase-map}
use jae_so.Kernel.Machine.{Kernel, max_proc}
use jae_so.Kernel.Cmd.{done}
use jae_so.Pcb.Queue.{IsQueue, out_proc_q-In}
use jae_so.Asl.{out_blocked, release_semd}
use jae_so.Asl.Find.{IsActive}
use jae_so.Asl.Release.{release_semd-Idle, release_semd-busy}
use jae_so.Asl.Remove.{active_after, free_after}

-- The descriptor `d` is one of the active ones, `ds`, and `fs` are the free ones.
pub record Known (k : Kernel) (d : ℕ) (ds fs : List ℕ) : Type 0 where
  pub few : length ds ≤ max_proc
  pub active : IsActive k ds
  pub member : In d ds
  pub free : IsClist k.links semd_free (map s_link fs)
  pub apart : (x y : ℕ) → In x ds → In y fs → x ≢ y

-- The descriptor `d`, at which `ps` wait, is free again if they are none.
pub record Ended (k : Kernel) (d : ℕ) (ps ds fs : List ℕ) (σ : Links) : Type 0 where
  pub run : release_semd d k ≡ done tt (record k { links = σ })
  pub active : IsClist σ aslh (map s_link (active_after d ps ds))
  pub free : IsClist σ semd_free (map s_link (free_after d ps fs))
  pub same : (b : Loc) → b ≢ aslh → b ≢ semd_free → ((x : ℕ) → b ≢ s_link x) → σ b ≡ k.links b

release_semd-Ended :
    (k : Kernel) (d : ℕ) (ps ds fs : List ℕ)
    → Known k d ds fs
    → IsClist k.links (s_procq d) (map p_list ps)
    → (σ : Links) × Ended k d ps ds fs σ
release_semd-Ended k d [] ds fs w q =
    let r = release_semd-Idle (record {
      few = w.few;
      active = w.active;
      member = w.member;
      empty = q;
      free = w.free;
      apart = w.apart;
    }) in
    (r.0, record { run = r.1.run; active = r.1.active; free = r.1.free; same = r.1.same })
release_semd-Ended k d (p ∷ ps) ds fs w q = (
  k.links,
  record {
    run = release_semd-busy k d (p_list p) (map p_list ps) q;
    active = w.active;
    free = w.free;
    same = λ b m n s. refl;
  },
)

-- The links after outBlocked of `p`, one of the processes `ps` that wait at `d`; `ρ` are those before.
pub record Out (ρ : Links) (d p : ℕ) (ps ds fs : List ℕ) (σ : Links) : Type 0 where
  pub queue : IsClist σ (s_procq d) (map p_list (without p ps))
  pub active : IsClist σ aslh (map s_link (active_after d (without p ps) ds))
  pub free : IsClist σ semd_free (map s_link (free_after d (without p ps) fs))
  pub same :
      (b : Loc)
      → b ≢ aslh
      → b ≢ semd_free
      → b ≢ s_procq d
      → ((x : ℕ) → b ≢ s_link x)
      → ((x : ℕ) → In x ps → b ≢ p_list x)
      → σ b ≡ ρ b

-- With a process that waits at the descriptor of its p_cursem, wherever it stands in the queue, at
-- most MAXPROC processes there and at most MAXPROC active descriptors, and the active list, the
-- free list and the queue well formed and the first two apart, outBlocked ends and returns the
-- process, which is then out of the queue; when it was the only one, the descriptor goes from the
-- active list to the end of the free list; every link but those of the queue, of the two lists'
-- tail pointers and of descriptors is as it was.
pub out_blocked-Out :
    (k : Kernel) (d p : ℕ) (ps ds fs : List ℕ)
    → Known k d ds fs
    → (k.pcb p).p_cursem ≡ some d
    → length ps ≤ max_proc
    → IsQueue k (s_procq d) ps
    → In p ps
    → (σ : Links) × (out_blocked p k ≡ done (some p) (record k { links = σ }))
      × Out k.links d p ps ds fs σ
unfolding out_blocked
out_blocked-Out k d p ps ds fs w c l q i =
    let r = out_proc_q-In k (s_procq d) p ps l q (In-map p_list p ps i) in
    let k1 : Kernel = record k { links = r.0 } in
    let same1 = λ (b : Loc) (n : b ≢ s_procq d) (s : (x : ℕ) → In x ps → b ≢ p_list x).
      r.2.same b (n, Fresh-map b p_list ps s) in
    let queue1 : IsClist r.0 (s_procq d) (map p_list (without p ps)) =
      rw (← erase-map p_list (λ x y e. cc) p ps) r.2.clist in
    let w1 : Known k1 d ds fs = record {
      few = w.few;
      active =
          IsClist-agree_map k.links r.0 aslh s_link ds (same1 aslh (λ e. cc) (λ x j e. cc))
            (λ x j. same1 (s_link x) (λ e. cc) (λ y m e. cc)) w.active;
      member = w.member;
      free =
          IsClist-agree_map k.links r.0 semd_free s_link fs
            (same1 semd_free (λ e. cc) (λ x j e. cc))
            (λ x j. same1 (s_link x) (λ e. cc) (λ y m e. cc)) w.free;
      apart = w.apart;
    } in
    let e = release_semd-Ended k1 d (without p ps) ds fs w1 queue1 in
    (
      e.0,
      rw (c, r.1, e.1.run),
      record {
        queue =
            IsClist-agree_map r.0 e.0 (s_procq d) p_list (without p ps)
              (e.1.same (s_procq d) (λ z. cc) (λ z. cc) (λ x z. cc))
              (λ x j. e.1.same (p_list x) (λ z. cc) (λ z. cc) (λ y z. cc)) queue1;
        active = e.1.active;
        free = e.1.free;
        same = λ b m n s f g. e.1.same b m n f ∙ same1 b s g;
      },
    )
