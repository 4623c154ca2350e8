-- ===== src/Tests/Endings.antt =====
-- Instances of the theorems on processes that end.
use jae_so.Common.{ℕ, ◌≡◌, ◌==◌, refl, inl, inr, some, none, [], Bool-cases, arith, sym, ◌∙◌}
use jae_so.Kernel.Machine.{Kernel, Pcb, update}
use jae_so.Kernel.Cmd.{Run, done, stop, crash, diverge, Returns}
use jae_so.Nucleus.{IsOrdered, EndsOrdered}
use jae_so.Nucleus.Semop.{semop-IsOrdered}
use jae_so.Nucleus.Schedule.{scheduler-IsOrdered}
use jae_so.Scheduler.{scheduler}
use jae_so.Syscalls.Semop.{semop, sub_int, add_int}
use jae_so.Common.Int.{pos, negsuc, ◌-ℤ◌, ◌+ℤ◌}
use jae_so.Asl.{head_blocked, insert_blocked, remove_blocked}
use jae_so.Clist.{foreach, foreach_all}
use jae_so.Kernel.Arch.{is_dev}
use jae_so.Nucleus.Create.{create_process-IsOrdered}
use jae_so.Nucleus.End.{terminate_process-IsOrdered}
use jae_so.Nucleus.Terminate.{Terminated, terminate_process-Terminated}
use jae_so.Nucleus.Lookup.{Answers, child_by_pid-Answer}
use jae_so.Syscalls.Process.{create_process, terminate_process, terminate_one, pid_selector}
use jae_so.Pcb.{insert_child, child_by_pid}
use jae_so.Accounting.{copy_state}
use jae_so.Nucleus.Stale.{IsStale, Doubled, terminate_one-IsStale}
use jae_so.Tests.Fixture.{machine, power_on, exit_of}
use jae_so.Tests.Orders.{left_by, started, started-IsOrdered, started-current}

abbrev returned_by : Run (Unit {0}) → Kernel
returned_by (done a k) = k
returned_by _ = power_on

-- The first process has made another one.
abbrev parent : Kernel
parent = returned_by (create_process 0x5000 started)

none_after :
    (f : ℕ → Pcb) (i : ℕ) (a : Pcb)
    → ((x : ℕ) → (f x).p_cursem ≡ none)
    → a.p_cursem ≡ none
    → (x : ℕ) → (update f i a x).p_cursem ≡ none
none_after f i a h e x = elim (Bool-cases (x == i)) [ inl q ↦ rw q e | inr q ↦ rw q (h x) ]

no_semaphores : (x : ℕ) → (started.pcb x).p_cursem ≡ none
unfolding exit_of
no_semaphores = none_after _ _ _ (none_after _ _ _ (none_after _ _ _ (λ x. refl) refl) refl) refl

no_semaphores_after : (x : ℕ) → (parent.pcb x).p_cursem ≡ none
unfolding exit_of create_process pid_selector insert_child copy_state
no_semaphores_after =
    none_after _ _ _
      (none_after _ _ _ (none_after _ _ _ (none_after _ _ _ no_semaphores refl) refl) refl) refl

parent-current : parent.current_process ≡ some 0
unfolding exit_of create_process pid_selector insert_child copy_state
parent-current = refl

returned_by-IsOrdered :
    (r : Run (Unit {0})) → Returns (λ _ k. IsOrdered k) r → IsOrdered (returned_by r)
returned_by-IsOrdered (done a k) h = h
returned_by-IsOrdered (stop x k) h = elim h [ ]
returned_by-IsOrdered crash h = elim h [ ]
returned_by-IsOrdered diverge h = elim h [ ]

parent-IsOrdered : IsOrdered parent
parent-IsOrdered =
    returned_by-IsOrdered (create_process 0x5000 started)
      (create_process-IsOrdered 0x5000 0 started started-IsOrdered started-current)

-- It ends, and its child with it.
terminate_process-Terminated_example :
    Returns
      (λ _ k'. Terminated parent-IsOrdered.0 parent 0 0 k')
      (terminate_process machine 0 parent)
terminate_process-Terminated_example =
    terminate_process-Terminated machine parent-IsOrdered.0 parent 0 parent-IsOrdered.1
      parent-current
      (λ x d u a e. let z : none ≡ some a = sym (no_semaphores_after x) ∙ e in absurd (cc)) 0

-- It ends its child, whose identifier is 66.
terminate_process-IsOrdered_example :
    Returns (λ _ k'. IsOrdered k') (terminate_process machine 66 parent)
terminate_process-IsOrdered_example =
    terminate_process-IsOrdered machine 66 0 parent parent-IsOrdered parent-current
      (λ x d l e. let z : none ≡ some d = sym (no_semaphores_after x) ∙ e in absurd (cc))

child_by_pid-Answer_example : Answers parent-IsOrdered.0 parent 66 0 (child_by_pid 22 0 66)
child_by_pid-Answer_example =
    child_by_pid-Answer parent-IsOrdered.0 parent 66 22 0 [] (omega arith)
      (record { distinct = (tt, tt); low = (omega arith, tt); higher = tt }) parent-IsOrdered.1

-- The identifier of the child.
child_pid : (parent.pcb 1).p_pid ≡ 66
unfolding exit_of create_process pid_selector insert_child copy_state
child_pid = refl

-- Process 0 makes a second child; it and the first child wait for the semaphore at 100, and the
-- second child signals it.
abbrev both : Kernel
both = left_by (create_process 0x5000 parent)

abbrev waits_0 : Kernel
waits_0 = left_by (semop machine 100 (negsuc 0) both)

abbrev runs_1 : Kernel
runs_1 = left_by (scheduler machine waits_0)

abbrev waits_1 : Kernel
waits_1 = left_by (semop machine 100 (negsuc 0) runs_1)

abbrev runs_2 : Kernel
runs_2 = left_by (scheduler machine waits_1)

abbrev woken : Kernel
woken = left_by (semop machine 100 (pos 1) runs_2)

left_by-Returns : (r : Run (Unit {0})) → Returns (λ _ k. IsOrdered k) r → IsOrdered (left_by r)
left_by-Returns (done a k) h = h
left_by-Returns (stop x k) h = elim h [ ]
left_by-Returns crash h = elim h [ ]
left_by-Returns diverge h = elim h [ ]

left_by-EndsOrdered : (r : Run (Unit {0})) → EndsOrdered r → IsOrdered (left_by r)
left_by-EndsOrdered (done a k) h = elim h [ ]
left_by-EndsOrdered (stop x k) h = h.0
left_by-EndsOrdered crash h = elim h [ ]
left_by-EndsOrdered diverge h = elim h [ ]

both-current : both.current_process ≡ some 0
unfolding exit_of create_process pid_selector insert_child copy_state
both-current = refl

runs_1-current : runs_1.current_process ≡ some 1
unfolding exit_of create_process pid_selector insert_child copy_state semop head_blocked foreach
    sub_int ◌-ℤ◌ insert_blocked foreach_all is_dev
runs_1-current = refl

runs_2-current : runs_2.current_process ≡ some 2
unfolding exit_of create_process pid_selector insert_child copy_state semop head_blocked foreach
    sub_int ◌-ℤ◌ insert_blocked foreach_all is_dev
runs_2-current = refl

woken-IsOrdered : IsOrdered woken
woken-IsOrdered =
    let a : IsOrdered both =
      left_by-Returns _
        (create_process-IsOrdered 0x5000 0 parent parent-IsOrdered parent-current) in
    let b : IsOrdered waits_0 =
      left_by-Returns _ (semop-IsOrdered machine 100 0 (negsuc 0) both a both-current (λ e. cc)) in
    let c : IsOrdered runs_1 = left_by-EndsOrdered _ (scheduler-IsOrdered machine waits_0 b) in
    let d : IsOrdered waits_1 =
      left_by-Returns _
        (semop-IsOrdered machine 100 1 (negsuc 0) runs_1 c runs_1-current (λ e. cc)) in
    let f : IsOrdered runs_2 = left_by-EndsOrdered _ (scheduler-IsOrdered machine waits_1 d) in
    left_by-Returns _ (semop-IsOrdered machine 100 2 (pos 1) runs_2 f runs_2-current (λ e. cc))

woken-IsStale : IsStale woken 0 0 1 []
unfolding exit_of create_process pid_selector insert_child copy_state semop head_blocked foreach
    sub_int ◌-ℤ◌ insert_blocked foreach_all is_dev add_int ◌+ℤ◌ remove_blocked
woken-IsStale = record {
  ready = refl;
  stale = refl;
  queue = (refl, refl, tt, ((λ e. cc), tt), (tt, tt));
  few = omega arith;
  elsewhere = ((λ e. ground arith), tt);
}

terminate_one-IsStale_example : Returns (λ _ k'. Doubled 0 k') (terminate_one machine 0 woken)
terminate_one-IsStale_example =
    terminate_one-IsStale machine woken 0 0 1 [] woken-IsOrdered woken-IsStale
