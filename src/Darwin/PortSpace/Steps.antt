-- ===== src/Darwin/PortSpace/Steps.antt =====
-- The name space as a state machine: the calls a process can make on it.
use rosa.Prelude.{ℕ, ◌≤◌, true, u32_max}
use rosa.Darwin.PortSpace.{
  GuestPort, GuestPortSpace, allocate_receive_right, rollback_last_allocation,
  copyout_host_send_right, copyout_thread_send_right, copyout_bootstrap_send_right,
  copyout_clock_send_right, deallocate_uref, allocate_semaphore_send_right, initial_space, new_port,
  semaphore,
}
use rosa.Darwin.PortSpace.Invariant.{IsValid, initial_space-IsValid}
use rosa.Darwin.PortSpace.Allocation.{allocate_port-IsValid}
use rosa.Darwin.PortSpace.Operations.{
  host_right-IsValid, thread_right-IsValid, bootstrap_right-IsValid, clock_right-IsValid,
  deallocate_uref-IsValid, rollback_last_allocation-IsValid,
}

-- What the guest's calls do to the name space.
pub data Step : GuestPortSpace → GuestPortSpace → Type 0 where
  receive_right :
      {s : GuestPortSpace} (attributes : GuestPort) → Step s (allocate_receive_right s attributes).1
  host_right :
      {s : GuestPortSpace} (maximum_urefs : ℕ) → Step s (copyout_host_send_right s maximum_urefs).1
  thread_right :
      {s : GuestPortSpace} (maximum_urefs : ℕ)
      → Step s (copyout_thread_send_right s maximum_urefs).1
  bootstrap_right :
      {s : GuestPortSpace} (maximum_urefs : ℕ)
      → Step s (copyout_bootstrap_send_right s maximum_urefs).1
  clock_right :
      {s : GuestPortSpace} (clock_id maximum_urefs : ℕ)
      → clock_id ≤ u32_max
      → Step s (copyout_clock_send_right s clock_id maximum_urefs).1
  semaphore_right :
      {s : GuestPortSpace} (policy value : ℕ)
      → Step s (allocate_semaphore_send_right s policy value).1
  deallocates : {s : GuestPortSpace} (name : ℕ) → Step s (deallocate_uref s name).1
  rolls_back : {s : GuestPortSpace} (name : ℕ) → Step s (rollback_last_allocation s name)

-- Each call from a well-formed name space gives a well-formed one, whether or not it succeeds.
Step-IsValid : {s s' : GuestPortSpace} → Step s s' → IsValid s → IsValid s'
unfolding allocate_receive_right allocate_semaphore_send_right
Step-IsValid (receive_right attributes) v =
    allocate_port-IsValid _ (record attributes { has_receive_right = true }) v
Step-IsValid (host_right maximum_urefs) v = host_right-IsValid _ v maximum_urefs
Step-IsValid (thread_right maximum_urefs) v = thread_right-IsValid _ v maximum_urefs
Step-IsValid (bootstrap_right maximum_urefs) v = bootstrap_right-IsValid _ v maximum_urefs
Step-IsValid (clock_right clock_id maximum_urefs small) v =
    clock_right-IsValid _ v clock_id maximum_urefs small
Step-IsValid (semaphore_right policy value) v =
    allocate_port-IsValid _
      (record new_port { type = semaphore; send_urefs = 1; context = value; option_flags = policy })
      v
Step-IsValid (deallocates name) v = deallocate_uref-IsValid _ v name
Step-IsValid (rolls_back name) v = rollback_last_allocation-IsValid _ v name

-- What a process can reach from its first name space.
pub data Reachable : GuestPortSpace → Type 0 where
  start : Reachable initial_space
  then_step : {s s' : GuestPortSpace} → Reachable s → Step s s' → Reachable s'

-- After any sequence of calls on a new process's name space, failed ones included, clock numbers
-- being of 32 bits, the name space is well formed: each port carries the name it stands under, the
-- names in use are 0x103 plus multiples of 0x100 and below the next name to give out, the task's
-- own port is there, and the host, thread, bootstrap and clock names are those of live ports of
-- that kind, a clock's with its number.
pub Reachable-IsValid : {s : GuestPortSpace} → Reachable s → IsValid s
Reachable-IsValid start = initial_space-IsValid
Reachable-IsValid (then_step r step) = Step-IsValid step (Reachable-IsValid r)
