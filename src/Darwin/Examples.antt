-- ===== src/Darwin/Examples.antt =====
-- A new process's port names, and the theorems at them.
use rosa.Prelude.{◌==◌, if◌then◌else◌, none, ℕ, ◌≡◌, refl, true, some, [], ◌∷◌, arith}
use rosa.Prelude.Assoc.{lookup}
use rosa.Darwin.PortSpace.{
  GuestPort, GuestPortSpace, allocate_port, allocate_receive_right, rollback_last_allocation,
  copyout_host_send_right, deallocate_uref, new_port, host, success, initial_space,
}
use rosa.Darwin.PortTraps.{
  port_deallocate, thread_self_trap, port_mod_refs, host_self_trap, task_self_trap, kern_success,
}
use rosa.Darwin.PortTraps.Exhausted.{Traps, mod_refs-host_self_null}
use rosa.Darwin.PortTraps.Wellformed.{Trap, Trapped, new_process, after, Trapped-IsValid}
use rosa.Darwin.PortSpace.Invariant.{IsValid, initial_space-IsValid}
use rosa.Darwin.PortSpace.Allocation.{with_port, allocate_port_lem}
use rosa.Darwin.PortSpace.Steps.{start, then_step, host_right, deallocates, Reachable-IsValid}
use rosa.Darwin.PortSpace.RoundTrips.{
  rollback-allocate_receive_right, deallocate-copyout_host_send_right, deallocate_uref-host,
}

abbrev service : GuestPort
service = record new_port { queue_limit = 5 }

abbrev with_service : GuestPortSpace
with_service = record initial_space {
  ports =
      (0x103, record new_port { name = 0x103 })
      ∷ (0x203, record new_port { name = 0x203; has_receive_right = true; queue_limit = 5 })
      ∷ [];
  next_synthetic_name = 0x303;
}

abbrev host_port : GuestPort
host_port = record new_port { name = 0x203; type = host; send_urefs = 1 }

abbrev with_host : GuestPortSpace
with_host = record initial_space {
  ports = (0x103, record new_port { name = 0x103 }) ∷ (0x203, host_port) ∷ [];
  next_synthetic_name = 0x303;
  host_self_name = some 0x203;
}

service_call : allocate_receive_right initial_space service ≡ (some 0x203, with_service)
unfolding allocate_receive_right
service_call = refl

host_call : copyout_host_send_right initial_space 0xffff ≡ (some 0x203, with_host)
unfolding copyout_host_send_right
host_call = refl

with_host-IsValid : IsValid with_host
unfolding copyout_host_send_right
with_host-IsValid = Reachable-IsValid (then_step start (host_right 0xffff))

host_found : lookup 0x203 with_host.ports ≡ some host_port
unfolding lookup
host_found = refl

rollback-allocate_receive_right_example :
    rollback_last_allocation with_service 0x203 ≡ initial_space
rollback-allocate_receive_right_example =
    rollback-allocate_receive_right initial_space initial_space-IsValid service 0x203 with_service
      refl service_call

deallocate-copyout_host_send_right_example :
    ((copyout_host_send_right with_host 0xffff).0 ≡ some 0x203)
    × (deallocate_uref (copyout_host_send_right with_host 0xffff).1 0x203 ≡ (success, with_host))
deallocate-copyout_host_send_right_example =
    deallocate-copyout_host_send_right with_host with_host-IsValid host_port 0xffff 0x203 refl
      host_found (omega arith) (omega arith) (omega arith)

-- The last name whose successor fits 32 bits.
abbrev nearly_full : GuestPortSpace
nearly_full = record initial_space { next_synthetic_name = 0xffff_feff }

allocate_port_lem_example :
    allocate_port nearly_full service ≡ (some 0xffff_feff, with_port nearly_full service)
allocate_port_lem_example = allocate_port_lem nearly_full service unused (omega arith)
  where
    unused : lookup 0xffff_feff nearly_full.ports ≡ none
    unused = unfold lookup in refl

Reachable-IsValid_example : IsValid (deallocate_uref with_host 0x203).1
unfolding copyout_host_send_right
Reachable-IsValid_example =
    Reachable-IsValid (then_step (then_step start (host_right 0xffff)) (deallocates 0x203))

-- After a trap 18 on the host's name, and a trap 27.
abbrev refused_space : GuestPortSpace
refused_space =
    (thread_self_trap
      (port_deallocate (port_mod_refs with_host 0x103 0x203 0 0xffff_ffff).1 0x103 0x203).1).1

mod_refs-host_self_null_example :
    ((port_mod_refs with_host 0x103 0x203 0 0xffff_ffff).0 ≡ kern_success)
    × (host_self_trap refused_space ≡ (0, refused_space))
mod_refs-host_self_null_example =
    mod_refs-host_self_null with_host with_host-IsValid 0x203 host_port refl host_found
      (omega arith) (omega arith) refl refused_space
      (Traps.then_trap (Traps.then_trap Traps.start (Trap.deallocates 0x103 0x203))
        Trap.thread_self)

with_host-Trapped : Trapped with_host
unfolding host_self_trap copyout_host_send_right
with_host-Trapped = after new_process Trap.host_self

Trapped-IsValid_example :
    IsValid with_host
    × ((rax : ℕ) × (s' : GuestPortSpace) × (task_self_trap with_host ≡ some (rax, s')) × IsValid s')
Trapped-IsValid_example = Trapped-IsValid with_host-Trapped

deallocate_uref-host_example :
    (s' : GuestPortSpace) × (deallocate_uref with_host 0x203 ≡ (success, s'))
    × (s'.host_self_name ≡ none)
    × ((n : ℕ) → lookup n s'.ports ≡ (if 0x203 == n then none else lookup n with_host.ports))
deallocate_uref-host_example =
    deallocate_uref-host with_host with_host-IsValid host_port 0x203 refl host_found refl refl
