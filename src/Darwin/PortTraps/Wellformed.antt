-- ===== src/Darwin/PortTraps/Wellformed.antt =====
-- The port traps of src/darwin/Mach.cpp as the steps of a state machine on the name space.
use rosa.Prelude.{
  ℕ, ◌+◌, ◌≡◌, refl, sym, ap, ◌∙◌, subst, inl, inr, true, Option, none, some, ltb, leb, ◌==◌,
  Bool-cases, Option-cases, u32,
}
use mathlib.Core.Option.{some-injective}
use rosa.Prelude.Assoc.{lookup, update}
use rosa.Darwin.PortSpace.{
  GuestPort, GuestPortSpace, task_self_name, initial_space, new_port, reply, allocate_receive_right,
}
use rosa.Darwin.PortSpace.Invariant.{IsValid, initial_space-IsValid, updated-IsValid}
use rosa.Darwin.PortSpace.Allocation.{allocate_port-IsValid}
use rosa.Darwin.PortSpace.Operations.{
  host_right-IsValid, thread_right-IsValid, deallocate_uref-IsValid,
}
use rosa.Darwin.PortTraps.{
  port_deallocate, port_mod_refs, reply_port, thread_self_trap, task_self_trap, host_self_trap,
  add_delta, set_urefs, mach_port_urefs_maximum, mach_port_right_count, mach_port_right_send,
  mach_port_qlimit_default,
}

-- One trap, with any registers, and the value it leaves in rax.
pub data Trap : GuestPortSpace → ℕ → GuestPortSpace → Type 0 where
  deallocates :
      {s : GuestPortSpace} (rdi rsi : ℕ)
      → Trap s (port_deallocate s rdi rsi).0 (port_deallocate s rdi rsi).1
  modifies :
      {s : GuestPortSpace} (rdi rsi rdx r10 : ℕ)
      → Trap s (port_mod_refs s rdi rsi rdx r10).0 (port_mod_refs s rdi rsi rdx r10).1
  replies : {s : GuestPortSpace} → Trap s (reply_port s).0 (reply_port s).1
  thread_self : {s : GuestPortSpace} → Trap s (thread_self_trap s).0 (thread_self_trap s).1
  task_self : {s s' : GuestPortSpace} {rax : ℕ} → task_self_trap s ≡ some (rax, s') → Trap s rax s'
  host_self : {s : GuestPortSpace} → Trap s (host_self_trap s).0 (host_self_trap s).1

module _ (s : GuestPortSpace) (v : IsValid s) where
  deallocate-IsValid : (rdi rsi : ℕ) → IsValid (port_deallocate s rdi rsi).1
  unfolding port_deallocate
  deallocate-IsValid rdi rsi = elim (Bool-cases (rdi == task_self_name)) [
    | inl e ↦ rw (port_deallocate, e) (deallocate_uref-IsValid s v (u32 rsi))
    | inr e ↦ rw (port_deallocate, e) v
  ]

  set_urefs-IsValid :
      (name : ℕ) (port : GuestPort) (sum : Option ℕ)
      → lookup name s.ports ≡ some port
      → IsValid (set_urefs s name port sum).1
  unfolding set_urefs
  set_urefs-IsValid name port none live = v
  set_urefs-IsValid name port (some updated) live =
      elim (Bool-cases (ltb mach_port_urefs_maximum updated)) [
        | inl e ↦ rw e v
        | inr e ↦ rw e (updated-IsValid s v name port _ live refl refl refl refl)
      ]

  mod_refs-IsValid : (rdi rsi rdx r10 : ℕ) → IsValid (port_mod_refs s rdi rsi rdx r10).1
  unfolding port_mod_refs
  mod_refs-IsValid rdi rsi rdx r10 = elim (Bool-cases (rdi == task_self_name)) [
    | inr e ↦ rw (port_mod_refs, e) v
    | inl e ↦ elim (Bool-cases (leb mach_port_right_count (u32 rdx))) [
      | inl many ↦ rw (port_mod_refs, e, many) v
      | inr few ↦ elim (Option-cases (lookup (u32 rsi) s.ports)) [
        | inl gone ↦ rw (port_mod_refs, e, few, gone) v
        | inr (port, live) ↦ elim (Bool-cases (port.send_urefs == 0)) [
          | inl bare ↦ rw (port_mod_refs, e, few, live, bare) v
          | inr held ↦ elim (Bool-cases (u32 rdx == mach_port_right_send)) [
            | inl right ↦
                rw (port_mod_refs, e, few, live, held, right)
                  (set_urefs-IsValid (u32 rsi) port (add_delta port.send_urefs (u32 r10)) live)
            | inr wrong ↦ rw (port_mod_refs, e, few, live, held, wrong) v
          ]
        ]
      ]
    ]
  ]

  -- The exception of the trap is not thrown, and what it gives is well formed.
  task_self-found :
      (rax : ℕ) × (s' : GuestPortSpace) × (task_self_trap s ≡ some (rax, s')) × IsValid s'
  unfolding task_self_trap
  task_self-found = elim (Bool-cases (v.task.0.send_urefs == mach_port_urefs_maximum)) [
    | inl full ↦ (0, s, rw (task_self_trap, v.task.1, full) refl, v)
    | inr room ↦ (
      task_self_name,
      record s {
        ports =
            update task_self_name (record v.task.0 { send_urefs = u32 (v.task.0.send_urefs + 1) })
              s.ports;
      },
      rw (task_self_trap, v.task.1, room) refl,
      updated-IsValid s v task_self_name v.task.0 _ v.task.1 refl refl refl refl,
    )
  ]

  task_self-IsValid :
      {s' : GuestPortSpace} {rax : ℕ} → task_self_trap s ≡ some (rax, s') → IsValid s'
  task_self-IsValid {s'} h =
      let (rax', t, found, valid) = task_self-found in
      subst IsValid (ap (λ r. r.1) (some-injective _ _ (sym found ∙ h))) valid

-- What the traps reach from a new process's name space.
pub data Trapped : GuestPortSpace → Type 0 where
  new_process : Trapped initial_space
  after : {s s' : GuestPortSpace} {rax : ℕ} → Trapped s → Trap s rax s' → Trapped s'

pub trap-IsValid : {s s' : GuestPortSpace} {rax : ℕ} → Trap s rax s' → IsValid s → IsValid s'
unfolding reply_port thread_self_trap host_self_trap allocate_receive_right
trap-IsValid (deallocates rdi rsi) v = deallocate-IsValid _ v rdi rsi
trap-IsValid (modifies rdi rsi rdx r10) v = mod_refs-IsValid _ v rdi rsi rdx r10
trap-IsValid replies v =
    allocate_port-IsValid _
      (record new_port {
        type = reply;
        queue_limit = mach_port_qlimit_default;
        has_receive_right = true;
      })
      v
trap-IsValid thread_self v = thread_right-IsValid _ v mach_port_urefs_maximum
trap-IsValid (task_self h) v = task_self-IsValid _ v h
trap-IsValid host_self v = host_right-IsValid _ v mach_port_urefs_maximum

reached : {s : GuestPortSpace} → Trapped s → IsValid s
reached new_process = initial_space-IsValid
reached (after t step) = trap-IsValid step (reached t)

-- After any sequence of these traps on a new process's name space, with any registers, the name space
-- is well formed, and task_self_trap finds the task's own port, so that it does not throw.
pub Trapped-IsValid :
    {s : GuestPortSpace}
    → Trapped s
    → IsValid s
      × ((rax : ℕ) × (s' : GuestPortSpace) × (task_self_trap s ≡ some (rax, s')) × IsValid s')
Trapped-IsValid t = (reached t, task_self-found _ (reached t))
