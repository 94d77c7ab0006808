-- ===== src/Darwin/PortTraps.antt =====
-- The Mach traps 18, 19 and 26 to 29 of src/darwin/Mach.cpp, which act on the port name space alone:
-- registers are arguments, and a result is the value left in rax with the new name space.
pub mod Wellformed
pub mod Same
pub mod Exhausted
use rosa.Prelude.{
  ℕ, zero, suc, ◌+◌, ◌-◌, ◌*◌, ◌/◌, ◌%◌, ◌^◌, ◌≤◌, ◌<◌, min, max, bit_and, bit_or, bit_xor, ◌≡◌,
  refl, sym, ap, ◌∙◌, subst, ◌≢◌, ◌↔◌, ◌⊎◌, inl, inr, Bool, true, false, not, ◌&&◌, ◌||◌, Option,
  none, some, List, [], ◌∷◌, ◌++◌, arith, ltb, leb, ◌==◌, if◌then◌else◌, Bool-cases, Option-cases,
  length, get_elem?, set, take, drop, replicate, All, u32, u64, u32_max, u64_max,
}
use rosa.Prelude.Assoc.{lookup, update}
use rosa.Darwin.PortSpace.{
  GuestPort, GuestPortSpace, GuestPortDeallocateResult, success, invalid_name, invalid_right,
  task_self_name, new_port, reply, allocate_receive_right, copyout_thread_send_right,
  copyout_host_send_right, deallocate_uref,
}

abbrev pub kern_success : ℕ
kern_success = 0

abbrev pub kern_invalid_name : ℕ
kern_invalid_name = 15

abbrev pub kern_invalid_right : ℕ
kern_invalid_right = 17

abbrev pub kern_invalid_value : ℕ
kern_invalid_value = 18

abbrev pub kern_urefs_overflow : ℕ
kern_urefs_overflow = 19

abbrev pub mach_send_invalid_destination : ℕ
mach_send_invalid_destination = 0x10000003

abbrev pub mach_port_right_send : ℕ
mach_port_right_send = 0

abbrev pub mach_port_right_count : ℕ
mach_port_right_count = 6

abbrev pub mach_port_urefs_maximum : ℕ
mach_port_urefs_maximum = 0xffff

abbrev pub mach_port_qlimit_default : ℕ
mach_port_qlimit_default = 5

abbrev pub code_of : GuestPortDeallocateResult → ℕ
code_of success = kern_success
code_of invalid_name = kern_invalid_name
code_of invalid_right = kern_invalid_right

-- case 18U
unfoldable pub port_deallocate : GuestPortSpace → (rdi rsi : ℕ) → ℕ × GuestPortSpace
unfolding deallocate_uref
port_deallocate s rdi rsi =
    if not (rdi == task_self_name)
    then (mach_send_invalid_destination, s)
    else (let (result, s') = deallocate_uref s (u32 rsi) in (code_of result, s'))

-- sendUrefs + delta as int64_t, where delta is an int32_t of these bits: none if it is negative.
unfoldable pub add_delta : ℕ → ℕ → Option ℕ
add_delta urefs bits =
    if ltb bits 0x8000_0000
    then some (urefs + bits)
    else if ltb urefs (0x1_0000_0000 - bits)
    then none
    else some (urefs - (0x1_0000_0000 - bits))

-- The port's count becomes the sum, unless that is negative or too large.
unfoldable pub set_urefs : GuestPortSpace → ℕ → GuestPort → Option ℕ → ℕ × GuestPortSpace
unfolding update
set_urefs s name port none = (kern_invalid_value, s)
set_urefs s name port (some updated) =
    if ltb mach_port_urefs_maximum updated then (kern_urefs_overflow, s) else (
      kern_success,
      record s { ports = update name (record port { send_urefs = u32 updated }) s.ports },
    )

-- case 19U
unfoldable pub port_mod_refs : GuestPortSpace → (rdi rsi rdx r10 : ℕ) → ℕ × GuestPortSpace
unfolding lookup add_delta set_urefs
port_mod_refs s rdi rsi rdx r10 =
    if not (rdi == task_self_name)
    then (mach_send_invalid_destination, s)
    else if leb mach_port_right_count (u32 rdx)
    then (kern_invalid_value, s)
    else elim (lookup (u32 rsi) s.ports) [
      | none ↦ (kern_invalid_name, s)
      | some port ↦
          if port.send_urefs == 0
          then (kern_invalid_name, s)
          else if not (u32 rdx == mach_port_right_send)
          then (kern_invalid_right, s)
          else set_urefs s (u32 rsi) port (add_delta port.send_urefs (u32 r10))
    ]

-- rax = name ? name->value : 0
abbrev pub name_or_null : Option ℕ → ℕ
name_or_null none = 0
name_or_null (some name) = name

-- case 26U
unfoldable pub reply_port : GuestPortSpace → ℕ × GuestPortSpace
unfolding allocate_receive_right
reply_port s =
    let (name, s') =
      allocate_receive_right s
        (record new_port { type = reply; queue_limit = mach_port_qlimit_default }) in
    (name_or_null name, s')

-- case 27U
unfoldable pub thread_self_trap : GuestPortSpace → ℕ × GuestPortSpace
unfolding copyout_thread_send_right
thread_self_trap s =
    let (name, s') = copyout_thread_send_right s mach_port_urefs_maximum in (name_or_null name, s')

-- case 28U; no value stands for the exception when the task's port is absent.
unfoldable pub task_self_trap : GuestPortSpace → Option (ℕ × GuestPortSpace)
unfolding lookup update
task_self_trap s = elim (lookup task_self_name s.ports) [
  | none ↦ none
  | some task_self ↦
      if task_self.send_urefs == mach_port_urefs_maximum
      then some (0, s)
      else some (
        task_self_name,
        record s {
          ports =
              update task_self_name
                (record task_self { send_urefs = u32 (task_self.send_urefs + 1) }) s.ports;
        },
      )
]

-- case 29U
unfoldable pub host_self_trap : GuestPortSpace → ℕ × GuestPortSpace
unfolding copyout_host_send_right
host_self_trap s =
    let (name, s') = copyout_host_send_right s mach_port_urefs_maximum in (name_or_null name, s')
