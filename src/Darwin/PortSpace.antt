-- ===== src/Darwin/PortSpace.antt =====
-- src/darwin/PortSpace.h and PortSpace.cpp: the guest's Mach port name space. std::map is an
-- association list; the search for a free name takes fuel.
pub mod Invariant
pub mod Allocation
pub mod Operations
pub mod Steps
pub mod RoundTrips
use rosa.Prelude.{
  ℕ, zero, suc, ◌+◌, ◌-◌, ◌*◌, ◌/◌, ◌%◌, ◌^◌, ◌≤◌, ◌<◌, min, max, bit_and, bit_or, bit_xor, ◌≡◌,
  refl, sym, ap, ◌∙◌, subst, ◌≢◌, ◌↔◌, ◌⊎◌, inl, inr, Bool, true, false, not, ◌&&◌, ◌||◌, Option,
  none, some, List, [], ◌∷◌, ◌++◌, arith, ltb, leb, ◌==◌, if◌then◌else◌, Bool-cases, Option-cases,
  length, get_elem?, set, take, drop, replicate, All, u32, u64, u32_max, u64_max,
}
use rosa.Prelude.Assoc.{lookup, emplace, update, erase}

pub data GuestPortType : Type 0 where
  ordinary reply host thread bootstrap clock semaphore port_set timer : GuestPortType

-- The enumerator's value.
abbrev pub type_value : GuestPortType → ℕ
type_value ordinary = 0
type_value reply = 1
type_value host = 2
type_value thread = 3
type_value bootstrap = 4
type_value clock = 5
type_value semaphore = 6
type_value port_set = 7
type_value timer = 8

pub data GuestPortDeallocateResult : Type 0 where
  success invalid_name invalid_right : GuestPortDeallocateResult

pub record GuestPort : Type 0 where
  pub name : ℕ
  pub type : GuestPortType
  pub has_receive_right : Bool
  pub send_urefs : ℕ
  pub send_once_urefs : ℕ
  pub context : ℕ
  pub queue_limit : ℕ
  pub guarded : Bool
  pub guard : ℕ
  pub strict_guard : Bool
  pub importance_receiver : Bool
  pub option_flags : ℕ
  pub members : List ℕ

-- GuestPort{}.
abbrev pub new_port : GuestPort
new_port = record {
  name = 0;
  type = ordinary;
  has_receive_right = false;
  send_urefs = 0;
  send_once_urefs = 0;
  context = 0;
  queue_limit = 0;
  guarded = false;
  guard = 0;
  strict_guard = false;
  importance_receiver = false;
  option_flags = 0;
  members = [];
}

abbrev pub task_self_name : ℕ
task_self_name = 0x103

abbrev pub synthetic_name_stride : ℕ
synthetic_name_stride = 0x100

pub record GuestPortSpace : Type 0 where
  pub ports : List (ℕ × GuestPort)
  pub next_synthetic_name : ℕ
  pub host_self_name : Option ℕ
  pub thread_self_name : Option ℕ
  pub bootstrap_name : Option ℕ
  pub clock_service_names : List (ℕ × ℕ)

-- The constructor: the task's own port, and no other.
abbrev pub initial_space : GuestPortSpace
initial_space = record {
  ports = (task_self_name, record new_port { name = task_self_name }) ∷ [];
  next_synthetic_name = 0x203;
  host_self_name = none;
  thread_self_name = none;
  bootstrap_name = none;
  clock_service_names = [];
}

unfoldable pub owns_receive_right : GuestPortSpace → ℕ → Bool
unfolding lookup
owns_receive_right s name = elim (lookup name s.ports) [
  | none ↦ false
  | some port ↦ port.has_receive_right
]

pub data Candidate : Type 0 where
  free : ℕ → Candidate
  exhausted out_of_fuel : Candidate

-- candidate > max - stride: the next name would not fit 32 bits.
abbrev pub at_end : ℕ → Bool
at_end candidate = ltb (u32_max - synthetic_name_stride) candidate

-- The loop past the names in use.
unfoldable pub free_name : List (ℕ × GuestPort) → (fuel candidate : ℕ) → Candidate
unfolding lookup
free_name ports zero candidate = out_of_fuel
free_name ports (suc fuel) candidate =
    let rest = free_name ports fuel (candidate + synthetic_name_stride) in
    elim (lookup candidate ports) [
      | none ↦ free candidate
      | some taken ↦ if at_end candidate then exhausted else rest
    ]

unfoldable pub take_name : GuestPortSpace → GuestPort → Candidate → Option ℕ × GuestPortSpace
unfolding emplace
take_name s attributes exhausted = (none, s)
take_name s attributes out_of_fuel = (none, s)
take_name s attributes (free candidate) = if at_end candidate then (none, s) else (
  some candidate,
  record s {
    ports = emplace candidate (record attributes { name = candidate }) s.ports;
    next_synthetic_name = candidate + synthetic_name_stride;
  },
)

unfoldable pub allocate_port : GuestPortSpace → GuestPort → Option ℕ × GuestPortSpace
unfolding free_name take_name
allocate_port s attributes =
    take_name s attributes (free_name s.ports (suc (length s.ports)) s.next_synthetic_name)

unfoldable pub allocate_receive_right : GuestPortSpace → GuestPort → Option ℕ × GuestPortSpace
unfolding allocate_port
allocate_receive_right s attributes =
    allocate_port s (record attributes { has_receive_right = true })

-- The reuse of a name that was given out before: one more send uref, if it is still a right of the
-- expected kind and the count is not at its maximum.
unfoldable pub reuse_name : GuestPortSpace → ℕ → (GuestPort → Bool) → ℕ → Option ℕ × GuestPortSpace
unfolding lookup update
reuse_name s name expected maximum_urefs = elim (lookup name s.ports) [
  | none ↦ (none, s)
  | some port ↦
      if not (expected port) || port.send_urefs == 0
      then (none, s)
      else if port.send_urefs == maximum_urefs
      then (none, s)
      else (
        some name,
        record s {
          ports = update name (record port { send_urefs = u32 (port.send_urefs + 1) }) s.ports;
        },
      )
]

abbrev pub has_type : GuestPortType → GuestPort → Bool
has_type t port = type_value port.type == type_value t

unfoldable pub copyout_host_send_right : GuestPortSpace → ℕ → Option ℕ × GuestPortSpace
unfolding reuse_name allocate_port
copyout_host_send_right s maximum_urefs = elim s.host_self_name [
  | some name ↦ reuse_name s name (has_type host) maximum_urefs
  | none ↦
      let (name, s') = allocate_port s (record new_port { type = host; send_urefs = 1 }) in
      (name, record s' { host_self_name = name })
]

unfoldable pub copyout_thread_send_right : GuestPortSpace → ℕ → Option ℕ × GuestPortSpace
unfolding reuse_name allocate_port
copyout_thread_send_right s maximum_urefs = elim s.thread_self_name [
  | some name ↦ reuse_name s name (has_type thread) maximum_urefs
  | none ↦
      let (name, s') = allocate_port s (record new_port { type = thread; send_urefs = 1 }) in
      (name, record s' { thread_self_name = name })
]

unfoldable pub copyout_bootstrap_send_right : GuestPortSpace → ℕ → Option ℕ × GuestPortSpace
unfolding reuse_name allocate_port
copyout_bootstrap_send_right s maximum_urefs = elim s.bootstrap_name [
  | some name ↦ reuse_name s name (has_type bootstrap) maximum_urefs
  | none ↦
      let (name, s') = allocate_port s (record new_port { type = bootstrap; send_urefs = 1 }) in
      (name, record s' { bootstrap_name = name })
]

-- if (name) clockServiceNames_.emplace(clockId, *name).
abbrev pub register_clock : ℕ → Option ℕ × GuestPortSpace → Option ℕ × GuestPortSpace
register_clock clock_id (none, s) = (none, s)
register_clock clock_id (some name, s) =
    (some name, record s { clock_service_names = emplace clock_id name s.clock_service_names })

unfoldable pub copyout_clock_send_right : GuestPortSpace → ℕ → ℕ → Option ℕ × GuestPortSpace
unfolding lookup reuse_name allocate_port
copyout_clock_send_right s clock_id maximum_urefs = elim (lookup clock_id s.clock_service_names) [
  | some name ↦
      reuse_name s name (λ port. has_type clock port && port.context == clock_id) maximum_urefs
  | none ↦
      register_clock clock_id
        (allocate_port s (record new_port { type = clock; context = clock_id; send_urefs = 1 }))
]

-- `value` is the int32_t's bit pattern.
unfoldable pub allocate_semaphore_send_right : GuestPortSpace → ℕ → ℕ → Option ℕ × GuestPortSpace
unfolding allocate_port
allocate_semaphore_send_right s policy value =
    allocate_port s
      (record new_port { type = semaphore; send_urefs = 1; context = value; option_flags = policy })

-- if (slot == name) slot.reset().
abbrev pub reset_if : ℕ → Option ℕ → Option ℕ
reset_if name none = none
reset_if name (some n) = if n == name then none else some n

-- A clock's service name goes with its port.
abbrev pub forget_clock : GuestPort → List (ℕ × ℕ) → List (ℕ × ℕ)
forget_clock port clocks = if has_type clock port then erase (u32 port.context) clocks else clocks

-- The port, its slots and its clock entry are removed.
unfoldable pub remove_port : GuestPortSpace → ℕ → GuestPort → GuestPortSpace
unfolding erase
remove_port s name port = record s {
  ports = erase name s.ports;
  host_self_name = reset_if name s.host_self_name;
  thread_self_name = reset_if name s.thread_self_name;
  bootstrap_name = reset_if name s.bootstrap_name;
  clock_service_names = forget_clock port s.clock_service_names;
}

-- After the decrement: the port is written back, or removed if it was its last reference.
unfoldable pub settle_port : GuestPortSpace → ℕ → GuestPort → GuestPortSpace
unfolding update remove_port
settle_port s name port =
    if not (name == task_self_name)
      && not port.has_receive_right
      && port.send_urefs == 0
      && port.send_once_urefs == 0
    then remove_port s name port
    else record s { ports = update name port s.ports }

unfoldable pub deallocate_uref : GuestPortSpace → ℕ → GuestPortDeallocateResult × GuestPortSpace
unfolding lookup settle_port
deallocate_uref s name =
    if name == 0 || name == u32_max then (success, s) else elim (lookup name s.ports) [
      | none ↦ (invalid_name, s)
      | some port ↦
          if not (port.send_urefs == 0)
          then (success, settle_port s name (record port { send_urefs = port.send_urefs - 1 }))
          else if not (port.send_once_urefs == 0)
          then (
            success,
            settle_port s name (record port { send_once_urefs = port.send_once_urefs - 1 }),
          )
          else (invalid_right, s)
    ]

-- The name goes back if it was the last one given out.
unfoldable pub give_back : ℕ → GuestPortSpace → GuestPortSpace
give_back name s =
    if leb name (u32_max - synthetic_name_stride)
      && name + synthetic_name_stride == s.next_synthetic_name
    then record s { next_synthetic_name = name }
    else s

unfoldable pub rollback_last_allocation : GuestPortSpace → ℕ → GuestPortSpace
unfolding lookup remove_port give_back
rollback_last_allocation s name = elim (lookup name s.ports) [
  | none ↦ s
  | some port ↦ if name == task_self_name then s else give_back name (remove_port s name port)
]
