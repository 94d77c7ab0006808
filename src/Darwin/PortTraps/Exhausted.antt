-- ===== src/Darwin/PortTraps/Exhausted.antt =====
-- The host's send right after trap 19 has taken its count to zero (src/darwin/Mach.cpp).
use rosa.Prelude.{
  sym, ap, ◌∙◌, ◌≢◌, subst, inl, inr, ℕ, ◌-◌, ◌≤◌, ◌<◌, max, ◌≡◌, refl, false, some, arith, ◌==◌,
  u32,
}
use rosa.Prelude.Assoc.{lookup, update, lookup-update}
use rosa.Darwin.PortSpace.{GuestPort, GuestPortSpace, task_self_name}
use rosa.Darwin.PortSpace.Invariant.{IsValid, updated-IsValid}
use rosa.Darwin.PortTraps.Wellformed.{Trap, trap-IsValid}
use rosa.Darwin.PortTraps.Same.{Stuck, Same-Stuck, Trap-Same, host_self-null}
use mathlib.Core.Option.{some-injective}
use rosa.Darwin.PortTraps.{
  port_mod_refs, host_self_trap, kern_success, mach_port_urefs_maximum, add_delta, set_urefs,
}

-- Any sequence of traps, with any registers.
pub data Traps (s : GuestPortSpace) : GuestPortSpace → Type 0 where
  start : Traps s s
  then_trap : {t u : GuestPortSpace} {rax : ℕ} → Traps s t → Trap t rax u → Traps s u

Traps-Stuck :
    (name : ℕ) {s t : GuestPortSpace}
    → name ≢ task_self_name
    → Traps s t
    → IsValid s
    → Stuck name s
    → IsValid t × Stuck name t
Traps-Stuck name other start v k = (v, k)
Traps-Stuck name other (then_trap traps step) v k =
    let (valid, stuck) = Traps-Stuck name other traps v k in
    (trap-IsValid step valid, Same-Stuck name _ _ (Trap-Same name step valid other stuck) stuck)

module _ (s : GuestPortSpace) (v : IsValid s) (name : ℕ) (port : GuestPort) where
  emptied : GuestPortSpace
  emptied = record s { ports = update name (record port { send_urefs = 0 }) s.ports }

  -- The delta is minus the count.
  mod_refs-empties :
      lookup name s.ports ≡ some port
      → 0 < port.send_urefs
      → port.send_urefs ≤ mach_port_urefs_maximum
      → port_mod_refs s task_self_name name 0 (0x1_0000_0000 - port.send_urefs)
        ≡ (kern_success, emptied)
  unfolding port_mod_refs emptied
  mod_refs-empties live pos max = simp (named, live, some_left, taken, set_urefs) refl
    where
      named : u32 name ≡ name
      named = ground (arith, v.names name port live, v.next_fits)

      some_left : (port.send_urefs == 0) ≡ false
      some_left = ground arith

      taken : add_delta port.send_urefs (u32 (0x1_0000_0000 - port.send_urefs)) ≡ some 0
      taken = unfold add_delta in ground arith

  emptied-Stuck :
      s.host_self_name ≡ some name
      → lookup name s.ports ≡ some port
      → port.send_once_urefs ≡ 0
      → Stuck name emptied
  unfolding emptied
  emptied-Stuck slot live once = record {
    port = record port { send_urefs = 0 };
    slot = slot;
    live =
        ground (arith, lookup-update name name (record port { send_urefs = 0 }) port s.ports live);
    no_urefs = refl;
    no_once = once;
  }

  emptied-IsValid : lookup name s.ports ≡ some port → IsValid emptied
  unfolding emptied
  emptied-IsValid live = updated-IsValid s v name port _ live refl refl refl refl

  host_name : s.host_self_name ≡ some name → name ≢ task_self_name
  host_name slot = elim v.host_slot [
    | inl e ↦ absurd (cc)
    | inr (n, p, e, away, live, type, right) ↦
        let same : n ≡ name = some-injective n name (sym e ∙ slot) in λ is. away (same ∙ is)
  ]

  -- In a well-formed name space whose host name is that of a port with 1 to 0xffff send references and no
  -- send-once reference, the trap 19 that takes all of them succeeds, and after any further sequence of the
  -- traps 18, 19 and 26 to 29, with any registers, host_self_trap gives the null name and changes nothing.
  pub mod_refs-host_self_null :
      s.host_self_name ≡ some name
      → lookup name s.ports ≡ some port
      → 0 < port.send_urefs
      → port.send_urefs ≤ mach_port_urefs_maximum
      → port.send_once_urefs ≡ 0
      → (later : GuestPortSpace)
      → Traps (port_mod_refs s task_self_name name 0 (0x1_0000_0000 - port.send_urefs)).1 later
      → ((port_mod_refs s task_self_name name 0 (0x1_0000_0000 - port.send_urefs)).0 ≡ kern_success)
        × (host_self_trap later ≡ (0, later))
  mod_refs-host_self_null slot live pos max once later traps =
      let empties = mod_refs-empties live pos max in
      let from_emptied : Traps emptied later =
        subst (λ (t : GuestPortSpace). Traps t later) (ap (λ (r : ℕ × GuestPortSpace). r.1) empties)
          traps in
      let (valid, stuck) =
        Traps-Stuck name (host_name slot) from_emptied (emptied-IsValid live)
          (emptied-Stuck slot live once) in
      (ap (λ (r : ℕ × GuestPortSpace). r.0) empties, host_self-null name later stuck)
