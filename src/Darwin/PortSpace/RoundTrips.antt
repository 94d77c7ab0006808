-- ===== src/Darwin/PortSpace/RoundTrips.antt =====
-- Calls on the name space that undo one another, and the end of a name.
use rosa.Prelude.{
  ℕ, ◌+◌, ◌-◌, ◌≤◌, ◌<◌, ◌≡◌, refl, sym, ap, ◌∙◌, inl, inr, Bool, true, false, not, ◌≢◌,
  if◌then◌else◌, ◌&&◌, ◌||◌, Option, some, List, arith, ◌==◌, u32, u32_max,
}
use mathlib.Core.Option.{none, some-injective}
use rosa.Prelude.Assoc.{
  lookup, lookup-erase, update, lookup-emplace, lookup-update, erase-emplace, update-update,
}
use rosa.Darwin.PortSpace.{
  bootstrap, thread, GuestPortType, clock, GuestPort, task_self_name, GuestPortSpace, at_end,
  synthetic_name_stride, allocate_receive_right, remove_port, give_back, rollback_last_allocation,
  reset_if, has_type, reuse_name, copyout_host_send_right, settle_port, deallocate_uref, host,
  success,
}
use rosa.Darwin.PortSpace.Invariant.{IsValid, IsSlot, next_free}
use rosa.Darwin.PortSpace.Allocation.{with_port, allocated, allocate_port-allocated}

module _ (s : GuestPortSpace) (v : IsValid s) where
  slot_kept :
      (slot : Option ℕ) (t : GuestPortType)
      → IsSlot s.ports slot t
      → reset_if s.next_synthetic_name slot ≡ slot
  slot_kept slot t (inl e) = rw e refl
  slot_kept slot t (inr (n, p, e, far, live, a, b)) =
      let (c, d, below, f) = v.names n p live in rw e (ground arith)

  found :
      (port : GuestPort)
      → lookup s.next_synthetic_name (with_port s port).ports
        ≡ some (record port { name = s.next_synthetic_name })
  found port = ground (
    arith,
    lookup-emplace s.next_synthetic_name s.next_synthetic_name
        (record port { name = s.next_synthetic_name }) s.ports (next_free s v),
  )

  removed :
      (port : GuestPort)
      → has_type clock port ≡ false
      → remove_port
          (with_port s port)
          s.next_synthetic_name
          (record port { name = s.next_synthetic_name })
        ≡ record s { next_synthetic_name = s.next_synthetic_name + synthetic_name_stride }
  unfolding remove_port
  removed port kind =
      simp
        (
          erase-emplace s.next_synthetic_name (record port { name = s.next_synthetic_name }) s.ports
              (next_free s v),
          slot_kept s.host_self_name host v.host_slot,
          slot_kept s.thread_self_name thread v.thread_slot,
          slot_kept s.bootstrap_name bootstrap v.bootstrap_slot,
          kind,
        )
        refl

  returned :
      at_end s.next_synthetic_name ≡ false
      → give_back s.next_synthetic_name
          (record s { next_synthetic_name = s.next_synthetic_name + synthetic_name_stride })
        ≡ s
  unfolding give_back
  returned room = ground arith

  undone :
      (port : GuestPort)
      → at_end s.next_synthetic_name ≡ false
      → has_type clock port ≡ false
      → rollback_last_allocation (with_port s port) s.next_synthetic_name ≡ s
  unfolding rollback_last_allocation
  undone port room kind =
      opened ∙ ap (give_back s.next_synthetic_name) (removed port kind) ∙ returned room
    where
      distinct : (s.next_synthetic_name == task_self_name) ≡ false
      distinct = ground (arith, v.next_low)

      opened :
          rollback_last_allocation (with_port s port) s.next_synthetic_name
          ≡ give_back s.next_synthetic_name (
              remove_port
                (with_port s port)
                s.next_synthetic_name
                (record port { name = s.next_synthetic_name }))
      opened = rw (rollback_last_allocation, found port, distinct) refl

  -- A receive right that was just allocated is rolled back without a trace: in a well-formed name
  -- space, if the allocation for a port that is no clock gives out a name, the rollback of that
  -- name gives back the whole name space as it was, the next name to give out included.
  pub rollback-allocate_receive_right :
      (attributes : GuestPort) (name : ℕ) (s' : GuestPortSpace)
      → has_type clock attributes ≡ false
      → allocate_receive_right s attributes ≡ (some name, s')
      → rollback_last_allocation s' name ≡ s
  unfolding allocate_receive_right allocated
  rollback-allocate_receive_right attributes name s' kind call =
      given (at_end s.next_synthetic_name) refl
        (sym (allocate_port-allocated s port (next_free s v)) ∙ call)
    where
      port : GuestPort
      port = record attributes { has_receive_right = true }

      given :
          (b : Bool)
          → at_end s.next_synthetic_name ≡ b
          → allocated s port b ≡ (some name, s')
          → rollback_last_allocation s' name ≡ s
      given true full e = ground arith
      given false room e =
          let same_name : s.next_synthetic_name ≡ name = some-injective _ _ (ap (λ r. r.0) e) in
          let same_space : with_port s port ≡ s' = ap (λ r. r.1) e in
          rw⁻¹ (same_name, same_space) (undone port room kind)

  -- The port that the host slot names.
  host_kind :
      (port : GuestPort) (name : ℕ)
      → s.host_self_name ≡ some name
      → lookup name s.ports ≡ some port
      → has_type host port ≡ true
  host_kind port name slot live = go v.host_slot
    where
      go : IsSlot s.ports s.host_self_name host → has_type host port ≡ true
      go (inl e) = ground (arith, slot)
      go (inr (n, p, e, far, live', kind, plain)) =
          let here : n ≡ name = some-injective _ _ (sym e ∙ slot) in
          let same : p ≡ port =
            some-injective _ _ (sym live' ∙ ap (λ k. lookup k s.ports) here ∙ live) in
          rw (sym (ap (λ (q : GuestPort). q.type) same) ∙ kind) refl

  module _ (port : GuestPort) (maximum_urefs name : ℕ) (slot : s.host_self_name ≡ some name)
      (live : lookup name s.ports ≡ some port) (positive : 0 < port.send_urefs)
      (room : port.send_urefs < maximum_urefs) (fits : maximum_urefs ≤ u32_max) where
    more : GuestPort
    more = record port { send_urefs = port.send_urefs + 1 }

    shared : GuestPortSpace
    shared = record s { ports = update name more s.ports }

    copyout-shared : copyout_host_send_right s maximum_urefs ≡ (some name, shared)
    unfolding shared more copyout_host_send_right
    copyout-shared =
        simp
          (
            copyout_host_send_right,
            slot,
            reuse_name,
            live,
            host_kind port name slot live,
            some_left,
            not_full,
            small,
          )
          refl
      where
        some_left : (port.send_urefs == 0) ≡ false
        some_left = ground arith

        not_full : (port.send_urefs == maximum_urefs) ≡ false
        not_full = ground arith

        small : u32 (port.send_urefs + 1) ≡ port.send_urefs + 1
        small = ground arith

    deallocate-shared : deallocate_uref shared name ≡ (success, s)
    unfolding shared more deallocate_uref settle_port
    deallocate-shared =
        simp (deallocate_uref, not_special, held, some_more)
          (ap (λ (r : GuestPortSpace). (success, r)) (ap (settle_port shared name) less ∙ settled))
      where
        not_special : (name == 0 || name == u32_max) ≡ false
        not_special = ground (arith, v.names name port live, v.next_fits)

        held : lookup name shared.ports ≡ some more
        held = ground (arith, lookup-update name name more port s.ports live)

        some_more : not (port.send_urefs + 1 == 0) ≡ true
        some_more = ground arith

        less : record more { send_urefs = port.send_urefs + 1 - 1 } ≡ port
        less = ap (λ (k : ℕ). record port { send_urefs = k }) (omega arith)

        unused :
            (not (name == task_self_name)
              && not port.has_receive_right
              && port.send_urefs == 0
              && port.send_once_urefs == 0)
            ≡ false
        unused = ground arith

        settled : settle_port shared name port ≡ s
        settled = simp unused (
            ap (λ (m : List (ℕ × GuestPort)). record s { ports = m })
              (update-update name port more s.ports live))

    -- The host's send right is counted: in a well-formed name space whose host name is that of a
    -- port with send references, fewer than a maximum of 32 bits, a further copyout gives the same
    -- name, and the deallocation of one reference to it then gives the name space as it was.
    pub deallocate-copyout_host_send_right :
        ((copyout_host_send_right s maximum_urefs).0 ≡ some name)
        × (deallocate_uref (copyout_host_send_right s maximum_urefs).1 name ≡ (success, s))
    deallocate-copyout_host_send_right = rw copyout-shared (refl, deallocate-shared)

  -- The port that the host slot names has no receive right, and is not the task's.
  host_plain :
      (port : GuestPort) (name : ℕ)
      → s.host_self_name ≡ some name
      → lookup name s.ports ≡ some port
      → (name ≢ task_self_name) × (port.has_receive_right ≡ false)
  host_plain port name slot live = go v.host_slot
    where
      go :
          IsSlot s.ports s.host_self_name host
          → (name ≢ task_self_name) × (port.has_receive_right ≡ false)
      go (inl e) = ground (arith, slot)
      go (inr (n, p, e, far, live', kind, plain)) =
          let here : n ≡ name = some-injective _ _ (sym e ∙ slot) in
          let same : p ≡ port =
            some-injective _ _ (sym live' ∙ ap (λ k. lookup k s.ports) here ∙ live) in
          (
            (λ (q : name ≡ task_self_name). far (here ∙ q)),
            sym (ap (λ (k : GuestPort). k.has_receive_right) same) ∙ plain,
          )

  -- The last reference to the host frees its name: in a well-formed name space whose host name is that
  -- of a port with one send reference and no send-once reference, the deallocation of the name succeeds,
  -- removes that port and no other, and forgets the host name.
  pub deallocate_uref-host :
      (port : GuestPort) (name : ℕ)
      → s.host_self_name ≡ some name
      → lookup name s.ports ≡ some port
      → port.send_urefs ≡ 1
      → port.send_once_urefs ≡ 0
      → (s' : GuestPortSpace) × (deallocate_uref s name ≡ (success, s'))
        × (s'.host_self_name ≡ none)
        × ((n : ℕ) → lookup n s'.ports ≡ (if name == n then none else lookup n s.ports))
  unfolding deallocate_uref settle_port remove_port
  deallocate_uref-host port name slot live one no_once = (
    remove_port s name (record port { send_urefs = port.send_urefs - 1 }),
    simp (deallocate_uref, not_special, live, sends, last) refl,
    simp (slot, itself) refl,
    λ n. lookup-erase name n s.ports,
  )
    where
      not_special : (name == 0 || name == u32_max) ≡ false
      not_special = ground (arith, v.names name port live, v.next_fits)

      itself : (name == name) ≡ true
      itself = ground arith

      sends : not (port.send_urefs == 0) ≡ true
      sends = ground arith

      last :
          (not (name == task_self_name)
            && not port.has_receive_right
            && port.send_urefs - 1 == 0
            && port.send_once_urefs == 0)
          ≡ true
      last = ground (arith, host_plain port name slot live)
