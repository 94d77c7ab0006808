-- ===== src/Darwin/PortSpace/Operations.antt =====
-- The operations of the name space, each from a well-formed space.
use rosa.Prelude.{
  ℕ, ◌≤◌, ◌≡◌, refl, ◌≢◌, inl, inr, Bool, true, false, not, ◌&&◌, ◌||◌, Option, none, some, List,
  arith, ◌==◌, Bool-cases, Option-cases, u32_max,
}
use rosa.Prelude.Assoc.{lookup, emplace, lookup-emplace, lookup-erase}
use rosa.Darwin.PortSpace.{
  GuestPort, task_self_name, GuestPortSpace, at_end, allocate_port, remove_port,
  rollback_last_allocation, has_type, reuse_name, copyout_host_send_right,
  copyout_thread_send_right, copyout_bootstrap_send_right, copyout_clock_send_right, register_clock,
  settle_port, deallocate_uref, new_port, host, thread, bootstrap, clock,
}
use rosa.Darwin.PortSpace.Invariant.{
  IsValid, IsSlot, IsClock, next_free, allocated-IsValid, updated-IsValid, removed-IsValid,
  give_back-IsValid,
}
use rosa.Darwin.PortSpace.Allocation.{
  with_port, allocated, allocate_port-allocated, allocate_port-IsValid,
}

module _ (s : GuestPortSpace) (v : IsValid s) where
  pub reuse_name-IsValid :
      (name : ℕ) (expected : GuestPort → Bool) (maximum_urefs : ℕ)
      → IsValid (reuse_name s name expected maximum_urefs).1
  unfolding reuse_name
  reuse_name-IsValid name expected maximum_urefs = elim (Option-cases (lookup name s.ports)) [
    | inl e ↦ rw (reuse_name, e) v
    | inr (port, e) ↦ elim (Bool-cases (not (expected port) || port.send_urefs == 0)) [
      | inl bad ↦ rw (reuse_name, e, bad) v
      | inr good ↦ elim (Bool-cases (port.send_urefs == maximum_urefs)) [
        | inl full ↦ rw (reuse_name, e, good, full) v
        | inr room ↦
            rw (reuse_name, e, good, room) (updated-IsValid s v name port _ e refl refl refl refl)
      ]
    ]
  ]

  settle_port-IsValid :
      (name : ℕ) (port port' : GuestPort)
      → lookup name s.ports ≡ some port
      → port'.name ≡ port.name
      → port'.type ≡ port.type
      → port'.has_receive_right ≡ port.has_receive_right
      → port'.context ≡ port.context
      → IsValid (settle_port s name port')
  unfolding settle_port
  settle_port-IsValid name port port' live named kind receives number =
      elim (Bool-cases (
        not (name == task_self_name)
        && not port'.has_receive_right
        && port'.send_urefs == 0
        && port'.send_once_urefs == 0)) [
          | inl e ↦ rw e (removed-IsValid s v name port port' live (ground arith) kind number)
          | inr e ↦ rw e (updated-IsValid s v name port port' live named kind receives number)
        ]

  pub deallocate_uref-IsValid : (name : ℕ) → IsValid (deallocate_uref s name).1
  unfolding deallocate_uref
  deallocate_uref-IsValid name = elim (Bool-cases (name == 0 || name == u32_max)) [
    | inl e ↦ rw e v
    | inr e ↦ elim (Option-cases (lookup name s.ports)) [
      | inl gone ↦ rw (e, gone) v
      | inr (port, live) ↦ elim (Bool-cases (not (port.send_urefs == 0))) [
        | inl sends ↦ rw (e, live, sends) (settle_port-IsValid name port _ live refl refl refl refl)
        | inr none_left ↦ elim (Bool-cases (not (port.send_once_urefs == 0))) [
          | inl once ↦
              rw (e, live, none_left, once)
                (settle_port-IsValid name port _ live refl refl refl refl)
          | inr nothing ↦ rw (e, live, none_left, nothing) v
        ]
      ]
    ]
  ]

  pub rollback_last_allocation-IsValid : (name : ℕ) → IsValid (rollback_last_allocation s name)
  unfolding rollback_last_allocation
  rollback_last_allocation-IsValid name = elim (Option-cases (lookup name s.ports)) [
    | inl e ↦ rw (rollback_last_allocation, e) v
    | inr (port, live) ↦ elim (Bool-cases (name == task_self_name)) [
      | inl self ↦ rw (rollback_last_allocation, live, self) v
      | inr other ↦
          let far : name ≢ task_self_name = ground arith in
          let (a, b, c, d) = v.names name port live in
          rw (rollback_last_allocation, live, other)
            (give_back-IsValid (remove_port s name port)
              (removed-IsValid s v name port port live far refl refl) name
              (unfold remove_port in ground (arith, lookup-erase name name s.ports)) (omega arith)
              d)
    ]
  ]

module _ (s : GuestPortSpace) (v : IsValid s) where
  host_set-IsValid :
      (slot : Option ℕ) → IsSlot s.ports slot host → IsValid (record s { host_self_name = slot })
  host_set-IsValid slot h = record {
    names = v.names;
    next_low = v.next_low;
    next_aligned = v.next_aligned;
    next_fits = v.next_fits;
    task = v.task;
    host_slot = h;
    thread_slot = v.thread_slot;
    bootstrap_slot = v.bootstrap_slot;
    clocks = v.clocks;
  }

  thread_set-IsValid :
      (slot : Option ℕ)
      → IsSlot s.ports slot thread
      → IsValid (record s { thread_self_name = slot })
  thread_set-IsValid slot h = record {
    names = v.names;
    next_low = v.next_low;
    next_aligned = v.next_aligned;
    next_fits = v.next_fits;
    task = v.task;
    host_slot = v.host_slot;
    thread_slot = h;
    bootstrap_slot = v.bootstrap_slot;
    clocks = v.clocks;
  }

  bootstrap_set-IsValid :
      (slot : Option ℕ)
      → IsSlot s.ports slot bootstrap
      → IsValid (record s { bootstrap_name = slot })
  bootstrap_set-IsValid slot h = record {
    names = v.names;
    next_low = v.next_low;
    next_aligned = v.next_aligned;
    next_fits = v.next_fits;
    task = v.task;
    host_slot = v.host_slot;
    thread_slot = v.thread_slot;
    bootstrap_slot = h;
    clocks = v.clocks;
  }

  clocks_set-IsValid :
      (names : List (ℕ × ℕ))
      → ((c n : ℕ) → lookup c names ≡ some n → IsClock s.ports c n)
      → IsValid (record s { clock_service_names = names })
  clocks_set-IsValid names h = record {
    names = v.names;
    next_low = v.next_low;
    next_aligned = v.next_aligned;
    next_fits = v.next_fits;
    task = v.task;
    host_slot = v.host_slot;
    thread_slot = v.thread_slot;
    bootstrap_slot = v.bootstrap_slot;
    clocks = h;
  }

module _ (s : GuestPortSpace) (v : IsValid s) where
  allocated-IsSlot :
      (port : GuestPort) (b : Bool)
      → at_end s.next_synthetic_name ≡ b
      → port.has_receive_right ≡ false
      → IsSlot (allocated s port b).1.ports (allocated s port b).0 port.type
  unfolding allocated
  allocated-IsSlot port true full plain = inl refl
  allocated-IsSlot port false room plain = inr (
    s.next_synthetic_name,
    record port { name = s.next_synthetic_name },
    refl,
    (λ e. absurd (omega (arith, v.next_low))),
    ground (
      arith,
      lookup-emplace s.next_synthetic_name s.next_synthetic_name
          (record port { name = s.next_synthetic_name }) s.ports (next_free s v),
    ),
    refl,
    plain,
  )

  fresh-IsSlot :
      (port : GuestPort)
      → port.has_receive_right ≡ false
      → IsSlot (allocate_port s port).1.ports (allocate_port s port).0 port.type
  fresh-IsSlot port plain =
      rw (allocate_port-allocated s port (next_free s v))
        (allocated-IsSlot port (at_end s.next_synthetic_name) refl plain)

  pub host_right-IsValid : (maximum_urefs : ℕ) → IsValid (copyout_host_send_right s maximum_urefs).1
  unfolding copyout_host_send_right
  host_right-IsValid maximum_urefs = go s.host_self_name
    where
      port : GuestPort
      port = record new_port { type = host; send_urefs = 1 }

      go :
          (slot : Option ℕ)
          → IsValid
              (elim slot as (λ _. Option ℕ × GuestPortSpace) [
                | some name ↦ reuse_name s name (has_type host) maximum_urefs
                | none ↦ (
                  (allocate_port s port).0,
                  record (allocate_port s port).1 { host_self_name = (allocate_port s port).0 },
                )
              ]).1
      go (some name) = reuse_name-IsValid s v name (has_type host) maximum_urefs
      go none = host_set-IsValid _ (allocate_port-IsValid s port v) _ (fresh-IsSlot port refl)

  pub thread_right-IsValid :
      (maximum_urefs : ℕ) → IsValid (copyout_thread_send_right s maximum_urefs).1
  unfolding copyout_thread_send_right
  thread_right-IsValid maximum_urefs = go s.thread_self_name
    where
      port : GuestPort
      port = record new_port { type = thread; send_urefs = 1 }

      go :
          (slot : Option ℕ)
          → IsValid
              (elim slot as (λ _. Option ℕ × GuestPortSpace) [
                | some name ↦ reuse_name s name (has_type thread) maximum_urefs
                | none ↦ (
                  (allocate_port s port).0,
                  record (allocate_port s port).1 { thread_self_name = (allocate_port s port).0 },
                )
              ]).1
      go (some name) = reuse_name-IsValid s v name (has_type thread) maximum_urefs
      go none = thread_set-IsValid _ (allocate_port-IsValid s port v) _ (fresh-IsSlot port refl)

  pub bootstrap_right-IsValid :
      (maximum_urefs : ℕ) → IsValid (copyout_bootstrap_send_right s maximum_urefs).1
  unfolding copyout_bootstrap_send_right
  bootstrap_right-IsValid maximum_urefs = go s.bootstrap_name
    where
      port : GuestPort
      port = record new_port { type = bootstrap; send_urefs = 1 }

      go :
          (slot : Option ℕ)
          → IsValid
              (elim slot as (λ _. Option ℕ × GuestPortSpace) [
                | some name ↦ reuse_name s name (has_type bootstrap) maximum_urefs
                | none ↦ (
                  (allocate_port s port).0,
                  record (allocate_port s port).1 { bootstrap_name = (allocate_port s port).0 },
                )
              ]).1
      go (some name) = reuse_name-IsValid s v name (has_type bootstrap) maximum_urefs
      go none = bootstrap_set-IsValid _ (allocate_port-IsValid s port v) _ (fresh-IsSlot port refl)

  clock_port : ℕ → GuestPort
  clock_port clock_id = record new_port { type = clock; context = clock_id; send_urefs = 1 }

  registered-IsValid :
      (clock_id : ℕ) (b : Bool)
      → clock_id ≤ u32_max
      → lookup clock_id s.clock_service_names ≡ none
      → at_end s.next_synthetic_name ≡ b
      → IsValid (register_clock clock_id (allocated s (clock_port clock_id) b)).1
  unfolding allocated clock_port
  registered-IsValid clock_id true small new e = v
  registered-IsValid clock_id false small new e =
      let valid = allocated-IsValid s v (clock_port clock_id) e in
      clocks_set-IsValid _ valid _ (clocks' valid)
    where
      clocks' :
          IsValid (with_port s (clock_port clock_id))
          → (c n : ℕ)
          → lookup c (emplace clock_id s.next_synthetic_name s.clock_service_names) ≡ some n
          → IsClock (with_port s (clock_port clock_id)).ports c n
      clocks' valid c n h =
          let found = lookup-emplace clock_id c s.next_synthetic_name s.clock_service_names new in
          elim (Bool-cases (clock_id == c)) [
            | inl e' ↦
                let here : s.next_synthetic_name ≡ n = ground (arith, found) in
                let same : clock_id ≡ c = ground arith in
                (
                  omega arith,
                  (
                    record (clock_port clock_id) { name = s.next_synthetic_name },
                    ground (
                      arith,
                      lookup-emplace s.next_synthetic_name n
                          (record (clock_port clock_id) { name = s.next_synthetic_name }) s.ports
                          (next_free s v),
                    ),
                    (λ q. absurd (omega (arith, v.next_low))),
                    refl,
                    same,
                  ),
                )
            | inr e' ↦ valid.clocks c n (ground (arith, found))
          ]

  pub clock_right-IsValid :
      (clock_id maximum_urefs : ℕ)
      → clock_id ≤ u32_max
      → IsValid (copyout_clock_send_right s clock_id maximum_urefs).1
  unfolding copyout_clock_send_right clock_port
  clock_right-IsValid clock_id maximum_urefs small = go (lookup clock_id s.clock_service_names) refl
    where
      go :
          (found : Option ℕ)
          → lookup clock_id s.clock_service_names ≡ found
          → IsValid
              (elim found as (λ _. Option ℕ × GuestPortSpace) [
                | some name ↦
                    reuse_name s name
                      (λ port. has_type clock port && port.context == clock_id)
                      maximum_urefs
                | none ↦ register_clock clock_id (allocate_port s (clock_port clock_id))
              ]).1
      go (some name) e =
          reuse_name-IsValid s v name (λ port. has_type clock port && port.context == clock_id)
            maximum_urefs
      go none e =
          rw (allocate_port-allocated s (clock_port clock_id) (next_free s v))
            (registered-IsValid clock_id (at_end s.next_synthetic_name) small e refl)
