-- ===== src/Darwin/PortTraps/Same.antt =====
-- What the port traps of src/darwin/Mach.cpp do to the host's name and its port once the port has no
-- references.
use rosa.Prelude.{
  ℕ, ◌-◌, ◌≡◌, refl, sym, ap, ◌∙◌, ◌≢◌, inl, inr, Bool, true, false, not, ◌&&◌, Option, none, some,
  arith, ltb, leb, ◌==◌, ◌||◌, Bool-cases, Option-cases, u32, u32_max, subst,
}
use mathlib.Core.Option.{some-injective}
use rosa.Prelude.Assoc.{lookup, update, lookup-update, lookup-erase, lookup-emplace}
use rosa.Darwin.PortSpace.{
  GuestPort, GuestPortSpace, task_self_name, deallocate_uref, settle_port, remove_port, reuse_name,
  allocate_port, at_end, copyout_thread_send_right, copyout_host_send_right, allocate_receive_right,
  new_port, reply, host, thread, has_type,
}
use rosa.Darwin.PortSpace.Invariant.{IsValid, next_free}
use rosa.Darwin.PortSpace.Allocation.{allocated, with_port, allocate_port-allocated}
use rosa.Darwin.PortTraps.{
  port_deallocate, port_mod_refs, reply_port, thread_self_trap, task_self_trap, host_self_trap,
  add_delta, set_urefs, mach_port_urefs_maximum, mach_port_right_count, mach_port_right_send,
  mach_port_qlimit_default, name_or_null,
}
use rosa.Darwin.PortTraps.Wellformed.{
  Trap, deallocates, modifies, replies, thread_self, task_self, host_self,
}

-- The host's name is that of a port without references.
pub record Stuck (name : ℕ) (s : GuestPortSpace) : Type 0 where
  pub port : GuestPort
  pub slot : s.host_self_name ≡ some name
  pub live : lookup name s.ports ≡ some port
  pub no_urefs : port.send_urefs ≡ 0
  pub no_once : port.send_once_urefs ≡ 0

-- The host's name and its port are the same.
pub record Same (name : ℕ) (s t : GuestPortSpace) : Type 0 where
  pub slot : t.host_self_name ≡ s.host_self_name
  pub port : lookup name t.ports ≡ lookup name s.ports

pub Same-Stuck : (name : ℕ) (s t : GuestPortSpace) → Same name s t → Stuck name s → Stuck name t
Same-Stuck name s t same k = record {
  port = k.port;
  slot = same.slot ∙ k.slot;
  live = same.port ∙ k.live;
  no_urefs = k.no_urefs;
  no_once = k.no_once;
}

module _ (name : ℕ) (s : GuestPortSpace) (k : Stuck name s) where
  unchanged : Same name s s
  unchanged = record { slot = refl; port = refl }

  -- Another port changes.
  updated-Same :
      (n : ℕ) (p q : GuestPort)
      → lookup n s.ports ≡ some q
      → n ≢ name
      → Same name s (record s { ports = update n p s.ports })
  updated-Same n p q live apart = record {
    slot = refl;
    port = ground (arith, lookup-update n name p q s.ports live, apart);
  }

  removed-Same : (n : ℕ) (p : GuestPort) → n ≢ name → Same name s (remove_port s n p)
  unfolding remove_port
  removed-Same n p apart = record {
    slot = ground (arith, k.slot, apart);
    port = ground (arith, lookup-erase n name s.ports, apart);
  }

  settled-Same :
      (n : ℕ) (p q : GuestPort)
      → lookup n s.ports ≡ some q
      → n ≢ name
      → Same name s (settle_port s n p)
  unfolding settle_port
  settled-Same n p q live apart =
      elim (Bool-cases (
        not (n == task_self_name)
        && not p.has_receive_right
        && p.send_urefs == 0
        && p.send_once_urefs == 0)) [
          | inl e ↦ rw (e, settle_port) (removed-Same n p apart)
          | inr e ↦ rw (e, settle_port) (updated-Same n p q live apart)
        ]

  -- A port under the host's name has no references.
  bare :
      (n : ℕ) (q : GuestPort)
      → lookup n s.ports ≡ some q
      → (n == name) ≡ true
      → ((q.send_urefs == 0) ≡ true) × ((q.send_once_urefs == 0) ≡ true)
  bare n q live e =
      let here : n ≡ name = ground arith in
      let same : k.port ≡ q = cc (k.live, live, here) in
      let urefs : q.send_urefs ≡ 0 = sym (ap (λ (p : GuestPort). p.send_urefs) same) ∙ k.no_urefs in
      let once : q.send_once_urefs ≡ 0 =
        sym (ap (λ (p : GuestPort). p.send_once_urefs) same) ∙ k.no_once in
      (ground arith, ground arith)

  apart : (n : ℕ) → (n == name) ≡ false → n ≢ name
  apart n e same = absurd (ground arith)

  deallocate_uref-Same : (n : ℕ) → Same name s (deallocate_uref s n).1
  unfolding deallocate_uref
  deallocate_uref-Same n = elim (Bool-cases (n == 0 || n == u32_max)) [
    | inl e ↦ rw (e, deallocate_uref) unchanged
    | inr e ↦ elim (Option-cases (lookup n s.ports)) [
      | inl gone ↦ rw (e, gone, deallocate_uref) unchanged
      | inr (q, live) ↦ elim (Bool-cases (n == name)) [
        | inl here ↦
            let (urefs, once) = bare n q live here in
            rw (e, live, urefs, once, deallocate_uref) unchanged
        | inr away ↦ elim (Bool-cases (q.send_urefs == 0)) [
          | inr more ↦ rw (e, live, more, deallocate_uref) (settled-Same n _ q live (apart n away))
          | inl urefs ↦ elim (Bool-cases (q.send_once_urefs == 0)) [
            | inl once ↦ rw (e, live, urefs, once, deallocate_uref) unchanged
            | inr more ↦
                let is : (deallocate_uref s n).1
                    ≡ settle_port s n (record q { send_once_urefs = q.send_once_urefs - 1 }) =
                  rw (e, live, urefs, more, deallocate_uref) refl in
                subst (Same name s) (sym is) (settled-Same n _ q live (apart n away))
          ]
        ]
      ]
    ]
  ]

  with_port-Same : (v : IsValid s) (p : GuestPort) → Same name s (with_port s p)
  with_port-Same v p = record {
    slot = refl;
    port = ground (
      arith,
      lookup-emplace s.next_synthetic_name name (record p { name = s.next_synthetic_name }) s.ports
          (next_free s v),
      next_free s v,
      k.live,
    );
  }

  allocated-Same : (v : IsValid s) (p : GuestPort) (b : Bool) → Same name s (allocated s p b).1
  unfolding allocated
  allocated-Same v p true = unchanged
  allocated-Same v p false = with_port-Same v p

  allocate_port-Same : (v : IsValid s) (p : GuestPort) → Same name s (allocate_port s p).1
  allocate_port-Same v p =
      rw (allocate_port-allocated s p (next_free s v))
        (allocated-Same v p (at_end s.next_synthetic_name))

  reuse_name-Same :
      (n : ℕ) (expected : GuestPort → Bool) (most : ℕ)
      → Same name s (reuse_name s n expected most).1
  unfolding reuse_name
  reuse_name-Same n expected most = elim (Option-cases (lookup n s.ports)) [
    | inl gone ↦ rw (gone, reuse_name) unchanged
    | inr (q, live) ↦ elim (Bool-cases (not (expected q) || q.send_urefs == 0)) [
      | inl e ↦ rw (live, e, reuse_name) unchanged
      | inr e ↦ elim (Bool-cases (q.send_urefs == most)) [
        | inl full ↦ rw (live, e, full, reuse_name) unchanged
        | inr room ↦
            rw (live, e, room, reuse_name)
              (updated-Same n _ q live (λ same. absurd (
                let here : (n == name) ≡ true = ground arith in
                let (urefs, once) = bare n q live here in ground (arith, e, urefs))))
      ]
    ]
  ]

  set_urefs-Same :
      (n : ℕ) (q : GuestPort) (sum : Option ℕ)
      → lookup n s.ports ≡ some q
      → n ≢ name
      → Same name s (set_urefs s n q sum).1
  unfolding set_urefs
  set_urefs-Same n q none live away = unchanged
  set_urefs-Same n q (some updated) live away =
      elim (Bool-cases (ltb mach_port_urefs_maximum updated)) [
        | inl e ↦ rw e unchanged
        | inr e ↦ rw e (updated-Same n _ q live away)
      ]

  mod_refs-Same : (rdi rsi rdx r10 : ℕ) → Same name s (port_mod_refs s rdi rsi rdx r10).1
  unfolding port_mod_refs
  mod_refs-Same rdi rsi rdx r10 = elim (Bool-cases (rdi == task_self_name)) [
    | inr e ↦ rw (port_mod_refs, e) unchanged
    | inl e ↦ elim (Bool-cases (leb mach_port_right_count (u32 rdx))) [
      | inl many ↦ rw (port_mod_refs, e, many) unchanged
      | inr few ↦ elim (Option-cases (lookup (u32 rsi) s.ports)) [
        | inl gone ↦ rw (port_mod_refs, e, few, gone) unchanged
        | inr (q, live) ↦ elim (Bool-cases (u32 rsi == name)) [
          | inl here ↦
              let (urefs, once) = bare (u32 rsi) q live here in
              rw (port_mod_refs, e, few, live, urefs) unchanged
          | inr away ↦ elim (Bool-cases (q.send_urefs == 0)) [
            | inl none_left ↦ rw (port_mod_refs, e, few, live, none_left) unchanged
            | inr more ↦ elim (Bool-cases (u32 rdx == mach_port_right_send)) [
              | inl right ↦
                  rw (port_mod_refs, e, few, live, more, right)
                    (set_urefs-Same (u32 rsi) q (add_delta q.send_urefs (u32 r10)) live
                      (apart (u32 rsi) away))
              | inr wrong ↦ rw (port_mod_refs, e, few, live, more, wrong) unchanged
            ]
          ]
        ]
      ]
    ]
  ]

  -- copyoutThreadSendRight and copyoutHostSendRight, by the name that is remembered.
  abbrev thread_right : Option ℕ → Option ℕ × GuestPortSpace
  thread_right slot = elim slot [
    | some n ↦ reuse_name s n (has_type thread) mach_port_urefs_maximum
    | none ↦
        let (n, s') = allocate_port s (record new_port { type = thread; send_urefs = 1 }) in
        (n, record s' { thread_self_name = n })
  ]

  abbrev host_right : Option ℕ → Option ℕ × GuestPortSpace
  host_right slot = elim slot [
    | some n ↦ reuse_name s n (has_type host) mach_port_urefs_maximum
    | none ↦
        let (n, s') = allocate_port s (record new_port { type = host; send_urefs = 1 }) in
        (n, record s' { host_self_name = n })
  ]

  thread_right-Same : (v : IsValid s) (slot : Option ℕ) → Same name s (thread_right slot).1
  thread_right-Same v (some n) = reuse_name-Same n (has_type thread) mach_port_urefs_maximum
  thread_right-Same v none =
      let same : Same name s
          (allocate_port s (record new_port { type = thread; send_urefs = 1 })).1 =
        allocate_port-Same v (record new_port { type = thread; send_urefs = 1 }) in
      record { slot = same.slot; port = same.port }

  thread_self-Same : (v : IsValid s) → Same name s (thread_self_trap s).1
  unfolding thread_self_trap copyout_thread_send_right
  thread_self-Same v = thread_right-Same v s.thread_self_name

  -- The host's name is still remembered, but a right without references is not given out.
  refused : reuse_name s name (has_type host) mach_port_urefs_maximum ≡ (none, s)
  unfolding reuse_name
  refused =
      let bare_port : (k.port.send_urefs == 0) ≡ true = ground (arith, k.no_urefs) in
      let guard : (not (has_type host k.port) || k.port.send_urefs == 0) ≡ true =
        rw bare_port (||-true (not (has_type host k.port))) in
      rw (k.live, guard, reuse_name) refl
    where
      ||-true : (x : Bool) → (x || true) ≡ true
      ||-true true = refl
      ||-true false = refl

  pub host_self-null : host_self_trap s ≡ (0, s)
  unfolding host_self_trap copyout_host_send_right
  host_self-null = ap (λ (slot : Option ℕ). null_for (host_right slot)) k.slot ∙ ap null_for refused
    where
      null_for : Option ℕ × GuestPortSpace → ℕ × GuestPortSpace
      null_for r = (name_or_null r.0, r.1)

  task_self-Same :
      (v : IsValid s) (t : GuestPortSpace) (rax : ℕ)
      → name ≢ task_self_name
      → task_self_trap s ≡ some (rax, t)
      → Same name s t
  unfolding task_self_trap
  task_self-Same v t rax other h =
      elim (Bool-cases (v.task.0.send_urefs == mach_port_urefs_maximum)) [
        | inl full ↦
            let e = some-injective _ _ (rw (task_self_trap, v.task.1, full) at h) in
            subst (Same name s) (ap (λ (r : ℕ × GuestPortSpace). r.1) e) unchanged
        | inr room ↦
            let e = some-injective _ _ (rw (task_self_trap, v.task.1, room) at h) in
            subst (Same name s) (ap (λ (r : ℕ × GuestPortSpace). r.1) e)
              (updated-Same task_self_name _ v.task.0 v.task.1 (λ same. other (sym same)))
      ]

pub Trap-Same :
    (name : ℕ) {s t : GuestPortSpace} {rax : ℕ}
    → Trap s rax t
    → IsValid s
    → name ≢ task_self_name
    → Stuck name s
    → Same name s t
unfolding port_deallocate reply_port allocate_receive_right
Trap-Same name {s} (deallocates rdi rsi) v other k = elim (Bool-cases (rdi == task_self_name)) [
  | inl e ↦ rw (port_deallocate, e) (deallocate_uref-Same name s k (u32 rsi))
  | inr e ↦ rw (port_deallocate, e) (unchanged name s k)
]
Trap-Same name {s} (modifies rdi rsi rdx r10) v other k = mod_refs-Same name s k rdi rsi rdx r10
Trap-Same name {s} replies v other k = allocate_port-Same name s k v (record new_port {
  type = reply;
  queue_limit = mach_port_qlimit_default;
  has_receive_right = true;
})
Trap-Same name {s} thread_self v other k = thread_self-Same name s k v
Trap-Same name {s} {t} (task_self h) v other k = task_self-Same name s k v t _ other h
Trap-Same name {s} host_self v other k = rw (host_self-null name s k) (unchanged name s k)
