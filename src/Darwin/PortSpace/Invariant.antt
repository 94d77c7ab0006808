-- ===== src/Darwin/PortSpace/Invariant.antt =====
-- The well-formedness of a port name space, and the changes that its operations are made of.
use rosa.Prelude.{
  ℕ, ◌+◌, ◌-◌, ◌%◌, ◌≤◌, ◌<◌, ◌≡◌, refl, sym, ap, ◌∙◌, ◌≢◌, ◌⊎◌, inl, inr, false, ◌&&◌, Option,
  none, some, List, arith, leb, ◌==◌, if◌then◌else◌, Bool-cases, Option-cases, u32, u32_max,
}
use rosa.Prelude.Assoc.{lookup, emplace, update, erase, lookup-emplace, lookup-update, lookup-erase}
use rosa.Darwin.PortSpace.{
  GuestPortType, host, thread, bootstrap, clock, GuestPort, new_port, task_self_name,
  GuestPortSpace, initial_space, at_end, reset_if, forget_clock, synthetic_name_stride, remove_port,
  give_back,
}

-- A remembered name is that of a live port of its type, which is no receive right.
abbrev pub IsSlot : List (ℕ × GuestPort) → Option ℕ → GuestPortType → Type 0
IsSlot ports slot t =
    (slot ≡ none)
    ⊎ ((n : ℕ) × (p : GuestPort) × (slot ≡ some n)
        × (n ≢ task_self_name)
        × (lookup n ports ≡ some p)
        × (p.type ≡ t)
        × (p.has_receive_right ≡ false))

-- A clock's name is that of a live clock port with that clock's number.
abbrev pub IsClock : List (ℕ × GuestPort) → ℕ → ℕ → Type 0
IsClock ports c n =
    (c ≤ u32_max)
    × ((p : GuestPort) × (lookup n ports ≡ some p)
        × (n ≢ task_self_name)
        × (p.type ≡ clock)
        × (p.context ≡ c))

-- A name in use: its port carries it, and it was given out in steps of 256 from 0x103.
abbrev pub IsName : ℕ → ℕ → GuestPort → Type 0
IsName next n p = (p.name ≡ n) × (task_self_name ≤ n) × (n < next) × (n % 256 ≡ 3)

pub record IsValid (s : GuestPortSpace) : Type 0 where
  pub names : (n : ℕ) (p : GuestPort) → lookup n s.ports ≡ some p → IsName s.next_synthetic_name n p
  pub next_low : 0x203 ≤ s.next_synthetic_name
  pub next_aligned : s.next_synthetic_name % 256 ≡ 3
  pub next_fits : s.next_synthetic_name ≤ u32_max
  pub task : (p : GuestPort) × (lookup task_self_name s.ports ≡ some p)
  pub host_slot : IsSlot s.ports s.host_self_name host
  pub thread_slot : IsSlot s.ports s.thread_self_name thread
  pub bootstrap_slot : IsSlot s.ports s.bootstrap_name bootstrap
  pub clocks : (c n : ℕ) → lookup c s.clock_service_names ≡ some n → IsClock s.ports c n

pub initial_space-IsValid : IsValid initial_space
unfolding lookup
initial_space-IsValid = record {
  names = λ n p h. ground arith;
  next_low = omega arith;
  next_aligned = refl;
  next_fits = omega arith;
  task = (record new_port { name = task_self_name }, refl);
  host_slot = inl refl;
  thread_slot = inl refl;
  bootstrap_slot = inl refl;
  clocks = λ c n h. absurd (cc);
}

-- A table that keeps every port but one, `name`, keeps the slots that do not hold it.
abbrev pub Keeps : ℕ → List (ℕ × GuestPort) → List (ℕ × GuestPort) → Type 0
Keeps name before after = (n : ℕ) → n ≢ name → lookup n after ≡ lookup n before

slot_kept :
    (before after : List (ℕ × GuestPort)) (slot : Option ℕ) (t : GuestPortType)
    → ((n : ℕ) (p : GuestPort)
        → lookup n before ≡ some p
        → (q : GuestPort) × (lookup n after ≡ some q)
          × (q.type ≡ p.type)
          × (q.has_receive_right ≡ p.has_receive_right))
    → IsSlot before slot t
    → IsSlot after slot t
slot_kept before after slot t keep (inl e) = inl e
slot_kept before after slot t keep (inr (n, p, e, other, live, kind, sends)) =
    let (q, live', kind', sends') = keep n p live in
    inr (n, q, e, other, live', kind' ∙ kind, sends' ∙ sends)

IsClock-kept :
    (before after : List (ℕ × GuestPort)) (c n : ℕ)
    → ((n : ℕ) (p : GuestPort)
        → lookup n before ≡ some p
        → (q : GuestPort) × (lookup n after ≡ some q) × (q.type ≡ p.type) × (q.context ≡ p.context))
    → IsClock before c n
    → IsClock after c n
IsClock-kept before after c n keep (small, (p, live, other, kind, number)) =
    let (q, live', kind', number') = keep n p live in
    (small, (q, live', other, kind' ∙ kind, number' ∙ number))

module _ (s : GuestPortSpace) (v : IsValid s) where
  -- The next name is never in use.
  pub next_free : lookup s.next_synthetic_name s.ports ≡ none
  next_free = elim (Option-cases (lookup s.next_synthetic_name s.ports)) [
    | inl e ↦ e
    | inr (p, e) ↦ absurd (omega (arith, (v.names s.next_synthetic_name p e).2))
  ]

  -- A new port under the next name.
  pub allocated-IsValid :
      (attributes : GuestPort)
      → at_end s.next_synthetic_name ≡ false
      → IsValid (record s {
        ports =
            emplace s.next_synthetic_name
              (record attributes { name = s.next_synthetic_name })
              s.ports;
        next_synthetic_name = s.next_synthetic_name + 256;
      })
  allocated-IsValid attributes room = record {
    names = names';
    next_low = omega (arith, v.next_low);
    next_aligned = omega (arith, v.next_aligned);
    next_fits = ground arith;
    task = (v.task.0, kept task_self_name v.task.0 v.task.1);
    host_slot = slot_kept s.ports _ s.host_self_name host keep v.host_slot;
    thread_slot = slot_kept s.ports _ s.thread_self_name thread keep v.thread_slot;
    bootstrap_slot = slot_kept s.ports _ s.bootstrap_name bootstrap keep v.bootstrap_slot;
    clocks = λ c n h. IsClock-kept s.ports _ c n keep' (v.clocks c n h);
  }
    where
      port : GuestPort
      port = record attributes { name = s.next_synthetic_name }

      after : List (ℕ × GuestPort)
      after = emplace s.next_synthetic_name port s.ports

      kept : (n : ℕ) (p : GuestPort) → lookup n s.ports ≡ some p → lookup n after ≡ some p
      kept n p live =
          ground (arith, lookup-emplace s.next_synthetic_name n port s.ports next_free, next_free)

      keep :
          (n : ℕ) (p : GuestPort)
          → lookup n s.ports ≡ some p
          → (q : GuestPort) × (lookup n after ≡ some q)
            × (q.type ≡ p.type)
            × (q.has_receive_right ≡ p.has_receive_right)
      keep n p live = (p, kept n p live, refl, refl)

      keep' :
          (n : ℕ) (p : GuestPort)
          → lookup n s.ports ≡ some p
          → (q : GuestPort) × (lookup n after ≡ some q)
            × (q.type ≡ p.type)
            × (q.context ≡ p.context)
      keep' n p live = (p, kept n p live, refl, refl)

      names' :
          (n : ℕ) (p : GuestPort)
          → lookup n after ≡ some p
          → IsName (s.next_synthetic_name + 256) n p
      names' n p live =
          let found : lookup n after
              ≡ (if s.next_synthetic_name == n then some port else lookup n s.ports) =
            lookup-emplace s.next_synthetic_name n port s.ports next_free in
          elim (Bool-cases (s.next_synthetic_name == n)) [
            | inl e ↦ ground (arith, found, v.next_low, v.next_aligned)
            | inr e ↦
                let old : lookup n s.ports ≡ some p = ground (arith, found) in
                let (a, b, c, d) = v.names n p old in (a, b, omega arith, d)
          ]

  -- A port whose counts change.
  pub updated-IsValid :
      (name : ℕ) (port port' : GuestPort)
      → lookup name s.ports ≡ some port
      → port'.name ≡ port.name
      → port'.type ≡ port.type
      → port'.has_receive_right ≡ port.has_receive_right
      → port'.context ≡ port.context
      → IsValid (record s { ports = update name port' s.ports })
  updated-IsValid name port port' live named kind receives number = record {
    names = names';
    next_low = v.next_low;
    next_aligned = v.next_aligned;
    next_fits = v.next_fits;
    task = task';
    host_slot = slot_kept s.ports _ s.host_self_name host keep v.host_slot;
    thread_slot = slot_kept s.ports _ s.thread_self_name thread keep v.thread_slot;
    bootstrap_slot = slot_kept s.ports _ s.bootstrap_name bootstrap keep v.bootstrap_slot;
    clocks = λ c n h. IsClock-kept s.ports _ c n keep' (v.clocks c n h);
  }
    where
      after : List (ℕ × GuestPort)
      after = update name port' s.ports

      found : (n : ℕ) → lookup n after ≡ (if name == n then some port' else lookup n s.ports)
      found n = lookup-update name n port' port s.ports live

      keep :
          (n : ℕ) (p : GuestPort)
          → lookup n s.ports ≡ some p
          → (q : GuestPort) × (lookup n after ≡ some q)
            × (q.type ≡ p.type)
            × (q.has_receive_right ≡ p.has_receive_right)
      keep n p old = elim (Bool-cases (name == n)) [
        | inl e ↦
            let same : port ≡ p = ground (arith, live, old) in
            (
              port',
              found n ∙ rw e refl,
              kind ∙ ap (λ (k : GuestPort). k.type) same,
              receives ∙ ap (λ (k : GuestPort). k.has_receive_right) same,
            )
        | inr e ↦ (p, (found n ∙ rw e old), refl, refl)
      ]

      keep' :
          (n : ℕ) (p : GuestPort)
          → lookup n s.ports ≡ some p
          → (q : GuestPort) × (lookup n after ≡ some q)
            × (q.type ≡ p.type)
            × (q.context ≡ p.context)
      keep' n p old = elim (Bool-cases (name == n)) [
        | inl e ↦
            let same : port ≡ p = ground (arith, live, old) in
            (
              port',
              found n ∙ rw e refl,
              kind ∙ ap (λ (k : GuestPort). k.type) same,
              number ∙ ap (λ (k : GuestPort). k.context) same,
            )
        | inr e ↦ (p, (found n ∙ rw e old), refl, refl)
      ]

      task' : (p : GuestPort) × (lookup task_self_name after ≡ some p)
      task' = let (q, live', kind', receives') = keep task_self_name v.task.0 v.task.1 in (q, live')

      names' : (n : ℕ) (p : GuestPort) → lookup n after ≡ some p → IsName s.next_synthetic_name n p
      names' n p new = elim (Bool-cases (name == n)) [
        | inl e ↦
            let (a, b, c, d) = v.names name port live in
            let same : port' ≡ p = ground (arith, found n) in
            let here : name ≡ n = ground arith in
            (
              ap (λ (k : GuestPort). k.name) (sym same) ∙ named ∙ a ∙ here,
              omega arith,
              omega arith,
              omega arith,
            )
        | inr e ↦ v.names n p (ground (arith, found n))
      ]

  pub removed-IsValid :
      (name : ℕ) (port port' : GuestPort)
      → lookup name s.ports ≡ some port
      → name ≢ task_self_name
      → port'.type ≡ port.type
      → port'.context ≡ port.context
      → IsValid (remove_port s name port')
  unfolding remove_port
  removed-IsValid name port port' live other kind number = record {
    names = λ n p h. v.names n p (survives n p h).1;
    next_low = v.next_low;
    next_aligned = v.next_aligned;
    next_fits = v.next_fits;
    task = (v.task.0, stays task_self_name v.task.0 (λ e. other (sym e)) v.task.1);
    host_slot = slot_reset s.host_self_name host v.host_slot;
    thread_slot = slot_reset s.thread_self_name thread v.thread_slot;
    bootstrap_slot = slot_reset s.bootstrap_name bootstrap v.bootstrap_slot;
    clocks = λ c n h.
        let (old, away) = remembered c n h in
        let (small, (p, live', far, kind', number')) = v.clocks c n old in
        (small, (p, stays n p away live', far, kind', number'));
  }
    where
      after : List (ℕ × GuestPort)
      after = erase name s.ports

      survives :
          (n : ℕ) (p : GuestPort)
          → lookup n after ≡ some p
          → (n ≢ name) × (lookup n s.ports ≡ some p)
      survives n p h = ground (arith, lookup-erase name n s.ports)

      stays :
          (n : ℕ) (p : GuestPort) → n ≢ name → lookup n s.ports ≡ some p → lookup n after ≡ some p
      stays n p h e = ground (arith, lookup-erase name n s.ports)

      -- A clock's name that is still remembered is not that of the removed port.
      remembered :
          (c n : ℕ)
          → lookup c (forget_clock port' s.clock_service_names) ≡ some n
          → (lookup c s.clock_service_names ≡ some n) × (n ≢ name)
      remembered c n h =
          let old : lookup c s.clock_service_names ≡ some n =
            ground (arith, lookup-erase (u32 port'.context) c s.clock_service_names) in
          (old, λ e. still c n h (v.clocks c n old) e)
        where
          still :
              (c n : ℕ)
              → lookup c (forget_clock port' s.clock_service_names) ≡ some n
              → IsClock s.ports c n
              → n ≡ name
              → ⊥
          still c n h (small, (p, live', far, kind', number')) e =
              let same : port ≡ p = ground arith in
              let is_clock : port'.type ≡ clock =
                kind ∙ ap (λ (k : GuestPort). k.type) same ∙ kind' in
              let its_number : port'.context ≡ c =
                number ∙ ap (λ (k : GuestPort). k.context) same ∙ number' in
              ground (arith, lookup-erase (u32 port'.context) c s.clock_service_names)

      slot_reset :
          (slot : Option ℕ) (t : GuestPortType)
          → IsSlot s.ports slot t
          → IsSlot after (reset_if name slot) t
      slot_reset slot t (inl e) = inl (rw e refl)
      slot_reset slot t (inr (n, p, e, far, old, a, b)) = elim (Bool-cases (n == name)) [
        | inl here ↦ inl (rw (e, here) refl)
        | inr away ↦
            inr (n, p, rw (e, away) refl, far, stays n p (λ (q : n ≡ name). ground arith) old, a, b)
      ]

  pub give_back-IsValid :
      (name : ℕ)
      → lookup name s.ports ≡ none
      → 0x203 ≤ name
      → name % 256 ≡ 3
      → IsValid (give_back name s)
  unfolding give_back
  give_back-IsValid name gone low aligned =
      elim (Bool-cases (
        leb name (u32_max - synthetic_name_stride)
        && name + synthetic_name_stride == s.next_synthetic_name)) [
          | inr e ↦ rw e v
          | inl e ↦ rw e (record {
            names = names' (ground arith);
            next_low = low;
            next_aligned = aligned;
            next_fits = ground arith;
            task = v.task;
            host_slot = v.host_slot;
            thread_slot = v.thread_slot;
            bootstrap_slot = v.bootstrap_slot;
            clocks = v.clocks;
          })
        ]
    where
      names' :
          name + synthetic_name_stride ≡ s.next_synthetic_name
          → (n : ℕ) (p : GuestPort) → lookup n s.ports ≡ some p
          → IsName name n p
      names' last n p live =
          let (a, b, c, d) = v.names n p live in
          let other : n ≢ name = λ (e : n ≡ name). cc (gone, live, e) in (a, b, omega arith, d)
