-- ===== src/Hooks/Kept.antt =====
-- A hooked call in the buddy schemes: what it returns, and what it keeps.
use flash_stack.Base.{
  ℕ, ◌+◌, ◌-◌, ◌%◌, ◌≤◌, ◌<◌, ◌≡◌, ◌⊎◌, inl, inr, refl, ◌∙◌, Bool, true, some, arith, Bool-cases,
  ltb, ◌==◌, if◌then◌else◌,
}
use flash_stack.Base.Steps.{pure, ◌>>=◌, ◌>>◌}
use flash_stack.Asm.{add64, sub64}
use flash_stack.Runtime.{cycles_per_randomization}
use flash_stack.Scheme.{def_ss_offset}
use flash_stack.Buddy.{Process, B, Kernel, page_size, buddy_get_tls_info, cycles_field}
use flash_stack.Buddy.Promises.{Promises}
use flash_stack.Buddy.Randomize.{au_edu_unsw_randomize}
use flash_stack.Buddy.Layout.{Pair, Buddies, lower_info, upper_info, buddy_get_tls_info_lem}
use flash_stack.Buddy.Survive.{au_edu_unsw_randomize_lem}
use flash_stack.Hooks.{
  Hook, write, puts, gets, getppid, getpid, pthread_self, epoll_wait, sendto, sendmsg, fork,
  sendfile, send, writev, read, recvfrom, recvmsg, recv, do_randomization, hooked, ahead,
  behind_call, Pointers, with_pointer, hook_number, call_hook,
}

-- From `p` to `q` the records stay in order, and every return address from the stack pointer up
-- stays, while the random value goes from `r` to `r'`.
pub record Keeps (k : Kernel) (top rsp r r' : ℕ) (p q : Process) : Type 0 where
  pub in_order : Buddies k top r' q
  pub decoded :
      (a : ℕ)
      → rsp ≤ a
      → a < top
      → a % 8 ≡ 0
      → sub64 (q.memory.word (a - def_ss_offset)) r' ≡ sub64 (p.memory.word (a - def_ss_offset)) r

Keeps-refl :
    (k : Kernel) (top rsp r : ℕ) (p : Process) → Buddies k top r p → Keeps k top rsp r r p p
Keeps-refl k top rsp r p h = record { in_order = h; decoded = λ a l u e. refl }

Keeps-trans :
    (k : Kernel) (top rsp r r' r'' : ℕ) (p q t : Process)
    → Keeps k top rsp r r' p q
    → Keeps k top rsp r' r'' q t
    → Keeps k top rsp r r'' p t
Keeps-trans k top rsp r r' r'' p q t h g = record {
  in_order = g.in_order;
  decoded = λ a l u e. g.decoded a l u e ∙ h.decoded a l u e;
}

cycles-readable :
    (k : Kernel) (top r info other : ℕ) (p : Process)
    → Buddies k top r p
    → Pair top info other
    → p.memory.readable (info + cycles_field) ≡ true
cycles-readable k top r info other p h (inl (e, e')) =
    rw e (h.lower.page_readable (lower_info top + cycles_field) (ground arith))
cycles-readable k top r info other p h (inr (e, e')) =
    rw e (h.upper.page_readable (upper_info top + cycles_field) (ground arith))

do_randomization_runs :
    (k : Kernel) (cur x rsp inner info : ℕ) (p : Process)
    → buddy_get_tls_info k rsp p ≡ some (info, p)
    → p.memory.readable (info + cycles_field) ≡ true
    → do_randomization k cur x rsp inner p
      ≡ (if ltb cycles_per_randomization (sub64 cur (p.memory.word (info + cycles_field)))
            then au_edu_unsw_randomize k info cur x inner
            else pure tt)
          p
unfolding do_randomization
do_randomization_runs k cur x rsp inner info p e h = rw (◌>>=◌, e, h)

do_randomization-Keeps :
    (k : Kernel) (top r cur x rsp inner : ℕ) (p : Process)
    → Promises k
    → Buddies k top r p
    → rsp < top
    → top + page_size ≤ inner + def_ss_offset
    → inner ≤ rsp
    → inner % 8 ≡ 0
    → (r' : ℕ) × (q : Process) × (do_randomization k cur x rsp inner p ≡ some (tt, q))
      × Keeps k top inner r r' p q
do_randomization-Keeps k top r cur x rsp inner p promises h hi lo le e8 =
    let (info, other, found, pair, _, _) =
      buddy_get_tls_info_lem k top r rsp p h hi (omega (arith, lo, le)) in
    let run =
      do_randomization_runs k cur x rsp inner info p found
        (cycles-readable k top r info other p h pair) in
    elim (Bool-cases
      (ltb cycles_per_randomization (sub64 cur (p.memory.word (info + cycles_field))))) [
        | inl due ↦
            let (q, ran, z) =
              au_edu_unsw_randomize_lem k top r info other cur x inner p promises h pair lo
                (omega (arith, le, hi)) e8 in
            (add64 r x, q, run ∙ rw due ran, record { in_order = z.in_order; decoded = z.decoded })
        | inr early ↦ (r, p, run ∙ rw early, Keeps-refl k top inner r p h)
      ]

-- A call of the real function that returns, with the records in order, and writes neither them nor
-- the words of the shadow stack from `rsp` up.
abbrev pub Behaves : (k : Kernel) (top rsp : ℕ) {A : Type 0} → B A → Type 0
Behaves k top rsp {A} real =
    (r : ℕ) (p : Process)
    → Buddies k top r p
    → (v : A) × (q : Process) × (real p ≡ some (v, q)) × Keeps k top rsp r r p q

-- When the hooks of FlashStack/rt_lib.c change the shadow stack.
pub data Moment : Type 0 where
  never ahead_of_it behind_it : Moment

abbrev pub moment : Hook → Moment
moment fork = never
moment gets = ahead_of_it
moment getppid = ahead_of_it
moment getpid = ahead_of_it
moment pthread_self = ahead_of_it
moment read = ahead_of_it
moment recv = ahead_of_it
moment recvfrom = ahead_of_it
moment recvmsg = ahead_of_it
moment _ = behind_it

-- From `p` to `q` the real function is called once, with the result `v`, and there is one change of
-- the shadow stack at the moment, or none.
abbrev pub OneCall : {A : Type 0} → Moment → B (Unit {0}) → B A → A → Process → Process → Type 0
OneCall never change real v p q = real p ≡ some (v, q)
OneCall ahead_of_it change real v p q =
    (t : Process) × (change p ≡ some (tt, t)) × (real t ≡ some (v, q))
OneCall behind_it change real v p q =
    (t : Process) × (real p ≡ some (v, t)) × (change t ≡ some (tt, q))

-- What comes of `call`.
abbrev Returned :
    (k : Kernel) (top rsp : ℕ) {A : Type 0}
    → Moment
    → B (Unit {0})
    → B A
    → B A
    → ℕ
    → Process
    → Type 0
Returned k top rsp {A} at change real call r p =
    (v : A) × (r' : ℕ) × (q : Process) × (call p ≡ some (v, q))
    × Keeps k top rsp r r' p q
    × OneCall at change real v p q

module _ {A : Type 0} (k : Kernel) (top cur x rsp inner : ℕ) (real : B A) (promises : Promises k)
    (hi : rsp < top) (lo : top + page_size ≤ inner + def_ss_offset) (le : inner ≤ rsp)
    (e8 : inner % 8 ≡ 0) (behaves : Behaves k top inner real) where
  abbrev change : B (Unit {0})
  change = do_randomization k cur x rsp inner

  real-Returned :
      (r : ℕ) (p : Process) → Buddies k top r p → Returned k top inner never change real real r p
  real-Returned r p h = let (v, q, run, kept) = behaves r p h in (v, r, q, run, kept, run)

  ahead-Returned :
      (r : ℕ) (p : Process)
      → Buddies k top r p
      → Returned k top inner ahead_of_it change real (ahead change real) r p
  ahead-Returned r p h =
      let (r', q, run, kept) =
        do_randomization-Keeps k top r cur x rsp inner p promises h hi lo le e8 in
      let (v, t, run', kept') = behaves r' q kept.in_order in
      (
        v,
        r',
        t,
        rw (◌>>=◌, ◌>>◌, run, run'),
        Keeps-trans k top inner r r' r' p q t kept kept',
        (q, run, run'),
      )

  behind-Returned :
      (r : ℕ) (p : Process)
      → Buddies k top r p
      → Returned k top inner behind_it change real (behind_call change real) r p
  behind-Returned r p h =
      let (v, q, run, kept) = behaves r p h in
      let (r', t, run', kept') =
        do_randomization-Keeps k top r cur x rsp inner q promises kept.in_order hi lo le e8 in
      (
        v,
        r',
        t,
        rw (◌>>=◌, ◌>>◌, run, run'),
        Keeps-trans k top inner r r r' p q t kept kept',
        (q, run, run'),
      )

  hooked-Returned :
      (h : Hook) (r : ℕ) (p : Process)
      → Buddies k top r p
      → Returned k top inner (moment h) change real (hooked change real h) r p
  unfolding hooked
  hooked-Returned write = behind-Returned
  hooked-Returned puts = behind-Returned
  hooked-Returned gets = ahead-Returned
  hooked-Returned getppid = ahead-Returned
  hooked-Returned getpid = ahead-Returned
  hooked-Returned pthread_self = ahead-Returned
  hooked-Returned epoll_wait = behind-Returned
  hooked-Returned sendto = behind-Returned
  hooked-Returned sendmsg = behind-Returned
  hooked-Returned fork = real-Returned
  hooked-Returned sendfile = behind-Returned
  hooked-Returned send = behind-Returned
  hooked-Returned writev = behind-Returned
  hooked-Returned read = ahead-Returned
  hooked-Returned recvfrom = ahead-Returned
  hooked-Returned recvmsg = ahead-Returned
  hooked-Returned recv = ahead-Returned

call_hook_runs :
    {A : Type 0} (change : B (Unit {0})) (real : B A) (dlsym : Hook → Bool) (h : Hook)
    (pointers : Pointers) (p q : Process) (v : A)
    → with_pointer dlsym h pointers h ≡ true
    → hooked change real h p ≡ some (v, q)
    → call_hook change real dlsym h pointers p ≡ some ((v, with_pointer dlsym h pointers), q)
unfolding call_hook
call_hook_runs change real dlsym h pointers p q v e run = rw e (rw (◌>>=◌, run))

hook_number-same : (h : Hook) → (hook_number h == hook_number h) ≡ true
hook_number-same h = ground arith

-- In the buddy schemes, on a kernel that lets protections be changed, with the records in order and
-- the stack pointers in the call stack above its guard page, the inner one a multiple of 8: each of
-- the hooks whose real function dlsym finds, or whose pointer is set, calls the real function once and
-- returns its result, if that function always returns and keeps the records and the shadow stack.
-- DO_RANDOMIZATION runs once, ahead of the call in gets, getppid, getpid, pthread_self, read, recv,
-- recvfrom and recvmsg, not at all in fork, and behind the call in the others.
-- No call goes through a null pointer. The records are in order again with some random value, and
-- every return address from the inner stack pointer up stays.
pub call_hook_lem :
    {A : Type 0} (k : Kernel) (top r cur x rsp inner : ℕ) (real : B A) (dlsym : Hook → Bool)
    (h : Hook) (pointers : Pointers) (p : Process)
    → Promises k
    → rsp < top
    → top + page_size ≤ inner + def_ss_offset
    → inner ≤ rsp
    → inner % 8 ≡ 0
    → Behaves k top inner real
    → (pointers h ≡ true) ⊎ (dlsym h ≡ true)
    → Buddies k top r p
    → (v : A) × (r' : ℕ) × (q : Process) × (call_hook
          (do_randomization k cur x rsp inner)
          real
          dlsym
          h
          pointers
          p
        ≡ some ((v, with_pointer dlsym h pointers), q))
      × Keeps k top inner r r' p q
      × OneCall (moment h) (do_randomization k cur x rsp inner) real v p q
call_hook_lem k top r cur x rsp inner real dlsym h pointers p promises hi lo le e8 behaves found b =
    let (v, r', q, run, kept, from) =
      hooked-Returned k top cur x rsp inner real promises hi lo le e8 behaves h r p b in
    let set : with_pointer dlsym h pointers h ≡ true = ground (arith, found, hook_number-same h) in
    (
      v,
      r',
      q,
      call_hook_runs (do_randomization k cur x rsp inner) real dlsym h pointers p q v set run,
      kept,
      from,
    )
