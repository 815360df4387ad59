-- ===== src/Hooks.antt =====
-- FlashStack/rt_lib.c: functions of the C library that are hooked, so that the shadow stack is
-- changed around a call. The real functions are parameters, each with the arguments of the call, which
-- every hook passes on as they are; errno is left to them. All of the hooks are switched off by
-- the macros SPA_ENABLE_HOOK_* of that file; what each does when it is switched on is modelled.
pub mod Kept
use flash_stack.Base.{none, ℕ, ◌+◌, ◌&&◌, Bool, true, false, ◌||◌, ◌==◌, ltb, if◌then◌else◌}
use flash_stack.Base.Steps.{Steps, pure, ◌>>=◌, ◌>>◌}
use flash_stack.Asm.{sub64}
use flash_stack.Runtime.{cycles_per_randomization}
use flash_stack.Buddy.{Process, B, Kernel, read_word, buddy_get_tls_info, cycles_field}
use flash_stack.Buddy.Randomize.{au_edu_unsw_randomize}

pub data Hook : Type 0 where
  write puts gets getppid getpid pthread_self epoll_wait sendto sendmsg : Hook
  fork sendfile send writev read recvfrom recvmsg recv : Hook

module _ (k : Kernel) where
  -- DO_RANDOMIZATION in the buddy schemes: `cur` is what rdtsc gives, `x` what random() gives, and
  -- `rsp` and `inner` are the stack pointers here and in au_edu_unsw_randomize.
  unfoldable pub do_randomization : ℕ → ℕ → ℕ → ℕ → B (Unit {0})
  do_randomization cur x rsp inner = do
    tls_info ← buddy_get_tls_info k rsp
    last ← read_word (tls_info + cycles_field)
    if ltb cycles_per_randomization (sub64 cur last)
        then au_edu_unsw_randomize k tls_info cur x inner
        else pure tt

abbrev pub hook_number : Hook → ℕ
hook_number write = 0
hook_number puts = 1
hook_number gets = 2
hook_number getppid = 3
hook_number getpid = 4
hook_number pthread_self = 5
hook_number epoll_wait = 6
hook_number sendto = 7
hook_number sendmsg = 8
hook_number fork = 9
hook_number sendfile = 10
hook_number send = 11
hook_number writev = 12
hook_number read = 13
hook_number recvfrom = 14
hook_number recvmsg = 15
hook_number recv = 16

-- Which of the pointers to the real functions are set; `dlsym` says which functions it finds.
abbrev pub Pointers : Type 0
Pointers = Hook → Bool

abbrev pub with_pointer : (Hook → Bool) → Hook → Pointers → Pointers
with_pointer dlsym h pointers g = pointers g || (hook_number h == hook_number g && dlsym g)

-- With the hooks that are switched on.
unfoldable pub buddy_init_rt_lib_hooker : (Hook → Bool) → (Hook → Bool) → Pointers → Pointers
buddy_init_rt_lib_hooker dlsym enabled pointers g = pointers g || (enabled g && dlsym g)

module _ {S A : Type 0} (randomize : Steps S (Unit {0})) (real : Steps S A) where
  -- The change before the call, and behind it.
  abbrev pub ahead : Steps S A
  ahead = randomize >> real

  abbrev pub behind_call : Steps S A
  behind_call = real >>= λ n. randomize >> pure n

  -- What each does with its pointer set.
  abbrev pub write_hook : Steps S A
  write_hook = behind_call

  abbrev pub puts_hook : Steps S A
  puts_hook = behind_call

  abbrev pub gets_hook : Steps S A
  gets_hook = ahead

  abbrev pub getppid_hook : Steps S A
  getppid_hook = ahead

  abbrev pub getpid_hook : Steps S A
  getpid_hook = ahead

  abbrev pub pthread_self_hook : Steps S A
  pthread_self_hook = ahead

  abbrev pub epoll_wait_hook : Steps S A
  epoll_wait_hook = behind_call

  abbrev pub sendto_hook : Steps S A
  sendto_hook = behind_call

  abbrev pub sendmsg_hook : Steps S A
  sendmsg_hook = behind_call

  abbrev pub fork_hook : Steps S A
  fork_hook = real

  abbrev pub sendfile_hook : Steps S A
  sendfile_hook = behind_call

  abbrev pub send_hook : Steps S A
  send_hook = behind_call

  abbrev pub writev_hook : Steps S A
  writev_hook = behind_call

  abbrev pub read_hook : Steps S A
  read_hook = ahead

  abbrev pub recvfrom_hook : Steps S A
  recvfrom_hook = ahead

  abbrev pub recvmsg_hook : Steps S A
  recvmsg_hook = ahead

  abbrev pub recv_hook : Steps S A
  recv_hook = ahead

  unfoldable pub hooked : Hook → Steps S A
  hooked write = write_hook
  hooked puts = puts_hook
  hooked gets = gets_hook
  hooked getppid = getppid_hook
  hooked getpid = getpid_hook
  hooked pthread_self = pthread_self_hook
  hooked epoll_wait = epoll_wait_hook
  hooked sendto = sendto_hook
  hooked sendmsg = sendmsg_hook
  hooked fork = fork_hook
  hooked sendfile = sendfile_hook
  hooked send = send_hook
  hooked writev = writev_hook
  hooked read = read_hook
  hooked recvfrom = recvfrom_hook
  hooked recvmsg = recvmsg_hook
  hooked recv = recv_hook

  -- With the pointer, which is asked for if it is null. A call of a null pointer faults.
  unfoldable pub call_hook : (Hook → Bool) → Hook → Pointers → Steps S (A × Pointers)
  call_hook dlsym h pointers =
      if with_pointer dlsym h pointers h
      then (hooked h >>= λ v. pure (v, with_pointer dlsym h pointers))
      else λ s. none
