-- ===== src/Platform/Calls.antt =====
-- Calls to code outside the repository: each asks the environment and enters the history.
use https_github_com_nightdu.Base.{ℕ, ℤ, Option, List}
use https_github_com_nightdu.Platform.Types.{
  Ptr, Text, Bytes, RmwRet, PubSubData, Endpoint, MsgRef, CString, Security, EpollData, EpollEvent,
  ControlResult,
}
use https_github_com_nightdu.Platform.Trace.{
  Block, Release, Call, allocated, freed, ringbuf_created, publisher_registered,
  subscription_registered, publisher_unregistered, subscription_unregistered, slot_allocated,
  slot_deallocated, published, taken, alloc_matched, text_duplicated, security_copied,
  security_finished, hazcat_started, hazcat_finished, trigger_counted, trigger_written,
  epoll_created, epoll_added, epoll_deleted, epoll_waited, Env, log, History,
}
use https_github_com_nightdu.Platform.Control.{Body, next, tell}

module _ {R : Type 0} where
  -- The answer to a call, which is logged with it.
  abbrev pub ask : {A : Type 0} → (History → A) → (A → Call) → Body R A
  ask answer event w = next (answer w.calls) (log (event (answer w.calls)) w)

  module _ (env : Env) where
    -- rmw_allocate, rmw_publisher_allocate and the like
    abbrev pub allocate : Block → Body R Ptr
    allocate block = ask (λ h. env.allocate h block) (allocated block)

    abbrev pub create_cpu_ringbuf_allocator : ℕ → ℕ → Body R Ptr
    create_cpu_ringbuf_allocator size depth =
        ask (λ h. env.create_ringbuf h size depth) (ringbuf_created size depth)

    abbrev pub hazcat_register_publisher : PubSubData → Text → Body R RmwRet
    hazcat_register_publisher d topic =
        ask (λ h. env.register_publisher h d topic) (publisher_registered d topic)

    abbrev pub hazcat_register_subscription : PubSubData → Text → Body R RmwRet
    hazcat_register_subscription d topic =
        ask (λ h. env.register_subscription h d topic) (subscription_registered d topic)

    abbrev pub hazcat_unregister_publisher : PubSubData → Body R RmwRet
    hazcat_unregister_publisher d =
        ask (λ h. env.unregister_publisher h d) (publisher_unregistered d)

    abbrev pub hazcat_unregister_subscription : PubSubData → Body R RmwRet
    hazcat_unregister_subscription d =
        ask (λ h. env.unregister_subscription h d) (subscription_unregistered d)

    -- ALLOCATE(alloc, size)
    abbrev pub allocate_slot : Ptr → ℕ → Body R ℤ
    allocate_slot alloc size = ask (λ h. env.allocate_slot h alloc size) (slot_allocated alloc size)

    abbrev pub hazcat_publish : PubSubData → Ptr → ℕ → Body R RmwRet
    hazcat_publish d msg size = ask (λ h. env.publish h d msg size) (published d msg size)

    abbrev pub hazcat_take : PubSubData → Body R MsgRef
    hazcat_take d = ask (λ h. env.take_next h d) (taken d)

    abbrev pub get_matching_alloc : Endpoint → Ptr → Body R Ptr
    get_matching_alloc e msg = ask (λ h. env.matching_alloc h e msg) (alloc_matched e msg)

    -- rcutils_strdup(text, allocator)
    abbrev pub rcutils_strdup : Option CString → Body R (Option CString)
    rcutils_strdup text = ask (λ h. env.strdup h text) (text_duplicated text)

    -- rmw_security_options_copy(src, allocator, &dst): the code and what dst holds then
    abbrev pub rmw_security_options_copy : Security → Body R (RmwRet × Security)
    rmw_security_options_copy src =
        ask (λ h. env.copy_security h src) (λ answer. security_copied src answer.0)

    abbrev pub rmw_security_options_fini : Security → Body R RmwRet
    rmw_security_options_fini security =
        ask (λ h. env.finish_security h security) (security_finished security)

    abbrev pub hazcat_init : Body R RmwRet
    hazcat_init = ask (λ h. env.start_hazcat h) hazcat_started

    abbrev pub hazcat_fini : Body R RmwRet
    hazcat_fini = ask (λ h. env.finish_hazcat h) hazcat_finished

    -- guard_condition_trigger_count(gc)
    abbrev pub guard_condition_trigger_count : Ptr → Body R ℤ
    guard_condition_trigger_count gc = ask (λ h. env.count_triggers h gc) (trigger_counted gc)

    -- write(gc->pfd[1], &dummy, 1)
    abbrev pub write_trigger : Ptr → Body R ℤ
    write_trigger gc = ask (λ h. env.write_trigger h gc) (trigger_written gc)

    abbrev pub epoll_create : ℕ → Body R ℤ
    epoll_create size = ask (λ h. env.create_epoll h size) (epoll_created size)

    -- epoll_ctl with EPOLL_CTL_ADD
    abbrev pub epoll_ctl_add : ℤ → ℕ → EpollData → Body R ControlResult
    epoll_ctl_add epollfd fd user =
        ask (λ h. env.add_epoll h epollfd fd user) (epoll_added epollfd fd user)

    -- epoll_ctl with EPOLL_CTL_DEL
    abbrev pub epoll_ctl_del : ℤ → ℕ → Body R ControlResult
    epoll_ctl_del epollfd fd = ask (λ h. env.delete_epoll h epollfd fd) (epoll_deleted epollfd fd)

    abbrev pub epoll_wait : ℤ → ℕ → ℤ → Body R (Option (List EpollEvent))
    epoll_wait epollfd maxevents timeout =
        ask (λ h. env.wait_epoll h epollfd maxevents timeout)
          (epoll_waited epollfd maxevents timeout)

    -- memcpy(dst, msg, size), with the message in shared memory
    abbrev pub load_slot : Ptr → ℕ → Body R Bytes
    load_slot msg size w = next (env.load_slot w.calls msg size) w

    -- DEALLOCATE(alloc, PTR_TO_OFFSET(alloc, msg))
    abbrev pub deallocate_slot : Ptr → Ptr → Body R (Unit {0})
    deallocate_slot alloc msg = tell (slot_deallocated alloc (env.ptr_to_offset alloc msg))

  abbrev pub free : Release → Ptr → Body R (Unit {0})
  free release p = tell (freed release p)
