-- ===== src/Exec/Threads.antt =====
-- src/cc/thread.c: the start and the end of a thread.
use masters_thesis.Base.{ℕ, ◌==◌, if◌then◌else◌}
use masters_thesis.Base.Word.{add32, sub32}
use masters_thesis.Sched.State.{t_stat_runnable, t_stat_none}
use masters_thesis.Exec.State.{Mailbox, Executors, destroy_thread, null, set_thread, call}

-- `stat` is the status that the caller asks for; the rest of the thread keeps what its memory had.
unfoldable pub thread_init : (thread stat : ℕ) (mbox : Mailbox) → Executors → Executors
thread_init thread stat mbox s =
    set_thread thread
      (λ t. record t {
        t_id = s.thread_id;
        t_sched_stat_ref = if stat == t_stat_runnable then t_stat_none else stat;
        t_mbox = mbox;
      })
      (record s { thread_id = add32 s.thread_id 1; thread_num = add32 s.thread_num 1 })

unfoldable pub thread_destroy : (thread : ℕ) → Executors → Executors
thread_destroy thread s =
    let t_destroy = (s.thread thread).t_destroy in
    let s' = record s { thread_num = sub32 s.thread_num 1 } in
    if t_destroy == null then s' else call (destroy_thread t_destroy thread) s'

unfoldable pub thread_count : Executors → ℕ
thread_count s = s.thread_num
