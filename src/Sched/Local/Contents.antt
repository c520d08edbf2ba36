-- ===== src/Sched/Local/Contents.antt =====
-- The local queue of a scheduler is a sequence of threads.
use masters_thesis.Base.{
  ℕ, ◌<◌, ◌≡◌, ◌≢◌, refl, sym, ap, ◌∙◌, subst, true, false, List, [], ◌∷◌, ◌++◌, ◌==◌,
  if◌then◌else◌, ne→==, eq→==, arith,
}
use masters_thesis.Base.Word.{add32, sub32}
use masters_thesis.BlockQueue.Links.{AllDistinct}
use masters_thesis.BlockQueue.Fifo.{AllDistinct-snoc}
use masters_thesis.BlockQueue.Retired.Table.{has}
use masters_thesis.Sched.State.{
  Thread, Sched, null, first_thread, other_threads, set_thread, set_scheduler,
}
use masters_thesis.Sched.Local.{sched_queue_enqueue, sched_queue_dequeue}

-- Behind the thread `t` come these threads, the last of them, or `t`, being `tail`.
abbrev pub Chain : (thread : ℕ → Thread) (t : ℕ) → List ℕ → (tail : ℕ) → Type 0
Chain thread t [] tail = tail ≡ t
Chain thread t (u ∷ us) tail = ((thread t).t_queue_next ≡ u) × Chain thread u us tail

-- The threads of the local queue of a scheduler, the first one first.
abbrev pub IsLocal : (exec : ℕ) → List ℕ → Sched → Type 0
IsLocal exec [] s =
    ((s.scheduler exec).sch_queue_head ≡ null) × ((s.scheduler exec).sch_queue_tail ≡ null)
IsLocal exec (t ∷ ts) s =
    ((s.scheduler exec).sch_queue_head ≡ t)
    × Chain s.thread t ts (s.scheduler exec).sch_queue_tail
    × AllDistinct (t ∷ ts)

abbrev cleared : (x : ℕ) → (ℕ → Thread) → ℕ → Thread
cleared x thread m = if m == x then record (thread m) { t_queue_next = null } else thread m

abbrev linked : (tail x : ℕ) → (ℕ → Thread) → ℕ → Thread
linked tail x thread m = if m == tail then record (thread m) { t_queue_next = x } else thread m

Chain-has :
    (thread : ℕ → Thread) (t : ℕ) (ts : List ℕ) (tail : ℕ)
    → Chain thread t ts tail
    → has tail (t ∷ ts) ≡ true
Chain-has thread t [] tail c = ground (arith, c)
Chain-has thread t (u ∷ us) tail c = ground (arith, Chain-has thread u us tail c.1)

Chain-snoc :
    (thread : ℕ → Thread) (t : ℕ) (ts : List ℕ) (tail x : ℕ)
    → AllDistinct (t ∷ ts)
    → has x (t ∷ ts) ≡ false
    → Chain thread t ts tail
    → Chain (linked tail x (cleared x thread)) t (ts ++ x ∷ []) x
Chain-snoc thread t [] tail x d out c = (rw (eq→== t tail (sym c)) refl, refl)
Chain-snoc thread t (u ∷ us) tail x d out c = (
  rw (ne→== t tail (ground (arith, Chain-has thread u us tail c.1, d)))
      (rw (ne→== t x (ground arith)) c.0),
  Chain-snoc thread u us tail x d.2 (ground arith) c.1,
)

module _ (exec x : ℕ) (s : Sched) where
  abbrev with_count : Sched
  with_count =
      set_scheduler exec (λ d. record d { sch_num_threads = add32 d.sch_num_threads 1 })
        (set_thread x (λ u. record u { t_queue_next = null }) s)

  abbrev tail : ℕ
  tail = (s.scheduler exec).sch_queue_tail

  abbrev first : Sched
  first = set_scheduler exec (λ d. record d { sch_queue_tail = x; sch_queue_head = x }) with_count

  abbrev last : Sched
  last =
      set_scheduler exec (λ d. record d { sch_queue_tail = x })
        (set_thread tail (λ u. record u { t_queue_next = x }) with_count)

  enqueue_empty : tail ≡ null → sched_queue_enqueue exec x s ≡ first
  unfolding sched_queue_enqueue
  enqueue_empty e = rw (eq→== tail null e) refl

  enqueue_some : tail ≢ null → sched_queue_enqueue exec x s ≡ last
  unfolding sched_queue_enqueue
  enqueue_some e = rw (ne→== tail null e) refl

  first-IsLocal : 0 < x → IsLocal exec (x ∷ []) first
  first-IsLocal pos = rw (eq→== exec exec refl) (refl, refl, (pos, refl, tt))

  last-IsLocal :
      (t : ℕ) (ts : List ℕ)
      → 0 < x
      → has x (t ∷ ts) ≡ false
      → IsLocal exec (t ∷ ts) s
      → IsLocal exec (t ∷ ts ++ x ∷ []) last
  last-IsLocal t ts pos out q =
      rw (eq→== exec exec refl)
        (q.0, Chain-snoc s.thread t ts tail x q.2 out q.1, AllDistinct-snoc (t ∷ ts) x pos out q.2)

Chain_positive :
    (thread : ℕ → Thread) (t : ℕ) (ts : List ℕ) (tail : ℕ)
    → AllDistinct (t ∷ ts)
    → Chain thread t ts tail
    → 0 < tail
Chain_positive thread t [] tail d c = ground (arith, c, d)
Chain_positive thread t (u ∷ us) tail d c = Chain_positive thread u us tail d.2 c.1

enqueue-IsLocal :
    (exec x : ℕ) (ts : List ℕ) (s : Sched)
    → 0 < x
    → has x ts ≡ false
    → IsLocal exec ts s
    → IsLocal exec (ts ++ x ∷ []) (sched_queue_enqueue exec x s)
enqueue-IsLocal exec x [] s pos out q =
    subst (IsLocal exec (x ∷ [])) (sym (enqueue_empty exec x s q.1)) (first-IsLocal exec x s pos)
enqueue-IsLocal exec x (t ∷ ts) s pos out q =
    subst (IsLocal exec (t ∷ ts ++ x ∷ [])) (sym (enqueue_some exec x s nonempty))
      (last-IsLocal exec x s t ts pos out q)
  where
    nonempty : (s.scheduler exec).sch_queue_tail ≢ null
    nonempty =
        ground (arith, Chain_positive s.thread t ts (s.scheduler exec).sch_queue_tail q.2 q.1)

enqueue_count :
    (exec x : ℕ) (s : Sched)
    → ((sched_queue_enqueue exec x s).scheduler exec).sch_num_threads
      ≡ add32 (s.scheduler exec).sch_num_threads 1
unfolding sched_queue_enqueue
enqueue_count exec x s = ground arith

module _ (exec : ℕ) (s : Sched) where
  abbrev head : ℕ
  head = (s.scheduler exec).sch_queue_head

  abbrev uncounted : Sched
  uncounted = set_scheduler exec (λ d. record d { sch_num_threads = sub32 d.sch_num_threads 1 }) s

  dequeue_last :
      head ≡ (s.scheduler exec).sch_queue_tail
      → sched_queue_dequeue exec s ≡ (
        head,
        set_scheduler exec
            (λ d. record d { sch_queue_tail = null; sch_queue_head = null })
            uncounted,
      )
  unfolding sched_queue_dequeue
  dequeue_last e = rw (eq→== head (s.scheduler exec).sch_queue_tail e) refl

  dequeue_more :
      head ≢ (s.scheduler exec).sch_queue_tail
      → sched_queue_dequeue exec s ≡ (
        head,
        set_scheduler exec
            (λ d. record d { sch_queue_head = (s.thread head).t_queue_next })
            uncounted,
      )
  unfolding sched_queue_dequeue
  dequeue_more e = rw (ne→== head (s.scheduler exec).sch_queue_tail e) refl

-- `t` left the queue, and `ts` stay.
abbrev Leaves : (exec t : ℕ) (ts : List ℕ) (s : Sched) → ℕ × Sched → Type 0
Leaves exec t ts s (out, s') =
    (out ≡ t)
    × IsLocal exec ts s'
    × ((s'.scheduler exec).sch_num_threads ≡ sub32 (s.scheduler exec).sch_num_threads 1)

dequeue-Leaves :
    (exec t : ℕ) (ts : List ℕ) (s : Sched)
    → IsLocal exec (t ∷ ts) s
    → Leaves exec t ts s (sched_queue_dequeue exec s)
dequeue-Leaves exec t [] s q =
    subst (Leaves exec t [] s) (sym (dequeue_last exec s (q.0 ∙ sym q.1)))
      (rw (eq→== exec exec refl) (q.0, (refl, refl), refl))
dequeue-Leaves exec t (u ∷ us) s q =
    subst (Leaves exec t (u ∷ us) s) (sym (dequeue_more exec s apart)) (
      rw (eq→== exec exec refl)
        (q.0, (ap (λ h. (s.thread h).t_queue_next) q.0 ∙ q.1.0, q.1.1, q.2.2), refl))
  where
    apart : (s.scheduler exec).sch_queue_head ≢ (s.scheduler exec).sch_queue_tail
    apart =
        ground (arith, q.0, q.2, Chain-has s.thread u us (s.scheduler exec).sch_queue_tail q.1.1)

-- A thread that is not in the queue comes last; the first thread is the next one to leave it. The
-- count goes up and down by one.
pub sched_queue-IsLocal :
    (exec x : ℕ) (ts : List ℕ) (s : Sched)
    → 0 < x
    → has x ts ≡ false
    → IsLocal exec ts s
    → let s1 = sched_queue_enqueue exec x s in
      let (out, s2) = sched_queue_dequeue exec s1 in
      IsLocal exec (ts ++ x ∷ []) s1
      × ((s1.scheduler exec).sch_num_threads ≡ add32 (s.scheduler exec).sch_num_threads 1)
      × (out ≡ first_thread (ts ++ x ∷ []))
      × IsLocal exec (other_threads (ts ++ x ∷ [])) s2
      × ((s2.scheduler exec).sch_num_threads ≡ sub32 (s1.scheduler exec).sch_num_threads 1)
sched_queue-IsLocal exec x [] s pos out q =
    let after = enqueue-IsLocal exec x [] s pos out q in
    let (left, rest, with_count) = dequeue-Leaves exec x [] (sched_queue_enqueue exec x s) after in
    (after, enqueue_count exec x s, left, rest, with_count)
sched_queue-IsLocal exec x (t ∷ ts) s pos out q =
    let after = enqueue-IsLocal exec x (t ∷ ts) s pos out q in
    let (left, rest, with_count) =
      dequeue-Leaves exec t (ts ++ x ∷ []) (sched_queue_enqueue exec x s) after in
    (after, enqueue_count exec x s, left, rest, with_count)
