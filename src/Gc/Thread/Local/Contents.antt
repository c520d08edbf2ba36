-- ===== src/Gc/Thread/Local/Contents.antt =====
-- The local queue of a thread of the collector is a sequence of objects.
use masters_thesis.Base.{
  ℕ, ◌+◌, ◌<◌, ◌^◌, ◌≡◌, ◌≢◌, refl, false, List, [], ◌∷◌, ◌++◌, length, length-append, ne→==, arith,
}
use masters_thesis.Base.Word.{add32, sub32}
use masters_thesis.BlockQueue.Retired.Table.{has}
use masters_thesis.BlockQueue.Links.{has-snoc}
use masters_thesis.Gc.Desc.{Words, put_word, gc_header_list_ptr, gc_header_list_ptr_set}
use masters_thesis.Gc.Thread.{Collector, null}
use masters_thesis.Gc.Thread.Local.{gc_thread_enqueue, gc_thread_dequeue}

-- The objects `os`, the first of which is `head`, have each the next one in the second word of
-- their headers, and the last of them `last`.
abbrev pub Linked : Words → (head : ℕ) (os : List ℕ) (last : ℕ) → Type 0
Linked mem head [] last = head ≡ last
Linked mem head (o ∷ os) last = (head ≡ o) × Linked mem (mem (o + 1)) os last

-- The objects of the queue are `os` and behind them the tail.
pub record IsObjects (os : List ℕ) (s : Collector) : Type 0 where
  pub links : Linked s.words s.gth_head os s.gth_tail
  pub ended : s.words (s.gth_tail + 1) ≡ null
  pub positive : has null os ≡ false
  pub some_tail : 0 < s.gth_tail
  pub apart : has s.gth_tail os ≡ false
  pub count : s.gth_queue_size ≡ length os + 1

Linked-put :
    (mem : Words) (head : ℕ) (os : List ℕ) (last o v : ℕ)
    → has o os ≡ false
    → Linked mem head os last
    → Linked (put_word (o + 1) v mem) head os last
Linked-put mem head [] last o v out l = l
Linked-put mem head (n ∷ ns) last o v out l =
    (l.0, ground (arith, Linked-put mem (mem (n + 1)) ns last o v (ground (arith, out)) l.1))

Linked-snoc :
    (mem : Words) (head : ℕ) (os : List ℕ) (last o : ℕ)
    → Linked mem head os last
    → mem (last + 1) ≡ o
    → Linked mem head (os ++ last ∷ []) o
Linked-snoc mem head [] last o l e = (l, e)
Linked-snoc mem head (n ∷ ns) last o l e = (l.0, Linked-snoc mem (mem (n + 1)) ns last o l.1 e)

head_positive :
    (mem : Words) (head : ℕ) (os : List ℕ) (last : ℕ)
    → Linked mem head os last
    → has null os ≡ false
    → 0 < last
    → 0 < head
head_positive mem head [] last l p some_last = ground (arith, l)
head_positive mem head (o ∷ os) last l p some_last = ground (arith, l.0)

-- What gc_thread_enqueue does to a queue that has a head.
abbrev pub appended : (obj : ℕ) → Collector → Collector
appended obj s = record s {
  words = put_word (obj + 1) null (put_word (s.gth_tail + 1) obj s.words);
  gth_queue_size = add32 s.gth_queue_size 1;
  gth_tail = obj;
}

enqueue_appended :
    (obj : ℕ) (s : Collector) → 0 < s.gth_head → gc_thread_enqueue obj s ≡ appended obj s
unfolding gc_thread_enqueue gc_header_list_ptr_set
enqueue_appended obj s some_head = rw (ne→== s.gth_head null (omega (arith, some_head))) refl

appended-IsObjects :
    (obj : ℕ) (os : List ℕ) (s : Collector)
    → IsObjects os s
    → has obj os ≡ false
    → obj ≢ s.gth_tail
    → length os + 2 < 2 ^ 32
    → 0 < obj
    → IsObjects (os ++ s.gth_tail ∷ []) (appended obj s)
appended-IsObjects obj os s q out ne few some_obj = record {
  links =
      Linked-snoc (appended obj s).words s.gth_head os s.gth_tail obj
        (Linked-put (put_word (s.gth_tail + 1) obj s.words) s.gth_head os s.gth_tail obj null out
          (Linked-put s.words s.gth_head os s.gth_tail s.gth_tail obj q.apart q.links))
        (ground (arith, ne));
  ended = ground arith;
  positive = ground (arith, has-snoc null s.gth_tail os, q.positive, q.some_tail);
  some_tail = some_obj;
  apart = ground (arith, has-snoc obj s.gth_tail os, out, ne);
  count = ground (arith, q.count, few, length-append os (s.gth_tail ∷ []));
}

-- A queue without objects.
pub record IsEmpty (s : Collector) : Type 0 where
  pub no_head : s.gth_head ≡ null
  pub no_size : s.gth_queue_size ≡ 0

enqueue_first :
    (obj : ℕ) (e : Collector)
    → 0 < obj
    → IsEmpty e
    → IsObjects [] (gc_thread_enqueue obj e) × ((gc_thread_enqueue obj e).gth_tail ≡ obj)
unfolding gc_thread_enqueue gc_header_list_ptr_set
enqueue_first obj e some_obj empty = (
  record {
    links = ground (arith, empty.no_head);
    ended = ground (arith, empty.no_head);
    positive = refl;
    some_tail = ground (arith, empty.no_head, some_obj);
    apart = refl;
    count = ground (arith, empty.no_head, empty.no_size);
  },
  ground (arith, empty.no_head),
)

-- What gc_thread_dequeue does to a queue of several objects.
abbrev pub without_head : Collector → Collector
without_head s = record s {
  gth_queue_size = sub32 s.gth_queue_size 1;
  gth_head = s.words (s.gth_head + 1);
}

dequeue_without :
    (s : Collector) → s.gth_tail ≢ s.gth_head → gc_thread_dequeue s ≡ (s.gth_head, without_head s)
unfolding gc_thread_dequeue gc_header_list_ptr
dequeue_without s apart = rw (ne→== s.gth_tail s.gth_head apart) refl

without_head-IsObjects :
    (first : ℕ) (os : List ℕ) (s : Collector)
    → IsObjects (first ∷ os) s
    → length os + 2 < 2 ^ 32
    → IsObjects os (without_head s)
without_head-IsObjects first os s q few = record {
  links = rw q.links.0 q.links.1;
  ended = q.ended;
  positive = ground (arith, q.positive);
  some_tail = q.some_tail;
  apart = ground (arith, q.apart);
  count = ground (arith, q.count, few);
}

dequeue_last :
    (s : Collector)
    → IsObjects [] s
    → ((gc_thread_dequeue s).0 ≡ s.gth_tail) × IsEmpty (gc_thread_dequeue s).1
unfolding gc_thread_dequeue gc_header_list_ptr
dequeue_last s q = (
  q.links,
  record { no_head = ground (arith, q.links); no_size = ground (arith, q.links, q.count) },
)

-- The local queue is a sequence: gc_thread_enqueue puts an object that is not in it behind the
-- others, of which there are fewer than 2 ^ 32 - 1, and makes it the only one of an empty queue;
-- gc_thread_dequeue takes the first of several objects, fewer than 2 ^ 32, and the last one, which
-- leaves an empty queue. gth_queue_size is their number.
pub queue-IsObjects :
    (obj first : ℕ) (os rest : List ℕ) (s e many one : Collector)
    → IsObjects os s
    → has obj os ≡ false
    → obj ≢ s.gth_tail
    → length os + 2 < 2 ^ 32
    → 0 < obj
    → IsEmpty e
    → IsObjects (first ∷ rest) many
    → length rest + 2 < 2 ^ 32
    → IsObjects [] one
    → IsObjects (os ++ s.gth_tail ∷ []) (gc_thread_enqueue obj s)
      × ((gc_thread_enqueue obj s).gth_tail ≡ obj)
      × IsObjects [] (gc_thread_enqueue obj e)
      × ((gc_thread_enqueue obj e).gth_tail ≡ obj)
      × ((gc_thread_dequeue many).0 ≡ first)
      × IsObjects rest (gc_thread_dequeue many).1
      × ((gc_thread_dequeue one).0 ≡ one.gth_tail)
      × IsEmpty (gc_thread_dequeue one).1
queue-IsObjects obj first os rest s e many one q out ne few some_obj empty q' few' single =
    let some_head = head_positive s.words s.gth_head os s.gth_tail q.links q.positive q.some_tail in
    let several = dequeue_without many (ground (arith, q'.links.0, q'.apart)) in
    let first_in = enqueue_first obj e some_obj empty in
    let (last, none_left) = dequeue_last one single in
    (
      rw (enqueue_appended obj s some_head) (appended-IsObjects obj os s q out ne few some_obj),
      rw (enqueue_appended obj s some_head) refl,
      first_in.0,
      first_in.1,
      rw several q'.links.0,
      rw several (without_head-IsObjects first rest many q' few'),
      last,
      none_left,
    )
