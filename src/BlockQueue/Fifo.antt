-- ===== src/BlockQueue/Fifo.antt =====
-- A queue of Michael and Scott is a sequence: its nodes and what they hold.
use masters_thesis.Base.{
  ℕ, ◌<◌, ◌≡◌, ◌≢◌, refl, sym, ap, ◌∙◌, false, List, [], ◌∷◌, ◌++◌, ◌==◌, if◌then◌else◌, ne→==,
  eq→==, arith,
}
use masters_thesis.Malloc.State.{null}
use masters_thesis.BlockQueue.Nodes.{Node}
use masters_thesis.BlockQueue.Links.{
  Links, AllDistinct, with_next, Links-with_next, Links-snoc, has-snoc,
}
use masters_thesis.BlockQueue.Retired.Table.{has}

-- The nodes hold these data.
abbrev pub Holds : (node : ℕ → Node) → List ℕ → List ℕ → Type 0
Holds node [] [] = Unit {0}
Holds node [] (x ∷ xs) = ⊥
Holds node (n ∷ ns) [] = ⊥
Holds node (n ∷ ns) (x ∷ xs) = ((node n).lfn_data ≡ x) × Holds node ns xs

-- The nodes behind the first one, for the nodes `ns` in front of the last one.
abbrev pub behind : (last : ℕ) → List ℕ → List ℕ
behind last [] = []
behind last (n ∷ ns) = ns ++ last ∷ []

-- `ns` are the nodes in front of the tail, the first of them, or the tail, being a sentinel, and
-- `contents` what the nodes behind the sentinel hold.
pub record IsFifo (node : ℕ → Node) (head tail : ℕ) (ns xs : List ℕ) : Type 0 where
  pub links : Links node head ns tail
  pub ended : (node tail).lfn_next ≡ null
  pub positive : 0 < tail
  pub distinct : AllDistinct ns
  pub apart : has tail ns ≡ false
  pub contents : Holds node (behind tail ns) xs

-- A change of a link, or of a node that is not among them, keeps what the nodes hold.
Holds-set_node :
    (f : Node → Node) (node : ℕ → Node) (n : ℕ) (ns xs : List ℕ)
    → has n ns ≡ false
    → Holds node ns xs
    → Holds (λ m. if m == n then f (node m) else node m) ns xs
Holds-set_node f node n [] [] out h = tt
Holds-set_node f node n [] (x ∷ xs) out h = h
Holds-set_node f node n (m ∷ ms) [] out h = h
Holds-set_node f node n (m ∷ ms) (x ∷ xs) out h =
    (rw (ne→== m n (ground arith)) h.0, Holds-set_node f node n ms xs (ground arith) h.1)

pub Holds-with_next :
    (node : ℕ → Node) (n next : ℕ) (ns xs : List ℕ)
    → Holds node ns xs
    → Holds (with_next n next node) ns xs
Holds-with_next node n next [] [] h = tt
Holds-with_next node n next [] (x ∷ xs) h = h
Holds-with_next node n next (m ∷ ms) [] h = h
Holds-with_next node n next (m ∷ ms) (x ∷ xs) h =
    (ground arith, Holds-with_next node n next ms xs h.1)

Holds-snoc :
    (node : ℕ → Node) (ns xs : List ℕ) (n x : ℕ)
    → Holds node ns xs
    → (node n).lfn_data ≡ x
    → Holds node (ns ++ n ∷ []) (xs ++ x ∷ [])
Holds-snoc node [] [] n x h e = (e, tt)
Holds-snoc node [] (y ∷ ys) n x h e = absurd h
Holds-snoc node (m ∷ ms) [] n x h e = absurd h
Holds-snoc node (m ∷ ms) (y ∷ ys) n x h e = (h.0, Holds-snoc node ms ys n x h.1 e)

behind-snoc : (n t : ℕ) (ns : List ℕ) → behind n (ns ++ t ∷ []) ≡ behind t ns ++ n ∷ []
behind-snoc n t [] = refl
behind-snoc n t (m ∷ ms) = refl

pub has-behind : (n t : ℕ) (ns : List ℕ) → has n ns ≡ false → n ≢ t → has n (behind t ns) ≡ false
has-behind n t [] out ne = refl
has-behind n t (m ∷ ms) out ne = has-snoc n t ms ∙ ground (arith, ne)

pub AllDistinct-snoc :
    (ns : List ℕ) (n : ℕ) → 0 < n → has n ns ≡ false → AllDistinct ns → AllDistinct (ns ++ n ∷ [])
AllDistinct-snoc [] n pos out d = (pos, refl, tt)
AllDistinct-snoc (m ∷ ms) n pos out d =
    (d.0, has-snoc m n ms ∙ ground (arith, d.1), AllDistinct-snoc ms n pos (ground arith) d.2)

Links-set_node :
    (f : Node → Node) (node : ℕ → Node) (head : ℕ) (ns : List ℕ) (end n : ℕ)
    → has n ns ≡ false
    → Links node head ns end
    → Links (λ m. if m == n then f (node m) else node m) head ns end
Links-set_node f node head [] end n out l = l
Links-set_node f node head (m ∷ ms) end n out l = (
  l.0,
  rw (ne→== m n (ground arith))
      (Links-set_node f node (node m).lfn_next ms end n (ground arith) l.1),
)

-- The nodes behind the first one begin with the one that it names.
behind-next :
    (node : ℕ → Node) (n t : ℕ) (ns : List ℕ) → Links node n ns t → ns ++ t ∷ [] ≡ n ∷ behind t ns
behind-next node n t [] l = ap (λ (m : ℕ). m ∷ []) (sym l)
behind-next node n t (m ∷ ms) l = ap (λ (k : ℕ). k ∷ (ms ++ t ∷ [])) (sym l.0)

next_positive :
    (node : ℕ → Node) (n t : ℕ) (ns : List ℕ) → Links node n ns t → AllDistinct ns → 0 < t → 0 < n
next_positive node n t [] l d pos = omega (arith, l)
next_positive node n t (m ∷ ms) l d pos = omega (arith, l.0, d.0)

-- A node that a block is put in.
abbrev pub filled_node : (n x : ℕ) → (ℕ → Node) → ℕ → Node
filled_node n x node m = if m == n then record { lfn_next = null; lfn_data = x } else node m

-- A node that is not in the queue is filled and linked behind the tail.
pub snoc-IsFifo :
    (node : ℕ → Node) (head tail n x : ℕ) (ns xs : List ℕ)
    → IsFifo node head tail ns xs
    → n ≢ null
    → n ≢ tail
    → has n ns ≡ false
    → IsFifo (with_next tail n (filled_node n x node)) head n (ns ++ tail ∷ []) (xs ++ x ∷ [])
snoc-IsFifo node head tail n x ns xs q pos ne out =
    let filled = filled_node n x node in
    let put_links =
      Links-set_node (λ _. record { lfn_next = null; lfn_data = x }) node head ns tail n out
        q.links in
    let put_holds =
      Holds-set_node (λ _. record { lfn_next = null; lfn_data = x }) node n (behind tail ns) xs
        (has-behind n tail ns out ne) q.contents in
    record {
      links = Links-snoc filled head ns tail n q.apart put_links;
      ended = rw (ne→== n tail ne) (rw (eq→== n n refl) refl);
      positive = omega arith;
      distinct = AllDistinct-snoc ns tail q.positive q.apart q.distinct;
      apart = has-snoc n tail ns ∙ ground (arith, out, ne);
      contents = rw (behind-snoc n tail ns) (
          Holds-snoc (with_next tail n filled) (behind tail ns) xs n x
            (Holds-with_next filled tail n (behind tail ns) xs put_holds)
            (rw (ne→== n tail ne) (rw (eq→== n n refl) refl)));
    }

first_link :
    (node : ℕ → Node) (head tail f : ℕ) (ns : List ℕ)
    → Links node head (f ∷ ns) tail
    → Links node (node head).lfn_next ns tail
first_link node head tail f ns l = rw l.0 l.1

-- The first node is the sentinel no more: its link goes elsewhere.
pub tail-IsFifo :
    (node : ℕ → Node) (head tail f x link : ℕ) (ns xs : List ℕ)
    → IsFifo node head tail (f ∷ ns) (x ∷ xs)
    → IsFifo (with_next head link node) (node head).lfn_next tail ns xs
      × ((node (node head).lfn_next).lfn_data ≡ x)
      × ((node head).lfn_next ≢ null)
      × (head ≢ tail)
tail-IsFifo node head tail f x link ns xs q =
    let next = (node head).lfn_next in
    let rest : Links node next ns tail = first_link node head tail f ns q.links in
    let held : Holds node (next ∷ behind tail ns) (x ∷ xs) =
      rw (behind-next node next tail ns rest) at q.contents in
    (
      record {
        links = Links-with_next node next ns tail head link (rw q.links.0 q.distinct.1) rest;
        ended = ground (arith, q.ended, q.apart, q.links.0);
        positive = q.positive;
        distinct = q.distinct.2;
        apart = ground (arith, q.apart);
        contents = Holds-with_next node head link (behind tail ns) xs held.1;
      },
      held.0,
      omega (arith, next_positive node next tail ns rest q.distinct.2 q.positive),
      ground (arith, q.apart, q.links.0),
    )
