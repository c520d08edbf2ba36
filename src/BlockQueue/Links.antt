-- ===== src/BlockQueue/Links.antt =====
-- Nodes that are linked by lfn_next.
use masters_thesis.Base.{
  ℕ, ◌<◌, ◌≡◌, refl, false, ◌||◌, List, [], ◌∷◌, ◌++◌, ◌==◌, if◌then◌else◌, ne→==, eq→==, arith,
}
use masters_thesis.BlockQueue.Nodes.{Node}
use masters_thesis.BlockQueue.Retired.Table.{has}

-- The nodes of a sequence are linked in this order from `head` on, and the last one names `end`.
abbrev pub Links : (node : ℕ → Node) (head : ℕ) → List ℕ → (end : ℕ) → Type 0
Links node head [] end = head ≡ end
Links node head (n ∷ ns) end = (head ≡ n) × Links node (node n).lfn_next ns end

-- The nodes of a sequence differ, and none is NULL.
abbrev pub AllDistinct : List ℕ → Type 0
AllDistinct [] = Unit {0}
AllDistinct (n ∷ ns) = (0 < n) × (has n ns ≡ false) × AllDistinct ns

-- No node of the first sequence is in the second.
abbrev pub Apart : List ℕ → List ℕ → Type 0
Apart [] ms = Unit {0}
Apart (n ∷ ns) ms = (has n ms ≡ false) × Apart ns ms

abbrev pub with_next : (n next : ℕ) → (ℕ → Node) → ℕ → Node
with_next n next node m = if m == n then record (node m) { lfn_next = next } else node m

pub Links-with_next :
    (node : ℕ → Node) (head : ℕ) (ns : List ℕ) (end n next : ℕ)
    → has n ns ≡ false
    → Links node head ns end
    → Links (with_next n next node) head ns end
Links-with_next node head [] end n next out l = l
Links-with_next node head (m ∷ ms) end n next out l = (
  l.0,
  rw (ne→== m n (ground arith))
      (Links-with_next node (node m).lfn_next ms end n next (ground arith) l.1),
)

-- The sequence goes on with the node that its last one names.
pub Links-snoc :
    (node : ℕ → Node) (head : ℕ) (ns : List ℕ) (n next : ℕ)
    → has n ns ≡ false
    → Links node head ns n
    → Links (with_next n next node) head (ns ++ n ∷ []) next
Links-snoc node head [] n next out l = (l, rw (eq→== n n refl) refl)
Links-snoc node head (m ∷ ms) n next out l = (
  l.0,
  rw (ne→== m n (ground arith)) (Links-snoc node (node m).lfn_next ms n next (ground arith) l.1),
)

pub Apart-cons : (ns ms : List ℕ) (m : ℕ) → has m ns ≡ false → Apart ns ms → Apart ns (m ∷ ms)
Apart-cons [] ms m out a = tt
Apart-cons (n ∷ ns) ms m out a = (ground (arith, a.0), Apart-cons ns ms m (ground arith) a.1)

pub has-snoc : (n m : ℕ) (ms : List ℕ) → has n (ms ++ m ∷ []) ≡ (has n ms || (n == m))
has-snoc n m [] = ground arith
has-snoc n m (x ∷ xs) = ground (arith, has-snoc n m xs)

pub Apart-snoc : (ns ms : List ℕ) (m : ℕ) → has m ns ≡ false → Apart ns ms → Apart ns (ms ++ m ∷ [])
Apart-snoc [] ms m out a = tt
Apart-snoc (n ∷ ns) ms m out a =
    (ground (arith, a.0, has-snoc n m ms), Apart-snoc ns ms m (ground arith) a.1)
