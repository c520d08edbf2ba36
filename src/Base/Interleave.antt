-- ===== src/Base/Interleave.antt =====
-- Lock-free code among other executors. A routine reads shared state, computes, and tries to install
-- the result by compare-and-set. What the others do is a schedule of windows, one for each such try:
-- their steps before the routine reads, and their steps between the read and the compare-and-set. A
-- try that makes more accesses to shared memory has more such points, `later`.
use Prim.Native.Nat.{ℕ}
use native.Mathlib.Omega.{arith}
use mathlib.Core.Path.{◌≡◌, refl, ap}
use mathlib.Core.Option.{Option, none, some}
use mathlib.Core.Logic.{◌⊎◌, inl, inr}
use mathlib.Core.List.{List, [], ◌∷◌, ◌++◌}

pub record Window (S : Type 0) : Type 0 where
  pub before : S → S
  pub between : S → S
  pub later : ℕ → S → S

-- A window in which the others do nothing.
abbrev pub quiet : {S : Type 0} → Window S
quiet = record { before = λ s. s; between = λ s. s; later = λ _ s. s }

-- A routine uses up windows. `none` means that the schedule has too few of them: the routine is
-- still running when the schedule ends.
abbrev pub Prog : Type 0 → Type 0 → Type 0
Prog S A = List (Window S) → S → Option (A × List (Window S) × S)

module _ {S A : Type 0} where
  abbrev pub pure : A → Prog S A
  pure a ws s = some (a, ws, s)

  -- One try, which cannot fail to complete.
  abbrev pub once : (Window S → S → A × S) → Prog S A
  once try [] s = none
  once try (w ∷ ws) s = let (a, s') = try w s in some (a, ws, s')

  -- `for(i = 1; !try(); i++) backoff_delay(i);`
  unfoldable pub retry : (Window S → S → Option A × S) → Prog S A
  retry try [] s = none
  retry try (w ∷ ws) s =
      let (r, s') = try w s in elim r [ some a ↦ some (a, ws, s') | none ↦ retry try ws s' ]

-- A loop ends with the try that succeeds.
pub retry_done :
    {S A : Type 0} (try : Window S → S → Option A × S) (w : Window S) (ws : List (Window S))
    (s s' : S) (a : A)
    → try w s ≡ (some a, s')
    → retry try (w ∷ ws) s ≡ some (a, ws, s')
unfolding retry
retry_done try w ws s s' a done = ground (arith, done)

-- A loop goes on after a try that does not succeed.
pub retry_again :
    {S A : Type 0} (try : Window S → S → Option A × S) (w : Window S) (ws : List (Window S))
    (s s' : S)
    → try w s ≡ (none, s')
    → retry try (w ∷ ws) s ≡ retry try ws s'
unfolding retry
retry_again try w ws s s' failed = ground (arith, failed)

infixl 5 ◌>>=◌ ◌>>◌
abbrev pub ◌>>=◌ : {S A B : Type 0} → Prog S A → (A → Prog S B) → Prog S B
◌>>=◌ m f ws s = elim (m ws s) [ none ↦ none | some (a, ws', s') ↦ f a ws' s' ]

abbrev pub ◌>>◌ : {S B : Type 0} → Prog S (Unit {0}) → Prog S B → Prog S B
m >> k = m >>= λ _. k

-- An access to memory that no other executor touches.
abbrev pub modify : {S : Type 0} → (S → S) → Prog S (Unit {0})
modify f ws s = some (tt, ws, f s)

abbrev pub gets : {S A : Type 0} → (S → A) → Prog S A
gets f ws s = some (f s, ws, s)

-- Every window of a schedule has a property.
abbrev pub Each : {S : Type 0} → (Window S → Type 0) → List (Window S) → Type 0
Each P [] = Unit {0}
Each P (w ∷ ws) = P w × Each P ws

-- The others leave a part of the state alone.
pub record Keeps {S A : Type 0} (f : S → A) (w : Window S) : Type 0 where
  pub before : (s : S) → f (w.before s) ≡ f s
  pub between : (s : S) → f (w.between s) ≡ f s

-- A property of the result and the state of a try that succeeds.
abbrev pub TryEnds : {S A : Type 0} → (A → S → Type 0) → Option A × S → Type 0
TryEnds P (none, s) = Unit {0}
TryEnds P (some a, s) = P a s

-- A property of the result and the state of a routine that ends within its schedule.
abbrev pub Ends : {S A : Type 0} → (A → S → Type 0) → Option (A × List (Window S) × S) → Type 0
Ends P none = Unit {0}
Ends P (some (a, ws, s)) = P a s

-- One of the windows has a property.
abbrev pub Some : {S : Type 0} → (Window S → Type 0) → List (Window S) → Type 0
Some P [] = ⊥
Some P (w ∷ ws) = P w ⊎ Some P ws

module _ {S A : Type 0} (try : Window S → S → Option A × S) (P : Window S → A → S → Type 0) where
  -- A loop ends in a window of its schedule, with what a try that succeeds in it gives.
  pub retry-Ends_window :
      ((w : Window S) (s : S) → TryEnds (P w) (try w s))
      → (ws : List (Window S)) (s : S) → Ends (λ a t. Some (λ w. P w a t) ws) (retry try ws s)
  unfolding retry
  retry-Ends_window one [] s = tt
  retry-Ends_window one (w ∷ ws) s = by_outcome (retry-Ends_window one ws) (try w s) (one w s)
    where
      later_window :
          (r : Option (A × List (Window S) × S))
          → Ends (λ a t. Some (λ v. P v a t) ws) r
          → Ends (λ a t. Some (λ v. P v a t) (w ∷ ws)) r
      later_window none e = tt
      later_window (some (a, vs, t)) e = inr e

      by_outcome :
          ((t : S) → Ends (λ a u. Some (λ v. P v a u) ws) (retry try ws t))
          → (o : Option A × S) → TryEnds (P w) o
          → Ends
              (λ a u. Some (λ v. P v a u) (w ∷ ws))
              (elim o.0 [ some a ↦ some (a, ws, o.1) | none ↦ retry try ws o.1 ])
      by_outcome more (some a, t) p = inl p
      by_outcome more (none, t) p = later_window (retry try ws t) (more t)

-- What the others do in the windows of tries that read and then compare and set.
abbrev pub others : {S : Type 0} → List (Window S) → S → S
others [] s = s
others (w ∷ ws) s = others ws (w.between (w.before s))

module _ {S A : Type 0} (Failed : Window S → S → Type 0) (Done : A → S → S → Type 0) where
  -- A try that fails leaves what the others did. One that succeeds goes from there on.
  abbrev pub TryRuns : Window S → S → Option A × S → Type 0
  TryRuns w s (none, t) = (t ≡ w.between (w.before s)) × Failed w s
  TryRuns w s (some a, t) = Done a (w.between (w.before s)) t

  abbrev pub AllFailed : List (Window S) → S → Type 0
  AllFailed [] s = Unit {0}
  AllFailed (w ∷ ws) s = Failed w s × AllFailed ws (w.between (w.before s))

  -- The windows that were used, in which all tries but the last one failed, and the state that the
  -- others made in them of `s`. A routine that does not end failed in every window.
  abbrev pub Runs : List (Window S) → S → Option (A × List (Window S) × S) → Type 0
  Runs ws s none = AllFailed ws s
  Runs ws s (some (a, left, t)) =
      (used : List (Window S)) × (w : Window S) × (ws ≡ used ++ w ∷ left)
      × AllFailed used s
      × Done a (w.between (w.before (others used s))) t

  pub retry-Runs :
      (try : Window S → S → Option A × S)
      → ((w : Window S) (s : S) → TryRuns w s (try w s))
      → (ws : List (Window S)) (s : S) → Runs ws s (retry try ws s)
  unfolding retry
  retry-Runs try one [] s = tt
  retry-Runs try one (w ∷ ws) s = by_outcome (retry-Runs try one ws) (try w s) (one w s)
    where
      one_more :
          (r : Option (A × List (Window S) × S))
          → Failed w s
          → Runs ws (w.between (w.before s)) r
          → Runs (w ∷ ws) s r
      one_more none f all = (f, all)
      one_more (some (a, left, t)) f (used, v, split, all, done) =
          (w ∷ used, v, ap (λ (vs : List (Window S)). w ∷ vs) split, (f, all), done)

      by_outcome :
          ((t : S) → Runs ws t (retry try ws t))
          → (o : Option A × S) → TryRuns w s o
          → Runs (w ∷ ws) s (elim o.0 [ some a ↦ some (a, ws, o.1) | none ↦ retry try ws o.1 ])
      by_outcome more (some a, t) p = ([], w, refl, tt, p)
      by_outcome more (none, t) p =
          rw p.0
            (one_more (retry try ws (w.between (w.before s))) p.1 (more (w.between (w.before s))))

-- The result of a routine that ends within its schedule.
abbrev pub result_of : {S A : Type 0} → Option (A × List (Window S) × S) → Option A
result_of none = none
result_of (some (a, ws, s)) = some a

-- A sequence goes on with the result of its first part.
pub bind_done :
    {S A B : Type 0} (m : Prog S A) (f : A → Prog S B) (ws ws' : List (Window S)) (s s' : S) (a : A)
    → m ws s ≡ some (a, ws', s')
    → (m >>= f) ws s ≡ f a ws' s'
bind_done {S} {A} {B} m f ws ws' s s' a e =
    ap
      (λ (o : Option (A × List (Window S) × S)). elim o as (λ _. Option (B × List (Window S) × S)) [
        | none ↦ none
        | some (b, vs, t) ↦ f b vs t
      ])
      e

-- A sequence does not end where its first part does not.
pub bind_stuck :
    {S A B : Type 0} (m : Prog S A) (f : A → Prog S B) (ws : List (Window S)) (s : S)
    → m ws s ≡ none
    → (m >>= f) ws s ≡ none
bind_stuck {S} {A} {B} m f ws s e =
    ap
      (λ (o : Option (A × List (Window S) × S)). elim o as (λ _. Option (B × List (Window S) × S)) [
        | none ↦ none
        | some (b, vs, t) ↦ f b vs t
      ])
      e
