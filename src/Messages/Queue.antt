-- ===== src/Messages/Queue.antt =====
-- What the generated code uses of `heapless`: the queue `spsc::Queue`, behind `FreeQueue` and
-- `ReadyQueue` of src/export.rs, and the entries of a `BinaryHeap`.
use rtfm.Common.{
  ℕ, ◌<◌, ◌≡◌, Option, none, some, List, [], ◌∷◌, ◌++◌, length, ◌+◌, Bool, if◌then◌else◌,
}
use rtfm.Runtime.TimerQueue.{BinaryHeap}

module _ {A : Type 0} where
  -- How many entries of the list pass the test.
  abbrev pub count_if : (A → Bool) → List A → ℕ
  count_if p [] = 0
  count_if p (x ∷ xs) = (if p x then 1 else 0) + count_if p xs

-- `spsc::Queue`, as its documentation gives it: first in, first out. `enqueue_unchecked` does so
-- only if the queue is not full. The capacity is a parameter of the queue's type.
pub record Spsc (A : Type 0) : Type 1 where
  pub Queue : Type 0
  pub new : ℕ → Queue
  pub capacity : Queue → ℕ
  pub items : Queue → List A
  pub enqueue_unchecked : A → Queue → Queue
  pub dequeue : Queue → Option A × Queue
  pub items-new : (n : ℕ) → items (new n) ≡ []
  pub capacity-new : (n : ℕ) → capacity (new n) ≡ n
  pub items-enqueue :
      (a : A) (q : Queue)
      → length (items q) < capacity q
      → items (enqueue_unchecked a q) ≡ items q ++ a ∷ []
  pub capacity-enqueue : (a : A) (q : Queue) → capacity (enqueue_unchecked a q) ≡ capacity q
  pub dequeue-none : (q : Queue) → items q ≡ [] → dequeue q ≡ (none, q)
  pub dequeue-some :
      (q : Queue) (a : A) (rest : List A)
      → items q ≡ a ∷ rest
      → ((dequeue q).0 ≡ some a) × (items (dequeue q).1 ≡ rest)
  pub capacity-dequeue : (q : Queue) → capacity (dequeue q).1 ≡ capacity q

-- The entries of a heap of the capacity, in any order. `push_unchecked` adds one if the heap is not
-- full.
pub record Entries {A : Type 0} (H : BinaryHeap A) (capacity : ℕ) : Type 0 where
  pub entries : H.Heap → List A
  pub entries-empty : entries H.empty ≡ []
  pub entries-push :
      (p : A → Bool) (a : A) (h : H.Heap)
      → length (entries h) < capacity
      → count_if p (entries (H.push_unchecked a h)) ≡ count_if p (a ∷ entries h)
  pub entries-pop :
      (p : A → Bool) (h : H.Heap) (a : A)
      → H.peek h ≡ some a
      → count_if p (entries h) ≡ count_if p (a ∷ entries (H.pop_unchecked h).1)
