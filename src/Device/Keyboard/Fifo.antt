-- ===== src/Device/Keyboard/Fifo.antt =====
-- The key queue against a list of keys, the oldest first.
use rv32i.Base.{
  ℕ, ◌+◌, ◌-◌, ◌%◌, ◌<◌, ◌≡◌, ◌⊎◌, refl, arith, true, false, ◌==◌, List, [], ◌∷◌, ◌++◌, length,
  length-append, ok, fail, assertion, Bool-cases, inl, inr, ==_iff,
}
use rv32i.Machine.{update}
use rv32i.Device.{KeyQueue}
use rv32i.Device.Keyboard.{key_queue_len, nemu_key_none, key_enqueue, key_dequeue}

-- The places from `f` on, around the end of the array, hold the list.
abbrev pub Cells : (ℕ → ℕ) → ℕ → List ℕ → Type 0
Cells keys f [] = Unit
Cells keys f (x ∷ xs) = (keys f ≡ x) × Cells keys ((f + 1) % key_queue_len) xs

pub record IsQueue (q : KeyQueue) (xs : List ℕ) : Type 0 where
  pub front : q.key_f < key_queue_len
  pub rear : q.key_r ≡ (q.key_f + length xs) % key_queue_len
  pub room : length xs < key_queue_len
  pub cells : Cells q.key_queue q.key_f xs

Cells-append :
    (keys : ℕ → ℕ) (k f r : ℕ) (xs : List ℕ)
    → f < key_queue_len
    → length xs < key_queue_len
    → r ≡ (f + length xs) % key_queue_len
    → Cells keys f xs
    → Cells (update keys r k) f (xs ++ (k ∷ []))
Cells-append keys k f r [] hf room at c = (ground arith, tt)
Cells-append keys k f r (x ∷ xs) hf room at c = (
  ground arith,
  Cells-append keys k ((f + 1) % key_queue_len) r xs (omega arith) (omega arith) (omega arith) c.1,
)

-- What key_dequeue does to the list.
unfoldable pub pop_front : List ℕ → ℕ × List ℕ
pop_front [] = (nemu_key_none, [])
pop_front (x ∷ xs) = (x, xs)

-- A key sent to a queue of fewer than 1023 keys goes to its end; with 1023 keys in the queue the
-- assertion stops the emulator.
pub key_enqueue-append :
    (k : ℕ) (q : KeyQueue) (xs : List ℕ)
    → IsQueue q xs
    → ((length xs ≡ key_queue_len - 1) × (key_enqueue k q ≡ fail assertion))
      ⊎ ((length xs < key_queue_len - 1)
          × (q' : KeyQueue) × (key_enqueue k q ≡ ok q')
          × IsQueue q' (xs ++ (k ∷ [])))
unfolding key_enqueue
key_enqueue-append k q xs h = elim (Bool-cases ((q.key_r + 1) % key_queue_len == q.key_f)) [
  | inl full ↦
      let e : (q.key_r + 1) % key_queue_len ≡ q.key_f = (==_iff _ _).0 full in
      inl (omega (arith, h.rear, h.room, h.front, e), rw full refl)
  | inr free ↦ inr (
    ground (arith, h.rear, h.room, h.front),
    record q { key_queue = update q.key_queue q.key_r k; key_r = (q.key_r + 1) % key_queue_len },
    rw free refl,
    record {
      front = h.front;
      rear = omega (arith, h.rear, length-append xs (k ∷ []));
      room = omega (arith, length-append xs (k ∷ []), below_full free);
      cells = Cells-append q.key_queue k q.key_f q.key_r xs h.front h.room h.rear h.cells;
    },
  )
]
  where
    below_full : ((q.key_r + 1) % key_queue_len == q.key_f) ≡ false → length xs < key_queue_len - 1
    below_full free = ground (arith, h.rear, h.room, h.front)

-- key_dequeue takes the oldest key, and gives NEMU_KEY_NONE for an empty queue.
pub key_dequeue-pop_front :
    (q : KeyQueue) (xs : List ℕ)
    → IsQueue q xs
    → let (key, rest) = pop_front xs in ((key_dequeue q).0 ≡ key) × IsQueue (key_dequeue q).1 rest
unfolding key_dequeue pop_front
key_dequeue-pop_front q [] h =
    let same : (q.key_f == q.key_r) ≡ true = ground (arith, h.rear, h.front) in rw same (refl, h)
key_dequeue-pop_front q (x ∷ xs) h =
    let differ : (q.key_f == q.key_r) ≡ false = ground (arith, h.rear, h.front, h.room) in
    rw differ (
      h.cells.0,
      record {
        front = omega arith;
        rear = omega (arith, h.rear);
        room = omega (arith, h.room);
        cells = h.cells.1;
      },
    )
