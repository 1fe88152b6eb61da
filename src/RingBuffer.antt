-- ===== src/RingBuffer.antt =====
-- buffers/ring_buffer.py: `RingBuffer`. A slot that was never written holds `none`. The checks that
-- the capacity and an index are integers are the types of the model; slices are left out.
pub mod Contents
pub mod Queue
mod Tests
use nexus_smarttrading.Prelude.{
  ℕ, zero, suc, ◌+◌, ◌-◌, ◌%◌, ◌≤◌, ◌<◌, ◌==◌, Bool, Option, none, List, [], ◌∷◌, ◌++◌, ltb, leb,
  if◌then◌else◌, get_or, set, take, drop, replicate, Result, ok, raise, value_error, index_error,
  ◌>>◌, guard,
}
use nexus_smarttrading.Prelude.Int.{ℤ, pos, negsuc, ltb_ℤ, pos_part}

pub record RingBuffer {ℓ} (A : Type ℓ) : Type ℓ where
  pub capacity : ℕ
  pub buffer : List (Option A)
  pub start : ℕ
  pub size : ℕ

module _ {ℓ} {A : Type ℓ} where
  unfoldable pub init : ℤ → Result (RingBuffer A)
  init capacity =
      if ltb_ℤ (pos 0) capacity
      then ok (record {
        capacity = pos_part capacity;
        buffer = replicate (pos_part capacity) none;
        start = 0;
        size = 0;
      })
      else raise value_error

  unfoldable pub is_empty : RingBuffer A → Bool
  is_empty b = b.size == 0

  unfoldable pub is_full : RingBuffer A → Bool
  is_full b = b.size == b.capacity

  -- `self._buffer[i]`, for an index that is in range in every buffer that `init` and `append` build.
  abbrev pub read : List (Option A) → ℕ → Option A
  read buffer i = get_or buffer i none

  unfoldable pub oldest : RingBuffer A → Result (Option A)
  oldest b = if b.size == 0 then raise index_error else ok (read b.buffer b.start)

  unfoldable pub newest : RingBuffer A → Result (Option A)
  newest b =
      if b.size == 0
      then raise index_error
      else ok (read b.buffer ((b.start + b.size - 1) % b.capacity))

  unfoldable pub append : Option A → RingBuffer A → RingBuffer A
  append item b =
      if ltb b.size b.capacity
      then record b {
        buffer = set b.buffer ((b.start + b.size) % b.capacity) item;
        size = b.size + 1;
      }
      else record b { buffer = set b.buffer b.start item; start = (b.start + 1) % b.capacity }

  unfoldable pub clear : RingBuffer A → RingBuffer A
  clear b = record b { buffer = replicate b.capacity none; start = 0; size = 0 }

  unfoldable pub to_list : RingBuffer A → List (Option A)
  to_list b =
      if b.size == 0
      then []
      else if leb (b.start + b.size) b.capacity
      then drop b.start (take (b.start + b.size) b.buffer)
      else drop b.start (take b.capacity b.buffer)
        ++ take ((b.start + b.size) % b.capacity) b.buffer

  unfoldable pub at : RingBuffer A → ℕ → Result (Option A)
  at b i =
      if ltb i b.size then ok (read b.buffer ((b.start + i) % b.capacity)) else raise index_error

  -- `__getitem__` for an integer: a negative index counts from the end.
  unfoldable pub get_item : RingBuffer A → ℤ → Result (Option A)
  get_item b (pos i) = at b i
  get_item b (negsuc i) = if ltb i b.size then at b (b.size - (i + 1)) else raise index_error

  -- `__iter__`: the slots from a position on.
  unfoldable pub iterate : List (Option A) → ℕ → ℕ → ℕ → List (Option A)
  iterate buffer capacity i zero = []
  iterate buffer capacity i (suc n) = read buffer (i % capacity) ∷ iterate buffer capacity (i + 1) n

  unfoldable pub iter : RingBuffer A → List (Option A)
  iter b = iterate b.buffer b.capacity b.start b.size
