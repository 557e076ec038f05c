-- ===== src/Kafka/Buffers.antt =====
-- `PayloadBuffers` of src/kafka.rs: spare allocations for record payloads, within a budget. How
-- `Vec` grows when bytes are appended is a parameter: the capacity after holding `n` bytes in an
-- allocation of `c`.
pub mod Budget
use jkq.Prelude.{
  ltb, ◌==◌, if◌then◌else◌, Bytes, length, ℕ, ◌+◌, ◌-◌, ◌*◌, min, ◌||◌, List, [], ◌∷◌, ◌++◌,
}
use jkq.Records.{Buffer, empty_buffer, clear, RuntimeLimits}

abbrev pub max_reusable_payload_capacity : ℕ
max_reusable_payload_capacity = 16 * 1024

abbrev pub max_spare_payload_bytes : ℕ
max_spare_payload_bytes = 1024 * 1024

pub record PayloadBuffers : Type 0 where
  pub free : List Buffer
  pub capacity : ℕ
  pub max_records : ℕ
  pub max_bytes : ℕ
  pub max_buffer_capacity : ℕ

unfoldable pub new : RuntimeLimits → PayloadBuffers
new limits = record {
  free = [];
  capacity = 0;
  max_records = limits.max_inflight_records;
  max_bytes = min limits.max_inflight_bytes max_spare_payload_bytes;
  max_buffer_capacity = min limits.max_inflight_bytes max_reusable_payload_capacity;
}

-- `Vec::pop` takes the newest entry: the head of the list.
unfoldable pub pop : List Buffer → Buffer × List Buffer
pop [] = (empty_buffer, [])
pop (b ∷ bs) = (b, bs)

module _ (grow : ℕ → ℕ → ℕ) where
  -- `extend_from_slice`.
  abbrev pub extend : Buffer → Bytes → Buffer
  extend b source = record {
    bytes = b.bytes ++ source;
    capacity = grow b.capacity (length b.bytes + length source);
  }

  unfoldable pub copy : PayloadBuffers → Bytes → PayloadBuffers × Buffer
  unfolding pop
  copy pool source =
      if ltb pool.max_buffer_capacity (length source)
      then (pool, extend empty_buffer source)
      else (let (buffer, rest) = pop pool.free in
          (
            record pool { free = rest; capacity = pool.capacity - buffer.capacity },
            extend buffer source,
          ))

unfoldable pub recycle : PayloadBuffers → Buffer → PayloadBuffers
recycle pool buffer =
    if buffer.capacity == 0
      || ltb pool.max_buffer_capacity buffer.capacity
      || length pool.free == pool.max_records
      || ltb (pool.max_bytes - pool.capacity) buffer.capacity
    then pool
    else record pool { capacity = pool.capacity + buffer.capacity; free = clear buffer ∷ pool.free }
