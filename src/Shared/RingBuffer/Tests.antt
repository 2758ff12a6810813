-- ===== src/Shared/RingBuffer/Tests.antt =====
-- The theorem of the ring buffer at an input that meets its conditions.
use distributive_cache.Base.{ℕ, ◌%◌, ◌≡◌, ◌∷◌, [], arith, length, get_or, min}
use distributive_cache.Shared.RingBuffer.{push_all, empty_buffer, push_all-get_or}

push_all-get_or_example :
    let b = push_all {A = ℕ} (7 ∷ 8 ∷ 9 ∷ []) (empty_buffer 2) in
    (length b.buf ≡ min 2 3) × (get_or b.buf (2 % 2) 0 ≡ 9)
push_all-get_or_example =
    push_all-get_or 0 2 2 (7 ∷ 8 ∷ 9 ∷ []) (omega arith) (omega arith) (omega arith)
