-- ===== src/Broker/PacketId.antt =====
-- internal/broker/packet_id.go: the allocator of packet identifiers, a uint16 counter.
use dmqtt.Base.{ℕ, zero, suc, ◌+◌, ◌%◌, ◌≤◌, ◌<◌, ◌≡◌, ◌≢◌, nat_beq, if◌then◌else◌, arith}

pub record PacketIdAllocator : Type 0 where
  pub counter : ℕ

unfoldable pub new_packet_id_allocator : PacketIdAllocator
new_packet_id_allocator = record { counter = 0 }

-- `counter++` wraps at 2 ^ 16.
unfoldable pub next : PacketIdAllocator → PacketIdAllocator × ℕ
next a =
    let c = (a.counter + 1) % 65536 in
    let c' = if nat_beq c 0 then 1 else c in (record { counter = c' }, c')

-- The identifier that call number `n + 1` returns.
unfoldable pub nth_id : ℕ → PacketIdAllocator → ℕ
nth_id zero a = (next a).1
nth_id (suc n) a = nth_id n (next a).0

step_lem :
    (a : PacketIdAllocator)
    → a.counter < 65536
    → ((next a).1 ≡ a.counter % 65535 + 1) × ((next a).0.counter ≡ (next a).1)
unfolding next
step_lem a h = ground arith

-- The identifiers run through 1 to 65535 in turn, whatever the counter was.
nth_id_closed :
    (n : ℕ) (a : PacketIdAllocator) → a.counter < 65536 → nth_id n a ≡ (a.counter + n) % 65535 + 1
unfolding nth_id
nth_id_closed zero a h = omega (arith, step_lem a h)
nth_id_closed (suc n) a h =
    omega (arith, step_lem a h, nth_id_closed n (next a).0 (omega (arith, step_lem a h)))

-- Every identifier handed out is a valid one, from 1 to 65535, and two calls less than 65535 apart
-- never hand out the same.
pub nth_id_distinct :
    (a : PacketIdAllocator) (m n : ℕ)
    → a.counter < 65536
    → m < n
    → n < m + 65535
    → (1 ≤ nth_id m a) × (nth_id m a ≤ 65535) × (nth_id m a ≢ nth_id n a)
nth_id_distinct a m n h lo hi = omega (arith, nth_id_closed m a h, nth_id_closed n a h)
