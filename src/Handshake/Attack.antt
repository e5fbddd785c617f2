-- ===== src/Handshake/Attack.antt =====
-- The attack check of src/handshake/machine.rs.
use tungstenite_rs.Prelude.{
  ℕ, ◌+◌, ◌*◌, ◌≤◌, ◌<◌, ◌≡◌, refl, Bool, true, false, le→ltb_false, if◌then◌else◌, arith,
}
use tungstenite_rs.Types.{attack_attempt}
use tungstenite_rs.Result.{Result, ok, err}
use tungstenite_rs.Collector.{usize_max}
use tungstenite_rs.Handshake.Machine.{AttackCheck, add_usize, is_attack, check_incoming_packet_size}

-- What the check lets through: 64 KiB and 512 packets at most, and no more than 64 packets unless
-- they have 128 bytes on average.
pub record IsWithin (a : AttackCheck) : Type 0 where
  pub few_packets : a.number_of_packets ≤ 512
  pub few_bytes : a.number_of_bytes ≤ 65536
  pub large_packets : 64 < a.number_of_packets → a.number_of_packets * 128 ≤ a.number_of_bytes

abbrev pub counted_in : ℕ → AttackCheck → AttackCheck
counted_in size a = record {
  number_of_packets = a.number_of_packets + 1;
  number_of_bytes = a.number_of_bytes + size;
}

-- The verdict on a packet.
pub data Checked (size : ℕ) (a : AttackCheck) : Result AttackCheck → Type 0 where
  passes : IsWithin (counted_in size a) → Checked size a (ok (counted_in size a))
  attacks : ¬ IsWithin (counted_in size a) → Checked size a (err attack_attempt)

is_attack-IsWithin : (a : AttackCheck) → is_attack a ≡ false → IsWithin a
unfolding is_attack
is_attack-IsWithin a h = record {
  few_packets = ground arith;
  few_bytes = ground arith;
  large_packets = λ k. ground arith;
}

is_attack-not_IsWithin : (a : AttackCheck) → is_attack a ≡ true → ¬ IsWithin a
unfolding is_attack
is_attack-not_IsWithin a h w = ground (arith, w.few_packets, w.few_bytes, w.large_packets)

add_usize-ok : (a b : ℕ) → a + b ≤ usize_max → add_usize a b ≡ ok (a + b)
unfolding add_usize
add_usize-ok a b h = rw (le→ltb_false usize_max (a + b) h) refl

check_by_counting :
    (size : ℕ) (a : AttackCheck)
    → size ≤ 4096
    → IsWithin a
    → check_incoming_packet_size size a
      ≡ (if is_attack (counted_in size a) then err attack_attempt else ok (counted_in size a))
unfolding check_incoming_packet_size
check_by_counting size a h w =
    rw
      (
        add_usize-ok a.number_of_packets 1 (omega (arith, w.few_packets)),
        add_usize-ok a.number_of_bytes size (omega (arith, w.few_bytes)),
      )
      refl

-- A packet of at most 4096 bytes is let through exactly when the packets so far are within the
-- bounds with it, and is taken for an attack otherwise; counting never overflows.
pub check_incoming_packet_size-Checked :
    (size : ℕ) (a : AttackCheck)
    → size ≤ 4096
    → IsWithin a
    → Checked size a (check_incoming_packet_size size a)
check_incoming_packet_size-Checked size a h w =
    rw (check_by_counting size a h w) (by_verdict (is_attack (counted_in size a)) refl)
  where
    by_verdict :
        (b : Bool)
        → is_attack (counted_in size a) ≡ b
        → Checked size a (if b then err attack_attempt else ok (counted_in size a))
    by_verdict true e = attacks (is_attack-not_IsWithin (counted_in size a) e)
    by_verdict false e = passes (is_attack-IsWithin (counted_in size a) e)
