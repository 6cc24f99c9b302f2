-- ===== src/Psk/Tests/Line.antt =====
-- Records on a concrete serial line.
use modbus_serial_security_p.Base.{
  ℕ, zero, suc, ◌≡◌, ◌≤◌, ◌<◌, ◌⊎◌, refl, arith, [], ◌∷◌, ◌++◌, Bytes, ok, err, length, eof_error,
  to_bytes, be_bytes,
}
use modbus_serial_security_p.Psk.Records.{Uart, read_exact, send_record, recv_record}
use modbus_serial_security_p.Psk.Records.Laws.{UartLaws, read_exact_lem, recv-send_record}

-- A line that delivers one byte at a time: what is to arrive, and what was written.
abbrev pub slow_read : ℕ → Bytes × Bytes → Bytes × (Bytes × Bytes)
slow_read zero (pending, sent) = ([], (pending, sent))
slow_read (suc n) ([], sent) = ([], ([], sent))
slow_read (suc n) (b ∷ pending, sent) = (b ∷ [], (pending, sent))

abbrev pub slow_line : Uart
slow_line = record {
  State = Bytes × Bytes;
  read = slow_read;
  write = λ bs (pending, sent). (pending, sent ++ bs);
}

pub slow_front : (n : ℕ) (s : Bytes × Bytes) → (slow_read n s).0 ++ (slow_read n s).1.0 ≡ s.0
slow_front zero (pending, sent) = refl
slow_front (suc n) ([], sent) = refl
slow_front (suc n) (b ∷ pending, sent) = refl

pub slow_at_most : (n : ℕ) (s : Bytes × Bytes) → length (slow_read n s).0 ≤ n
slow_at_most zero (pending, sent) = omega arith
slow_at_most (suc n) ([], sent) = omega arith
slow_at_most (suc n) (b ∷ pending, sent) = omega arith

pub slow_some : (n : ℕ) (s : Bytes × Bytes) → 1 ≤ n → 1 ≤ length s.0 → 1 ≤ length (slow_read n s).0
slow_some zero (pending, sent) h k = absurd (omega arith)
slow_some (suc n) ([], sent) h k = absurd (omega arith)
slow_some (suc n) (b ∷ pending, sent) h k = omega arith

pub slow_keeps : (n : ℕ) (s : Bytes × Bytes) → (slow_read n s).1.1 ≡ s.1
slow_keeps zero (pending, sent) = refl
slow_keeps (suc n) ([], sent) = refl
slow_keeps (suc n) (b ∷ pending, sent) = refl

abbrev pub slow_laws : UartLaws slow_line
slow_laws = record {
  pending = λ s. s.0;
  sent = λ s. s.1;
  read_front = slow_front;
  read_at_most = slow_at_most;
  read_some = slow_some;
  read_keeps = slow_keeps;
  write_keeps = λ bs s. refl;
  write_end = λ bs s. refl;
}

read_exact_lem_example :
    ((3 < 2) × ((read_exact slow_line 2 (7 ∷ 8 ∷ 9 ∷ [], [])).0 ≡ err eof_error))
    ⊎ ((2 ≤ 3)
        × ((s' : Bytes × Bytes) × (read_exact slow_line 2 (7 ∷ 8 ∷ 9 ∷ [], [])
              ≡ (ok (7 ∷ 8 ∷ []), s'))
            × (s'.0 ≡ 9 ∷ [])
            × (s'.1 ≡ [])))
read_exact_lem_example = read_exact_lem slow_line slow_laws 2 (7 ∷ 8 ∷ 9 ∷ [], [])

record_sent : send_record slow_line (5 ∷ 6 ∷ []) ([], []) ≡ (ok tt, ([], 0 ∷ 2 ∷ 5 ∷ 6 ∷ []))
unfolding send_record to_bytes be_bytes
record_sent = refl

recv-send_record_example :
    (r' : Bytes × Bytes) × (recv_record slow_line (0 ∷ 2 ∷ 5 ∷ 6 ∷ 9 ∷ [], [])
      ≡ (ok (5 ∷ 6 ∷ []), r'))
    × (r'.0 ≡ 9 ∷ [])
recv-send_record_example =
    recv-send_record slow_line slow_laws (5 ∷ 6 ∷ []) (0 ∷ 2 ∷ 5 ∷ 6 ∷ []) (9 ∷ []) ([], [])
      ([], 0 ∷ 2 ∷ 5 ∷ 6 ∷ []) (0 ∷ 2 ∷ 5 ∷ 6 ∷ 9 ∷ [], []) record_sent refl refl
