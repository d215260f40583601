-- ===== src/Tests/Connections.antt =====
-- The connections of a server at concrete inputs.
use easyrpc.Prelude.{
  ℕ, ◌+◌, ◌-◌, ◌^◌, ◌≤◌, ◌≡◌, ◌↔◌, inr, refl, Bool, true, none, Bytes, codes, arith, replicate,
}
use easyrpc.Prelude.Outcome.{Outcome, done, fault}
use easyrpc.Header.{little_endian, CallMode, non_raw, RequestHeader, request_of_bytes}
use easyrpc.Connection.{Connection, on_head, on_body, head_accepted}
use easyrpc.Connection.Head.{IsDropped, on_head_refuses}
use easyrpc.Connection.Body.{on_body_faults_iff}
use easyrpc.Tests.World.{pipes, pipes_laws, connection}

-- A router that takes every request, and counts.
abbrev count : Bytes → Bytes → CallMode → ℕ → Outcome (Bool × ℕ)
count protocol body mode n = done (true, n + 1)

-- Lengths whose sum is 2^32 + 5.
abbrev wrapping : RequestHeader
wrapping = record { protocol_len = 2 ^ 32 - 1; body_len = 6; mode = non_raw }

abbrev wrapped : Connection pipes
wrapped = record connection { req_head = wrapping }

wrapping_accepted : head_accepted wrapping ≡ true
unfolding head_accepted
wrapping_accepted = refl

on_body_faults_iff_example :
    (on_body count none (codes "hello") wrapped 0 ≡ fault) ↔ (2 ^ 32 ≤ 2 ^ 32 - 1 + 6)
on_body_faults_iff_example =
    on_body_faults_iff count (codes "hello") wrapped 0 (λ p b m e. cc) (omega arith) refl refl

-- So it does read outside of its buffer there.
wrapped_faults : on_body count none (codes "hello") wrapped 0 ≡ fault
wrapped_faults =
    (on_body_faults_iff count (codes "hello") wrapped 0 (λ p b m e. cc) (omega arith) refl refl).1
      (omega arith)

-- A header of zeros.
on_head_refuses_example : IsDropped (on_head little_endian none (replicate 12 0) connection)
unfolding request_of_bytes head_accepted
on_head_refuses_example =
    on_head_refuses pipes_laws little_endian none (replicate 12 0) connection (inr (inr refl))
