-- ===== src/Server/System/Invariant.antt =====
-- The session table as `main` sets it up: what its columns have to do with each other.
use server_client.Common.{
  ℕ, ◌+◌, ◌≤◌, ◌<◌, ◌≡◌, refl, ◌⊎◌, inl, Bool, ◌&&◌, not, arith, count, pos, minus_one, eqb_ℤ,
}
use server_client.Wire.OpCode
use server_client.Server.{ServerState, Slave, SessionState}
use server_client.Server.Sessions.{server_init, is_free_pos}

-- A slave that has been left an unmount and has not begun with it.
abbrev is_unmounting : Slave → Bool
is_unmounting slave = slave.wake_up && eqb_ℤ slave.request.op_code (pos OpCode.unmount)

abbrev is_taken_pos : SessionState → Bool
is_taken_pos a = not (is_free_pos a)

abbrev unmounting : ServerState → ℕ
unmounting s = count is_unmounting s.slaves 10

abbrev taken_positions : ServerState → ℕ
taken_positions s = count is_taken_pos s.free_sessions 10

-- Every slave knows its number, a session is empty or carries its own number, and the open sessions
-- and those that wait for their unmount together have at most the positions that are taken.
pub record SessionInv (s : ServerState) : Type 0 where
  pub numbers : (i : ℕ) → i < 10 → (s.slaves i).session_id ≡ pos i
  pub own :
      (i : ℕ)
      → i < 10
      → ((s.sessions i).session_id ≡ minus_one) ⊎ ((s.sessions i).session_id ≡ pos i)
  pub counted : (n : ℕ) × (s.open_sessions ≡ pos n) × (n + unmounting s ≤ taken_positions s)

pub server_init-SessionInv : (s : ServerState) → SessionInv (server_init s).0
unfolding server_init count
server_init-SessionInv s = record {
  numbers = λ i below. ground arith;
  own = λ i below. inl (ground arith);
  counted = (0, refl, omega arith);
}
