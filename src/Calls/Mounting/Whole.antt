-- ===== src/Calls/Mounting/Whole.antt =====
-- A mount from the client's call to the session that it gets.
use server_client.Common.{ℕ, ◌<◌, ◌≡◌, false, List, [], update, ℤ, pos, eqb_ℤ}
use server_client.Operations.{Tfs}
use server_client.Wire.Pipes.{Os}
use server_client.Client.{Files}
use server_client.Server.{ServerState, returned, taken_pos}
use server_client.Server.Sessions.{find_free_pos}
use server_client.Server.Threads.{World}
use server_client.Calls.{Connection, asleep}
use server_client.Calls.Mounting.{begun_session, joined, Rendezvous}

module _ {W : Type 0} (client_os server_os : Os W) (to_server from_client to_client from_server : ℤ)
    (conn : Connection client_os server_os to_server from_client to_client from_server)
    (files : Files W) (path server_path : List ℕ)
    (r : Rendezvous client_os server_os to_server from_client to_client from_server conn files path
      server_path)
    (open_server : W → W × ℤ) (garbage : List ℕ) (s : ServerState) (t : Tfs) (k : ℕ)
    (serves : s.fserv ≡ from_client) (below : k < 10) (number : (s.slaves k).session_id ≡ pos k)
    (unlocked : s.global_locked ≡ false) (room : eqb_ℤ s.open_sessions (pos 10) ≡ false)
    (found : find_free_pos s
      ≡ returned (record s { free_sessions = update s.free_sessions k taken_pos }, pos k)) where
  abbrev begun : ServerState
  begun = begun_session s k to_client

  abbrev after : ServerState
  after = joined (asleep begun k) k to_client

  -- The client's pipe holds `bytes`, and the server is as it was left.
  abbrev Left : World W → List ℕ → Type 0
  Left x bytes = conn.Holds x.0 [] bytes × (x.1 ≡ after) × (x.2 ≡ t)
