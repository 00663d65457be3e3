-- ===== src/Tests/System.antt =====
-- The server as a whole at concrete inputs.
use server_client.Common.{ℕ, ◌≡◌, refl, true, List, []}
use server_client.Operations.{Tfs}
use server_client.Server.{ServerState, returned}
use server_client.Server.Start.{Boot, set_up}
use server_client.Server.System.Started.{Ready, set_up-Ready}
use server_client.Tests.Messages.{open_again, server}
use server_client.Tests.Runs.{static_tfs}

abbrev boot : Boot (List ℕ)
boot = record {
  unlink_pipe = λ w. (w, true);
  make_pipe = λ w. (w, true);
  ignore_sigpipe = λ w. (w, true);
  catch_sigint = λ w. (w, true);
  open_server = open_again;
}

set_up-Ready_example :
    (w : List ℕ) × (s : ServerState) × (t : Tfs) × (set_up boot 1 true [] server static_tfs
      ≡ returned (w, s, t))
    × Ready s t
set_up-Ready_example =
    set_up-Ready boot 0 [] server static_tfs (λ v. refl) (λ v. refl) (λ v. refl) (λ v. refl)
      (λ v. refl)
