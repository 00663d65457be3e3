-- ===== src/Server/Transfers.antt =====
-- What the main thread makes of a read and of a write that lie in the server's pipe.
use server_client.Common.{
  ℕ, ◌≤◌, ◌<◌, ◌≡◌, refl, ap, ◌∙◌, subst, Bool, List, ◌++◌, arith, length, length-take, take-append,
  take, drop, lt→ltb, le→ltb, ℤ, pos,
}
use server_client.Wire.Text.{int_field}
use server_client.Wire.Decimal.{append_assoc}
use server_client.Wire.Pipes.{Os, got, stored, zeros}
use server_client.Client.Messages.{read_message, write_message}
use server_client.Server.{ServerState, returned, wake, increment_counter}
use server_client.Server.Handlers.{tfs_handle_read, tfs_handle_write, read_text}
use server_client.Server.Asked.{read_request, write_request}
use server_client.Server.Main.{dispatch, serve}
use server_client.Wire.Stream.{slait-Holds}
use server_client.Server.Delivery.{read_field-Holds, read_field_or_exit-Holds, serve-Holds}

module _ {W : Type 0} (os : Os W) (fd : ℤ) (Holds : W → List ℕ → Type 0)
    (pipe : (w : W) (bytes rest : List ℕ)
      → Holds w (bytes ++ rest)
      → ((os.read_pipe w fd (length bytes)).1 ≡ got bytes)
        × Holds (os.read_pipe w fd (length bytes)).0 rest) where
  tfs_handle_read-Holds :
      (w : W) (s : ServerState) (rest : List ℕ) (i h len : ℕ)
      → s.fserv ≡ fd
      → i < 10
      → h < 1000
      → len < 1000
      → Holds w (int_field (pos i) ++ (int_field (pos h) ++ (int_field (pos len) ++ rest)))
      → (w' : W) × (tfs_handle_read os w s
          ≡ returned (w', increment_counter (wake s i (read_request s i h len))))
        × Holds w' rest
  unfolding tfs_handle_read
  tfs_handle_read-Holds w s rest i h len at in_table small short holds =
      let b0 = zeros 100 in
      let b1 = stored (int_field (pos i)) b0 in
      let b2 = stored (int_field (pos h)) b1 in
      let after_id = int_field (pos h) ++ (int_field (pos len) ++ rest) in
      let (w1, e1, holds1) =
        read_field-Holds os fd Holds pipe w s b0 after_id i at (omega arith) holds in
      let (w2, e2, holds2) =
        read_field-Holds os fd Holds pipe w1 s b1 (int_field (pos len) ++ rest) h at small holds1 in
      let (w3, e3, holds3) = read_field-Holds os fd Holds pipe w2 s b2 rest len at short holds2 in
      (w3, rw (e1, e2, e3, lt→ltb i 10 in_table) refl, holds3)

  -- From a pipe that gives out its bytes in order, the main loop takes the whole read that a client
  -- of session `i < 10` writes, for a handle and a length below 1000, and wakes the slave `i` with
  -- that read.
  pub serve-read_message :
      (open_server : W → W × ℤ) (bad_fd : Bool) (attempts : ℕ) (garbage : List ℕ) (w : W)
      (s : ServerState) (i h len : ℕ) (rest : List ℕ)
      → s.fserv ≡ fd
      → i < 10
      → h < 1000
      → len < 1000
      → Holds w (read_message (pos i) (pos h) len ++ rest)
      → (w' : W) × (serve os open_server bad_fd attempts garbage w s
          ≡ returned (w', increment_counter (wake s i (read_request s i h len))))
        × Holds w' rest
  unfolding read_message dispatch
  serve-read_message open_server bad_fd attempts garbage w s i h len rest at in_table small short
        holds =
      let id = int_field (pos i) in
      let handle = int_field (pos h) in
      let size = int_field (pos len) in
      let fields = (id ++ (handle ++ size)) ++ rest in
      let (w1, e1, holds1) =
        serve-Holds os fd Holds pipe open_server bad_fd attempts garbage w s 6 fields at
          (omega arith) holds in
      let split : fields ≡ id ++ (handle ++ (size ++ rest)) =
        append_assoc id (handle ++ size) rest ∙ ap (◌++◌ id) (append_assoc handle size rest) in
      let (w2, e2, holds2) =
        tfs_handle_read-Holds w1 s rest i h len at in_table small short
          (subst (Holds w1) split holds1) in
      (w2, e1 ∙ e2, holds2)

  read_text-Holds :
      (w : W) (s : ServerState) (buffer text rest : List ℕ) (len : ℕ)
      → s.fserv ≡ fd
      → length text ≡ len
      → len ≤ 100
      → Holds w (text ++ rest)
      → (w' : W) × (read_text os w s buffer len ≡ returned (w', text)) × Holds w' rest
  unfolding read_text
  read_text-Holds w s buffer text rest len at whole fits holds =
      let (w', e, holds') = slait-Holds os fd Holds pipe w s.fserv len text rest at whole holds in
      let fits' : length text ≤ 100 = omega arith in
      let same = take-append len text (drop (length text) (zeros len ++ drop len buffer)) whole in
      (w', rw (le→ltb 100 len fits, e, le→ltb 100 (length text) fits', same) refl, holds')

  tfs_handle_write-Holds :
      (garbage : List ℕ) (w : W) (s : ServerState) (text rest : List ℕ) (i h len : ℕ)
      → s.fserv ≡ fd
      → i < 10
      → h < 1000
      → length text ≡ len
      → len ≤ 100
      → Holds w
          (int_field (pos i) ++ (int_field (pos h) ++ (int_field (pos len) ++ (text ++ rest))))
      → (w' : W) × (tfs_handle_write os garbage w s
          ≡ returned (w', increment_counter (wake s i (write_request s i h text len))))
        × Holds w' rest
  unfolding tfs_handle_write
  tfs_handle_write-Holds garbage w s text rest i h len at in_table small whole fits holds =
      let b1 = stored (int_field (pos i)) garbage in
      let b2 = stored (int_field (pos h)) b1 in
      let b3 = stored (int_field (pos len)) b2 in
      let after_handle = int_field (pos len) ++ (text ++ rest) in
      let (w1, e1, holds1) =
        read_field_or_exit-Holds os fd Holds pipe w s garbage (int_field (pos h) ++ after_handle) i
          at (omega arith) holds in
      let (w2, e2, holds2) =
        read_field_or_exit-Holds os fd Holds pipe w1 s b1 after_handle h at small holds1 in
      let (w3, e3, holds3) =
        read_field_or_exit-Holds os fd Holds pipe w2 s b2 (text ++ rest) len at (omega arith)
          holds2 in
      let (w4, e4, holds4) = read_text-Holds w3 s b3 text rest len at whole fits holds3 in
      (w4, rw (e1, e2, e3, e4, lt→ltb i 10 in_table) refl, holds4)

  -- From a pipe that gives out its bytes in order, the main loop takes the whole write that a client
  -- of session `i < 10` writes, for a handle below 1000 and at most 100 bytes of its buffer, and wakes
  -- the slave `i` with these bytes.
  pub serve-write_message :
      (open_server : W → W × ℤ) (bad_fd : Bool) (attempts : ℕ) (garbage : List ℕ) (w : W)
      (s : ServerState) (i h len : ℕ) (buffer rest : List ℕ)
      → s.fserv ≡ fd
      → i < 10
      → h < 1000
      → len ≤ 100
      → len ≤ length buffer
      → Holds w (write_message (pos i) (pos h) buffer len ++ rest)
      → (w' : W) × (serve os open_server bad_fd attempts garbage w s
          ≡ returned (w', increment_counter (wake s i (write_request s i h (take len buffer) len))))
        × Holds w' rest
  unfolding write_message dispatch
  serve-write_message open_server bad_fd attempts garbage w s i h len buffer rest at in_table small
        fits enough holds =
      let id = int_field (pos i) in
      let handle = int_field (pos h) in
      let size = int_field (pos len) in
      let text = take len buffer in
      let fields = (id ++ (handle ++ (size ++ text))) ++ rest in
      let (w1, e1, holds1) =
        serve-Holds os fd Holds pipe open_server bad_fd attempts garbage w s 5 fields at
          (omega arith) holds in
      let split : fields ≡ id ++ (handle ++ (size ++ (text ++ rest))) =
        append_assoc id (handle ++ (size ++ text)) rest
        ∙ ap (◌++◌ id) (append_assoc handle (size ++ text) rest)
        ∙ ap (λ l. id ++ (handle ++ l)) (append_assoc size text rest) in
      let whole : length text ≡ len = length-take len buffer ∙ omega arith in
      let (w2, e2, holds2) =
        tfs_handle_write-Holds garbage w1 s text rest i h len at in_table small whole fits
          (subst (Holds w1) split holds1) in
      (w2, e1 ∙ e2, holds2)
