-- ===== src/Server/Delivery.antt =====
-- What the main thread makes of a request that lies in the server's pipe.
use server_client.Common.{
  ℕ, ◌+◌, ◌%◌, ◌≤◌, ◌<◌, ◌≡◌, refl, ap, ◌∙◌, subst, Bool, List, [], ◌∷◌, ◌++◌, arith, length,
  length-take, take, drop, lt→ltb, ℤ, pos,
}
use server_client.Wire.Text.{int_field}
use server_client.Wire.Decimal.{atoi-int_field, atoi-op_char, append_assoc, length-int_field}
use server_client.Wire.Pipes.{Os, got, stored}
use server_client.Client.Messages.{op_char, close_message, open_message}
use server_client.Server.{ServerState, returned, wake, increment_counter}
use server_client.Server.Handlers.{
  read_field, read_field_or_exit, tfs_handle_close, tfs_handle_open,
}
use server_client.Wire.Stream.{slait-Holds}
use server_client.Server.Fields.{open_bytes, length-open_bytes, open_fields}
use server_client.Server.Asked.{close_request, open_request}
use server_client.Server.Main.{dispatch, serve}

module _ {W : Type 0} (os : Os W) (fd : ℤ) (Holds : W → List ℕ → Type 0)
    (pipe : (w : W) (bytes rest : List ℕ)
      → Holds w (bytes ++ rest)
      → ((os.read_pipe w fd (length bytes)).1 ≡ got bytes)
        × Holds (os.read_pipe w fd (length bytes)).0 rest) where
  -- A field is read as the number that was printed into it.
  pub read_field-Holds :
      (w : W) (s : ServerState) (buffer rest : List ℕ) (n : ℕ)
      → s.fserv ≡ fd
      → n < 1000
      → Holds w (int_field (pos n) ++ rest)
      → (w' : W) × (read_field os w s buffer
          ≡ returned (w', stored (int_field (pos n)) buffer, pos n, pos 4))
        × Holds w' rest
  unfolding read_field
  read_field-Holds w s buffer rest n at small holds =
      let field = int_field (pos n) in
      let (w', e, after) =
        slait-Holds os fd Holds pipe w s.fserv 4 field rest at (length-int_field (pos n)) holds in
      let value = atoi-int_field n (drop (length field) buffer) small in
      (w', rw e (ap (λ z. returned (w', stored field buffer, z, pos 4)) value), after)

  pub read_field_or_exit-Holds :
      (w : W) (s : ServerState) (buffer rest : List ℕ) (n : ℕ)
      → s.fserv ≡ fd
      → n < 1000
      → Holds w (int_field (pos n) ++ rest)
      → (w' : W) × (read_field_or_exit os w s buffer
          ≡ returned (w', stored (int_field (pos n)) buffer, pos n))
        × Holds w' rest
  unfolding read_field_or_exit
  read_field_or_exit-Holds w s buffer rest n at small holds =
      let (w', e, after) = read_field-Holds w s buffer rest n at small holds in
      (w', rw e refl, after)

  tfs_handle_close-Holds :
      (w : W) (s : ServerState) (garbage rest : List ℕ) (i h : ℕ)
      → s.fserv ≡ fd
      → i < 10
      → h < 1000
      → Holds w ((int_field (pos i) ++ int_field (pos h)) ++ rest)
      → (w' : W) × (tfs_handle_close os garbage w s
          ≡ returned (w', increment_counter (wake s i (close_request s i h))))
        × Holds w' rest
  unfolding tfs_handle_close
  tfs_handle_close-Holds w s garbage rest i h at in_table small holds =
      let split = append_assoc (int_field (pos i)) (int_field (pos h)) rest in
      let holds' = subst (Holds w) split holds in
      let (w1, e1, holds1) =
        read_field_or_exit-Holds w s garbage (int_field (pos h) ++ rest) i at (omega arith)
          holds' in
      let (w2, e2, holds2) =
        read_field_or_exit-Holds w1 s (stored (int_field (pos i)) garbage) rest h at small holds1 in
      (w2, rw (e1, e2, lt→ltb i 10 in_table) refl, holds2)

  -- The first byte of a request chooses the handler.
  pub serve-Holds :
      (open_server : W → W × ℤ) (bad_fd : Bool) (attempts : ℕ) (garbage : List ℕ) (w : W)
      (s : ServerState) (op_code : ℕ) (rest : List ℕ)
      → s.fserv ≡ fd
      → op_code < 10
      → Holds w ((op_char op_code) ∷ rest)
      → (w' : W) × (serve os open_server bad_fd attempts garbage w s
          ≡ dispatch os attempts garbage (pos op_code) w' s)
        × Holds w' rest
  unfolding serve
  serve-Holds open_server bad_fd attempts garbage w s op_code rest at small holds =
      let (w', e, after) =
        slait-Holds os fd Holds pipe w s.fserv 1 (op_char op_code ∷ []) rest at refl holds in
      let value = atoi-op_char op_code 99 small in
      (w', rw e (ap (λ z. dispatch os attempts garbage z w' s) value), after)

  -- From a pipe that gives out its bytes in order, the main loop takes the whole close that a client
  -- of session `i < 10` writes, for a handle below 1000, and wakes the slave `i` with that close,
  -- whatever its buffer held before.
  pub serve-close_message :
      (open_server : W → W × ℤ) (bad_fd : Bool) (attempts : ℕ) (garbage : List ℕ) (w : W)
      (s : ServerState) (i h : ℕ) (rest : List ℕ)
      → s.fserv ≡ fd
      → i < 10
      → h < 1000
      → Holds w (close_message (pos i) (pos h) ++ rest)
      → (w' : W) × (serve os open_server bad_fd attempts garbage w s
          ≡ returned (w', increment_counter (wake s i (close_request s i h))))
        × Holds w' rest
  unfolding close_message dispatch
  serve-close_message open_server bad_fd attempts garbage w s i h rest at in_table small holds =
      let (w1, e1, holds1) =
        serve-Holds open_server bad_fd attempts garbage w s 4
          ((int_field (pos i) ++ int_field (pos h)) ++ rest) at (omega arith) holds in
      let (w2, e2, holds2) =
        tfs_handle_close-Holds w1 s garbage rest i h at in_table small holds1 in
      (w2, e1 ∙ e2, holds2)

  tfs_handle_open-Holds :
      (w : W) (s : ServerState) (i : ℕ) (path : List ℕ) (flags : ℕ) (rest : List ℕ)
      → s.fserv ≡ fd
      → i < 10
      → length path ≡ 40
      → flags < 8
      → Holds w (open_bytes i path flags ++ rest)
      → (w' : W) × (tfs_handle_open os w s
          ≡ returned (w', increment_counter (wake s i (open_request s i path flags))))
        × Holds w' rest
  unfolding tfs_handle_open
  tfs_handle_open-Holds w s i path flags rest at in_table forty small holds =
      let bytes = open_bytes i path flags in
      let (w', e, holds') =
        slait-Holds os fd Holds pipe w s.fserv 45 bytes rest at
          (length-open_bytes i path flags forty) holds in
      let (id, name, last) = open_fields i path flags in_table forty small in
      (w', rw (e, id, name, last, lt→ltb i 10 in_table) refl, holds')

  -- From a pipe that gives out its bytes in order, the main loop takes the whole open that a client
  -- of session `i < 10` writes, of a name in at least 40 bytes and with flags below 8, and wakes the
  -- slave `i` with the first 40 bytes and these flags.
  pub serve-open_message :
      (open_server : W → W × ℤ) (bad_fd : Bool) (attempts : ℕ) (garbage : List ℕ) (w : W)
      (s : ServerState) (i : ℕ) (name : List ℕ) (flags : ℕ) (rest : List ℕ)
      → s.fserv ≡ fd
      → i < 10
      → 40 ≤ length name
      → flags < 8
      → Holds w (open_message (pos i) name (pos flags) ++ rest)
      → (w' : W) × (serve os open_server bad_fd attempts garbage w s
          ≡ returned (w', increment_counter (wake s i (open_request s i (take 40 name) flags))))
        × Holds w' rest
  unfolding open_message dispatch
  serve-open_message open_server bad_fd attempts garbage w s i name flags rest at in_table long
        small holds =
      let path = take 40 name in
      let char : (flags + b'0') % 256 ≡ flags + b'0' = omega arith in
      let forty : length path ≡ 40 = length-take 40 name ∙ omega arith in
      let bytes = open_bytes i path flags in
      let holds' : Holds w (op_char 3 ∷ (bytes ++ rest)) =
        subst (λ c. Holds w (op_char 3 ∷ ((int_field (pos i) ++ (path ++ (c ∷ []))) ++ rest))) char
          holds in
      let (w1, e1, holds1) =
        serve-Holds open_server bad_fd attempts garbage w s 3 (bytes ++ rest) at (omega arith)
          holds' in
      let (w2, e2, holds2) =
        tfs_handle_open-Holds w1 s i path flags rest at in_table forty small holds1 in
      (w2, e1 ∙ e2, holds2)
