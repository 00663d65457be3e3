-- ===== src/Wire/Pipes.antt =====
-- The pipes as client and server use them, and the loops of tecnicofs_ex2/fs/tfs_server.c that
-- read, write and open them. The operating system is a parameter.
use server_client.Common.{
  ℕ, zero, suc, ◌+◌, Bool, Option, none, some, List, [], ◌++◌, leb, length, drop, ◌==◌,
  if◌then◌else◌, ℤ, pos, negsuc, minus_one, eqb_ℤ, replicate,
}

-- What `read` returns: -1, or the bytes that it stored, none of them at the end of the file.
pub data ReadResult : Type 0 where
  failed : ReadResult
  got : List ℕ → ReadResult

-- The system calls, on a state `W` of everything outside the process.
pub record Os (W : Type 0) : Type 0 where
  pub read_pipe : W → ℤ → ℕ → W × ReadResult
  pub write_pipe : W → ℤ → List ℕ → W × ℤ
  pub open_pipe : W → List ℕ → W × ℤ
  pub close_pipe : W → ℤ → W × Bool

module _ {W : Type 0} (os : Os W) where
  -- The loop of `slait` after the bytes `done`, with `n` rounds left; each round asks for all of
  -- `len` again. The result is what the buffer got, and what the last `read` returned.
  unfoldable pub slait_from : ℕ → W → ℤ → ℕ → List ℕ → Option (W × List ℕ × ℤ)
  slait_from zero w fh len done = none
  slait_from (suc n) w fh len done =
      let (w', result) = os.read_pipe w fh len in
      elim result [
        | failed ↦ some (w', done, minus_one)
        | got bytes ↦
            let all = done ++ bytes in
            let rest = slait_from n w' fh len all in
            if length bytes == 0
            then some (w', done, pos 0)
            else if leb len (length all)
            then some (w', all, pos (length bytes))
            else rest
      ]

  -- `len + 1` rounds are enough, since every round but the last adds a byte.
  abbrev pub slait : W → ℤ → ℕ → Option (W × List ℕ × ℤ)
  slait w fh len = slait_from (suc len) w fh len []

  -- The loop of `slait_write` after `done` bytes, with `n` rounds left. `write` is given the whole
  -- buffer again after a short write.
  unfoldable pub slait_write_from : ℕ → W → ℤ → List ℕ → ℕ → Option (W × ℤ)
  slait_write_from zero w fcli buffer done = none
  slait_write_from (suc n) w fcli buffer done =
      let (w', result) = os.write_pipe w fcli buffer in
      elim result [
        | negsuc e ↦ some (w', negsuc e)
        | pos written ↦
            let rest = slait_write_from n w' fcli buffer (done + written) in
            if written == 0
            then some (w', pos 0)
            else if leb (length buffer) (done + written)
            then some (w', pos written)
            else rest
      ]

  abbrev pub slait_write : W → ℤ → List ℕ → Option (W × ℤ)
  slait_write w fcli buffer = slait_write_from (suc (length buffer)) w fcli buffer 0

  -- `slait_open` with `n` attempts: the source tries for ever, `none` stands for no success in `n`.
  unfoldable pub slait_open : ℕ → W → List ℕ → Option (W × ℤ)
  slait_open zero w name = none
  slait_open (suc n) w name =
      let (w', fcli) = os.open_pipe w name in
      let again = slait_open n w' name in if eqb_ℤ fcli minus_one then again else some (w', fcli)

-- The buffer of a reader after `bytes` were stored at its start.
abbrev pub stored : List ℕ → List ℕ → List ℕ
stored bytes buffer = bytes ++ drop (length bytes) buffer

-- `memset(buffer, '\0', n)` of a fresh buffer of `n` bytes.
abbrev pub zeros : ℕ → List ℕ
zeros n = replicate n 0
