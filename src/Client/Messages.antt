-- ===== src/Client/Messages.antt =====
-- The requests that tecnicofs_client_api.c writes: a digit for the operation, then fields of four
-- bytes in decimal, a name of 40 bytes, and the bytes of a write.
use server_client.Common.{ℕ, ◌+◌, List, [], ◌∷◌, ◌++◌, take, ℤ, pos, negsuc, ◌%◌}
use server_client.Memory.{to_word}
use server_client.Wire.OpCode
use server_client.Wire.Text.{int_field}

abbrev pub name_size : ℕ
name_size = 40

-- `TFS_OP_CODE_... + '0'` as a `char`
abbrev pub op_char : ℕ → ℕ
op_char op_code = op_code + b'0'

unfoldable pub mount_message : List ℕ → List ℕ
mount_message path = op_char OpCode.mount ∷ take name_size path

unfoldable pub unmount_message : ℤ → List ℕ
unmount_message session_id = op_char OpCode.unmount ∷ int_field session_id

-- `(char) (flags + '0')`
abbrev pub flags_char : ℤ → ℕ
flags_char (pos n) = (n + b'0') % 256
flags_char (negsuc n) = (to_word (negsuc n) + b'0') % 256

unfoldable pub open_message : ℤ → List ℕ → ℤ → List ℕ
open_message session_id name flags =
    op_char OpCode.open_file
    ∷ (int_field session_id ++ (take name_size name ++ (flags_char flags ∷ [])))

unfoldable pub close_message : ℤ → ℤ → List ℕ
close_message session_id fhandle =
    op_char OpCode.close_file ∷ (int_field session_id ++ int_field fhandle)

-- The length is printed in full and its first four bytes are sent.
unfoldable pub write_message : ℤ → ℤ → List ℕ → ℕ → List ℕ
write_message session_id fhandle buffer len =
    op_char OpCode.write_file
    ∷ (int_field session_id ++ (int_field fhandle ++ (int_field (pos len) ++ take len buffer)))

unfoldable pub read_message : ℤ → ℤ → ℕ → List ℕ
read_message session_id fhandle len =
    op_char OpCode.read_file ∷ (int_field session_id ++ (int_field fhandle ++ int_field (pos len)))

unfoldable pub shutdown_message : ℤ → List ℕ
shutdown_message session_id = op_char OpCode.shutdown ∷ int_field session_id
