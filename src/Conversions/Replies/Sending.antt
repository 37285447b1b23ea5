-- ===== src/Conversions/Replies/Sending.antt =====
-- conversions.go: the message that `kernelResponse` sends.
use fuse.Base.{
  ℕ,
  ◌<◌,
  ◌≡◌,
  refl,
  ap,
  false,
  some,
  [],
  ◌>>=◌,
  Bytes.{Bytes},
  Word.{u32},
  done,
  arith,
}
use fuse.Kernel.Protocol.{Protocol}
use fuse.Kernel.Responses.{entry_out_size, attr_out_size}
use fuse.Buffer.OutMessage.{OutMessage, header_size, append_string, len}
use fuse.Buffer.OutMessage.Shrink.{IsValid, payload, shrink_to-ShrinksTo, len-payload}
use fuse.Fuseops.{
  Op, stat_fs, sync_fs, look_up_inode, get_inode_attributes, set_inode_attributes, forget_inode,
  batch_forget, read_symlink, mk_dir, mk_node, create_file, create_symlink, create_link, rename,
  rm_dir, unlink, open_dir, read_dir, release_dir_handle, open_file, read_file, write_file,
  sync_file, flush_file, release_file_handle, fallocate, remove_xattr, get_xattr, list_xattr,
  set_xattr, interrupt, init, unknown,
}
use fuse.Conversions.Responses.{
  OpError, error_number, no_response, read_response, kernel_response_for_op, kernel_response,
  with_len,
}
use fuse.Conversions.Replies.{response_bytes, IsAnswered, Answers, Responds}
use fuse.Conversions.Replies.Segments.{
  append_bytes_Answers, put_struct-Answers, shrink_to-Answers, two_structs_Answers,
  AllBytes-read_response, read_Answers, xattr_Answers,
}

entry_out_size_pos : (p : Protocol) → 0 < entry_out_size p
unfolding entry_out_size
entry_out_size_pos p = ground arith

attr_out_size_pos : (p : Protocol) → 0 < attr_out_size p
unfolding attr_out_size
attr_out_size_pos p = ground arith

module _ (storage : Bytes) (until : ℕ → ℕ → ℕ) (p : Protocol) (m : OutMessage) (v : IsValid m) where
  kernel_response_for_op_lem :
      (op : Op)
      → IsAnswered storage op (payload m)
      → Answers
          (response_bytes storage until p op (payload m))
          m
          (kernel_response_for_op storage until p op m)
  unfolding kernel_response_for_op response_bytes IsAnswered append_string
  kernel_response_for_op_lem (look_up_inode o) h = put_struct-Answers _ _ m v (entry_out_size_pos p)
  kernel_response_for_op_lem (mk_dir o) h = put_struct-Answers _ _ m v (entry_out_size_pos p)
  kernel_response_for_op_lem (mk_node o) h = put_struct-Answers _ _ m v (entry_out_size_pos p)
  kernel_response_for_op_lem (create_symlink o) h =
      put_struct-Answers _ _ m v (entry_out_size_pos p)
  kernel_response_for_op_lem (create_link o) h = put_struct-Answers _ _ m v (entry_out_size_pos p)
  kernel_response_for_op_lem (get_inode_attributes o) h =
      put_struct-Answers _ _ m v (attr_out_size_pos p)
  kernel_response_for_op_lem (set_inode_attributes o) h =
      put_struct-Answers _ _ m v (attr_out_size_pos p)
  kernel_response_for_op_lem (create_file o) h =
      two_structs_Answers _ _ _ _ m v (entry_out_size_pos p) (omega arith)
  kernel_response_for_op_lem (open_dir o) h = put_struct-Answers _ _ m v (omega arith)
  kernel_response_for_op_lem (open_file o) h = put_struct-Answers _ _ m v (omega arith)
  kernel_response_for_op_lem (write_file o) h = put_struct-Answers _ _ m v (omega arith)
  kernel_response_for_op_lem (stat_fs o) h = put_struct-Answers _ _ m v (omega arith)
  kernel_response_for_op_lem (init o) h = put_struct-Answers _ _ m v (omega arith)
  kernel_response_for_op_lem (read_dir o) h = shrink_to-Answers o.bytes_read m v h
  kernel_response_for_op_lem (read_file o) h =
      read_Answers o.bytes_read (read_response storage o.dst o.payload) m v
        (AllBytes-read_response storage o.dst o.payload) h
  kernel_response_for_op_lem (read_symlink o) h = append_bytes_Answers o.target m v
  kernel_response_for_op_lem (get_xattr o) h = xattr_Answers o.dst o.bytes_read m v h
  kernel_response_for_op_lem (list_xattr o) h = xattr_Answers o.dst o.bytes_read m v h
  kernel_response_for_op_lem (rename o) h = (m, refl, v, refl, refl)
  kernel_response_for_op_lem (rm_dir o) h = (m, refl, v, refl, refl)
  kernel_response_for_op_lem (unlink o) h = (m, refl, v, refl, refl)
  kernel_response_for_op_lem (release_dir_handle o) h = (m, refl, v, refl, refl)
  kernel_response_for_op_lem (sync_file o) h = (m, refl, v, refl, refl)
  kernel_response_for_op_lem (flush_file o) h = (m, refl, v, refl, refl)
  kernel_response_for_op_lem (release_file_handle o) h = (m, refl, v, refl, refl)
  kernel_response_for_op_lem (remove_xattr o) h = (m, refl, v, refl, refl)
  kernel_response_for_op_lem (set_xattr o) h = (m, refl, v, refl, refl)
  kernel_response_for_op_lem (fallocate o) h = (m, refl, v, refl, refl)
  kernel_response_for_op_lem (sync_fs o) h = (m, refl, v, refl, refl)
  kernel_response_for_op_lem (forget_inode o) h = absurd h
  kernel_response_for_op_lem (batch_forget o) h = absurd h
  kernel_response_for_op_lem (interrupt o) h = absurd h
  kernel_response_for_op_lem (unknown o) h = absurd h

-- An op that is answered has a response.
IsAnswered-responds :
    (storage before : Bytes) (op : Op) → IsAnswered storage op before → no_response op ≡ false
unfolding IsAnswered no_response
IsAnswered-responds storage before (look_up_inode o) h = refl
IsAnswered-responds storage before (mk_dir o) h = refl
IsAnswered-responds storage before (mk_node o) h = refl
IsAnswered-responds storage before (create_symlink o) h = refl
IsAnswered-responds storage before (create_link o) h = refl
IsAnswered-responds storage before (get_inode_attributes o) h = refl
IsAnswered-responds storage before (set_inode_attributes o) h = refl
IsAnswered-responds storage before (create_file o) h = refl
IsAnswered-responds storage before (open_dir o) h = refl
IsAnswered-responds storage before (open_file o) h = refl
IsAnswered-responds storage before (write_file o) h = refl
IsAnswered-responds storage before (stat_fs o) h = refl
IsAnswered-responds storage before (init o) h = refl
IsAnswered-responds storage before (read_dir o) h = refl
IsAnswered-responds storage before (read_file o) h = refl
IsAnswered-responds storage before (read_symlink o) h = refl
IsAnswered-responds storage before (get_xattr o) h = refl
IsAnswered-responds storage before (list_xattr o) h = refl
IsAnswered-responds storage before (rename o) h = refl
IsAnswered-responds storage before (rm_dir o) h = refl
IsAnswered-responds storage before (unlink o) h = refl
IsAnswered-responds storage before (release_dir_handle o) h = refl
IsAnswered-responds storage before (sync_file o) h = refl
IsAnswered-responds storage before (flush_file o) h = refl
IsAnswered-responds storage before (release_file_handle o) h = refl
IsAnswered-responds storage before (remove_xattr o) h = refl
IsAnswered-responds storage before (set_xattr o) h = refl
IsAnswered-responds storage before (fallocate o) h = refl
IsAnswered-responds storage before (sync_fs o) h = refl
IsAnswered-responds storage before (forget_inode o) h = absurd h
IsAnswered-responds storage before (batch_forget o) h = absurd h
IsAnswered-responds storage before (interrupt o) h = absurd h
IsAnswered-responds storage before (unknown o) h = absurd h

-- When the op has no error, its counts of bytes are not more than there are and it is one that is
-- answered (`IsAnswered`), `kernelResponse` on a valid message does not panic and asks for a
-- response: a valid message that carries the request's unique ID, whose body is the bytes that
-- `response_bytes` says of the op, and whose length field is its length modulo 2^32.
pub kernel_response_lem :
    (storage : Bytes) (until : ℕ → ℕ → ℕ) (p : Protocol) (fuse_id : ℕ) (op : Op) (m : OutMessage)
    → IsValid m
    → IsAnswered storage op (payload m)
    → Responds storage until p fuse_id op m
unfolding kernel_response len
kernel_response_lem storage until p fuse_id op m v answered =
    let h = record m { header = record (m.header) { unique = fuse_id } } in
    let (m', ran, valid, same, holds) =
      kernel_response_for_op_lem storage until p h v op answered in
    (
      with_len m',
      rw (IsAnswered-responds storage (payload m) op answered, ran, ◌>>=◌) refl,
      valid,
      ap (λ k. k.unique) same,
      ap (λ k. k.error) same,
      holds,
      ap u32 (len-payload m' valid),
    )

-- When the op has an error and is one to which the kernel expects a response, `kernelResponse` on a
-- valid message does not panic: whatever the message held, the response is the bare header, whose
-- length is 16, with the request's unique ID and the errno, or EIO for an error that is no errno.
pub kernel_response-error :
    (storage : Bytes) (until : ℕ → ℕ → ℕ) (p : Protocol) (fuse_id : ℕ) (op : Op) (e : OpError)
    (m : OutMessage)
    → IsValid m
    → no_response op ≡ false
    → (m' : OutMessage) × (kernel_response storage until p fuse_id op (some e) m ≡ done (false, m'))
      × IsValid m'
      × (m'.header ≡ record { len = header_size; error = error_number e; unique = fuse_id })
      × (payload m' ≡ [])
      × (len m' ≡ header_size)
unfolding kernel_response len
kernel_response-error storage until p fuse_id op e m v responds =
    let h : OutMessage = record m {
      header = record (m.header) { unique = fuse_id; error = error_number e };
    } in
    let (m', ran, (valid, same, holds, size)) =
      shrink_to-ShrinksTo header_size h v (omega arith) (omega (arith, len-payload h v)) in
    (
      with_len m',
      rw (responds, ran, ◌>>=◌) refl,
      valid,
      λ i. record { len = u32 (size i); error = (same i).error; unique = (same i).unique },
      holds,
      size,
    )
