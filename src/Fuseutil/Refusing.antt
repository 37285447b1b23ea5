-- ===== src/Fuseutil/Refusing.antt =====
-- fuseutil: a file system that implements nothing answers every op with ENOSYS.
use fuse.Base.{ℕ, ◌≡◌, refl, ap, Option, some, List, [], ◌∷◌, false, ◌⊎◌, done, ◌>>=◌}
use fuse.Buffer.InMessage
use fuse.Buffer.OutMessage.{header_size}
use fuse.Buffer.OutMessage.Shrink.{IsValid}
use fuse.Fuseops
use fuse.Fuseops.{Op}
use fuse.Fuseops.Types.{OpContext}
use fuse.Fuseops.Inodes.{BatchForgetEntry}
use fuse.Conversions.Responses.{OpError, errno, no_response}
use fuse.Connection.Logging.{enosys}
use fuse.Connection.Ops.{Config, OpState, Session, Replied, out_header_bytes}
use fuse.Connection.Ops.Replies.{reply-error}
use fuse.Fuseutil.{not_implemented, forget_entries, handle_op, handle_and_reply}

refused_entries :
    (S : Type 0) (ctx : OpContext) (es : List BatchForgetEntry) (s : S)
    → forget_entries (not_implemented S) ctx es (some (errno enosys)) s
      ≡ done (some (errno enosys), s)
unfolding forget_entries not_implemented
refused_entries S ctx [] s = refl
refused_entries S ctx (e ∷ es) s = refl

handle_op-not_implemented :
    (S : Type 0) (op : Op) (s : S)
    → handle_op (not_implemented S) op s ≡ done (some (errno enosys), op, s)
unfolding handle_op not_implemented
handle_op-not_implemented S (Fuseops.stat_fs o) s = refl
handle_op-not_implemented S (Fuseops.look_up_inode o) s = refl
handle_op-not_implemented S (Fuseops.get_inode_attributes o) s = refl
handle_op-not_implemented S (Fuseops.set_inode_attributes o) s = refl
handle_op-not_implemented S (Fuseops.forget_inode o) s = refl
handle_op-not_implemented S (Fuseops.batch_forget o) s =
    ap
      (λ r.
        r >>= λ q. done (let q' : Option OpError × S = q in (q'.0, Fuseops.batch_forget o, q'.1)))
      (refused_entries S o.op_context o.entries s)
handle_op-not_implemented S (Fuseops.mk_dir o) s = refl
handle_op-not_implemented S (Fuseops.mk_node o) s = refl
handle_op-not_implemented S (Fuseops.create_file o) s = refl
handle_op-not_implemented S (Fuseops.create_link o) s = refl
handle_op-not_implemented S (Fuseops.create_symlink o) s = refl
handle_op-not_implemented S (Fuseops.rename o) s = refl
handle_op-not_implemented S (Fuseops.rm_dir o) s = refl
handle_op-not_implemented S (Fuseops.unlink o) s = refl
handle_op-not_implemented S (Fuseops.open_dir o) s = refl
handle_op-not_implemented S (Fuseops.read_dir o) s = refl
handle_op-not_implemented S (Fuseops.release_dir_handle o) s = refl
handle_op-not_implemented S (Fuseops.open_file o) s = refl
handle_op-not_implemented S (Fuseops.read_file o) s = refl
handle_op-not_implemented S (Fuseops.write_file o) s = refl
handle_op-not_implemented S (Fuseops.sync_file o) s = refl
handle_op-not_implemented S (Fuseops.flush_file o) s = refl
handle_op-not_implemented S (Fuseops.release_file_handle o) s = refl
handle_op-not_implemented S (Fuseops.read_symlink o) s = refl
handle_op-not_implemented S (Fuseops.remove_xattr o) s = refl
handle_op-not_implemented S (Fuseops.get_xattr o) s = refl
handle_op-not_implemented S (Fuseops.list_xattr o) s = refl
handle_op-not_implemented S (Fuseops.set_xattr o) s = refl
handle_op-not_implemented S (Fuseops.fallocate o) s = refl
handle_op-not_implemented S (Fuseops.sync_fs o) s = refl
handle_op-not_implemented S (Fuseops.interrupt o) s = refl
handle_op-not_implemented S (Fuseops.init o) s = refl
handle_op-not_implemented S (Fuseops.unknown o) s = refl

-- What is sent for a request to a file system that implements nothing.
abbrev pub Refuses : (S : Type 0) → Config → (ℕ → ℕ → ℕ) → OpState → ℕ ⊎ ℕ → Session → S → Type 0
Refuses S cfg until st w c s =
    (r : Replied) × (handle_and_reply (not_implemented S) cfg until st w c s ≡ done (r, s))
    × (r.sent
        ≡ some (
            out_header_bytes (record {
              len = header_size;
              error = enosys;
              unique = (InMessage.header st.in_msg).unique;
            })))

-- A file system that implements nothing keeps its state and answers every request in flight that has
-- a response, of whatever kind, with a valid message for the reply: with a bare header that has
-- ENOSYS and the request's unique ID.
pub handle_and_reply-not_implemented :
    (S : Type 0) (cfg : Config) (until : ℕ → ℕ → ℕ) (st : OpState) (w : ℕ ⊎ ℕ) (f : ℕ) (c : Session)
    (s : S)
    → c.requests.cancel_funcs (InMessage.header st.in_msg).unique ≡ some f
    → IsValid st.out_msg
    → no_response st.op ≡ false
    → Refuses S cfg until st w c s
unfolding handle_and_reply
handle_and_reply-not_implemented S cfg until st w f c s busy v responds =
    let (r, ran, sent) = reply-error cfg until st (errno enosys) w f c busy v responds in
    (r, rw (handle_op-not_implemented S st.op s, ◌>>=◌, ran) refl, sent)
