-- ===== src/Fuseutil/Forgetting.antt =====
-- fuseutil/file_system.go: a batch of forgets on a file system that only forgets one by one.
use fuse.Base.{ℕ, ◌≡◌, refl, none, some, List, [], ◌∷◌, done, ◌>>=◌}
use fuse.Fuseops
use fuse.Fuseops.Types.{OpContext}
use fuse.Fuseops.Inodes.{BatchForgetEntry, BatchForgetOp, ForgetInodeOp}
use fuse.Conversions.Responses.{errno}
use fuse.Connection.Logging.{enosys}
use fuse.Fuseutil.{FileSystem, forget_entries, handle_op}

module _ {S : Type 0} (fs : FileSystem S) (forgets : ℕ → ℕ → S → S) where
  -- The state after the forgets, in the order of the batch.
  abbrev pub forget_all : List BatchForgetEntry → S → S
  forget_all [] s = s
  forget_all (e ∷ es) s = forget_all es (forgets e.inode e.n s)

  forget_entries_lem :
      (ctx : OpContext) (es : List BatchForgetEntry) (s : S)
      → ((o : ForgetInodeOp) (s : S) → fs.forget_inode o s ≡ done (none, o, forgets o.inode o.n s))
      → forget_entries fs ctx es none s ≡ done (none, forget_all es s)
  unfolding forget_entries
  forget_entries_lem ctx [] s single = refl
  forget_entries_lem ctx (e ∷ es) s single =
      rw (single (record { inode = e.inode; n = e.n; op_context = ctx }) s, ◌>>=◌)
        (forget_entries_lem ctx es (forgets e.inode e.n s) single)

  -- If the file system answers a batch with ENOSYS and changes nothing, and its single forgets have
  -- no error, then a batch of at least one entry is handled without an error, and the state is that
  -- after the single forgets, one for each entry, in order.
  pub handle_op-batch_forget :
      (ctx : OpContext) (e : BatchForgetEntry) (es : List BatchForgetEntry) (s : S)
      → ((o : BatchForgetOp) (s : S) → fs.batch_forget o s ≡ done (some (errno enosys), o, s))
      → ((o : ForgetInodeOp) (s : S) → fs.forget_inode o s ≡ done (none, o, forgets o.inode o.n s))
      → let batch = Fuseops.batch_forget (record { entries = e ∷ es; op_context = ctx }) in
        handle_op fs batch s ≡ done (none, batch, forget_all (e ∷ es) s)
  unfolding handle_op forget_entries
  handle_op-batch_forget ctx e es s no_batch single =
      rw
        (
          no_batch (record { entries = e ∷ es; op_context = ctx }) s,
          ◌>>=◌,
          single (record { inode = e.inode; n = e.n; op_context = ctx }) s,
          forget_entries_lem ctx es (forgets e.inode e.n s) single,
        )
        refl
