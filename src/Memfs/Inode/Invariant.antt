-- ===== src/Memfs/Inode/Invariant.antt =====
-- The invariant of an inode, which `CheckInvariants` states, and that the methods keep it.
use fuse.Base.{◌+◌, ◌*◌, ◌/◌, ◌%◌, ◌≡◌, false, true, [], length}
use fuse.Memfs.Inode.{Inode, is_dir, is_symlink, is_file, mode_dir, mode_symlink, mode_perm_count}
use fuse.Memfs.Inode.Entries.{OffsetsFrom, UniqueNames, UnusedBlank}

-- The mode has no bits but the permissions and those for directories and symbolic links. The last
-- field is not checked by the code: it holds since `RemoveChild` clears the name.
pub record IsValid (x : Inode) : Type 0 where
  pub mode_bits :
      x.attrs.mode
      ≡ x.attrs.mode % mode_perm_count
        + x.attrs.mode / mode_dir % 2 * mode_dir
        + x.attrs.mode / mode_symlink % 2 * mode_symlink
  pub one_kind : is_dir x ≡ true → is_symlink x ≡ false
  pub size_exact : x.attrs.size ≡ length x.contents
  pub only_dir_entries : is_dir x ≡ false → x.entries ≡ []
  pub offsets : OffsetsFrom 0 x.entries
  pub unique_names : UniqueNames x.entries
  pub only_file_contents : is_file x ≡ false → x.contents ≡ []
  pub only_link_target : is_symlink x ≡ false → x.target ≡ []
  pub unused_blank : UnusedBlank x.entries
