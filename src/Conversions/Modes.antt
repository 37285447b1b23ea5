-- ===== src/Conversions/Modes.antt =====
-- What the conversions of modes keep.
use fuse.Base.{
  ℕ, zero, suc, ◌+◌, ◌*◌, ◌/◌, ◌%◌, ◌<◌, ◌≡◌, ◌⊎◌, inl, inr, refl, sym, ap, ◌∙◌, if◌then◌else◌,
  ◌==◌, arith,
}
use fuse.Conversions.{
  go_type, convert_file_mode, unix_type, convert_go_mode, mode_socket, mode_setuid, mode_setgid,
  mode_char_device, mode_sticky,
}

-- A mode of Unix by its type, its three special bits and its permissions.
abbrev pub unix_mode : ℕ → ℕ → ℕ → ℕ → ℕ → ℕ
unix_mode type setuid setgid sticky perm =
    perm + type * 4096 + setuid * 2048 + setgid * 1024 + sticky * 512

-- A mode of Go with the bits `special` for its type.
abbrev pub go_mode : ℕ → ℕ → ℕ → ℕ → ℕ → ℕ
go_mode special setuid setgid sticky perm =
    perm + special + setuid * mode_setuid + setgid * mode_setgid + sticky * mode_sticky

-- The types that Unix has: pipes, character devices, directories, block devices, regular files,
-- symbolic links and sockets.
abbrev pub IsType : ℕ → Type 0
IsType t = (t ≡ 1) ⊎ ((t ≡ 2) ⊎ ((t ≡ 4) ⊎ ((t ≡ 6) ⊎ ((t ≡ 8) ⊎ ((t ≡ 10) ⊎ (t ≡ 12))))))

-- A bit that is set if the digit is 1.
flag : (d n : ℕ) → d < 2 → (if d == 1 then n else 0) ≡ d * n
flag zero n h = omega arith
flag (suc zero) n h = omega arith
flag (suc (suc d)) n h = absurd (omega arith)

module _ (setuid setgid sticky perm : ℕ) (u : setuid < 2) (g : setgid < 2) (s : sticky < 2)
    (p : perm < 512) where
  convert_file_mode_lem :
      (type : ℕ)
      → type < 16
      → convert_file_mode (unix_mode type setuid setgid sticky perm)
        ≡ go_mode (go_type type) setuid setgid sticky perm
  unfolding convert_file_mode
  convert_file_mode_lem type t =
      let m : ℕ = unix_mode type setuid setgid sticky perm in
      let same : m / 4096 % 16 ≡ type = omega arith in
      let perms : m % 512 ≡ perm = omega arith in
      let uid : m / 2048 % 2 ≡ setuid = omega arith in
      let gid : m / 1024 % 2 ≡ setgid = omega arith in
      let st : m / 512 % 2 ≡ sticky = omega arith in rw (same, perms, uid, gid, st) (ground arith)

  -- The fields of a mode of Go whose type has the bit 21 as in `char` and the bits from 24 on as in
  -- `high`.
  convert_go_mode_lem :
      (char high : ℕ)
      → char < 2
      → let m = go_mode (char * mode_char_device + high * mode_socket) setuid setgid sticky perm in
        convert_go_mode m ≡ unix_mode (unix_type m) setuid setgid sticky perm
  unfolding convert_go_mode
  convert_go_mode_lem char high c =
      let m : ℕ =
        go_mode (char * mode_char_device + high * mode_socket) setuid setgid sticky perm in
      let perms : m % 512 ≡ perm = omega arith in
      let uid : m / mode_setuid % 2 ≡ setuid = omega arith in
      let gid : m / mode_setgid % 2 ≡ setgid = omega arith in
      let st : m / mode_sticky % 2 ≡ sticky = omega arith in
      rw (perms, uid, gid, st, flag setuid 2048 u, flag setgid 1024 g, flag sticky 512 s) refl

  unix_type_lem :
      (type : ℕ) → IsType type → unix_type (go_mode (go_type type) setuid setgid sticky perm) ≡ type
  unfolding unix_type go_type
  unix_type_lem type (inl e) = rw e (ground arith)
  unix_type_lem type (inr (inl e)) = rw e (ground arith)
  unix_type_lem type (inr (inr (inl e))) = rw e (ground arith)
  unix_type_lem type (inr (inr (inr (inl e)))) = rw e (ground arith)
  unix_type_lem type (inr (inr (inr (inr (inl e))))) = rw e (ground arith)
  unix_type_lem type (inr (inr (inr (inr (inr (inl e)))))) = rw e (ground arith)
  unix_type_lem type (inr (inr (inr (inr (inr (inr e)))))) = rw e (ground arith)

  -- The bits of a type as those two parts.
  type_parts :
      (type : ℕ)
      → IsType type
      → (char : ℕ) × (high : ℕ) × ((char < 2)
          × (go_type type ≡ char * mode_char_device + high * mode_socket))
  unfolding go_type
  type_parts type (inl e) = (0, 2, (omega arith, rw e refl))
  type_parts type (inr (inl e)) = (1, 4, (omega arith, rw e refl))
  type_parts type (inr (inr (inl e))) = (0, 128, (omega arith, rw e refl))
  type_parts type (inr (inr (inr (inl e)))) = (0, 4, (omega arith, rw e refl))
  type_parts type (inr (inr (inr (inr (inl e))))) = (0, 0, (omega arith, rw e refl))
  type_parts type (inr (inr (inr (inr (inr (inl e)))))) = (0, 8, (omega arith, rw e refl))
  type_parts type (inr (inr (inr (inr (inr (inr e)))))) = (0, 1, (omega arith, rw e refl))

  -- A mode of Unix of a known type comes back when it is converted to Go's and back: its type, its
  -- special bits and its permissions.
  pub convert_go_mode-convert_file_mode :
      (type : ℕ)
      → IsType type
      → convert_go_mode (convert_file_mode (unix_mode type setuid setgid sticky perm))
        ≡ unix_mode type setuid setgid sticky perm
  convert_go_mode-convert_file_mode type known =
      let (char, high, (c, parts)) = type_parts type known in
      let back =
        convert_go_mode_lem char high c
        ∙ ap
            (λ b.
              unix_mode (unix_type (go_mode b setuid setgid sticky perm)) setuid setgid sticky perm)
            (sym parts) in
      ap convert_go_mode (convert_file_mode_lem type (ground arith))
      ∙ ap (λ b. convert_go_mode (go_mode b setuid setgid sticky perm)) parts
      ∙ back
      ∙ ap (λ t. unix_mode t setuid setgid sticky perm) (unix_type_lem type known)
