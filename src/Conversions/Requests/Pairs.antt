-- ===== src/Conversions/Requests/Pairs.antt =====
-- conversions.go: `convertInMessage` on requests with two names, or with a name and a condition on it.
use fuse.Base.{
  ◌+◌,
  ◌-◌,
  ◌<◌,
  ◌≤◌,
  ◌≡◌,
  refl,
  sym,
  ap,
  ◌∙◌,
  Bool,
  true,
  false,
  [],
  ◌∷◌,
  ◌++◌,
  append_assoc,
  length,
  length-append,
  take,
  drop,
  take-append,
  drop-append,
  Bytes.{Bytes},
  arith,
  ◌||◌,
  ltb,
  ◌==◌,
}
use fuse.Kernel.Protocol.{Protocol}
use fuse.Kernel.Layout.{pack, length-pack, IsPacked}
use fuse.Kernel.Requests.Names.{RenameIn, LinkIn}
use fuse.Kernel.Requests.Files.{SetxattrIn}
use fuse.Kernel.Requests.Encode.{
  rename_in_fields, link_in_fields, setxattr_in_fields, decode_rename_in-pack, decode_link_in-pack,
  decode_setxattr_in-pack,
}
use fuse.Buffer.InMessage.{InHeader}
use fuse.Conversions.Exchange.{op_context, Exchange, ok, ◌>>=◌, ends_nul}
use fuse.Conversions.Incoming.Names.{
  convert_symlink, convert_rename, convert_link, convert_setxattr, two_names, skip_flags,
  zeros_first,
}
use fuse.Conversions.Reading.{
  Holds, IsName, name_before_nul_lem, rest_Holds, take_rest-Holds, read_both, advanced,
  index_nul-append, ends_nul-append,
}
use fuse.Conversions.Gives.{Gives}
use fuse.Conversions.Requests.{symlink, rename, link, setxattr, c_string, body}
use fuse.Conversions.Requests.Ops.{op, room_of}

drop-append_suc : (a b : Bytes) → drop (length a + 1) (a ++ 0 ∷ b) ≡ b
drop-append_suc a b =
    ap (drop (length a + 1)) (sym (append_assoc a (0 ∷ []) b))
    ∙ drop-append (a ++ 0 ∷ []) b (length a + 1) (sym (length-append a (0 ∷ [])))

module _ (v : Bool) (p : Protocol) (h : InHeader) (x : Exchange) where
  two_names_lem :
      (a b : Bytes) (y : Exchange) → IsName a → two_names (a ++ 0 ∷ c_string b) y ≡ ok ((a, b), y)
  unfolding two_names
  two_names_lem a b y is_name =
      let all = a ++ 0 ∷ c_string b in
      let size : length all ≡ length a + (length b + 2) =
        omega (arith, length-append a (0 ∷ c_string b), length-append b (0 ∷ [])) in
      let ends : ends_nul all ≡ true =
        ap ends_nul (sym (append_assoc a (0 ∷ b) (0 ∷ []))) ∙ ends_nul-append (a ++ 0 ∷ b) in
      let low : (ltb (length all - 1) (length a + 1) || ltb (length all) (length all - 1)) ≡ false =
        ground (arith, size) in
      let second : take (length all - 1 - (length a + 1)) (drop (length a + 1) all) ≡ b =
        ap (take (length all - 1 - (length a + 1))) (drop-append_suc a (c_string b))
        ∙ take-append b (0 ∷ []) (length all - 1 - (length a + 1)) (omega (arith, size)) in
      rw
        (
          ends,
          ◌>>=◌,
          index_nul-append a (c_string b) is_name,
          low,
          second,
          take-append a (0 ∷ c_string b) (length a) refl,
        )
        refl

  pub convert_symlink_lem :
      (name target : Bytes)
      → IsName name
      → Holds (body p (symlink name target)) x
      → Gives (convert_symlink h) (op v h (room_of x) (symlink name target)) x
  unfolding convert_symlink op_context
  convert_symlink_lem name target is_name r =
      let b = name ++ 0 ∷ c_string target in
      (
        advanced (length b) x,
        rw (take_rest-Holds b x r, ◌>>=◌, two_names_lem name target (advanced (length b) x) is_name)
            refl,
        rest_Holds b x r,
        refl,
      )

  -- A name that is not empty does not begin with zeros.
  skip_flags_lem : (a b : Bytes) → IsName a → 0 < length a → skip_flags (a ++ b) ≡ a ++ b
  unfolding skip_flags zeros_first
  skip_flags_lem [] b is_name pos = absurd (omega arith)
  skip_flags_lem (c ∷ a) b is_name pos =
      let not_nul : (c == 0) ≡ false = ground (arith, is_name.0) in rw not_nul refl

  pub convert_rename_lem :
      (s : RenameIn) (old new : Bytes)
      → IsPacked (rename_in_fields s)
      → IsName old
      → 0 < length old
      → 0 < length new
      → Holds (body p (rename s old new)) x
      → Gives (convert_rename h) (op v h (room_of x) (rename s old new)) x
  unfolding convert_rename op_context
  convert_rename_lem s old new fits is_name pos pos' r =
      let b = old ++ 0 ∷ c_string new in
      let (ran, rest_ran, empty) =
        read_both (pack (rename_in_fields s)) b 8 x r (length-pack (rename_in_fields s))
          (omega arith) in
      let x' = advanced (length b) (advanced 8 x) in
      let long : ltb (length b) 4 ≡ false =
        ground (arith, length-append old (0 ∷ c_string new), length-append new (0 ∷ [])) in
      let kept = skip_flags_lem old (0 ∷ c_string new) is_name pos in
      (
        x',
        rw
            (
              ran,
              ◌>>=◌,
              rest_ran,
              kept,
              long,
              kept,
              two_names_lem old new x' is_name,
              decode_rename_in-pack s fits,
            )
            refl,
        empty,
        refl,
      )

  pub convert_link_lem :
      (s : LinkIn) (name : Bytes)
      → IsPacked (link_in_fields s)
      → IsName name
      → 0 < length name
      → Holds (body p (link s name)) x
      → Gives (convert_link h) (op v h (room_of x) (link s name)) x
  unfolding convert_link op_context
  convert_link_lem s name fits is_name pos r =
      let (ran, rest_ran, empty) =
        read_both (pack (link_in_fields s)) (c_string name) 8 x r (length-pack (link_in_fields s))
          (omega arith) in
      let x' = advanced (length (c_string name)) (advanced 8 x) in
      let some_name : (length name == 0) ≡ false = ground arith in
      (
        x',
        rw
            (
              ran,
              ◌>>=◌,
              rest_ran,
              name_before_nul_lem name [] x' is_name,
              some_name,
              decode_link_in-pack s fits,
            )
            refl,
        empty,
        refl,
      )

  pub convert_setxattr_lem :
      (s : SetxattrIn) (name value : Bytes)
      → IsPacked (setxattr_in_fields s)
      → IsName name
      → 2 ≤ length (name ++ value)
      → Holds (body p (setxattr s name value)) x
      → Gives (convert_setxattr h) (op v h (room_of x) (setxattr s name value)) x
  unfolding convert_setxattr op_context
  convert_setxattr_lem s name value fits is_name two r =
      let b = name ++ 0 ∷ value in
      let (ran, rest_ran, empty) =
        read_both (pack (setxattr_in_fields s)) b 8 x r (length-pack (setxattr_in_fields s))
          (omega arith) in
      let long : ltb (length b) 3 ≡ false =
        ground (arith, length-append name (0 ∷ value), length-append name value) in
      (
        advanced (length b) (advanced 8 x),
        rw
            (
              ran,
              ◌>>=◌,
              rest_ran,
              long,
              index_nul-append name value is_name,
              take-append name (0 ∷ value) (length name) refl,
              drop-append_suc name value,
              decode_setxattr_in-pack s fits,
            )
            refl,
        empty,
        refl,
      )
