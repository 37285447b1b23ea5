-- ===== src/Forgetfs/Tests.antt =====
-- A lookup of "foo", and a directory that is made and forgotten.
use fuse.Base.{◌≡◌, refl, true, List, [], ◌∷◌, done, arith}
use fuse.Base.Bytes
use fuse.Forgetfs.{ForgetFs, new_forget_fs, child_of, check_invariants, destroy, check}
use fuse.Forgetfs.Ledger.{
  Event, look_up, forget, make_dir, open_it, run, legal, final, Agrees, Ends, Room,
}
use fuse.Forgetfs.Runs.{serve_lem}
use fuse.Forgetfs.Ending.{start, new_forget_fs-Agrees, run-check}

abbrev calls : List Event
calls = look_up 1 (102 ∷ 111 ∷ 111 ∷ []) ∷ make_dir 1 ∷ open_it 4 ∷ forget 4 1 ∷ forget 2 1 ∷ []

calls-legal : legal calls start ≡ true
unfolding legal child_of Bytes.bytes_eq
calls-legal = refl

start-Room : Room 5 start
start-Room = record { counts = λ j. ground arith; ids = omega arith }

serve_lem_example : Ends (legal calls start) (final calls start) (run calls new_forget_fs)
serve_lem_example = serve_lem calls new_forget_fs start new_forget_fs-Agrees start-Room

run-check_example :
    (fs : ForgetFs) × (fs' : ForgetFs) × (run calls new_forget_fs ≡ done fs)
    × Agrees fs (final calls start)
    × (check_invariants fs ≡ done tt)
    × (destroy fs ≡ done fs')
    × (check fs' ≡ done tt)
run-check_example = run-check calls calls-legal (omega arith)
