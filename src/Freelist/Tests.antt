-- ===== src/Freelist/Tests.antt =====
-- The freelist on a few numbers for pointers.
use fuse.Base.{ℕ, ◌≡◌, refl, some, [], ◌∷◌}
use fuse.Freelist.{Freelist, get}

abbrev two_free : Freelist ℕ
two_free = record { list = 3 ∷ 5 ∷ [] }

get_two : get two_free ≡ (some 5, record { list = 3 ∷ [] })
unfolding get
get_two = refl
