-- ===== src/Logger/Tests.antt =====
-- The names that the logger shows.
use fireactions.Prelude.{codes, ◌≡◌, refl}
use fireactions.Logger.{marshal_caller}

in_a_directory : marshal_caller (codes "/src/server/pool.go") 42 ≡ codes "pool.go:42"
unfolding marshal_caller
in_a_directory = refl

at_the_root : marshal_caller (codes "/pool.go") 42 ≡ codes "/pool.go:42"
unfolding marshal_caller
at_the_root = refl

bare : marshal_caller (codes "pool.go") 7 ≡ codes "pool.go:7"
unfolding marshal_caller
bare = refl
