-- ===== src/Http2/WindowSize/Examples.antt =====
-- A receive buffer that grows.
use plug2proxy.Prelude.{none, [], ◌∷◌, ◌++◌, arith}
use plug2proxy.Http2.WindowSize.{new_setter, check_window_sizes}
use plug2proxy.Http2.WindowSize.Told.{IsTold, check_window_sizes-IsTold}

check_window_sizes-IsTold_example :
    IsTold 6291456
      (check_window_sizes (new_setter, none) ((131072 ∷ 131072 ∷ []) ++ 6291456 ∷ [])).1
check_window_sizes-IsTold_example =
    check_window_sizes-IsTold (131072 ∷ 131072 ∷ []) 6291456 (omega arith) (omega arith)
