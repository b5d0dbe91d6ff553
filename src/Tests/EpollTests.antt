-- ===== src/Tests/EpollTests.antt =====
-- The server of epoll/epoll_server.c over concrete descriptors.
use linux_labs.Prelude.{◌≡◌, refl, inl, inr, none, some, List, [], ◌∷◌, arith}
use linux_labs.EpollServer.{Server, Ready, watching, each_ready, on_ready, ctl_del}
use linux_labs.EpollServer.Watches.{AreFair, Ran, each_ready-Ran}

-- Two connections, of which the first sends "hi" and ends.
abbrev reports : List Ready
reports =
    record { fd = 3; accepted = some 5; bytes_read = none }
    ∷ record { fd = 3; accepted = some 6; bytes_read = none }
    ∷ record { fd = 5; accepted = none; bytes_read = some (104 ∷ 105 ∷ []) }
    ∷ record { fd = 5; accepted = none; bytes_read = some [] }
    ∷ []

reports-AreFair : AreFair reports (watching 3 4)
unfolding watching on_ready ctl_del
reports-AreFair = (
  inl (refl, (5, refl, refl)),
  (inl (refl, (6, refl, refl)), (inr (ground arith, refl), (inr (ground arith, refl), tt))),
)

each_ready-Ran_example :
    (s' : Server) × (each_ready reports (watching 3 4) ≡ some s') × Ran reports (watching 3 4) s'
each_ready-Ran_example = each_ready-Ran reports (watching 3 4) reports-AreFair
