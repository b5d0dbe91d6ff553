-- ===== src/EpollServer.antt =====
-- epoll/epoll_server.c: the descriptors that the server watches, and what it does with each that is
-- ready.
pub mod Watches
use linux_labs.Prelude.{
  ℕ, zero, suc, Bool, false, not, ◌||◌, Option, none, some, List, [], ◌∷◌, ◌++◌, ◌==◌,
  if◌then◌else◌,
}
use linux_labs.Resources.{Event, takes, descriptor}

-- `BUFLEN`
abbrev pub buf_len : ℕ
buf_len = 128

-- `epoll_sockfd`, the descriptors in `epoll_fd`, what was opened, and what was printed of the bytes
-- that were read: `none` is a text without an end in `buf`.
pub record Server : Type 0 where
  pub epoll_sockfd : ℕ
  pub watched : List ℕ
  pub events : List Event
  pub printed : List (Option (List ℕ))

-- One descriptor that `epoll_wait` reports, with what `accept` or `read` answers: `none` is an error,
-- and no bytes are the end.
pub record Ready : Type 0 where
  pub fd : ℕ
  pub accepted : Option ℕ
  pub bytes_read : Option (List ℕ)

abbrev pub has : ℕ → List ℕ → Bool
has fd [] = false
has fd (x ∷ xs) = (fd == x) || has fd xs

-- `EPOLL_CTL_ADD`, which fails for a descriptor that is there, and `EPOLL_CTL_DEL`.
abbrev pub ctl_add : ℕ → List ℕ → List ℕ
ctl_add fd l = if has fd l then l else fd ∷ l

unfoldable pub ctl_del : ℕ → List ℕ → List ℕ
ctl_del fd [] = []
ctl_del fd (x ∷ xs) = let rest = ctl_del fd xs in if fd == x then xs else x ∷ rest

-- What `%s` prints of `buf` after these bytes were read into it, zeros behind them.
unfoldable pub text_in : (room : ℕ) → List ℕ → Option (List ℕ)
text_in zero xs = none
text_in (suc n) [] = some []
text_in (suc n) (x ∷ xs) =
    let rest = text_in n xs in
    if x == 0 then some [] else elim rest [ none ↦ none | some t ↦ some (x ∷ t) ]

-- `none` is `exit(1)`.
abbrev pub on_accept : Option ℕ → Server → Option Server
on_accept none s = none
on_accept (some client_fd) s = some (record s {
  watched = ctl_add client_fd s.watched;
  events = s.events ++ takes (descriptor client_fd) ∷ [];
})

abbrev pub on_read : (fd : ℕ) → Option (List ℕ) → Server → Server
on_read fd none s = s
on_read fd (some []) s = record s { watched = ctl_del fd s.watched }
on_read fd (some (x ∷ xs)) s = record s { printed = s.printed ++ text_in buf_len (x ∷ xs) ∷ [] }

unfoldable pub on_ready : Ready → Server → Option Server
on_ready e s =
    if e.fd == s.epoll_sockfd then on_accept e.accepted s else some (on_read e.fd e.bytes_read s)

-- The loop over `events`.
unfoldable pub each_ready : List Ready → Server → Option Server
each_ready [] s = some s
each_ready (e ∷ es) s = elim (on_ready e s) [ none ↦ none | some s1 ↦ each_ready es s1 ]

-- The `while (1)`, over what `epoll_wait` returns in turn.
unfoldable pub each_round : List (List Ready) → Server → Option Server
each_round [] s = some s
each_round (es ∷ more) s = elim (each_ready es s) [ none ↦ none | some s1 ↦ each_round more s1 ]

-- `socket_server`: the calls that may fail, in turn, and -1 is `none`. What was opened stays.
unfoldable pub socket_server :
    (socket : Option ℕ) → (bind_ok listen_ok : Bool) → Option ℕ × List Event
socket_server none bind_ok listen_ok = (none, [])
socket_server (some sockfd) bind_ok listen_ok =
    let es = takes (descriptor sockfd) ∷ [] in
    if not bind_ok then (none, es) else if not listen_ok then (none, es) else (some sockfd, es)

-- The server before its loop.
unfoldable pub watching : (epoll_sockfd epoll_fd : ℕ) → Server
watching epoll_sockfd epoll_fd = record {
  epoll_sockfd = epoll_sockfd;
  watched = epoll_sockfd ∷ [];
  events = takes (descriptor epoll_sockfd) ∷ takes (descriptor epoll_fd) ∷ [];
  printed = [];
}

-- `main` returned -1 or left by `exit(1)`, or it runs.
pub data Outcome : Type 0 where
  returned exited : Outcome
  running : Server → Outcome

abbrev pub outcome : Option Server → Outcome
outcome none = exited
outcome (some s) = running s

-- `main`, with what the calls of `socket_server` and `epoll_create` answer, and the rounds.
unfoldable pub main :
    (argc : ℕ)
    → (socket : Option ℕ) → (bind_ok listen_ok : Bool) → (epoll_fd : ℕ) → List (List Ready)
    → Outcome
unfolding each_round watching socket_server
main argc socket bind_ok listen_ok epoll_fd rounds =
    if not (argc == 3) then returned else elim (socket_server socket bind_ok listen_ok).0 [
      | none ↦ returned
      | some epoll_sockfd ↦ outcome (each_round rounds (watching epoll_sockfd epoll_fd))
    ]
