-- ===== src/EpollServer/Watches.antt =====
-- Which descriptors epoll/epoll_server.c watches and which it keeps open.
use linux_labs.Prelude.{
  ℕ, ◌+◌, ◌≡◌, refl, sym, ap, ◌∙◌, ◌≢◌, ◌⊎◌, inl, inr, Bool, true, false, Option, none, some, List,
  [], ◌∷◌, ◌++◌, arith, ◌==◌, if◌then◌else◌, Bool-cases,
}
use linux_labs.Resources.{takes, descriptor, taken, given, taken-append, given-append, one_if}
use linux_labs.EpollServer.{Server, Ready, has, ctl_del, on_ready, each_ready, text_in, buf_len}
use mathlib.Core.Bool.{false≢true}

-- How often a list has `x`.
abbrev pub count : ℕ → List ℕ → ℕ
count x [] = 0
count x (y ∷ ys) = one_if (x == y) + count x ys

-- What the kernel says of one descriptor that is ready: it is watched; `accept` returns one that is
-- not watched.
abbrev pub IsFair : Ready → Server → Type 0
IsFair e s =
    ((e.fd ≡ s.epoll_sockfd) × ((c : ℕ) × (e.accepted ≡ some c) × (has c s.watched ≡ false)))
    ⊎ ((e.fd ≢ s.epoll_sockfd) × (has e.fd s.watched ≡ true))

-- Each is so when its turn comes.
abbrev pub AreFair : List Ready → Server → Type 0
AreFair [] s = Unit {0}
AreFair (e ∷ es) s = IsFair e s × elim (on_ready e s) [ none ↦ Unit {0} | some s1 ↦ AreFair es s1 ]

-- The connections that were made, and those that came to their end.
abbrev pub made : ℕ → List Ready → List ℕ
made sock [] = []
made sock (e ∷ es) =
    let rest = made sock es in
    if e.fd == sock then elim e.accepted [ none ↦ rest | some c ↦ c ∷ rest ] else rest

abbrev is_end : Option (List ℕ) → Bool
is_end none = false
is_end (some []) = true
is_end (some (x ∷ xs)) = false

abbrev pub ended : ℕ → List Ready → List ℕ
ended sock [] = []
ended sock (e ∷ es) =
    let rest = ended sock es in
    if e.fd == sock then rest else if is_end e.bytes_read then e.fd ∷ rest else rest

count-ctl_del :
    (x fd : ℕ) (l : List ℕ)
    → has fd l ≡ true
    → count x l ≡ one_if (x == fd) + count x (ctl_del fd l)
unfolding ctl_del
count-ctl_del x fd [] h = absurd (false≢true h)
count-ctl_del x fd (y ∷ ys) h = elim (Bool-cases (fd == y)) [
  | inl here ↦ rw here (ap (λ k. one_if (x == k) + count x ys) (sym (ground (arith, here))))
  | inr other ↦
      let deeper : has fd ys ≡ true = rw other at h in
      rw other (omega (arith, count-ctl_del x fd ys deeper))
]

-- What a run does: `x` is watched as often as it was and was connected, but for its ends; it was
-- opened as often as it was connected, and closed never.
pub record Ran (es : List Ready) (s s' : Server) : Type 0 where
  pub same : s'.epoll_sockfd ≡ s.epoll_sockfd
  pub watches :
      (x : ℕ)
      → count x s'.watched + count x (ended s.epoll_sockfd es)
        ≡ count x s.watched + count x (made s.epoll_sockfd es)
  pub opens :
      (x : ℕ)
      → taken (descriptor x) s'.events
        ≡ taken (descriptor x) s.events + count x (made s.epoll_sockfd es)
  pub closes : (x : ℕ) → given (descriptor x) s'.events ≡ given (descriptor x) s.events

-- A new connection, and then the rest.
made_first :
    (e : Ready) (es : List Ready) (s s' : Server) (c : ℕ)
    → e.fd ≡ s.epoll_sockfd
    → e.accepted ≡ some c
    → Ran es
        (record s { watched = c ∷ s.watched; events = s.events ++ takes (descriptor c) ∷ [] })
        s'
    → Ran (e ∷ es) s s'
unfolding taken given
made_first e es s s' c at_sock got r =
    let sk : (e.fd == s.epoll_sockfd) ≡ true = ground (arith, at_sock) in
    record {
      same = r.same;
      watches = λ x. rw (sk, got) (omega (arith, r.watches x));
      opens = λ x.
          rw (sk, got)
            (omega
              (arith, r.opens x, taken-append (descriptor x) s.events (takes (descriptor c) ∷ [])));
      closes = λ x.
          r.closes x
          ∙ given-append (descriptor x) s.events (takes (descriptor c) ∷ [])
          ∙ omega arith;
    }

-- An end, and then the rest.
ended_first :
    (e : Ready) (es : List Ready) (s s' : Server)
    → e.fd ≢ s.epoll_sockfd
    → e.bytes_read ≡ some []
    → has e.fd s.watched ≡ true
    → Ran es (record s { watched = ctl_del e.fd s.watched }) s'
    → Ran (e ∷ es) s s'
ended_first e es s s' other at_end there r =
    let sk : (e.fd == s.epoll_sockfd) ≡ false = ground (arith, other) in
    record {
      same = r.same;
      watches =
          λ x. rw (sk, at_end) (omega (arith, r.watches x, count-ctl_del x e.fd s.watched there));
      opens = λ x. rw sk (r.opens x);
      closes = r.closes;
    }

-- Bytes or an error, and then the rest.
quiet_first :
    (e : Ready) (es : List Ready) (s s' : Server) (p : List (Option (List ℕ)))
    → e.fd ≢ s.epoll_sockfd
    → is_end e.bytes_read ≡ false
    → Ran es (record s { printed = p }) s'
    → Ran (e ∷ es) s s'
quiet_first e es s s' p other goes_on r =
    let sk : (e.fd == s.epoll_sockfd) ≡ false = ground (arith, other) in
    record {
      same = r.same;
      watches = λ x. rw (sk, goes_on) (r.watches x);
      opens = λ x. rw sk (r.opens x);
      closes = r.closes;
    }

read-cases :
    (o : Option (List ℕ))
    → (o ≡ none) ⊎ ((o ≡ some []) ⊎ ((x : ℕ) × (xs : List ℕ) × (o ≡ some (x ∷ xs))))
read-cases none = inl refl
read-cases (some []) = inr (inl refl)
read-cases (some (x ∷ xs)) = inr (inr (x, xs, refl))

each_ready-step :
    (e : Ready) (es : List Ready) (s s1 s' : Server)
    → on_ready e s ≡ some s1
    → each_ready es s1 ≡ some s'
    → each_ready (e ∷ es) s ≡ some s'
unfolding each_ready
each_ready-step e es s s1 s' first more = rw (each_ready, first) more

-- A round of descriptors that are watched when their turn comes, each connection a new one, does not
-- leave the server: what is watched are the connections that were made and have not ended, with what
-- was watched before, and every connection that was made stays open, ended or not.
pub each_ready-Ran :
    (es : List Ready) (s : Server)
    → AreFair es s
    → (s' : Server) × (each_ready es s ≡ some s') × Ran es s s'
unfolding each_ready on_ready
each_ready-Ran [] s fair = (
  s,
  refl,
  record { same = refl; watches = λ x. refl; opens = λ x. omega arith; closes = λ x. refl },
)
each_ready-Ran (e ∷ es) s (inl (at_sock, (c, got, fresh)), rest) =
    let sk : (e.fd == s.epoll_sockfd) ≡ true = ground (arith, at_sock) in
    let s1 : Server = record s {
      watched = c ∷ s.watched;
      events = s.events ++ takes (descriptor c) ∷ [];
    } in
    let goes : on_ready e s ≡ some s1 = rw (sk, got, fresh) in
    let (s', ran, r) = each_ready-Ran es s1 (rw goes at rest) in
    (s', each_ready-step e es s s1 s' goes ran, made_first e es s s' c at_sock got r)
each_ready-Ran (e ∷ es) s (inr (other, there), rest) =
    let sk : (e.fd == s.epoll_sockfd) ≡ false = ground (arith, other) in
    elim (read-cases e.bytes_read) [
      | inl failed ↦
          let goes : on_ready e s ≡ some s = rw (sk, failed) in
          let (s', ran, r) = each_ready-Ran es s (rw goes at rest) in
          (
            s',
            each_ready-step e es s s s' goes ran,
            quiet_first e es s s' s.printed other (rw failed) r,
          )
      | inr (inl at_end) ↦
          let s1 : Server = record s { watched = ctl_del e.fd s.watched } in
          let goes : on_ready e s ≡ some s1 = rw (sk, at_end) in
          let (s', ran, r) = each_ready-Ran es s1 (rw goes at rest) in
          (s', each_ready-step e es s s1 s' goes ran, ended_first e es s s' other at_end there r)
      | inr (inr (x, xs, got)) ↦
          let p = s.printed ++ text_in buf_len (x ∷ xs) ∷ [] in
          let s1 : Server = record s { printed = p } in
          let goes : on_ready e s ≡ some s1 = rw (sk, got) in
          let (s', ran, r) = each_ready-Ran es s1 (rw goes at rest) in
          (s', each_ready-step e es s s1 s' goes ran, quiet_first e es s s' p other (rw got) r)
    ]
