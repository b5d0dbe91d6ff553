-- ===== src/EpollClient/Exchange.antt =====
-- What epoll/epoll_client.c sends, and that epoll/epoll_server.c prints it.
use mathlib.Core.List.{append-nil, append_assoc, tail-eq_of_cons-eq, nil≢cons}
use linux_labs.Prelude.{
  ℕ, zero, suc, ◌-◌, ◌<◌, ◌≡◌, refl, sym, ap, ◌∙◌, ◌≢◌, inl, inr, true, false, none, some, List, [],
  ◌∷◌, ◌++◌, arith, ◌==◌, if◌then◌else◌, length, Bool-cases, map,
}
use linux_labs.Resources.{takes, gives, descriptor}
use linux_labs.EpollClient.{
  Input, c_string, is_quit, quit_str, write_line, each_line, quitted, main, is_low, buf_ln,
}
use linux_labs.EpollServer.{Server, Ready, each_ready, on_ready, on_read, text_in, buf_len}
use mathlib.Core.List.{append-nil, append_assoc, nil≢cons}

-- The line was typed and all of it is written in the end.
pub record IsTyped (i : Input) (line : List ℕ) : Type 0 where
  pub typed : i.fgets ≡ some line
  pub text : c_string line ≡ line
  pub taken : write_line i.writes line ≡ some line

-- The lines that inputs are: no input is a failure, and none quits.
abbrev pub AreTyped : List Input → List (List ℕ) → Type 0
AreTyped [] [] = Unit {0}
AreTyped [] (line ∷ lines) = ⊥
AreTyped (i ∷ is) [] = ⊥
AreTyped (i ∷ is) (line ∷ lines) =
    IsTyped i line × (is_quit quit_str line ≡ false) × AreTyped is lines

next_line :
    (i : Input) (line : List ℕ) (rest : List Input) (sent : List (List ℕ))
    → IsTyped i line
    → each_line (i ∷ rest) sent ≡ (
        if is_quit quit_str line
        then (quitted, sent ++ line ∷ [])
        else each_line rest (sent ++ line ∷ []))
unfolding each_line
next_line i line rest sent t = rw (t.typed, t.text, t.taken) refl

each_line-quits :
    (is : List Input) (lines : List (List ℕ)) (last : Input) (quit : List ℕ) (rest : List Input)
    (sent : List (List ℕ))
    → AreTyped is lines
    → IsTyped last quit
    → is_quit quit_str quit ≡ true
    → each_line (is ++ last ∷ rest) sent ≡ (quitted, sent ++ (lines ++ quit ∷ []))
each_line-quits [] [] last quit rest sent ts t q = next_line last quit rest sent t ∙ rw q refl
each_line-quits [] (line ∷ lines) last quit rest sent ts t q = absurd ts
each_line-quits (i ∷ is) [] last quit rest sent ts t q = absurd ts
each_line-quits (i ∷ is) (line ∷ lines) last quit rest sent (t0, other, ts) t q =
    next_line i line (is ++ last ∷ rest) sent t0
    ∙ rw other (
        each_line-quits is lines last quit rest (sent ++ line ∷ []) ts t q
        ∙ ap (λ l. (quitted, l)) (append_assoc sent (line ∷ []) (lines ++ quit ∷ [])))

-- Read as it was written, by the server.
abbrev pub reads : (fd : ℕ) → List (List ℕ) → List Ready
reads fd [] = []
reads fd (line ∷ lines) =
    record { fd = fd; accepted = none; bytes_read = some line } ∷ reads fd lines

-- A line as `fgets` makes it: at least one byte, and at most 126.
abbrev pub Fits : List ℕ → Type 0
Fits line = (0 < length line) × (length line < buf_ln - 1)

abbrev pub AllFit : List (List ℕ) → Type 0
AllFit [] = Unit {0}
AllFit (line ∷ lines) = (Fits line) × (c_string line ≡ line) × AllFit lines

not_nul : (c : ℕ) (cs : List ℕ) → (c == 0) ≡ true → c_string (c ∷ cs) ≢ c ∷ cs
unfolding c_string
not_nul c cs nul e = absurd (nil≢cons (sym (rw nul refl) ∙ e))

tail_text : (c : ℕ) (cs : List ℕ) → (c == 0) ≡ false → c_string (c ∷ cs) ≡ c ∷ cs → c_string cs ≡ cs
unfolding c_string
tail_text c cs other e =
    let kept : c_string (c ∷ cs) ≡ c ∷ c_string cs = rw other refl in
    tail-eq_of_cons-eq (sym kept ∙ e)

text_in_lem :
    (room : ℕ) (line : List ℕ)
    → length line < room
    → c_string line ≡ line
    → text_in room line ≡ some line
unfolding text_in c_string
text_in_lem zero line h e = absurd (omega arith)
text_in_lem (suc n) [] h e = refl
text_in_lem (suc n) (c ∷ cs) h e = elim (Bool-cases (c == 0)) [
  | inl nul ↦ absurd (not_nul c cs nul e)
  | inr other ↦
      let tail : c_string cs ≡ cs = tail_text c cs other e in
      rw (other, text_in_lem n cs (omega arith) tail) refl
]

read_text :
    (fd : ℕ) (line : List ℕ) (s : Server)
    → 0 < length line
    → length line < buf_ln - 1
    → c_string line ≡ line
    → on_read fd (some line) s ≡ record s { printed = s.printed ++ some line ∷ [] }
read_text fd [] s some_byte short text = absurd (omega arith)
read_text fd (c ∷ cs) s some_byte short text =
    rw (text_in_lem buf_len (c ∷ cs) (omega arith) text) refl

each_read-printed :
    (fd : ℕ) (lines : List (List ℕ)) (s : Server)
    → (fd == s.epoll_sockfd) ≡ false
    → AllFit lines
    → each_ready (reads fd lines) s ≡ some (record s { printed = s.printed ++ map some lines })
unfolding each_ready on_ready
each_read-printed fd [] s other fit =
    ap (λ l. some (record s { printed = l })) (sym (append-nil s.printed))
each_read-printed fd (line ∷ lines) s other ((some_byte, short), text, fit) =
    rw (each_ready, on_ready, other, read_text fd line s some_byte short text)
      (each_read-printed fd lines (record s { printed = s.printed ++ some line ∷ [] }) other fit
        ∙ ap (λ l. some (record s { printed = l }))
            (append_assoc s.printed (some line ∷ []) (map some lines)))

AllFit-append :
    (lines : List (List ℕ)) (quit : List ℕ)
    → AllFit lines
    → AllFit (quit ∷ [])
    → AllFit (lines ++ quit ∷ [])
AllFit-append [] quit f g = g
AllFit-append (line ∷ lines) quit (f, t, fs) g = (f, t, AllFit-append lines quit fs g)

-- A client whose port is 5000 or more as an int, and that is connected, sends every line that was typed
-- up to the first that begins with `quit`, in order and that one as well, whatever signals come between
-- the writes; it then closes its socket and returns 0, and reads no more. A server that reads what each write
-- sent prints these lines, in order and whole.
pub client_quits :
    (fd port : ℕ) (is : List Input) (lines : List (List ℕ)) (last : Input) (quit : List ℕ)
    (rest : List Input) (client_fd : ℕ) (s : Server)
    → is_low port ≡ false
    → AreTyped is lines
    → IsTyped last quit
    → is_quit quit_str quit ≡ true
    → AllFit lines
    → Fits quit
    → (client_fd == s.epoll_sockfd) ≡ false
    → let r = main 3 (some fd) port true (is ++ last ∷ rest) in
      (r.code ≡ some 0)
      × (r.sent ≡ lines ++ quit ∷ [])
      × (r.events ≡ takes (descriptor fd) ∷ gives (descriptor fd) ∷ [])
      × (each_ready (reads client_fd r.sent) s
          ≡ some (record s { printed = s.printed ++ map some (lines ++ quit ∷ []) }))
unfolding main
client_quits fd port is lines last quit rest client_fd s high ts t q fit fit_quit other =
    rw (high, each_line-quits is lines last quit rest [] ts t q)
      (
        refl,
        refl,
        refl,
        each_read-printed client_fd (lines ++ quit ∷ []) s other
            (AllFit-append lines quit fit (fit_quit, t.text, tt)),
      )
