-- ===== src/EpollClient.antt =====
-- epoll/epoll_client.c: the lines of the standard input are written to the server, up to the one that
-- begins with `quit`.
pub mod Exchange
use linux_labs.Prelude.{
  ℕ, zero, suc, ◌+◌, ◌-◌, ◌*◌, ◌/◌, ◌%◌, ◌≤◌, ◌<◌, ◌≡◌, refl, sym, ap, ◌∙◌, ◌≢◌, ◌⊎◌, inl, inr,
  Bool, true, false, not, ◌&&◌, ◌||◌, Option, none, some, List, [], ◌∷◌, ◌++◌, arith, ltb, leb,
  ◌==◌, if◌then◌else◌, length, Bool-cases, codes, take, ◌^◌,
}
use linux_labs.Resources.{Event, takes, gives, descriptor}

-- `BUFLN`
abbrev pub buf_ln : ℕ
buf_ln = 128

-- `QUIT_STR`
abbrev pub quit_str : List ℕ
quit_str = codes "quit"

-- The results of one `write`: -1 with `EINTR`, -1, and a count of bytes.
pub data WriteRet : Type 0 where
  eintr write_error : WriteRet
  wrote : (n : ℕ) → WriteRet

-- A line: what `fgets` answers, where `none` is NULL, and the results of the writes behind it.
pub record Input : Type 0 where
  pub fgets : Option (List ℕ)
  pub writes : List WriteRet

-- A string in `buf`: what stands in front of the first NUL.
unfoldable pub c_string : List ℕ → List ℕ
c_string [] = []
c_string (c ∷ cs) = let rest = c_string cs in if c == 0 then [] else c ∷ rest

abbrev pub to_lower : ℕ → ℕ
to_lower c = if leb 65 c && leb c 90 then c + 32 else c

-- `!strncasecmp(buf, quit, strlen(quit))`, where `quit` has lower case letters only.
unfoldable pub is_quit : (quit buf : List ℕ) → Bool
is_quit [] buf = true
is_quit (q ∷ qs) [] = false
is_quit (q ∷ qs) (c ∷ cs) = (to_lower c == q) && is_quit qs cs

-- The loop around `write`: the bytes that were taken, and `none` where it waits.
unfoldable pub write_line : List WriteRet → (buf : List ℕ) → Option (List ℕ)
write_line [] buf = none
write_line (eintr ∷ rest) buf = write_line rest buf
write_line (write_error ∷ rest) buf = some []
write_line (wrote n ∷ rest) buf = some (take n buf)

-- Whether the program waits, or has left its loop.
pub data Client : Type 0 where
  waiting quitted : Client

-- What follows the loop around `write`.
abbrev pub after_write :
    (next : List (List ℕ) → Client × List (List ℕ))
    → (buf : List ℕ) → Option (List ℕ)
    → List (List ℕ)
    → Client × List (List ℕ)
after_write next buf none sent = (waiting, sent)
after_write next buf (some bytes) sent =
    let sent1 = sent ++ bytes ∷ [] in if is_quit quit_str buf then (quitted, sent1) else next sent1

-- The `while (1)`, over the lines; `sent` has what each `write` was given of.
unfoldable pub each_line : List Input → (sent : List (List ℕ)) → Client × List (List ℕ)
each_line [] sent = (waiting, sent)
each_line (i ∷ rest) sent = elim i.fgets [
  | none ↦ each_line rest sent
  | some line ↦
      let buf = c_string line in
      after_write (λ sent1. each_line rest sent1) buf (write_line i.writes buf) sent
]

-- A port as an `int`, which is a 32-bit word, and `port < 5000`.
abbrev pub is_low : (port : ℕ) → Bool
is_low port = leb 0x8000_0000 port || ltb port 5000

-- How `main` ended or where it waits: its result, `sin_port` in the order of the host, what was sent,
-- and what was opened and closed.
pub record Main : Type 0 where
  pub code : Option ℕ
  pub sin_port : Option ℕ
  pub sent : List (List ℕ)
  pub events : List Event

abbrev pub exited : List Event → Main
exited es = record { code = some 1; sin_port = none; sent = []; events = es }

abbrev pub left_loop : (fd port : ℕ) → Client × List (List ℕ) → Main
left_loop fd port (waiting, sent) = record {
  code = none;
  sin_port = some (port % 2 ^ 16);
  sent = sent;
  events = takes (descriptor fd) ∷ [];
}
left_loop fd port (quitted, sent) = record {
  code = some 0;
  sin_port = some (port % 2 ^ 16);
  sent = sent;
  events = takes (descriptor fd) ∷ gives (descriptor fd) ∷ [];
}

-- `port` is what `atoi` makes of the second argument.
unfoldable pub main :
    (argc : ℕ) → (socket : Option ℕ) → (port : ℕ) → (connect_ok : Bool) → List Input → Main
main argc none port connect_ok inputs = exited []
main argc (some fd) port connect_ok inputs =
    if not (argc == 3)
    then exited []
    else if is_low port
    then exited (takes (descriptor fd) ∷ [])
    else if not connect_ok
    then exited (takes (descriptor fd) ∷ [])
    else left_loop fd port (each_line inputs [])
